-- ===== src/Consensus/SpotCheck/Structure.antt =====
-- dessin/consensus/spot_check_verification.py: the structural checks of a published trace.
use Prim.Native.String.{count}
use dessin.Prelude.{
  ◌≡◌, ◌↔◌, refl, Bool, true, false, List, [], ◌∷◌, ◌++◌, String, ◌==◌, if◌then◌else◌, length,
  is_empty, eq_ℕ, arith, eq_iff, All, Bool-cases, inl, inr,
}
use dessin.Prelude.Int.{ℤ, pos, ◌+ℤ◌, eq_ℤ, eq_ℤ→eq}
use dessin.Num.{Num}
use dessin.Consensus.SpotCheck.{TrainingTrace}

pub data StructuralFailure : Type 0 where
  num_steps_mismatch loss_curve_length gradient_hash_chain_length : StructuralFailure
  gradient_norms_length state_0_hash_mismatch state_N_hash_mismatch : StructuralFailure
  malformed_hash : String → StructuralFailure

-- `if not test: failures.append(failure)`
abbrev pub unless : Bool → StructuralFailure → List StructuralFailure
unless true failure = []
unless false failure = failure ∷ []

-- The loop over the hashes, which stops at the first malformed one. The entries are texts.
unfoldable pub malformed_hashes : List String → List StructuralFailure
malformed_hashes [] = []
malformed_hashes (h ∷ hs) =
    let rest = malformed_hashes hs in if eq_ℕ (count h) 64 then rest else malformed_hash h ∷ []

module _ {N : Num} (trace : TrainingTrace N) (expected_num_steps : ℤ)
    (prev_block_state_hash claimed_state_N_hash : String) where
  unfoldable pub structural_failures : List StructuralFailure
  structural_failures =
      unless (eq_ℤ trace.num_steps expected_num_steps) num_steps_mismatch
      ++ (unless (eq_ℤ (pos (length trace.loss_curve)) (trace.num_steps +ℤ pos 1)) loss_curve_length
          ++ (unless (eq_ℤ (pos (length trace.gradient_hash_chain)) trace.num_steps)
                gradient_hash_chain_length
              ++ (unless (eq_ℤ (pos (length trace.gradient_norms)) trace.num_steps)
                    gradient_norms_length
                  ++ (unless (trace.state_0_hash == prev_block_state_hash) state_0_hash_mismatch
                      ++ (unless (trace.state_N_hash == claimed_state_N_hash) state_N_hash_mismatch
                          ++ malformed_hashes (
                              trace.state_0_hash ∷ trace.state_N_hash
                              ∷ trace.gradient_hash_chain))))))

  unfoldable pub verify_structural : Bool × List StructuralFailure
  verify_structural = (is_empty structural_failures, structural_failures)

unless_iff :
    (test : Bool) (failure : StructuralFailure) (rest : List StructuralFailure)
    → (unless test failure ++ rest ≡ []) ↔ ((test ≡ true) × (rest ≡ []))
unless_iff true failure rest = (λ e. (refl, e), λ (_, e). e)
unless_iff false failure rest = (λ e. cc, λ (e, _). cc)

malformed_hashes_iff : (hs : List String) → (malformed_hashes hs ≡ []) ↔ All (λ h. count h ≡ 64) hs
unfolding malformed_hashes
malformed_hashes_iff [] = (λ e. tt, λ p. refl)
malformed_hashes_iff (h ∷ hs) = elim (Bool-cases (eq_ℕ (count h) 64)) [
  | inl good ↦ rw good (
    λ e. (ground (arith, good), (malformed_hashes_iff hs).0 e),
    λ p. (malformed_hashes_iff hs).1 p.1,
  )
  | inr bad ↦ rw bad (λ e. cc, λ p. absurd (ground (arith, p.0, bad)))
]

eq_ℤ_iff : (a b : ℤ) → (eq_ℤ a b ≡ true) ↔ (a ≡ b)
eq_ℤ_iff a b = (eq_ℤ→eq a b, λ e. ground (arith, e))

is_empty_iff : {A : Type 0} (xs : List A) → (is_empty xs ≡ true) ↔ (xs ≡ [])
is_empty_iff [] = (λ e. refl, λ e. refl)
is_empty_iff (x ∷ xs) = (λ e. cc, λ e. cc)

module _ {N : Num} (trace : TrainingTrace N) (expected_num_steps : ℤ)
    (prev_block_state_hash claimed_state_N_hash : String) where
  -- A trace passes the structural checks exactly when it has the expected number of steps, the curve,
  -- the chain and the norms have the lengths for it, it starts at the state of the previous block and
  -- ends at the claimed one, and every hash has 64 characters.
  pub verify_structural_iff :
      ((verify_structural trace expected_num_steps prev_block_state_hash claimed_state_N_hash).0
        ≡ true)
      ↔ ((trace.num_steps ≡ expected_num_steps)
          × (pos (length trace.loss_curve) ≡ trace.num_steps +ℤ pos 1)
          × (pos (length trace.gradient_hash_chain) ≡ trace.num_steps)
          × (pos (length trace.gradient_norms) ≡ trace.num_steps)
          × (trace.state_0_hash ≡ prev_block_state_hash)
          × (trace.state_N_hash ≡ claimed_state_N_hash)
          × All
              (λ h. count h ≡ 64)
              (trace.state_0_hash ∷ trace.state_N_hash ∷ trace.gradient_hash_chain))
  unfolding verify_structural structural_failures
  verify_structural_iff = (
    λ e.
        let failures =
          structural_failures trace expected_num_steps prev_block_state_hash claimed_state_N_hash in
        let none_left : failures ≡ [] = (is_empty_iff failures).0 e in
        let (steps, e1) = (unless_iff _ num_steps_mismatch _).0 none_left in
        let (losses, e2) = (unless_iff _ loss_curve_length _).0 e1 in
        let (chain, e3) = (unless_iff _ gradient_hash_chain_length _).0 e2 in
        let (norms, e4) = (unless_iff _ gradient_norms_length _).0 e3 in
        let (first, e5) = (unless_iff _ state_0_hash_mismatch _).0 e4 in
        let (last, e6) = (unless_iff _ state_N_hash_mismatch _).0 e5 in
        let hashes =
          (malformed_hashes_iff
              (trace.state_0_hash ∷ trace.state_N_hash ∷ trace.gradient_hash_chain)).0
            e6 in
        (
          (eq_ℤ_iff _ _).0 steps,
          (eq_ℤ_iff _ _).0 losses,
          (eq_ℤ_iff _ _).0 chain,
          (eq_ℤ_iff _ _).0 norms,
          (eq_iff _ _).0 first,
          (eq_iff _ _).0 last,
          hashes,
        ),
    λ (steps, losses, chain, norms, first, last, hashes). (is_empty_iff _).1 (
        (unless_iff _ num_steps_mismatch _).1 (
          (eq_ℤ_iff _ _).1 steps,
          (unless_iff _ loss_curve_length _).1 (
            (eq_ℤ_iff _ _).1 losses,
            (unless_iff _ gradient_hash_chain_length _).1 (
              (eq_ℤ_iff _ _).1 chain,
              (unless_iff _ gradient_norms_length _).1 (
                (eq_ℤ_iff _ _).1 norms,
                (unless_iff _ state_0_hash_mismatch _).1 (
                  (eq_iff _ _).1 first,
                  (unless_iff _ state_N_hash_mismatch _).1 (
                    (eq_iff _ _).1 last,
                    (malformed_hashes_iff
                          (trace.state_0_hash ∷ trace.state_N_hash ∷ trace.gradient_hash_chain)).1
                        hashes,
                  ),
                ),
              ),
            ),
          ),
        )),
  )
