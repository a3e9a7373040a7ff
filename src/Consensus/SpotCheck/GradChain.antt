-- ===== src/Consensus/SpotCheck/GradChain.antt =====
-- dessin/consensus/spot_check_verification.py: the rolling chain over the gradients of the steps.
use dessin.Prelude.{
  ℕ, zero, suc, ◌≡◌, ◌≢◌, refl, Option, none, some, List, [], ◌∷◌, ◌++◌, String, ◌==◌,
  if◌then◌else◌, get_elem?, arith, eq_iff, sym,
}
use dessin.Consensus.SpotCheck.{Bytes}

-- The entry before the one at a position, `""` before the first.
abbrev pub entry_before : List String → ℕ → Option String
entry_before chain zero = some ""
entry_before chain (suc idx) = get_elem? chain idx

module _ (sha256 : Bytes → Bytes) (hex : Bytes → String) (fromhex : String → Option Bytes)
    (grad_chain_domain : Bytes) where
  -- `bytes(32)`
  abbrev pub zeros32 : Bytes
  zeros32 =
      0 ∷ 0 ∷ 0 ∷ 0 ∷ 0 ∷ 0 ∷ 0 ∷ 0 ∷ 0 ∷ 0 ∷ 0 ∷ 0 ∷ 0 ∷ 0 ∷ 0 ∷ 0 ∷ 0 ∷ 0 ∷ 0 ∷ 0 ∷ 0 ∷ 0 ∷ 0 ∷ 0
      ∷ 0 ∷ 0 ∷ 0 ∷ 0 ∷ 0 ∷ 0 ∷ 0 ∷ 0 ∷ []

  -- `hashlib.sha256(_GRAD_CHAIN_DOMAIN + prev + gh).digest()` for `gh` the digest of a gradient
  abbrev pub link : (prev grad_bytes : Bytes) → Bytes
  link prev g = sha256 ((grad_chain_domain ++ prev) ++ sha256 g)

  -- The loop, from `prev` on.
  unfoldable pub chain_from : (prev : Bytes) → List Bytes → List String
  chain_from prev [] = []
  chain_from prev (g ∷ grads) = let h = link prev g in hex h ∷ chain_from h grads

  unfoldable pub compute_grad_hash_chain : List Bytes → List String
  compute_grad_hash_chain grads = chain_from zeros32 grads

  -- `none` where `fromhex` raises.
  unfoldable pub grad_chain_step :
      (prev_chain_hex_or_zero : String) → (grad_bytes : Bytes) → Option String
  grad_chain_step prev_chain_hex_or_zero g =
      if prev_chain_hex_or_zero == ""
      then some (hex (link zeros32 g))
      else elim (fromhex prev_chain_hex_or_zero) [
        | none ↦ none
        | some prev ↦ some (hex (link prev g))
      ]

  module _ (round_trip : (b : Bytes) → fromhex (hex b) ≡ some b)
      (digest_hex : (b : Bytes) → hex (sha256 b) ≢ "") where
    grad_chain_step-hex :
        (b g : Bytes) → grad_chain_step (hex (sha256 b)) g ≡ some (hex (link (sha256 b) g))
    unfolding grad_chain_step
    grad_chain_step-hex b g =
        rw (round_trip (sha256 b)) (ground (arith, eq_iff (hex (sha256 b)) "", digest_hex b))

    -- What stands at a position of the chain from `link p q` on.
    chain_from_entry :
        (grads : List Bytes) (idx : ℕ) (p q g : Bytes)
        → get_elem? grads idx ≡ some g
        → (prev entry : String) × (get_elem? (hex (link p q) ∷ chain_from (link p q) grads) idx
            ≡ some prev)
          × (get_elem? (chain_from (link p q) grads) idx ≡ some entry)
          × (grad_chain_step prev g ≡ some entry)
    unfolding chain_from
    chain_from_entry [] idx p q g there = cc
    chain_from_entry (x ∷ grads) zero p q g there =
        let same : x ≡ g = cc in
        (
          hex (link p q),
          hex (link (link p q) x),
          refl,
          refl,
          rw (sym same) (grad_chain_step-hex _ x),
        )
    chain_from_entry (x ∷ grads) (suc idx) p q g there = chain_from_entry grads idx _ _ g there

    -- Every entry of the computed chain is what the step check recomputes from the gradient there and
    -- the entry before. The hexadecimal form of a digest reads back, and is not empty.
    pub grad_chain_step-compute_grad_hash_chain :
        (grads : List Bytes) (idx : ℕ) (g : Bytes)
        → get_elem? grads idx ≡ some g
        → let chain = compute_grad_hash_chain grads in
          (prev entry : String) × (entry_before chain idx ≡ some prev)
          × (get_elem? chain idx ≡ some entry)
          × (grad_chain_step prev g ≡ some entry)
    unfolding compute_grad_hash_chain chain_from grad_chain_step
    grad_chain_step-compute_grad_hash_chain [] idx g there = cc
    grad_chain_step-compute_grad_hash_chain (x ∷ grads) zero g there =
        let same : x ≡ g = cc in
        ("", hex (link zeros32 x), refl, refl, rw (sym same) (ground (arith, eq_iff "" "")))
    grad_chain_step-compute_grad_hash_chain (x ∷ grads) (suc idx) g there =
        chain_from_entry grads idx _ _ g there
