-- ===== src/Consensus/SpotCheck/Replay/Options.antt =====
-- dessin/consensus/spot_check_verification.py: when the chained tests of a replay succeed.
use dessin.Prelude.{
  ℕ, zero, suc, ◌≡◌, ◌↔◌, refl, Bool, true, false, not, ◌||◌, Option, none, some, List, [], ◌∷◌,
  ◌++◌, String, ◌==◌, if◌then◌else◌, eq_ℕ, arith, eq_iff, Bool-cases, inl, inr, ap,
}
use dessin.Prelude.Int.{ℤ, eq_ℤ, eq_ℤ→eq}
use dessin.Consensus.SpotCheck.Replay.{Failure, witness_lengths_mismatch, ◌>>=◌, require, concluded}

pub bind_iff :
    {A B : Type 0} (m : Option A) (f : A → Option B) (y : B)
    → ((m >>= f) ≡ some y) ↔ ((x : A) × (m ≡ some x) × (f x ≡ some y))
bind_iff none f y = (λ e. cc, λ (x, e, h). cc)
bind_iff (some a) f y = (λ e. (a, refl, e), λ (x, e, h). let same : a ≡ x = cc in rw same h)

pub require_iff :
    (test : Option Bool) (failure : Failure) (rest : Option (List Failure))
    → (require test failure rest ≡ some []) ↔ ((test ≡ some true) × (rest ≡ some []))
require_iff none failure rest = (λ e. cc, λ (e, h). cc)
require_iff (some true) failure rest = (λ e. (refl, e), λ (e, h). h)
require_iff (some false) failure rest = (λ e. cc, λ (e, h). cc)

pub same_iff : (a b : String) → (some (a == b) ≡ some true) ↔ (a ≡ b)
same_iff a b = (λ e. ground (arith, eq_iff a b, e), λ e. ap some ((eq_iff a b).1 e))

pub anchor_iff :
    (idx : ℕ) (a b : String) → (some (not (eq_ℕ idx 0) || a == b) ≡ some true) ↔ (idx ≡ 0 → a ≡ b)
anchor_iff zero a b = (λ e first. (same_iff a b).0 e, λ same. (same_iff a b).1 (same refl))
anchor_iff (suc idx) a b = (λ e first. absurd (omega (arith, first)), λ same. ground arith)

pub optional_iff :
    {P : Type 0} {test : Option Bool} (b : Bool)
    → (test ≡ some true) ↔ P
    → ((if b then test else some true) ≡ some true) ↔ (b ≡ true → P)
optional_iff true h = (λ e on. h.0 e, λ p. h.1 (p refl))
optional_iff false h = (λ e on. cc, λ p. refl)

pub append_nil : {A : Type 0} (xs ys : List A) → some (xs ++ ys) ≡ some [] → (xs ≡ []) × (ys ≡ [])
append_nil [] ys e = (refl, cc)
append_nil (x ∷ xs) ys e = cc

pub concluded_iff :
    (checked : Option (List Failure)) → (concluded checked ≡ some (true, [])) ↔ (checked ≡ some [])
concluded_iff none = (λ e. cc, λ e. cc)
concluded_iff (some []) = (λ e. refl, λ e. refl)
concluded_iff (some (f ∷ fs)) = (λ e. cc, λ e. cc)

pub lengths_iff :
    (a b n : ℤ) (checked : Option (Bool × List Failure))
    → ((if not (eq_ℤ a n) || not (eq_ℤ b n)
          then some (false, witness_lengths_mismatch ∷ [])
          else checked)
        ≡ some (true, []))
      ↔ ((a ≡ n) × (b ≡ n) × (checked ≡ some (true, [])))
lengths_iff a b n checked = elim (Bool-cases (eq_ℤ a n)) [
  | inl ea ↦ elim (Bool-cases (eq_ℤ b n)) [
    | inl eb ↦ rw (ea, eb) (λ e. (eq_ℤ→eq a n ea, eq_ℤ→eq b n eb, e), λ (_, _, e). e)
    | inr nb ↦ rw (ea, nb) (λ e. cc, λ (_, q, _). absurd (ground (arith, q, nb)))
  ]
  | inr na ↦ rw na (λ e. cc, λ (q, _, _). absurd (ground (arith, q, na)))
]
