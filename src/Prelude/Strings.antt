-- ===== src/Prelude/Strings.antt =====
-- Python's order of `str`: texts compare by their code points.
use Prim.Native.Nat.{ℕ, Ordering, compare as compare_ℕ}
use Prim.Native.Char.{code}
use Prim.Native.String.compare
use Prim.Native.String.{String, [], ◌∷◌, compare, then}
use mathlib.Core.Path.{◌≡◌, refl, sym, ◌∙◌, ap}
use mathlib.Core.Logic.{◌⊎◌, inl, inr}
use mathlib.Core.Bool.{Bool, true, false}
use native.Mathlib.Omega.{arith}
use text.Mathlib.TextEquality.{path_by_compare}
use text.Mathlib.TextPositions.{compare_refl}

abbrev swap : Ordering → Ordering
swap Ordering.lt = Ordering.gt
swap Ordering.eq = Ordering.eq
swap Ordering.gt = Ordering.lt

swap-then : (o r : Ordering) → swap (then o r) ≡ then (swap o) (swap r)
swap-then Ordering.lt r = refl
swap-then Ordering.eq r = refl
swap-then Ordering.gt r = refl

compare_ℕ-swap : (m n : ℕ) → compare_ℕ n m ≡ swap (compare_ℕ m n)
compare_ℕ-swap m n = ground arith

compare-swap : (s t : String) → compare t s ≡ swap (compare s t)
compare-swap [] [] = compare.nil-nil ∙ sym (ap swap compare.nil-nil)
compare-swap [] (d ∷ t) = compare.cons-nil d t ∙ sym (ap swap (compare.nil-cons d t))
compare-swap (c ∷ s) [] = compare.nil-cons c s ∙ sym (ap swap (compare.cons-nil c s))
compare-swap (c ∷ s) (d ∷ t) =
    compare.cons-cons d c t s
    ∙ ap (λ o. then o (compare t s)) (compare_ℕ-swap (code c) (code d))
    ∙ ap (then (swap (compare_ℕ (code c) (code d)))) (compare-swap s t)
    ∙ sym (swap-then (compare_ℕ (code c) (code d)) (compare s t))
    ∙ ap swap (sym (compare.cons-cons c d s t))

then_lt :
    (o r : Ordering)
    → then o r ≡ Ordering.lt
    → (o ≡ Ordering.lt) ⊎ ((o ≡ Ordering.eq) × (r ≡ Ordering.lt))
then_lt Ordering.lt r h = inl refl
then_lt Ordering.eq r h = inr (refl, h)
then_lt Ordering.gt r h = cc

then_trans :
    (m n k : ℕ) (r q p : Ordering)
    → (r ≡ Ordering.lt → q ≡ Ordering.lt → p ≡ Ordering.lt)
    → then (compare_ℕ m n) r ≡ Ordering.lt
    → then (compare_ℕ n k) q ≡ Ordering.lt
    → then (compare_ℕ m k) p ≡ Ordering.lt
then_trans m n k r q p both h g = elim (then_lt (compare_ℕ m n) r h) [
  | inl below ↦ elim (then_lt (compare_ℕ n k) q g) [
    | inl below' ↦
        let less : compare_ℕ m k ≡ Ordering.lt = ground (arith, below, below') in rw less refl
    | inr (same, last) ↦
        let less : compare_ℕ m k ≡ Ordering.lt = ground (arith, below, same) in rw less refl
  ]
  | inr (same, last) ↦ elim (then_lt (compare_ℕ n k) q g) [
    | inl below' ↦
        let less : compare_ℕ m k ≡ Ordering.lt = ground (arith, same, below') in rw less refl
    | inr (same', last') ↦
        let equal : compare_ℕ m k ≡ Ordering.eq = ground (arith, same, same') in
        rw equal (both last last')
  ]
]

compare_trans :
    (s t u : String)
    → compare s t ≡ Ordering.lt
    → compare t u ≡ Ordering.lt
    → compare s u ≡ Ordering.lt
compare_trans [] [] u h g = g
compare_trans [] (d ∷ t) [] h g = let e = sym (compare.cons-nil d t) ∙ g in cc
compare_trans [] (d ∷ t) (e ∷ u) h g = compare.nil-cons e u
compare_trans (c ∷ s) [] u h g = let e = sym (compare.cons-nil c s) ∙ h in cc
compare_trans (c ∷ s) (d ∷ t) [] h g = let e = sym (compare.cons-nil d t) ∙ g in cc
compare_trans (c ∷ s) (d ∷ t) (e ∷ u) h g =
    compare.cons-cons c e s u
    ∙ then_trans (code c) (code d) (code e) (compare s t) (compare t u) (compare s u)
        (compare_trans s t u) (sym (compare.cons-cons c d s t) ∙ h)
        (sym (compare.cons-cons d e t u) ∙ g)

abbrev is_less : Ordering → Bool
is_less Ordering.lt = true
is_less Ordering.eq = false
is_less Ordering.gt = false

-- `s < t`
abbrev pub ltb_str : String → String → Bool
ltb_str s t = is_less (compare s t)

lt_of_ltb : (s t : String) → ltb_str s t ≡ true → compare s t ≡ Ordering.lt
lt_of_ltb s t h = ground arith

pub ltb_str_trans : (s t u : String) → ltb_str s t ≡ true → ltb_str t u ≡ true → ltb_str s u ≡ true
ltb_str_trans s t u h g = ap is_less (compare_trans s t u (lt_of_ltb s t h) (lt_of_ltb t u g))

pub ltb_str_irrefl : (s : String) → ltb_str s s ≡ false
ltb_str_irrefl s = ap is_less (compare_refl s)

-- Of two texts, one is less, or they are the same.
pub ltb_str_total : (s t : String) → (ltb_str s t ≡ true) ⊎ ((s ≡ t) ⊎ (ltb_str t s ≡ true))
ltb_str_total s t = go (compare s t) refl
  where
    go : (o : Ordering) → compare s t ≡ o → (ltb_str s t ≡ true) ⊎ ((s ≡ t) ⊎ (ltb_str t s ≡ true))
    go Ordering.lt e = inl (ap is_less e)
    go Ordering.eq e = inr (inl (path_by_compare s t e))
    go Ordering.gt e = inr (inr (ap is_less (compare-swap s t ∙ ap swap e)))
