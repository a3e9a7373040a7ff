-- ===== src/Num.antt =====
-- The numbers that the source writes as `float`: an interface. The code is duck-typed, so any type
-- with these operations will do: IEEE doubles, `Fraction`, `int`. What a theorem needs of them is a
-- record of laws that it takes as a hypothesis.
pub mod Units
pub mod Micro
use dessin.Prelude.{ℕ, ◌≡◌, ◌⊎◌, Bool, true, not, ◌&&◌, if◌then◌else◌}
use dessin.Prelude.Int.{ℤ}

pub record Num : Type 1 where
  pub Carrier : Type 0
  pub nought : Carrier
  pub add : Carrier → Carrier → Carrier
  pub sub : Carrier → Carrier → Carrier
  pub mul : Carrier → Carrier → Carrier
  pub div : Carrier → Carrier → Carrier
  pub lt : Carrier → Carrier → Bool
  pub le : Carrier → Carrier → Bool
  -- `float(n)`, and an `int` operand of a `float` operator
  pub of_int : ℤ → Carrier
  -- The literal `m` shifted right by `k` decimals: `dec 5 1` is `0.5`.
  pub dec : ℕ → ℕ → Carrier

-- What comparisons and signs obey, IEEE doubles without NaN and infinities included: rounding is
-- monotone, and a difference has the sign of the comparison.
pub record IsOrdered (N : Num) : Type 0 where
  pub le_refl : (x : N.Carrier) → N.le x x ≡ true
  pub le_trans : (x y z : N.Carrier) → N.le x y ≡ true → N.le y z ≡ true → N.le x z ≡ true
  pub le_total : (x y : N.Carrier) → (N.le x y ≡ true) ⊎ (N.le y x ≡ true)
  pub lt-eq-not-le : (x y : N.Carrier) → N.lt x y ≡ not (N.le y x)
  pub add_nonneg :
      (x y : N.Carrier)
      → N.le N.nought x ≡ true
      → N.le N.nought y ≡ true
      → N.le N.nought (N.add x y) ≡ true
  pub sub_nonneg : (x y : N.Carrier) → N.le y x ≡ true → N.le N.nought (N.sub x y) ≡ true
  pub sub_below : (x y : N.Carrier) → N.le N.nought y ≡ true → N.le (N.sub x y) x ≡ true

-- Arithmetic without rounding error: `int`, `Fraction`, and doubles that are multiples of one
-- binary unit and stay below 2 ^ 53 of it.
pub record IsExact (N : Num) : Type 0 where
  pub add_comm : (x y : N.Carrier) → N.add x y ≡ N.add y x
  pub add_assoc : (x y z : N.Carrier) → N.add (N.add x y) z ≡ N.add x (N.add y z)
  pub add_nought : (x : N.Carrier) → N.add x N.nought ≡ x
  pub add_cancel : (x y z : N.Carrier) → N.add x z ≡ N.add y z → x ≡ y
  pub sub_add : (x y : N.Carrier) → N.add (N.sub x y) y ≡ x

module _ (N : Num) where
  open N use {Carrier, lt}

  -- Python's `min(a, b)` and `max(a, b)`: the first unless the second is strictly better.
  abbrev pub min_num : Carrier → Carrier → Carrier
  min_num a b = if lt b a then b else a

  abbrev pub max_num : Carrier → Carrier → Carrier
  max_num a b = if lt a b then b else a

  -- `a == b`
  abbrev pub eq_num : Carrier → Carrier → Bool
  eq_num a b = N.le a b && N.le b a

  -- `abs(a)`
  abbrev pub abs_num : Carrier → Carrier
  abs_num a = if lt a N.nought then N.sub N.nought a else a
