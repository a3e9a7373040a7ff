-- ===== src/Num/Units.antt =====
-- Amounts that are whole multiples of one unit, so that sums and differences are exact, as they are
-- for Python's `int`, and for doubles below 2 ^ 53 units of a binary fraction. Products, quotients
-- and literals are whatever the type makes of them.
use dessin.Prelude.{ℕ, arith, ap}
use dessin.Prelude.Int.{
  ℤ, pos, pos_part, neg_part, ◌+ℤ◌, ◌-ℤ◌, ltb_ℤ, leb_ℤ, +ℤ_parts, -ℤ_parts, int_laws,
}
use dessin.Num.{Num, IsOrdered, IsExact}

-- What such a type makes of them.
pub record Scale : Type 0 where
  pub mul : ℤ → ℤ → ℤ
  pub div : ℤ → ℤ → ℤ
  pub of_int : ℤ → ℤ
  pub dec : ℕ → ℕ → ℤ

module _ (k : Scale) where
  abbrev pub units : Num
  units = record {
    Carrier = ℤ;
    nought = pos 0;
    add = ◌+ℤ◌;
    sub = ◌-ℤ◌;
    mul = k.mul;
    div = k.div;
    lt = ltb_ℤ;
    le = leb_ℤ;
    of_int = k.of_int;
    dec = k.dec;
  }

  pub units-IsOrdered : IsOrdered units
  units-IsOrdered = record {
    le_refl = λ x. ground arith;
    le_trans = λ x y z p q. ground arith;
    le_total = λ x y. ground arith;
    lt-eq-not-le = λ x y. ground arith;
    add_nonneg = λ x y p q. ground (arith, +ℤ_parts x y);
    sub_nonneg = λ x y p. ground (arith, -ℤ_parts x y);
    sub_below = λ x y p. ground (arith, -ℤ_parts x y);
  }

  pub units-IsExact : IsExact units
  units-IsExact = record {
    add_comm = λ x y. omega int_laws;
    add_assoc = λ x y z. omega int_laws;
    add_nought = λ x. omega int_laws;
    add_cancel = λ x y z p. omega (int_laws, ap pos_part p, ap neg_part p);
    sub_add = λ x y. omega int_laws;
  }
