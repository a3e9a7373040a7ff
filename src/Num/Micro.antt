-- ===== src/Num/Micro.antt =====
-- A type of amounts for the tests: whole millionths, with products and quotients cut off at the
-- millionth.
use dessin.Prelude.{ℕ, ◌+◌, ◌-◌, ◌*◌, ◌/◌, ◌^◌}
use dessin.Prelude.Int.{ℤ, pos, negsuc, pos_part, neg_part, sub_ℕ}
use dessin.Num.{Num}
use dessin.Num.Units.{Scale, units}

abbrev million : ℕ
million = 1_000_000

abbrev cut : ℤ → ℕ → ℤ
cut (pos n) d = pos (n / d)
cut (negsuc n) d = sub_ℕ 0 ((n + 1) / d)

abbrev times : ℤ → ℤ → ℤ
times a b =
    sub_ℕ (pos_part a * pos_part b + neg_part a * neg_part b)
      (pos_part a * neg_part b + neg_part a * pos_part b)

abbrev over : ℤ → ℤ → ℤ
over a (pos d) = cut (times a (pos million)) d
over a (negsuc d) = cut (times a (negsuc (million - 1))) (d + 1)

abbrev pub millionths : Scale
millionths = record {
  mul = λ a b. cut (times a b) million;
  div = over;
  of_int = λ n. times n (pos million);
  dec = λ m k. pos (m * million / 10 ^ k);
}

abbrev pub micro : Num
micro = units millionths
