-- ===== src/Consensus/DynamicBlockTime/Bounds.antt =====
-- dessin/consensus/dynamic_block_time.py: the block time stays within its bounds, in whole seconds.
use dessin.Prelude.{
  ◌≡◌, refl, inl, inr, true, false, if◌then◌else◌, Bool-cases, ap, ◌∙◌, sym, arith,
}
use dessin.Prelude.Int.{ℤ, leb_ℤ, ltb_ℤ}
use dessin.Num.{Num, IsOrdered, max_num, min_num}
use dessin.Consensus.DynamicBlockTime.{
  BlockTimeConfig, bound_clamp_seconds, whole_seconds_ceil, clamp_block_time_seconds,
}

-- `math.ceil` and the conversion of an `int`: both keep the order, and a whole number of seconds, less a
-- billionth, is rounded up to that number.
pub record IsCeil (N : Num) (ceil : N.Carrier → ℤ) : Type 0 where
  pub of_int-le : (m n : ℤ) → N.le (N.of_int m) (N.of_int n) ≡ leb_ℤ m n
  pub ceil-le :
      (x y : N.Carrier)
      → N.le x y ≡ true
      → leb_ℤ (ceil (N.sub x (N.dec 1 9))) (ceil (N.sub y (N.dec 1 9))) ≡ true
  pub ceil-of_int : (n : ℤ) → ceil (N.sub (N.of_int n) (N.dec 1 9)) ≡ n

-- The larger of the two bounds is the upper one.
abbrev pub ceiling : {N : Num} → BlockTimeConfig N → ℤ
ceiling config =
    if ltb_ℤ config.max_block_time_seconds config.min_block_time_seconds
    then config.min_block_time_seconds
    else config.max_block_time_seconds

-- A whole number of seconds between the bounds.
abbrev pub IsSlot : (N : Num) → BlockTimeConfig N → N.Carrier → Type 0
IsSlot N config x =
    (n : ℤ) × (x ≡ N.of_int n)
    × (leb_ℤ config.min_block_time_seconds n ≡ true)
    × (leb_ℤ n (ceiling config) ≡ true)

module _ {N : Num} (o : IsOrdered N) {ceil : N.Carrier → ℤ} (h : IsCeil N ceil) where
  open N use {Carrier, le, lt, of_int}

  clamp-between :
      (lo hi x : Carrier)
      → le lo hi ≡ true
      → (le lo (max_num N lo (min_num N x hi)) ≡ true)
        × (le (max_num N lo (min_num N x hi)) hi ≡ true)
  clamp-between lo hi x ordered = ground (
    arith,
    ordered,
    o.le_refl lo,
    o.le_refl hi,
    o.lt-eq-not-le hi x,
    o.lt-eq-not-le lo hi,
    o.lt-eq-not-le lo x,
    o.le_total lo x,
    o.le_total x hi,
  )

  bound_clamp_seconds-between :
      (config : BlockTimeConfig N) (x : Carrier)
      → (le (of_int config.min_block_time_seconds) (bound_clamp_seconds config x) ≡ true)
        × (le (bound_clamp_seconds config x) (of_int (ceiling config)) ≡ true)
  unfolding bound_clamp_seconds
  bound_clamp_seconds-between config x =
      let min = config.min_block_time_seconds in
      let max = config.max_block_time_seconds in
      let keeps = h.of_int-le min max in
      let same = h.of_int-le min min in
      elim (Bool-cases (ltb_ℤ max min)) [
        | inl crossed ↦
            let below : lt (of_int max) (of_int min) ≡ true =
              ground (arith, crossed, keeps, o.lt-eq-not-le (of_int max) (of_int min)) in
            rw (crossed, below) (clamp-between (of_int min) (of_int min) x (o.le_refl (of_int min)))
        | inr ordered ↦
            let above : lt (of_int max) (of_int min) ≡ false =
              ground (arith, ordered, keeps, o.lt-eq-not-le (of_int max) (of_int min)) in
            rw (ordered, above)
              (clamp-between (of_int min) (of_int max) x (ground (arith, ordered, keeps)))
      ]

  pub clamp_block_time_seconds-IsSlot :
      (config : BlockTimeConfig N) (x : Carrier)
      → IsSlot N config (clamp_block_time_seconds ceil config x)
  unfolding clamp_block_time_seconds whole_seconds_ceil
  clamp_block_time_seconds-IsSlot config x =
      let y = bound_clamp_seconds config x in
      let low = of_int config.min_block_time_seconds in
      let high = of_int (ceiling config) in
      let (above, below) = bound_clamp_seconds-between config x in
      (
        ceil (N.sub y (N.dec 1 9)),
        refl,
        ap (λ n. leb_ℤ n (ceil (N.sub y (N.dec 1 9))))
              (sym (h.ceil-of_int config.min_block_time_seconds))
            ∙ h.ceil-le low y above,
        ap (leb_ℤ (ceil (N.sub y (N.dec 1 9)))) (sym (h.ceil-of_int (ceiling config)))
            ∙ h.ceil-le y high below,
      )
