-- ===== src/Consensus/DynamicBlockTime/Direction.antt =====
-- dessin/consensus/dynamic_block_time.py: which way a proposal moves the block time.
use mathlib.Core.Path.{subst}
use dessin.Prelude.{
  ◌≡◌, refl, inl, inr, true, false, not, ◌&&◌, ◌||◌, some, none, [], String, Bool-cases, ap, ◌∙◌,
  sym, arith, is_empty, from_option,
}
use dessin.Prelude.Int.{ℤ, leb_ℤ}
use dessin.Dict.{get_or}
use dessin.Num.{Num, IsOrdered, max_num, min_num, abs_num}
use dessin.Consensus.DynamicBlockTime.{
  BlockTimeAdjustment, increase, decrease, maintain, BlockTimeConfig, BlockTimeAdjustmentProposal,
  DynamicBlockTimeManager, bound_clamp_seconds, whole_seconds_ceil, clamp_block_time_seconds,
  is_within, is_valid,
}
use dessin.Consensus.DynamicBlockTime.Proposals.{
  wanted, cut_off, proposal_of, timeout_ratio, analyze_verification_performance,
}
use dessin.Consensus.DynamicBlockTime.Bounds.{
  IsCeil, IsSlot, ceiling, clamp_block_time_seconds-IsSlot,
}

-- The steps of a manager for a size: a longer block time is longer, a shorter one shorter.
pub record IsStep (N : Num) (size_factor : N.Carrier) (s : DynamicBlockTimeManager N) : Type 0 where
  pub longer :
      let step = N.mul (N.of_int s.config.block_time_adjustment_seconds) size_factor in
      N.le s.current_block_time_seconds
        (N.add s.current_block_time_seconds (N.mul step s.stress_step_multiplier))
      ≡ true
  pub shorter :
      let step = N.mul (N.of_int s.config.block_time_adjustment_seconds) size_factor in
      N.le
        (N.sub s.current_block_time_seconds (N.mul step s.slack_step_multiplier))
        s.current_block_time_seconds
      ≡ true

-- What a move must be, by its kind.
abbrev pub Moves : (N : Num) → BlockTimeAdjustment → (current proposed : N.Carrier) → Type 0
Moves N increase current proposed = N.le current proposed ≡ true
Moves N decrease current proposed = N.le proposed current ≡ true
Moves N maintain current proposed = Unit

module _ {N : Num} (o : IsOrdered N) where
  open N use {Carrier, le, lt, of_int}

  clamp_up :
      (lo hi x y : Carrier)
      → le y x ≡ true
      → le y hi ≡ true
      → le y (max_num N lo (min_num N x hi)) ≡ true
  clamp_up lo hi x y p q = ground (
    arith,
    p,
    q,
    o.lt-eq-not-le lo hi,
    o.lt-eq-not-le lo x,
    o.le_trans y x lo,
    o.le_trans y hi lo,
  )

  clamp_down :
      (lo hi x y : Carrier)
      → le x y ≡ true
      → le lo y ≡ true
      → le (max_num N lo (min_num N x hi)) y ≡ true
  clamp_down lo hi x y p q =
      ground (arith, p, q, o.lt-eq-not-le hi x, o.le_total hi x, o.le_trans hi x y)

  max_below : (a b y : Carrier) → le a y ≡ true → le b y ≡ true → le (max_num N a b) y ≡ true
  max_below a b y p q = ground (arith, p, q)

module _ (N : Num) where
  open N use {Carrier}

  cut_off-Moves :
      (raw bound current proposed : Carrier) (a : BlockTimeAdjustment)
      → Moves N a current proposed
      → Moves N (cut_off N raw bound a) current proposed
  unfolding cut_off
  cut_off-Moves raw bound current proposed increase m =
      elim (Bool-cases (N.lt (N.dec 1 3) (abs_num N (N.sub raw bound)) && N.lt bound raw)) [
        | inl cut ↦ rw (cut, cut_off) tt
        | inr whole ↦ rw (whole, cut_off) m
      ]
  cut_off-Moves raw bound current proposed decrease m =
      elim (Bool-cases (N.lt (N.dec 1 3) (abs_num N (N.sub raw bound)) && N.lt raw bound)) [
        | inl cut ↦ rw (cut, cut_off) tt
        | inr whole ↦ rw (whole, cut_off) m
      ]
  cut_off-Moves raw bound current proposed maintain m = tt

module _ {N : Num} (o : IsOrdered N) {ceil : N.Carrier → ℤ} (h : IsCeil N ceil) where
  open N use {Carrier, le, lt, of_int, sub, dec}

  ordered_bounds :
      (config : BlockTimeConfig N)
      → leb_ℤ config.min_block_time_seconds config.max_block_time_seconds ≡ true
      → lt (of_int config.max_block_time_seconds) (of_int config.min_block_time_seconds) ≡ false
  ordered_bounds config ordered =
      let low = of_int config.min_block_time_seconds in
      let high = of_int config.max_block_time_seconds in
      ground (
        arith,
        ordered,
        o.lt-eq-not-le high low,
        h.of_int-le config.min_block_time_seconds config.max_block_time_seconds,
      )

  -- Rounding up keeps the side of a whole number.
  whole-above :
      (n : ℤ) (y : Carrier)
      → le (of_int n) y ≡ true
      → le (of_int n) (whole_seconds_ceil N ceil y) ≡ true
  unfolding whole_seconds_ceil
  whole-above n y p =
      h.of_int-le n (ceil (sub y (dec 1 9)))
      ∙ ap (λ k. leb_ℤ k (ceil (sub y (dec 1 9)))) (sym (h.ceil-of_int n))
      ∙ h.ceil-le (of_int n) y p

  whole-below :
      (n : ℤ) (y : Carrier)
      → le y (of_int n) ≡ true
      → le (whole_seconds_ceil N ceil y) (of_int n) ≡ true
  unfolding whole_seconds_ceil
  whole-below n y p =
      h.of_int-le (ceil (sub y (dec 1 9))) n
      ∙ ap (leb_ℤ (ceil (sub y (dec 1 9)))) (sym (h.ceil-of_int n))
      ∙ h.ceil-le y (of_int n) p

  clamp-up :
      (config : BlockTimeConfig N) (n : ℤ) (current raw : Carrier)
      → leb_ℤ config.min_block_time_seconds config.max_block_time_seconds ≡ true
      → current ≡ of_int n
      → leb_ℤ n (ceiling config) ≡ true
      → le current raw ≡ true
      → le current (whole_seconds_ceil N ceil (bound_clamp_seconds config raw)) ≡ true
  unfolding bound_clamp_seconds
  clamp-up config n current raw ordered is_n below p =
      let low = of_int config.min_block_time_seconds in
      let high = of_int config.max_block_time_seconds in
      let under : le (of_int n) high ≡ true =
        ground (arith, ordered, below, h.of_int-le n config.max_block_time_seconds) in
      let up : le (of_int n) (max_num N low (min_num N raw high)) ≡ true =
        clamp_up o low high raw (of_int n) (ap (λ c. le c raw) (sym is_n) ∙ p) under in
      rw (ordered_bounds config ordered) (
        ap (λ c. le c (whole_seconds_ceil N ceil (max_num N low (min_num N raw high)))) is_n
        ∙ whole-above n (max_num N low (min_num N raw high)) up)

  clamp-down :
      (config : BlockTimeConfig N) (n : ℤ) (current raw : Carrier)
      → leb_ℤ config.min_block_time_seconds config.max_block_time_seconds ≡ true
      → current ≡ of_int n
      → leb_ℤ config.min_block_time_seconds n ≡ true
      → le raw current ≡ true
      → le (whole_seconds_ceil N ceil (bound_clamp_seconds config raw)) current ≡ true
  unfolding bound_clamp_seconds
  clamp-down config n current raw ordered is_n above p =
      let low = of_int config.min_block_time_seconds in
      let high = of_int config.max_block_time_seconds in
      let over : le low (of_int n) ≡ true = h.of_int-le config.min_block_time_seconds n ∙ above in
      let down : le (max_num N low (min_num N raw high)) (of_int n) ≡ true =
        clamp_down o low high raw (of_int n) (ap (le raw) (sym is_n) ∙ p) over in
      rw (ordered_bounds config ordered) (
        ap (le (whole_seconds_ceil N ceil (max_num N low (min_num N raw high)))) is_n
        ∙ whole-below n (max_num N low (min_num N raw high)) down)

  wanted-Moves :
      (size_factor ratio : Carrier) (s : DynamicBlockTimeManager N)
      → leb_ℤ s.config.min_block_time_seconds s.config.max_block_time_seconds ≡ true
      → IsSlot N s.config s.current_block_time_seconds
      → IsStep N size_factor s
      → let (kind, raw) = wanted size_factor ratio s in
        Moves N kind s.current_block_time_seconds
          (whole_seconds_ceil N ceil (bound_clamp_seconds s.config raw))
  unfolding wanted
  wanted-Moves size_factor ratio s ordered (n, is_n, above, below) steps =
      let current = s.current_block_time_seconds in
      let low = of_int s.config.min_block_time_seconds in
      let step = N.mul (of_int s.config.block_time_adjustment_seconds) size_factor in
      elim (Bool-cases (le (N.div (dec 5 1) size_factor) ratio)) [
        | inl stress ↦
            rw (stress, wanted)
              (clamp-up s.config n current (N.add current (N.mul step s.stress_step_multiplier))
                ordered is_n below steps.longer)
        | inr fine ↦ elim (Bool-cases (le ratio (N.div (dec 1 1) size_factor) && lt low current)) [
          | inl slack ↦
              let over : le low current ≡ true =
                ap (le low) is_n ∙ h.of_int-le s.config.min_block_time_seconds n ∙ above in
              rw (fine, slack, wanted)
                (clamp-down s.config n current
                  (max_num N low (sub current (N.mul step s.slack_step_multiplier))) ordered is_n
                  above
                  (max_below o low (sub current (N.mul step s.slack_step_multiplier)) current over
                    steps.shorter))
          | inr rest ↦ rw (fine, rest, wanted) tt
        ]
      ]

  proposal_of-is_valid :
      (config : BlockTimeConfig N) (x : Carrier)
      → leb_ℤ config.min_block_time_seconds config.max_block_time_seconds ≡ true
      → IsSlot N config x
      → is_within config x ≡ true
  unfolding is_within
  proposal_of-is_valid config x ordered (n, is_n, above, below) =
      let under : leb_ℤ n config.max_block_time_seconds ≡ true = ground (arith, ordered, below) in
      let low = h.of_int-le config.min_block_time_seconds n ∙ above in
      let high = h.of_int-le n config.max_block_time_seconds ∙ under in rw (is_n, low, high) refl

  -- With the bounds in order, a block time that is a whole number of seconds between them, and steps
  -- that do what their names say, every proposal of the analysis is within the bounds, and it is not
  -- shorter than the current block time if it is to increase it, and not longer if it is to decrease
  -- it. The numbers are as for the bounds of the block time.
  pub analyze_verification_performance-Moves :
      (now size_factor : Carrier) (hash : String) (s : DynamicBlockTimeManager N)
      (p : BlockTimeAdjustmentProposal N)
      → leb_ℤ s.config.min_block_time_seconds s.config.max_block_time_seconds ≡ true
      → IsSlot N s.config s.current_block_time_seconds
      → IsStep N size_factor s
      → analyze_verification_performance ceil now size_factor hash s ≡ some p
      → (is_valid s.config p ≡ true)
        × Moves N p.adjustment_type s.current_block_time_seconds p.proposed_block_time_seconds
  unfolding analyze_verification_performance clamp_block_time_seconds
  analyze_verification_performance-Moves now size_factor hash s p ordered slot steps found =
      let timings = get_or hash [] s.verification_timings in
      let q = proposal_of ceil now size_factor timings s in
      let raw = (wanted size_factor (timeout_ratio timings) s).1 in
      let fits =
        proposal_of-is_valid s.config q.proposed_block_time_seconds ordered
          (clamp_block_time_seconds-IsSlot o h s.config raw) in
      let moves =
        cut_off-Moves N raw (bound_clamp_seconds s.config raw) s.current_block_time_seconds
          q.proposed_block_time_seconds (wanted size_factor (timeout_ratio timings) s).0
          (wanted-Moves size_factor (timeout_ratio timings) s ordered slot steps) in
      elim (Bool-cases (not s.config.enable_dynamic_block_time || is_empty timings)) [
        | inl idle ↦
            let silent : analyze_verification_performance ceil now size_factor hash s ≡ none =
              rw (idle, analyze_verification_performance) refl in
            cc
        | inr busy ↦
            let is_q : analyze_verification_performance ceil now size_factor hash s ≡ some q =
              rw (busy, fits, analyze_verification_performance) refl in
            subst
              (λ (r : BlockTimeAdjustmentProposal N).
                (is_valid s.config r ≡ true)
                × Moves N r.adjustment_type s.current_block_time_seconds
                    r.proposed_block_time_seconds)
              (ap (from_option q) (sym is_q ∙ found)) (fits, moves)
      ]
