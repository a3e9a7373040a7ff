-- ===== src/Consensus/DynamicBlockTime/Runs.antt =====
-- dessin/consensus/dynamic_block_time.py: the block time over a history of calls.
use mathlib.Core.Path.{subst}
use dessin.Prelude.{
  ◌≡◌, refl, inl, inr, Bool, true, not, ◌&&◌, Option, none, some, List, [], ◌∷◌, String, ◌==◌,
  Bool-cases, Option-cases, arith, from_option, get_elem?, length, ◌-◌,
}
use dessin.Prelude.Int.{ℤ, leb_ℤ}
use dessin.Dict.{get, get_or}
use dessin.Num.{Num, IsOrdered, eq_num}
use dessin.Consensus.TwoPhase.{VerificationPhase}
use dessin.Consensus.DynamicBlockTime.{
  BlockTimeConfig, DynamicBlockTimeManager, whole_seconds_ceil, clamp_block_time_seconds,
  new_block_time, adjust_block_time_adaptive, start_verification_timing, end_verification_timing,
  is_within, is_valid, finish_last,
}
use dessin.Consensus.DynamicBlockTime.Proposals.{
  BlockTimer, propose_block_time_adjustment, apply_approved_adjustment, apply_block_time_adjustment,
  vote_on_adjustment, cleanup_old_data, analyze_verification_performance, timer_time,
}
use dessin.Consensus.DynamicBlockTime.Bounds.{IsCeil, IsSlot, clamp_block_time_seconds-IsSlot}

-- The calls of the manager that change its state, and the timer of a block.
pub data Call (N : Num) : Type 0 where
  start : (now : N.Carrier) (block_hash : String) → VerificationPhase → Call N
  end : (now : N.Carrier) (block_hash : String) → VerificationPhase → Call N
  adapt : (validation_time : N.Carrier) (current : Option N.Carrier) → Call N
  propose : (now : N.Carrier) (block_hash proposer : String) → Call N
  vote : (block_hash : String) (approve : Bool) → Call N
  apply_approved : (block_hash : String) → Call N
  apply_block : Option (BlockTimer N) → Call N
  cleanup : (current_block_index retention_blocks : ℤ) → Call N

module _ {N : Num} (ceil : N.Carrier → ℤ) where
  unfoldable pub step : Call N → DynamicBlockTimeManager N → DynamicBlockTimeManager N
  step (start now block_hash phase) s = start_verification_timing now block_hash phase s
  step (end now block_hash phase) s = (end_verification_timing now block_hash phase s).1
  step (adapt validation_time current) s =
      (adjust_block_time_adaptive ceil validation_time current s).1
  step (propose now block_hash proposer) s =
      (propose_block_time_adjustment ceil now block_hash proposer s).1
  step (vote block_hash approve) s = (vote_on_adjustment block_hash approve s).1
  step (apply_approved block_hash) s = (apply_approved_adjustment ceil block_hash s).1
  step (apply_block block) s = (apply_block_time_adjustment ceil block s).1
  step (cleanup current_block_index retention_blocks) s =
      cleanup_old_data current_block_index retention_blocks s

  unfoldable pub run : List (Call N) → DynamicBlockTimeManager N → DynamicBlockTimeManager N
  run [] s = s
  run (call ∷ calls) s = run calls (step call s)

module _ {N : Num} where
  -- The configuration is the same, and the block time is in bounds.
  abbrev pub InBounds : BlockTimeConfig N → DynamicBlockTimeManager N → Type 0
  InBounds config s = (s.config ≡ config) × IsSlot N config s.current_block_time_seconds

module _ {N : Num} (o : IsOrdered N) {ceil : N.Carrier → ℤ} (h : IsCeil N ceil) where
  open N use {Carrier, le, of_int, sub, dec}

  -- A whole time that passes the consensus's own test.
  is_within-IsSlot :
      (config : BlockTimeConfig N) (x : Carrier)
      → is_within config (whole_seconds_ceil N ceil x) ≡ true
      → IsSlot N config (whole_seconds_ceil N ceil x)
  unfolding is_within whole_seconds_ceil
  is_within-IsSlot config x within =
      let n = ceil (sub x (dec 1 9)) in
      let low = h.of_int-le config.min_block_time_seconds n in
      let high = h.of_int-le n config.max_block_time_seconds in
      let above : leb_ℤ config.min_block_time_seconds n ≡ true = ground (arith, within, low) in
      let below : leb_ℤ n config.max_block_time_seconds ≡ true =
        ground (arith, within, low, high) in
      (n, refl, above, ground (arith, below))

  clamped :
      (config own : BlockTimeConfig N) (x : Carrier)
      → own ≡ config
      → IsSlot N config (clamp_block_time_seconds ceil own x)
  clamped config own x same =
      subst (λ k. IsSlot N k (clamp_block_time_seconds ceil own x)) same
        (clamp_block_time_seconds-IsSlot o h own x)

  timed :
      (config own : BlockTimeConfig N) (x : Carrier)
      → own ≡ config
      → is_within own (whole_seconds_ceil N ceil x) ≡ true
      → IsSlot N config (whole_seconds_ceil N ceil x)
  timed config own x same within =
      subst (λ k. IsSlot N k (whole_seconds_ceil N ceil x)) same (is_within-IsSlot own x within)

  adjust_block_time_adaptive-InBounds :
      (config : BlockTimeConfig N) (v : Carrier) (current : Option Carrier)
      (s : DynamicBlockTimeManager N)
      → InBounds config s
      → InBounds config (adjust_block_time_adaptive ceil v current s).1
  unfolding adjust_block_time_adaptive
  adjust_block_time_adaptive-InBounds config v current s (same, slot) =
      elim (Bool-cases (eq_num N (from_option s.current_block_time_seconds current) N.nought)) [
        | inl zero ↦ rw (zero, adjust_block_time_adaptive) (same, slot)
        | inr divides ↦
            rw (divides, adjust_block_time_adaptive) (same, clamped config s.config _ same)
      ]

  end_verification_timing-InBounds :
      (config : BlockTimeConfig N) (now : Carrier) (hash : String) (phase : VerificationPhase)
      (s : DynamicBlockTimeManager N)
      → InBounds config s
      → InBounds config (end_verification_timing now hash phase s).1
  unfolding end_verification_timing
  end_verification_timing-InBounds config now hash phase s kept =
      elim (Option-cases (finish_last now phase (get_or hash [] s.verification_timings))) [
        | inl unknown ↦ rw (unknown, end_verification_timing) kept
        | inr ((timing, timings), found) ↦ rw (found, end_verification_timing) kept
      ]

  propose_block_time_adjustment-InBounds :
      (config : BlockTimeConfig N) (now : Carrier) (hash proposer : String)
      (s : DynamicBlockTimeManager N)
      → InBounds config s
      → InBounds config (propose_block_time_adjustment ceil now hash proposer s).1
  unfolding propose_block_time_adjustment
  propose_block_time_adjustment-InBounds config now hash proposer s kept =
      elim (Option-cases (analyze_verification_performance ceil now (dec 1 0) hash s)) [
        | inl idle ↦ rw (idle, propose_block_time_adjustment) kept
        | inr (proposal, found) ↦ rw (found, propose_block_time_adjustment) kept
      ]

  vote_on_adjustment-InBounds :
      (config : BlockTimeConfig N) (hash : String) (approve : Bool) (s : DynamicBlockTimeManager N)
      → InBounds config s
      → InBounds config (vote_on_adjustment hash approve s).1
  unfolding vote_on_adjustment
  vote_on_adjustment-InBounds config hash approve s kept =
      let proposals = get_or hash [] s.pending_adjustments in
      elim (Option-cases (get_elem? proposals (length proposals - 1))) [
        | inl unknown ↦ rw (unknown, vote_on_adjustment) kept
        | inr (proposal, found) ↦ elim (Bool-cases (approve && is_valid s.config proposal)) [
          | inl yes_vote ↦ rw (found, yes_vote, vote_on_adjustment) kept
          | inr no_vote ↦ rw (found, no_vote, vote_on_adjustment) kept
        ]
      ]

  apply_approved_adjustment-InBounds :
      (config : BlockTimeConfig N) (hash : String) (s : DynamicBlockTimeManager N)
      → InBounds config s
      → InBounds config (apply_approved_adjustment ceil hash s).1
  unfolding apply_approved_adjustment
  apply_approved_adjustment-InBounds config hash s (same, slot) =
      elim (Option-cases (get hash s.approved_adjustments)) [
        | inl unknown ↦ rw (unknown, apply_approved_adjustment) (same, slot)
        | inr (proposal, found) ↦
            rw (found, apply_approved_adjustment) (same, clamped config s.config _ same)
      ]

  apply_block_time_adjustment-InBounds :
      (config : BlockTimeConfig N) (block : Option (BlockTimer N)) (s : DynamicBlockTimeManager N)
      → InBounds config s
      → InBounds config (apply_block_time_adjustment ceil block s).1
  unfolding apply_block_time_adjustment
  apply_block_time_adjustment-InBounds config none s kept = kept
  apply_block_time_adjustment-InBounds config (some block) s (same, slot) =
      elim (Option-cases block.block_time_adjustment_flag) [
        | inl unset ↦ rw (unset, apply_block_time_adjustment) (same, slot)
        | inr (flag, is_set) ↦
            elim (Bool-cases
              (not (flag == "") && is_within s.config (timer_time ceil flag block s.config))) [
                | inl fine ↦
                    rw (is_set, fine, apply_block_time_adjustment)
                      (same, timed config s.config _ same (ground (arith, fine)))
                | inr refused ↦ rw (is_set, refused, apply_block_time_adjustment) (same, slot)
              ]
      ]

  step-InBounds :
      (config : BlockTimeConfig N) (call : Call N) (s : DynamicBlockTimeManager N)
      → InBounds config s
      → InBounds config (step ceil call s)
  unfolding step start_verification_timing cleanup_old_data
  step-InBounds config (start now hash phase) s kept = kept
  step-InBounds config (end now hash phase) s kept =
      end_verification_timing-InBounds config now hash phase s kept
  step-InBounds config (adapt v current) s kept =
      adjust_block_time_adaptive-InBounds config v current s kept
  step-InBounds config (propose now hash proposer) s kept =
      propose_block_time_adjustment-InBounds config now hash proposer s kept
  step-InBounds config (vote hash approve) s kept =
      vote_on_adjustment-InBounds config hash approve s kept
  step-InBounds config (apply_approved hash) s kept =
      apply_approved_adjustment-InBounds config hash s kept
  step-InBounds config (apply_block block) s kept =
      apply_block_time_adjustment-InBounds config block s kept
  step-InBounds config (cleanup index retention) s kept = kept

  run-InBounds :
      (config : BlockTimeConfig N) (calls : List (Call N)) (s : DynamicBlockTimeManager N)
      → InBounds config s
      → InBounds config (run ceil calls s)
  unfolding run
  run-InBounds config [] s kept = kept
  run-InBounds config (call ∷ calls) s kept =
      run-InBounds config calls (step ceil call s) (step-InBounds config call s kept)

  -- From a new manager on, whatever timings, adaptations, proposals, votes and block timers come, in any
  -- order, the block time is a whole number of seconds, at least the lower bound of the configuration
  -- and at most the larger of its two bounds. For an ordered type of numbers, whose `math.ceil` and
  -- conversion of integers keep the order, and where a whole number less a billionth rounds up to that
  -- number.
  pub new_block_time-run :
      (floor : Carrier) (config : BlockTimeConfig N) (calls : List (Call N))
      → InBounds config (run ceil calls (new_block_time ceil floor config))
  new_block_time-run floor config calls =
      run-InBounds config calls (new_block_time ceil floor config)
        (refl, clamp_block_time_seconds-IsSlot o h config _)
