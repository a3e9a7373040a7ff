-- ===== src/Consensus/DynamicBlockTime/Proposals.antt =====
-- dessin/consensus/dynamic_block_time.py: the proposals of another block time, and what applies them;
-- with `apply_block_time_adjustment` of dessin/consensus/enhanced_pogo_consensus.py.
use dessin.Prelude.{
  Bool, true, false, not, ◌&&◌, ◌||◌, Option, none, some, List, [], ◌∷◌, ◌++◌, String, ◌==◌,
  if◌then◌else◌, length, count_if, is_empty, keep_if, get_elem?, ◌-◌,
}
use dessin.Prelude.Int.{ℤ, pos}
use dessin.Dict.{get, get_or, set, del}
use dessin.Num.{Num, max_num, abs_num}
use dessin.Consensus.DynamicBlockTime.{
  BlockTimeAdjustment, increase, decrease, maintain, VerificationTiming,
  BlockTimeAdjustmentProposal, BlockTimeConfig, DynamicBlockTimeManager, is_valid, is_within,
  bound_clamp_seconds, whole_seconds_ceil, clamp_block_time_seconds,
}

-- The fields of a block that set the block time.
pub record BlockTimer (N : Num) : Type 0 where
  pub block_time_adjustment_flag : Option String
  pub current_block_time_seconds : N.Carrier

module _ {N : Num} where
  open N use {Carrier, nought, add, sub, mul, div, lt, le, of_int, dec}

  -- The share of the phases that ran out of time.
  abbrev pub timeout_ratio : List (VerificationTiming N) → Carrier
  timeout_ratio timings =
      div (of_int (pos (count_if (λ (timing : VerificationTiming N). timing.is_timeout) timings)))
        (of_int (pos (length timings)))

  -- What the ratio asks for, before the bounds.
  unfoldable pub wanted :
      (size_factor ratio : Carrier) → DynamicBlockTimeManager N → BlockTimeAdjustment × Carrier
  wanted size_factor ratio s =
      let base_step = mul (of_int s.config.block_time_adjustment_seconds) size_factor in
      let current = s.current_block_time_seconds in
      let floor = of_int s.config.min_block_time_seconds in
      if le (div (dec 5 1) size_factor) ratio
      then (increase, add current (mul base_step s.stress_step_multiplier))
      else if le ratio (div (dec 1 1) size_factor) && lt floor current
      then (decrease, max_num N floor (sub current (mul base_step s.slack_step_multiplier)))
      else (maintain, current)

-- A wish that the bounds cut off counts as none.
unfoldable pub cut_off :
    (N : Num) (raw bound : N.Carrier) → BlockTimeAdjustment → BlockTimeAdjustment
cut_off N raw bound increase =
    if N.lt (N.dec 1 3) (abs_num N (N.sub raw bound)) && N.lt bound raw then maintain else increase
cut_off N raw bound decrease =
    if N.lt (N.dec 1 3) (abs_num N (N.sub raw bound)) && N.lt raw bound then maintain else decrease
cut_off N raw bound maintain = maintain

module _ {N : Num} (ceil : N.Carrier → ℤ) where
  open N use {Carrier, nought, add, sub, mul, div, lt, le, of_int, dec}

  abbrev pub proposal_of :
      (now size_factor : Carrier)
      → List (VerificationTiming N)
      → DynamicBlockTimeManager N
      → BlockTimeAdjustmentProposal N
  proposal_of now size_factor timings s =
      let (adjustment_type, raw_proposed) = wanted size_factor (timeout_ratio timings) s in
      let bound_clamped = bound_clamp_seconds s.config raw_proposed in
      record {
        adjustment_type = cut_off N raw_proposed bound_clamped adjustment_type;
        current_block_time_seconds = s.current_block_time_seconds;
        proposed_block_time_seconds = whole_seconds_ceil N ceil bound_clamped;
        timestamp = now;
        proposer = "dynamic_block_time_manager";
      }

  unfoldable pub analyze_verification_performance :
      (now size_factor : Carrier) (block_hash : String)
      → DynamicBlockTimeManager N
      → Option (BlockTimeAdjustmentProposal N)
  analyze_verification_performance now size_factor block_hash s =
      let timings = get_or block_hash [] s.verification_timings in
      let proposal = proposal_of now size_factor timings s in
      if not s.config.enable_dynamic_block_time || is_empty timings
      then none
      else if is_valid s.config proposal
      then some proposal
      else some (record proposal {
        adjustment_type = maintain;
        proposed_block_time_seconds =
            clamp_block_time_seconds ceil s.config proposal.proposed_block_time_seconds;
      })

  -- The size of the model is not given, and its factor is 1.
  unfoldable pub propose_block_time_adjustment :
      (now : Carrier) (block_hash proposer : String)
      → DynamicBlockTimeManager N
      → Option (BlockTimeAdjustmentProposal N) × DynamicBlockTimeManager N
  propose_block_time_adjustment now block_hash proposer s =
      elim (analyze_verification_performance now (dec 1 0) block_hash s) [
        | none ↦ (none, s)
        | some found ↦
            let proposal = record found { proposer = proposer } in
            (
              some proposal,
              record s {
                pending_adjustments =
                    set block_hash (get_or block_hash [] s.pending_adjustments ++ (proposal ∷ []))
                      s.pending_adjustments;
              },
            )
      ]

  unfoldable pub apply_approved_adjustment :
      (block_hash : String) → DynamicBlockTimeManager N → Bool × DynamicBlockTimeManager N
  apply_approved_adjustment block_hash s = elim (get block_hash s.approved_adjustments) [
    | none ↦ (false, s)
    | some proposal ↦ (
      true,
      record s {
        current_block_time_seconds =
            clamp_block_time_seconds ceil s.config proposal.proposed_block_time_seconds;
        recent_adjustments = s.recent_adjustments ++ (proposal ∷ []);
        approved_adjustments = del block_hash s.approved_adjustments;
        pending_adjustments = del block_hash s.pending_adjustments;
      },
    )
  ]

  -- The time that a block's flag asks for.
  abbrev pub timer_time : (flag : String) → BlockTimer N → BlockTimeConfig N → Carrier
  timer_time flag block config =
      let step = of_int config.block_time_adjustment_seconds in
      let current = block.current_block_time_seconds in
      whole_seconds_ceil N ceil (
        if flag == "increase"
        then add current step
        else if flag == "decrease"
        then max_num N (of_int config.min_block_time_seconds) (sub current step)
        else current)

  -- The consensus applies the timer of the block that it found under the hash.
  unfoldable pub apply_block_time_adjustment :
      Option (BlockTimer N) → DynamicBlockTimeManager N → Bool × DynamicBlockTimeManager N
  apply_block_time_adjustment none s = (false, s)
  apply_block_time_adjustment (some block) s = elim block.block_time_adjustment_flag [
    | none ↦ (false, s)
    | some flag ↦
        let new_time = timer_time flag block s.config in
        if not (flag == "") && is_within s.config new_time
        then (true, record s { current_block_time_seconds = new_time })
        else (false, s)
  ]

module _ {N : Num} where
  open N use {sub, lt, of_int}

  -- The vote of one voter decides on the last proposal.
  unfoldable pub vote_on_adjustment :
      (block_hash : String) (approve : Bool)
      → DynamicBlockTimeManager N
      → Bool × DynamicBlockTimeManager N
  vote_on_adjustment block_hash approve s =
      let proposals = get_or block_hash [] s.pending_adjustments in
      elim (get_elem? proposals (length proposals - 1)) [
        | none ↦ (false, s)
        | some proposal ↦
            if approve && is_valid s.config proposal
            then (
              true,
              record s { approved_adjustments = set block_hash proposal s.approved_adjustments },
            )
            else (false, s)
      ]

  -- The timings are kept.
  unfoldable pub cleanup_old_data :
      (current_block_index retention_blocks : ℤ)
      → DynamicBlockTimeManager N
      → DynamicBlockTimeManager N
  cleanup_old_data current_block_index retention_blocks s = record s {
    recent_adjustments =
        keep_if
          (λ (adj : BlockTimeAdjustmentProposal N).
            lt (sub (of_int current_block_index) adj.timestamp) (of_int retention_blocks))
          s.recent_adjustments;
  }
