-- ===== src/Consensus/DynamicBlockTime.antt =====
-- dessin/consensus/dynamic_block_time.py: the time between blocks, which follows how long verification
-- takes. `ceil` is `math.ceil`, and `now` the clock. A proposal has no reason and no copy of its
-- timings, and the factor for the size of a model is given to the analysis.
pub mod Proposals
pub mod Bounds
pub mod Runs
pub mod Direction
mod Tests
use dessin.Prelude.{
  ℕ, zero, suc, Bool, true, false, not, ◌&&◌, Option, none, some, List, [], ◌∷◌, ◌++◌, String, ◌==◌,
  if◌then◌else◌, length, count_if, is_empty, from_option, keep_if,
}
use dessin.Prelude.Int.{ℤ, pos}
use dessin.Dict.{Dict, get, get_or, set, del}
use dessin.Num.{Num, eq_num, max_num, min_num, abs_num}
use dessin.Consensus.TwoPhase.{VerificationPhase, training, phase1, phase2, finalization}

pub data BlockTimeAdjustment : Type 0 where
  increase decrease maintain : BlockTimeAdjustment

abbrev pub same_phase : VerificationPhase → VerificationPhase → Bool
same_phase training training = true
same_phase phase1 phase1 = true
same_phase phase2 phase2 = true
same_phase finalization finalization = true
same_phase training other = false
same_phase phase1 other = false
same_phase phase2 other = false
same_phase finalization other = false

module _ (N : Num) where
  open N use {Carrier, nought, add, sub, mul, div, lt, le, of_int, dec}

  pub record VerificationTiming : Type 0 where
    pub phase : VerificationPhase
    pub allocated_time_seconds : Carrier
    pub actual_time_seconds : Carrier
    pub start_time : Carrier
    pub end_time : Carrier
    pub timeout_threshold : Carrier
    pub is_timeout : Bool

  pub record BlockTimeAdjustmentProposal : Type 0 where
    pub adjustment_type : BlockTimeAdjustment
    pub current_block_time_seconds : Carrier
    pub proposed_block_time_seconds : Carrier
    pub timestamp : Carrier
    pub proposer : String

  -- The fields of `ConsensusConfig` that the definitions of this file and of Proposals read.
  pub record BlockTimeConfig : Type 0 where
    pub enable_dynamic_block_time : Bool
    pub min_block_time_seconds : ℤ
    pub max_block_time_seconds : ℤ
    pub block_time_adjustment_seconds : ℤ
    pub verification_timeout_threshold : Carrier
    pub training_block_time_minutes : Carrier
    pub block_time_ramp_up_capacity_pct : Carrier
    pub block_time_ramp_down_capacity_pct : Carrier
    pub block_time_slack_step_multiplier : Carrier
    pub block_time_stress_step_multiplier : Carrier

  pub record DynamicBlockTimeManager : Type 0 where
    pub config : BlockTimeConfig
    pub current_block_time_seconds : Carrier
    pub min_block_time_seconds : Carrier
    pub increase_threshold : Carrier
    pub decrease_threshold : Carrier
    pub ramp_up_capacity_pct : Carrier
    pub ramp_down_capacity_pct : Carrier
    pub slack_step_multiplier : Carrier
    pub stress_step_multiplier : Carrier
    pub verification_timings : Dict (List VerificationTiming)
    pub recent_adjustments : List BlockTimeAdjustmentProposal
    pub pending_adjustments : Dict (List BlockTimeAdjustmentProposal)
    pub approved_adjustments : Dict BlockTimeAdjustmentProposal

module _ {N : Num} where
  open N use {Carrier, nought, add, sub, mul, div, lt, le, of_int, dec}

  unfoldable pub is_within : BlockTimeConfig N → Carrier → Bool
  is_within config seconds =
      le (of_int config.min_block_time_seconds) seconds
      && le seconds (of_int config.max_block_time_seconds)

  -- `BlockTimeAdjustmentProposal.is_valid`
  abbrev pub is_valid : BlockTimeConfig N → BlockTimeAdjustmentProposal N → Bool
  is_valid config proposal = is_within config proposal.proposed_block_time_seconds

  abbrev pub get_progress_ratio : VerificationTiming N → Carrier
  get_progress_ratio timing =
      if eq_num N timing.allocated_time_seconds nought
      then nought
      else div timing.actual_time_seconds timing.allocated_time_seconds

  abbrev pub is_exceeding_threshold : VerificationTiming N → Bool
  is_exceeding_threshold timing = le timing.timeout_threshold (get_progress_ratio timing)

  -- `max(lo, min(seconds, hi))`, with `hi` at least `lo`
  unfoldable pub bound_clamp_seconds : BlockTimeConfig N → Carrier → Carrier
  bound_clamp_seconds config seconds =
      let lo = of_int config.min_block_time_seconds in
      let top = of_int config.max_block_time_seconds in
      let hi = if lt top lo then lo else top in max_num N lo (min_num N seconds hi)

unfoldable pub whole_seconds_ceil : (N : Num) (ceil : N.Carrier → ℤ) → N.Carrier → N.Carrier
whole_seconds_ceil N ceil seconds = N.of_int (ceil (N.sub seconds (N.dec 1 9)))

module _ {N : Num} (ceil : N.Carrier → ℤ) where
  open N use {Carrier, nought, add, sub, mul, div, lt, le, of_int, dec}

  unfoldable pub clamp_block_time_seconds : BlockTimeConfig N → Carrier → Carrier
  clamp_block_time_seconds config seconds =
      whole_seconds_ceil N ceil (bound_clamp_seconds config seconds)

  abbrev pub get_initial_block_time : BlockTimeConfig N → Carrier
  get_initial_block_time config =
      clamp_block_time_seconds config
        (whole_seconds_ceil N ceil (mul config.training_block_time_minutes (dec 60 0)))

  -- `__init__`: the thresholds are fixed there, the capacities and multipliers are the config's.
  abbrev pub new_block_time :
      (min_block_time_seconds : Carrier) → BlockTimeConfig N → DynamicBlockTimeManager N
  new_block_time min_block_time_seconds config = record {
    config = config;
    current_block_time_seconds = clamp_block_time_seconds config (get_initial_block_time config);
    min_block_time_seconds = min_block_time_seconds;
    increase_threshold = dec 8 1;
    decrease_threshold = dec 4 1;
    ramp_up_capacity_pct = config.block_time_ramp_up_capacity_pct;
    ramp_down_capacity_pct = config.block_time_ramp_down_capacity_pct;
    slack_step_multiplier = config.block_time_slack_step_multiplier;
    stress_step_multiplier = config.block_time_stress_step_multiplier;
    verification_timings = [];
    recent_adjustments = [];
    pending_adjustments = [];
    approved_adjustments = [];
  }

  -- The time that the utilization asks for.
  abbrev pub adapted : (utilization current : Carrier) → DynamicBlockTimeManager N → Carrier
  adapted utilization current s =
      if lt s.increase_threshold utilization
      then mul current (add (dec 1 0) s.ramp_down_capacity_pct)
      else if lt utilization s.decrease_threshold
      then max_num N (max_num N (of_int s.config.min_block_time_seconds) s.min_block_time_seconds)
          (mul current (sub (dec 1 0) s.ramp_up_capacity_pct))
      else current

  -- `none` is the division by zero.
  unfoldable pub adjust_block_time_adaptive :
      (validation_time_seconds : Carrier) (current_block_time_seconds : Option Carrier)
      → DynamicBlockTimeManager N
      → Option Carrier × DynamicBlockTimeManager N
  adjust_block_time_adaptive validation_time_seconds current_block_time_seconds s =
      let current = from_option s.current_block_time_seconds current_block_time_seconds in
      let utilization = div validation_time_seconds current in
      let new_block_time = clamp_block_time_seconds s.config (adapted utilization current s) in
      if eq_num N current nought
      then (none, s)
      else (some new_block_time, record s { current_block_time_seconds = new_block_time })

module _ {N : Num} where
  open N use {Carrier, nought, add, sub, mul, div, lt, le, of_int, dec}

  unfoldable pub start_verification_timing :
      (now : Carrier) (block_hash : String)
      → VerificationPhase
      → DynamicBlockTimeManager N
      → DynamicBlockTimeManager N
  start_verification_timing now block_hash phase s =
      let timing : VerificationTiming N = record {
        phase = phase;
        allocated_time_seconds =
            if same_phase phase training
            then s.current_block_time_seconds
            else mul s.current_block_time_seconds (dec 3 1);
        actual_time_seconds = nought;
        start_time = now;
        end_time = nought;
        timeout_threshold = s.config.verification_timeout_threshold;
        is_timeout = false;
      } in
      record s {
        verification_timings =
            set block_hash (get_or block_hash [] s.verification_timings ++ (timing ∷ []))
              s.verification_timings;
      }

  abbrev pub finished : (end_time : Carrier) → VerificationTiming N → VerificationTiming N
  finished end_time timing =
      let t = record timing {
        end_time = end_time;
        actual_time_seconds = sub end_time timing.start_time;
      } in
      record t { is_timeout = is_exceeding_threshold t }

  -- The last timing of the phase that is not ended gets ended.
  unfoldable pub finish_last :
      (end_time : Carrier)
      → VerificationPhase
      → List (VerificationTiming N)
      → Option (VerificationTiming N × List (VerificationTiming N))
  finish_last end_time phase [] = none
  finish_last end_time phase (timing ∷ timings) = elim (finish_last end_time phase timings) [
    | some (t, rest) ↦ some (t, timing ∷ rest)
    | none ↦
        if same_phase timing.phase phase && eq_num N timing.end_time nought
        then some (finished end_time timing, finished end_time timing ∷ timings)
        else none
  ]

  unfoldable pub end_verification_timing :
      (now : Carrier) (block_hash : String)
      → VerificationPhase
      → DynamicBlockTimeManager N
      → Option (VerificationTiming N) × DynamicBlockTimeManager N
  end_verification_timing now block_hash phase s =
      elim (finish_last now phase (get_or block_hash [] s.verification_timings)) [
        | none ↦ (none, s)
        | some (timing, timings) ↦ (
          some timing,
          record s { verification_timings = set block_hash timings s.verification_timings },
        )
      ]
