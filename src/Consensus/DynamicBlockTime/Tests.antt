-- ===== src/Consensus/DynamicBlockTime/Tests.antt =====
-- Runs and instances for dessin/consensus/dynamic_block_time.py.
use dessin.Prelude.{◌≡◌, refl, true, some, none, List, [], ◌∷◌, arith, ◌+◌, ◌/◌, ap, ◌∙◌}
use dessin.Prelude.Int.{ℤ, pos, negsuc, ◌+ℤ◌, ◌-ℤ◌, leb_ℤ, sub_ℕ, int_laws}
use dessin.Num.Units.{units-IsOrdered}
use dessin.Num.Micro.{millionths, micro}
use dessin.Dict.{get, set}
use dessin.Consensus.TwoPhase.{phase1}
use dessin.Consensus.DynamicBlockTime.{
  BlockTimeConfig, DynamicBlockTimeManager, BlockTimeAdjustmentProposal, increase, maintain,
  is_valid, new_block_time, end_verification_timing, finish_last, start_verification_timing,
  is_within, whole_seconds_ceil, bound_clamp_seconds, clamp_block_time_seconds,
}
use dessin.Consensus.DynamicBlockTime.Proposals.{analyze_verification_performance, wanted, cut_off}
use dessin.Consensus.DynamicBlockTime.Bounds.{IsCeil}
use dessin.Consensus.DynamicBlockTime.Direction.{Moves, analyze_verification_performance-Moves}
use dessin.Consensus.DynamicBlockTime.Runs.{
  Call, start, end, adapt, propose, vote, apply_approved, run, InBounds, new_block_time-run, step,
}

-- A billionth is nothing in millionths.
abbrev ceil : ℤ → ℤ
ceil (pos n) = pos ((n + 999_999) / 1_000_000)
ceil (negsuc n) = sub_ℕ 0 ((n + 1) / 1_000_000)

ceil-le : (x y : ℤ) → leb_ℤ x y ≡ true → leb_ℤ (ceil x) (ceil y) ≡ true
ceil-le x y below = ground arith

sub_nought : (x : ℤ) → x -ℤ pos 0 ≡ x
sub_nought x = omega int_laws

micro-IsCeil : IsCeil micro ceil
micro-IsCeil = record {
  of_int-le = λ m n. ground arith;
  ceil-le = λ x y below. rw (sub_nought x, sub_nought y) (ceil-le x y below);
  ceil-of_int = λ n. ap ceil (sub_nought _) ∙ ground arith;
}

abbrev config : BlockTimeConfig micro
config = record {
  enable_dynamic_block_time = true;
  min_block_time_seconds = pos 15;
  max_block_time_seconds = pos 120;
  block_time_adjustment_seconds = pos 10;
  verification_timeout_threshold = pos 500_000;
  training_block_time_minutes = pos 1_950_000;
  block_time_ramp_up_capacity_pct = pos 50_000;
  block_time_ramp_down_capacity_pct = pos 150_000;
  block_time_slack_step_multiplier = pos 1_450_000;
  block_time_stress_step_multiplier = pos 550_000;
}

-- A phase that takes ten minutes.
abbrev calls : List (Call micro)
calls =
    start (pos 1_000_000) "b" phase1
    ∷ end (pos 601_000_000) "b" phase1
    ∷ propose (pos 602_000_000) "b" "alice"
    ∷ vote "b" true
    ∷ apply_approved "b"
    ∷ adapt (pos 200_000_000) none
    ∷ []

new_block_time-run_example :
    InBounds config (run ceil calls (new_block_time ceil (pos 40_000_000) config))
new_block_time-run_example =
    new_block_time-run (units-IsOrdered millionths) micro-IsCeil (pos 40_000_000) config calls

-- Of 117 seconds, the proposal makes 120, and says that it maintains the block time.
maintained_but_longer :
    let s =
      run ceil
        (start (pos 1_000_000) "b" phase1 ∷ end (pos 601_000_000) "b" phase1 ∷ [])
        (new_block_time ceil (pos 40_000_000) config) in
    analyze_verification_performance ceil (pos 2) (pos 1_000_000) "b" s
    ≡ some (record {
      adjustment_type = maintain;
      current_block_time_seconds = pos 117_000_000;
      proposed_block_time_seconds = pos 120_000_000;
      timestamp = pos 2;
      proposer = "dynamic_block_time_manager";
    })
unfolding analyze_verification_performance run step end_verification_timing finish_last get
    start_verification_timing set is_within whole_seconds_ceil ◌-ℤ◌ bound_clamp_seconds wanted
    clamp_block_time_seconds ◌+ℤ◌ cut_off
maintained_but_longer = refl

-- The manager after the phase that took ten minutes.
abbrev stressed : DynamicBlockTimeManager micro
stressed = record (new_block_time ceil (pos 40_000_000) config) {
  current_block_time_seconds = pos 60_000_000;
  verification_timings =
      (
        "b",
        record {
          phase = phase1;
          allocated_time_seconds = pos 35_100_000;
          actual_time_seconds = pos 600_000_000;
          start_time = pos 1_000_000;
          end_time = pos 601_000_000;
          timeout_threshold = pos 500_000;
          is_timeout = true;
        }
            ∷ [],
      )
      ∷ [];
}

abbrev longer_slot : BlockTimeAdjustmentProposal micro
longer_slot = record {
  adjustment_type = increase;
  current_block_time_seconds = pos 60_000_000;
  proposed_block_time_seconds = pos 66_000_000;
  timestamp = pos 2;
  proposer = "dynamic_block_time_manager";
}

analyze_verification_performance-Moves_example :
    (is_valid config longer_slot ≡ true)
    × Moves micro longer_slot.adjustment_type
        (pos 60_000_000)
        longer_slot.proposed_block_time_seconds
unfolding analyze_verification_performance ◌+ℤ◌ ◌-ℤ◌ get is_within whole_seconds_ceil
    bound_clamp_seconds wanted cut_off
analyze_verification_performance-Moves_example =
    analyze_verification_performance-Moves (units-IsOrdered millionths) micro-IsCeil (pos 2)
      (pos 1_000_000) "b" stressed longer_slot refl (pos 60, refl, refl, refl)
      (record { longer = refl; shorter = refl }) refl
