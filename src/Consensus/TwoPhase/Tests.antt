-- ===== src/Consensus/TwoPhase/Tests.antt =====
-- Runs and instances for dessin/consensus/two_phase_verification.py.
use dessin.Prelude.{◌≡◌, ◌⊎◌, refl, true, none, some, [], ◌∷◌, arith}
use dessin.Prelude.Int.{pos, ◌+ℤ◌, ◌-ℤ◌, ◌≤ℤ◌, ◌<ℤ◌}
use dessin.Num.Micro.{micro}
use dessin.Dict.{get}
use dessin.Consensus.TwoPhase.{
  ConsensusConfig, TwoPhaseVerificationSystem, new_verification, get_current_phase,
  completion_block_exclusive_of, phase_start_block_inclusive_of, should_start_phase,
}
use dessin.Consensus.TwoPhase.VerificationPhase.{phase1, phase2, finalization}
use dessin.Consensus.TwoPhase.Phases.{get_current_phase_window}
use dessin.Consensus.TwoPhase.Timing.{timing_of, is_phase_complete}

abbrev config : ConsensusConfig micro
config = record {
  phase1_window_blocks = pos 3;
  phase2_window_blocks = pos 3;
  finalization_window = pos 10;
  min_loss_improvement = pos 10;
  training_block_time_minutes = pos 2_000_000;
  verification_block_time_minutes = pos 1_000_000;
  verification_phase_completion_in_blocks = true;
}

get_current_phase_window_example :
    let p = get_current_phase (pos 15) (pos 10) config in
    (phase_start_block_inclusive_of p (pos 10) config ≤ℤ pos 15)
    × ((pos 15 <ℤ completion_block_exclusive_of p (pos 10) config) ⊎ (p ≡ finalization))
get_current_phase_window_example = get_current_phase_window (pos 15) (pos 10) config (omega arith)

block15_phase : get_current_phase (pos 15) (pos 10) config ≡ phase2
unfolding get_current_phase ◌-ℤ◌ ◌+ℤ◌
block15_phase = refl

block14_starts : should_start_phase (pos 14) (pos 10) config ≡ true
unfolding should_start_phase get_current_phase ◌-ℤ◌ ◌+ℤ◌
block14_starts = refl

-- One block whose phase 1 started at block 11, and one verifier's object.
abbrev started : TwoPhaseVerificationSystem micro
started = record (new_verification micro config) {
  phase_timings =
      ("b", timing_of (λ x. x) (pos 0) phase1 (pos 10) (pos 11) (new_verification micro config))
      ∷ [];
  phase1_data =
      record {
        block_hash = "b";
        quantized_model_hash = "q";
        verification_dataset_hash = "v";
        expected_loss_improvement = pos 10;
        verifier_address = "carol";
        verification_result = none;
        actual_loss_improvement = none;
        evidence = none;
      }
      ∷ [];
}

-- The phase is complete all the same.
silent_phase_complete : is_phase_complete (pos 99) "b" (some (pos 14)) started ≡ true
unfolding is_phase_complete get completion_block_exclusive_of ◌+ℤ◌
silent_phase_complete = refl
