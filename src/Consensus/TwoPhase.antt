-- ===== src/Consensus/TwoPhase.antt =====
-- dessin/consensus/two_phase_verification.py: the phases of a training block, their timing, and the
-- verdicts of the verifiers. `now` stands for `time.time()`, `ceil` for `math.ceil`. A verdict object
-- is shared between its caller and the lists of the system, and `submit_*` writes to it: the objects
-- stand in the state, and a reference is a position there.
pub mod Phases
pub mod Timing
pub mod Verdicts
pub mod Counts
mod Tests
use dessin.Prelude.{
  ℕ, zero, suc, ◌+◌, Bool, true, false, not, ◌&&◌, ◌||◌, Option, none, some, List, [], ◌∷◌, ◌++◌,
  String, if◌then◌else◌, length, get_elem?,
}
use dessin.Prelude.Int.{ℤ, pos, ◌+ℤ◌, ◌-ℤ◌, leb_ℤ, ltb_ℤ, eq_ℤ}
use dessin.Dict.{Dict, get, get_or, set, del, contains}
use dessin.Num.{Num, min_num, max_num}

pub data VerificationPhase : Type 0 where
  training phase1 phase2 finalization : VerificationPhase

module _ (N : Num) where
  open N use {Carrier, nought, sub, add, mul, div, lt, le, of_int, dec}

  -- What the system reads of a `ConsensusConfig`.
  pub record ConsensusConfig : Type 0 where
    pub phase1_window_blocks : ℤ
    pub phase2_window_blocks : ℤ
    pub finalization_window : ℤ
    pub min_loss_improvement : Carrier
    pub training_block_time_minutes : Carrier
    pub verification_block_time_minutes : Carrier
    pub verification_phase_completion_in_blocks : Bool

  pub record PhaseTiming : Type 0 where
    pub block_index : ℤ
    pub phase : VerificationPhase
    pub start_time : Carrier
    pub end_time : Carrier
    pub block_time_seconds : Carrier
    pub is_active : Bool
    pub training_block_index : Option ℤ
    pub completion_block_exclusive : Option ℤ
    pub phase_start_block_inclusive : Option ℤ

  pub record Phase1VerificationData : Type 0 where
    pub block_hash : String
    pub quantized_model_hash : String
    pub verification_dataset_hash : String
    pub expected_loss_improvement : Carrier
    pub verifier_address : String
    pub verification_result : Option Bool
    pub actual_loss_improvement : Option Carrier
    pub evidence : Option String

  pub record Phase2VerificationData : Type 0 where
    pub block_hash : String
    pub merkle_root : String
    pub random_seed : String
    pub leaf_indices : List ℕ
    pub leaf_data : List String
    pub proof_hashes : List (List String)
    pub verifier_address : String
    pub verification_result : Option Bool
    pub evidence : Option String

  pub record TwoPhaseVerificationSystem : Type 0 where
    pub config : ConsensusConfig
    pub phase_timings : Dict PhaseTiming
    pub phase1_verifications : Dict (List ℕ)
    pub phase2_verifications : Dict (List ℕ)
    pub phase1_data : List Phase1VerificationData
    pub phase2_data : List Phase2VerificationData

  abbrev pub new_verification : ConsensusConfig → TwoPhaseVerificationSystem
  new_verification config = record {
    config = config;
    phase_timings = [];
    phase1_verifications = [];
    phase2_verifications = [];
    phase1_data = [];
    phase2_data = [];
  }

module _ {N : Num} where
  open N use {Carrier, nought, sub, add, mul, div, lt, le, of_int, dec}

  unfoldable pub get_current_phase :
      (block_index training_block_index : ℤ) → ConsensusConfig N → VerificationPhase
  get_current_phase block_index training_block_index c =
      let blocks_since_training = block_index -ℤ training_block_index in
      let phase1_end = c.phase1_window_blocks in
      let phase2_end = phase1_end +ℤ c.phase2_window_blocks in
      let finalization_end = c.finalization_window in
      if eq_ℤ blocks_since_training (pos 0)
      then training
      else if leb_ℤ blocks_since_training phase1_end
      then phase1
      else if leb_ℤ blocks_since_training phase2_end
      then phase2
      else if leb_ℤ blocks_since_training finalization_end
      then finalization
      else finalization

  unfoldable pub get_block_time_for_phase :
      (ceil : Carrier → Carrier) → VerificationPhase → ConsensusConfig N → Carrier
  get_block_time_for_phase ceil phase c =
      let seconds : Carrier → Carrier = λ minutes. ceil (sub (mul minutes (dec 60 0)) (dec 1 9)) in
      let train_sec = seconds c.training_block_time_minutes in
      elim phase [
        | training ↦ train_sec
        | _ ↦
            if c.verification_phase_completion_in_blocks
            then train_sec
            else seconds c.verification_block_time_minutes
      ]

  unfoldable pub completion_block_exclusive_of : VerificationPhase → ℤ → ConsensusConfig N → ℤ
  completion_block_exclusive_of training t c = t +ℤ pos 1
  completion_block_exclusive_of phase1 t c = t +ℤ c.phase1_window_blocks +ℤ pos 1
  completion_block_exclusive_of phase2 t c =
      t +ℤ c.phase1_window_blocks +ℤ c.phase2_window_blocks +ℤ pos 1
  completion_block_exclusive_of finalization t c = t +ℤ c.finalization_window +ℤ pos 1

  unfoldable pub phase_start_block_inclusive_of : VerificationPhase → ℤ → ConsensusConfig N → ℤ
  phase_start_block_inclusive_of training t c = t
  phase_start_block_inclusive_of phase1 t c = t +ℤ pos 1
  phase_start_block_inclusive_of phase2 t c = t +ℤ c.phase1_window_blocks +ℤ pos 1
  phase_start_block_inclusive_of finalization t c =
      t +ℤ c.phase1_window_blocks +ℤ c.phase2_window_blocks +ℤ pos 1

  unfoldable pub should_start_phase :
      (block_index training_block_index : ℤ) → ConsensusConfig N → Bool
  should_start_phase block_index training_block_index c =
      let blocks_since_training = block_index -ℤ training_block_index in
      elim (get_current_phase block_index training_block_index c) [
        | training ↦ false
        | phase1 ↦ eq_ℤ blocks_since_training (pos 1)
        | phase2 ↦ eq_ℤ blocks_since_training (c.phase1_window_blocks +ℤ pos 1)
        | finalization ↦
            eq_ℤ blocks_since_training (c.phase1_window_blocks +ℤ c.phase2_window_blocks +ℤ pos 1)
      ]
