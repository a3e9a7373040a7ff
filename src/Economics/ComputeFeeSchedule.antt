-- ===== src/Economics/ComputeFeeSchedule.antt =====
-- dessin/economics/compute_fee_schedule.py: what training, uploads and storage cost. `lower` is
-- `str.lower`, `true_div` the `/` of two integers and `to_float` an integer as a float, which are `none`
-- where Python raises an `OverflowError`; the `none` of an operation is an error raised, that one or a
-- `KeyError`.
pub mod Pipelines
mod Tests
use dessin.Prelude.{
  Bool, true, false, Option, none, some, List, [], ◌∷◌, String, ◌==◌, if◌then◌else◌, from_option,
}
use dessin.Prelude.Int.{ℤ, pos, ltb_ℤ}
use dessin.Dict.{Dict, get, get_or}
use dessin.Num.{Num, max_num}

pub data TrainingPhase : Type 0 where
  pretraining full_finetune sft dpo rlhf lora qlora adapter prompt_tuning prefix_tuning
        inference_only :
      TrainingPhase

-- `phase.value`
abbrev pub phase_value : TrainingPhase → String
phase_value pretraining = "pretraining"
phase_value full_finetune = "full_finetune"
phase_value sft = "sft"
phase_value dpo = "dpo"
phase_value rlhf = "rlhf"
phase_value lora = "lora"
phase_value qlora = "qlora"
phase_value adapter = "adapter"
phase_value prompt_tuning = "prompt_tuning"
phase_value prefix_tuning = "prefix_tuning"
phase_value inference_only = "inference_only"

abbrev pub method_to_phase : Dict TrainingPhase
method_to_phase =
    ("full", full_finetune)
    ∷ ("lora", lora)
    ∷ ("qlora", qlora)
    ∷ ("prompt_tuning", prompt_tuning)
    ∷ ("prefix_tuning", prefix_tuning)
    ∷ ("adapter", adapter)
    ∷ ("p_tuning_v2", prompt_tuning)
    ∷ ("ia3", adapter)
    ∷ ("sft", sft)
    ∷ ("dpo", dpo)
    ∷ ("rlhf", rlhf)
    ∷ ("pretraining", pretraining)
    ∷ []

-- A stage of a pipeline; a key may be missing.
pub record Stage : Type 0 where
  pub method : Option String
  pub max_steps : Option ℤ

abbrev pub phase_of : (lower : String → String) → Stage → TrainingPhase
phase_of lower stage =
    get_or (lower (from_option "full" stage.method)) full_finetune method_to_phase

abbrev pub steps_of : Stage → ℤ
steps_of stage = from_option (pos 1000) stage.max_steps

-- `max(1, steps)`
abbrev pub billed_steps : ℤ → ℤ
billed_steps steps = if ltb_ℤ (pos 1) steps then steps else pos 1

module _ (N : Num) where
  open N use {Carrier, dec}

  pub record ComputeFeeSchedule : Type 0 where
    pub phase_rate_per_mb : Dict Carrier
    pub quantisation_discount : Carrier
    pub data_upload_rate_per_mb : Carrier
    pub data_storage_rate_per_mb_per_block : Carrier
    pub min_fee : Carrier

  -- `DEFAULT_PHASE_RATE_PER_MB`
  abbrev pub default_phase_rate_per_mb : Dict Carrier
  default_phase_rate_per_mb =
      ("pretraining", dec 30 4)
      ∷ ("full_finetune", dec 10 4)
      ∷ ("sft", dec 8 4)
      ∷ ("dpo", dec 12 4)
      ∷ ("rlhf", dec 20 4)
      ∷ ("lora", dec 35 5)
      ∷ ("qlora", dec 25 5)
      ∷ ("adapter", dec 30 5)
      ∷ ("prompt_tuning", dec 15 5)
      ∷ ("prefix_tuning", dec 18 5)
      ∷ ("inference_only", dec 5 5)
      ∷ []

  abbrev pub default_schedule : ComputeFeeSchedule
  default_schedule = record {
    phase_rate_per_mb = default_phase_rate_per_mb;
    quantisation_discount = dec 7 1;
    data_upload_rate_per_mb = dec 2 4;
    data_storage_rate_per_mb_per_block = dec 5 5;
    min_fee = dec 1 3;
  }

module _ {N : Num} where
  open N use {Carrier, mul}

  -- The rate of full training stands for a missing one, and is looked up in any case.
  unfoldable pub rate_of : TrainingPhase → ComputeFeeSchedule N → Option Carrier
  rate_of phase s = elim (get (phase_value full_finetune) s.phase_rate_per_mb) [
    | none ↦ none
    | some full ↦ some (get_or (phase_value phase) full s.phase_rate_per_mb)
  ]

  -- The fee by a rate and a multiplier for the steps, before the tip.
  abbrev pub fee_at :
      (rate size_mb step_multiplier : Carrier) (is_quantized : Bool)
      → ComputeFeeSchedule N
      → Carrier
  fee_at rate size_mb step_multiplier is_quantized s =
      let base = mul (mul size_mb rate) step_multiplier in
      max_num N s.min_fee (if is_quantized then mul base s.quantisation_discount else base)

  abbrev pub estimate_upload_fee : (size_mb : Carrier) → ComputeFeeSchedule N → Carrier
  estimate_upload_fee size_mb s = max_num N s.min_fee (mul size_mb s.data_upload_rate_per_mb)

  abbrev pub estimate_storage_renewal_fee :
      (to_float : ℤ → Option Carrier) (size_mb : Carrier) (blocks : ℤ)
      → ComputeFeeSchedule N
      → Option Carrier
  estimate_storage_renewal_fee to_float size_mb blocks s = elim (to_float blocks) [
    | none ↦ none
    | some b ↦ some (max_num N s.min_fee (mul (mul size_mb s.data_storage_rate_per_mb_per_block) b))
  ]

module _ {N : Num} (true_div : ℤ → ℤ → Option N.Carrier) where
  open N use {Carrier, nought, add}

  unfoldable pub estimate_training_fee :
      (size_mb : Carrier)
      → TrainingPhase
      → (steps : ℤ) (is_quantized : Bool) (tip : Carrier) → ComputeFeeSchedule N
      → Option Carrier
  estimate_training_fee size_mb phase steps is_quantized tip s = elim (rate_of phase s) [
    | none ↦ none
    | some rate ↦ elim (true_div (billed_steps steps) (pos 1000)) [
      | none ↦ none
      | some x ↦ some (add (fee_at rate size_mb x is_quantized s) tip)
    ]
  ]

  -- The fee of a stage, which has no tip.
  abbrev pub stage_fee :
      (lower : String → String) (size_mb : Carrier) (is_quantized : Bool)
      → Stage
      → ComputeFeeSchedule N
      → Option Carrier
  stage_fee lower size_mb is_quantized stage s =
      estimate_training_fee size_mb (phase_of lower stage) (steps_of stage) is_quantized nought s

  unfoldable pub sum_stages :
      (lower : String → String) (size_mb : Carrier) (is_quantized : Bool) (total : Carrier)
      → List Stage
      → ComputeFeeSchedule N
      → Option Carrier
  sum_stages lower size_mb is_quantized total [] s = some total
  sum_stages lower size_mb is_quantized total (stage ∷ stages) s =
      elim (stage_fee lower size_mb is_quantized stage s) [
        | none ↦ none
        | some fee ↦ sum_stages lower size_mb is_quantized (add total fee) stages s
      ]

  unfoldable pub estimate_pipeline_fee :
      (lower : String → String) (size_mb : Carrier)
      → List Stage
      → (is_quantized : Bool) → ComputeFeeSchedule N
      → Option Carrier
  estimate_pipeline_fee lower size_mb stages is_quantized s =
      elim (sum_stages lower size_mb is_quantized nought stages s) [
        | none ↦ none
        | some total ↦ some (max_num N s.min_fee total)
      ]
