-- ===== src/Economics/ComputeFeeSchedule/Pipelines.antt =====
-- dessin/economics/compute_fee_schedule.py: the fee of a pipeline against those of its stages.
use dessin.Prelude.{
  ◌≡◌, refl, Bool, true, Option, some, List, [], ◌∷◌, String, All, All-map, arith, if◌then◌else◌,
}
use dessin.Prelude.Int.{ℤ, pos}
use dessin.Dict.{get, get_or}
use dessin.Num.{Num, IsOrdered, max_num}
use dessin.Economics.ComputeFeeSchedule.{
  Stage, ComputeFeeSchedule, rate_of, fee_at, billed_steps, estimate_training_fee, stage_fee,
  sum_stages, estimate_pipeline_fee, phase_value, phase_of, steps_of, full_finetune,
}

-- A sum with what is not negative is not less, on either side.
pub record IsGrowing (N : Num) : Type 0 where
  pub add_left : (x y : N.Carrier) → N.le N.nought y ≡ true → N.le x (N.add x y) ≡ true
  pub add_right : (x y : N.Carrier) → N.le N.nought x ≡ true → N.le y (N.add x y) ≡ true

module _ {N : Num} (o : IsOrdered N) (w : IsGrowing N) where
  open N use {Carrier, nought, add, le}

  max_left : (a b : Carrier) → le a (max_num N a b) ≡ true
  max_left a b = ground (arith, o.le_refl a, o.lt-eq-not-le a b, o.le_total a b)

  max_right : (a b : Carrier) → le b (max_num N a b) ≡ true
  max_right a b = ground (arith, o.le_refl b, o.lt-eq-not-le a b, o.le_total a b)

  module _ (true_div : ℤ → ℤ → Option Carrier) (lower : String → String) (size_mb : Carrier)
      (is_quantized : Bool) (s : ComputeFeeSchedule N) where
    -- The stage has a fee, at least the minimum and at most `f`.
    abbrev pub IsCovered : (f : Carrier) → Stage → Type 0
    IsCovered f stage =
        (g : Carrier) × (stage_fee true_div lower size_mb is_quantized stage s ≡ some g)
        × (le s.min_fee g ≡ true)
        × (le g f ≡ true)

    -- A thousandth of the steps of the stage is a float.
    abbrev pub IsFloat : Stage → Type 0
    IsFloat stage = (x : Carrier) × (true_div (billed_steps (steps_of stage)) (pos 1000) ≡ some x)

    stage_fee-some :
        (full : Carrier) (stage : Stage)
        → IsFloat stage
        → get (phase_value full_finetune) s.phase_rate_per_mb ≡ some full
        → le nought s.min_fee ≡ true
        → (g : Carrier) × (stage_fee true_div lower size_mb is_quantized stage s ≡ some g)
          × (le s.min_fee g ≡ true)
    unfolding estimate_training_fee rate_of
    stage_fee-some full stage (x, divided) known nonneg =
        let phase = phase_of lower stage in
        let rate = get_or (phase_value phase) full s.phase_rate_per_mb in
        let found : rate_of phase s ≡ some rate = rw (known, rate_of) refl in
        let fee = fee_at rate size_mb x is_quantized s in
        let by_size = N.mul (N.mul size_mb rate) x in
        (
          add fee nought,
          rw (found, estimate_training_fee, divided) refl,
          o.le_trans s.min_fee fee (add fee nought)
              (max_left s.min_fee
                (if is_quantized then N.mul by_size s.quantisation_discount else by_size))
              (w.add_left fee nought (o.le_refl nought)),
        )

    sum_stages-IsCovered :
        (full : Carrier) (total : Carrier) (stages : List Stage)
        → All IsFloat stages
        → get (phase_value full_finetune) s.phase_rate_per_mb ≡ some full
        → le nought s.min_fee ≡ true
        → le nought total ≡ true
        → (f : Carrier) × (sum_stages true_div lower size_mb is_quantized total stages s ≡ some f)
          × (le total f ≡ true)
          × All (IsCovered f) stages
    unfolding sum_stages
    sum_stages-IsCovered full total [] floats known nonneg begun =
        (total, refl, o.le_refl total, tt)
    sum_stages-IsCovered full total (stage ∷ stages) floats known nonneg begun =
        let (g, fee, least) = stage_fee-some full stage floats.0 known nonneg in
        let g_nonneg = o.le_trans nought s.min_fee g nonneg least in
        let (f, sum, above, covered) =
          sum_stages-IsCovered full (add total g) stages floats.1 known nonneg
            (o.add_nonneg total g begun g_nonneg) in
        (
          f,
          rw (fee, sum_stages) sum,
          o.le_trans total (add total g) f (w.add_left total g g_nonneg) above,
          (
            (g, fee, least, o.le_trans g (add total g) f (w.add_right total g begun) above),
            covered,
          ),
        )

    -- With a rate for full training and a minimum that is not negative, every pipeline whose stages have
    -- a thousandth of their steps in the range of the floats has a fee, which is at least the minimum,
    -- and so is the fee of each of its stages, which is at most that of the pipeline: no method of a
    -- stage raises an error. For an ordered type of numbers whose sums grow with what is not negative.
    pub estimate_pipeline_fee-IsCovered :
        (full : Carrier) (stages : List Stage)
        → All IsFloat stages
        → get (phase_value full_finetune) s.phase_rate_per_mb ≡ some full
        → le nought s.min_fee ≡ true
        → (f : Carrier) × (estimate_pipeline_fee true_div lower size_mb stages is_quantized s
            ≡ some f)
          × (le s.min_fee f ≡ true)
          × All (IsCovered f) stages
    unfolding estimate_pipeline_fee
    estimate_pipeline_fee-IsCovered full stages floats known nonneg =
        let (total, sum, above, covered) =
          sum_stages-IsCovered full nought stages floats known nonneg (o.le_refl nought) in
        let f = max_num N s.min_fee total in
        (
          f,
          rw (sum, estimate_pipeline_fee) refl,
          max_left s.min_fee total,
          All-map stages
              (λ stage (g, fee, least, below).
                (g, fee, least, o.le_trans g total f below (max_right s.min_fee total)))
              covered,
        )
