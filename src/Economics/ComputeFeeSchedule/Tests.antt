-- ===== src/Economics/ComputeFeeSchedule/Tests.antt =====
-- Runs and instances for dessin/economics/compute_fee_schedule.py.
use dessin.Prelude.{
  ◌≡◌, refl, false, true, Option, some, none, if◌then◌else◌, List, [], ◌∷◌, String, All, arith,
}
use dessin.Prelude.Int.{ℤ, pos, ◌+ℤ◌, +ℤ_parts, leb_ℤ, ltb_ℤ}
use dessin.Num.Units.{units-IsOrdered}
use dessin.Num.Micro.{millionths, micro}
use dessin.Dict.{get}
use dessin.Economics.ComputeFeeSchedule.{
  Stage, default_schedule, estimate_pipeline_fee, estimate_training_fee, rate_of, sum_stages,
}
use dessin.Economics.ComputeFeeSchedule.Pipelines.{
  IsGrowing, IsCovered, estimate_pipeline_fee-IsCovered,
}

micro-IsGrowing : IsGrowing micro
micro-IsGrowing = record {
  add_left = λ x y h. ground (arith, +ℤ_parts x y);
  add_right = λ x y h. ground (arith, +ℤ_parts x y);
}

abbrev lower : String → String
lower text = text

-- Integers of a billion and more have no float here.
abbrev true_div : ℤ → ℤ → Option ℤ
true_div x y =
    if ltb_ℤ x (pos 1_000_000_000) then some (micro.div (micro.of_int x) (micro.of_int y)) else none

-- Adapters for 2000 steps, then a method that nobody knows.
abbrev stages : List Stage
stages =
    record { method = some "lora"; max_steps = some (pos 2000) }
    ∷ record { method = some "evolution"; max_steps = none }
    ∷ []

estimate_pipeline_fee-IsCovered_example :
    (f : ℤ) × (estimate_pipeline_fee true_div lower
        (pos 100_000_000)
        stages
        false
        (default_schedule micro)
      ≡ some f)
    × (leb_ℤ (pos 1_000) f ≡ true)
    × All
        (IsCovered
          (units-IsOrdered millionths)
          micro-IsGrowing
          true_div
          lower
          (pos 100_000_000)
          false
          (default_schedule micro)
          f)
        stages
unfolding get
estimate_pipeline_fee-IsCovered_example =
    estimate_pipeline_fee-IsCovered (units-IsOrdered millionths) micro-IsGrowing true_div lower
      (pos 100_000_000) false (default_schedule micro) (pos 1_000) stages
      ((_, refl), ((_, refl), tt)) refl refl

-- The adapters are billed 0.07, the unknown method as full training, 0.1.
fee_of_the_pipeline :
    estimate_pipeline_fee true_div lower (pos 100_000_000) stages false (default_schedule micro)
    ≡ some (pos 170_000)
unfolding estimate_pipeline_fee sum_stages estimate_training_fee rate_of get ◌+ℤ◌
fee_of_the_pipeline = refl
