-- ===== src/Economics/DynamicParameters/Tests.antt =====
-- Runs and instances for dessin/economics/dynamic_parameters.py.
use dessin.Prelude.{◌≡◌, refl, true, false, some, List, [], ◌∷◌, length}
use dessin.Prelude.Int.{pos, ◌+ℤ◌, ◌-ℤ◌}
use dessin.Num.Units.{units-IsOrdered}
use dessin.Num.Micro.{millionths, micro}
use dessin.Dict.{get}
use dessin.Economics.DynamicParameters.{
  ParameterType, block_reward, storage_price, training_payment, Bounds, DynamicParameterManager,
  new_parameters, adjust, adjust_storage_price, rejected, suggest_adjustment,
}
use dessin.Economics.DynamicParameters.History.{Adjust, run, Tracks, run-Tracks}

abbrev bounds_of : ParameterType → Bounds micro
bounds_of block_reward = record { min = pos 100_000; max = pos 100_000_000 }
bounds_of storage_price = record { min = pos 100; max = pos 100_000 }
bounds_of training_payment = record { min = pos 100; max = pos 100_000 }

-- The storage price stands at its upper bound.
abbrev manager : DynamicParameterManager micro
manager = new_parameters micro (pos 10_000_000) (pos 100_000) (pos 1_000) (pos 100_000) bounds_of

abbrev calls : List Adjust
calls =
    record {
      parameter_type = block_reward;
      block_index = pos 1;
      block_leader = "alice";
      increase = true;
    }
    ∷ record {
      parameter_type = storage_price;
      block_index = pos 2;
      block_leader = "bob";
      increase = true;
    }
    ∷ record {
      parameter_type = block_reward;
      block_index = pos 3;
      block_leader = "bob";
      increase = false;
    }
    ∷ []

run-Tracks_example : Tracks block_reward manager (run calls manager)
run-Tracks_example = run-Tracks (units-IsOrdered millionths) block_reward calls manager refl refl

-- Up and down by a tenth of a per cent is not back.
rewards :
    ((run calls manager).block_reward ≡ pos 9_999_990)
    × ((run calls manager).storage_price ≡ pos 100_000)
    × (length (run calls manager).adjustment_history ≡ 2)
unfolding run adjust ◌-ℤ◌ ◌+ℤ◌
rewards = (refl, refl, refl)

price_at_its_bound : (adjust_storage_price (pos 2) "bob" true manager).0 ≡ rejected
unfolding adjust ◌+ℤ◌
price_at_its_bound = refl

full_storage_costs_more :
    suggest_adjustment micro storage_price (("storage_utilization", pos 900_000) ∷ []) ≡ some true
unfolding suggest_adjustment get
full_storage_costs_more = refl
