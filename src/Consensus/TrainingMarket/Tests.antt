-- ===== src/Consensus/TrainingMarket/Tests.antt =====
-- Runs and instances for dessin/consensus/training_market.py.
use dessin.Prelude.{◌≡◌, refl, true, none, [], ◌∷◌, arith, String, ℕ, map, All, length}
use dessin.Prelude.Int.{ℤ, pos, ◌+ℤ◌, ◌≤ℤ◌, ◌-ℤ◌}
use dessin.Num.Micro.{millionths, micro}
use dessin.Num.Units.{units-IsOrdered}
use dessin.Dict.{get}
use dessin.Consensus.TrainingMarket.{
  TrainingMarket, TrainingMarketConfig, TrainingTaskSpec, new_market, is_eligible, max_ℤ, is_seen,
  select_tasks_for_block, finalize_block, model_in_cooldown, slots_allowed, pack, sort_reverse,
  insert, effective_tip, urgency_multiplier,
}
use dessin.Consensus.TrainingMarket.Packing.{IsOnePerModel}
use dessin.Consensus.TrainingMarket.Selection.{
  IsDue, select_tasks_for_block_sound, select_tasks_for_block_complete,
}
use dessin.Consensus.TrainingMarket.BaseFee.{finalize_block_bounds}

abbrev config : TrainingMarketConfig micro
config = record {
  max_tasks_per_block = pos 4;
  initial_base_fee = pos 10_000;
  min_base_fee = pos 1_000;
  max_base_fee = pos 1_000_000_000;
  min_tip = pos 0;
  target_utilization = pos 500_000;
  base_fee_change_rate = pos 125_000;
  urgency_rate = pos 100_000;
  urgency_cap = pos 5_000_000;
  default_cooldown_blocks = pos 5;
  max_cooldown_blocks = pos 100;
}

abbrev task : String → String → ℤ → TrainingTaskSpec micro
task id model tip = record {
  task_id = id;
  model_id = model;
  owner = "alice";
  deposit = pos 9_000_000;
  base_fee = pos 20_000;
  tip = tip;
  cooldown_blocks = pos 5;
  max_slots = pos 1;
  submitted_block = pos 1;
  expiry_block = pos 200;
}

-- Two tasks of one model, and one of another.
abbrev market : TrainingMarket micro
market = record (new_market micro config) {
  pending =
      ("t1", task "t1" "m" (pos 1_000_000))
      ∷ ("t2", task "t2" "m" (pos 3_000_000))
      ∷ ("t3", task "t3" "n" (pos 2_000_000))
      ∷ [];
}

abbrev ties : String → ℕ
ties id = 0

select_tasks_for_block_sound_example :
    let slots = select_tasks_for_block ties (pos 3) none market in
    All (IsDue (pos 3) market) slots
    × IsOnePerModel slots
    × (pos (length slots) ≤ℤ max_ℤ (pos 0) (slots_allowed none market))
unfolding get
select_tasks_for_block_sound_example =
    select_tasks_for_block_sound ties (pos 3) none market (refl, (refl, (refl, tt)))

-- The better task of model "m" goes first, and the other waits.
best_first :
    map (λ slot. slot.task_id) (select_tasks_for_block ties (pos 3) none market) ≡ "t2" ∷ "t3" ∷ []
unfolding select_tasks_for_block pack sort_reverse model_in_cooldown get insert effective_tip
    urgency_multiplier ◌+ℤ◌ ◌-ℤ◌ is_seen
best_first = refl

two_slots : length (select_tasks_for_block ties (pos 3) none market) ≡ 2
unfolding select_tasks_for_block pack sort_reverse model_in_cooldown get insert effective_tip
    urgency_multiplier ◌+ℤ◌ ◌-ℤ◌ is_seen
two_slots = refl

t1_eligible : is_eligible (pos 3) market (task "t1" "m" (pos 1_000_000)) ≡ true
unfolding model_in_cooldown get
t1_eligible = refl

select_tasks_for_block_complete_example :
    is_seen "m" (map (λ slot. slot.model_id) (select_tasks_for_block ties (pos 3) none market))
    ≡ true
unfolding get
select_tasks_for_block_complete_example =
    select_tasks_for_block_complete ties (pos 3) none market "t1" (task "t1" "m" (pos 1_000_000))
      refl t1_eligible (omega (arith, two_slots))

finalize_block_bounds_example :
    let t = finalize_block (select_tasks_for_block ties (pos 3) none market) (pos 3) market in
    (micro.le config.min_base_fee t.base_fee ≡ true)
    × (micro.le t.base_fee config.max_base_fee ≡ true)
finalize_block_bounds_example =
    finalize_block_bounds (units-IsOrdered millionths)
      (select_tasks_for_block ties (pos 3) none market) (pos 3) market refl refl
