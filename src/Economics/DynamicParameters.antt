-- ===== src/Economics/DynamicParameters.antt =====
-- dessin/economics/dynamic_parameters.py: parameters of the network that block leaders move in small
-- steps. The timestamp and reason of an adjustment are left out. A float division by zero raises,
-- which here comes after the parameter is written.
pub mod History
mod Tests
use dessin.Prelude.{
  Bool, true, false, ◌||◌, Option, none, some, List, [], ◌∷◌, ◌++◌, String, if◌then◌else◌, keep_if,
}
use dessin.Prelude.Int.{ℤ}
use dessin.Dict.{Dict, get_or}
use dessin.Num.{Num, eq_num}

pub data ParameterType : Type 0 where
  block_reward storage_price training_payment : ParameterType

abbrev pub same_type : ParameterType → ParameterType → Bool
same_type block_reward block_reward = true
same_type storage_price storage_price = true
same_type training_payment training_payment = true
same_type block_reward other = false
same_type storage_price other = false
same_type training_payment other = false

module _ (N : Num) where
  open N use {Carrier, nought, add, sub, mul, div, lt, dec}

  pub record ParameterAdjustment : Type 0 where
    pub parameter_type : ParameterType
    pub block_index : ℤ
    pub block_leader : String
    pub old_value : Carrier
    pub new_value : Carrier
    pub adjustment_percent : Carrier

  -- How a call ends.
  pub data Outcome : Type 0 where
    adjusted : ParameterAdjustment → Outcome
    rejected zero_division_error : Outcome

  pub record Bounds : Type 0 where
    pub min : Carrier
    pub max : Carrier

  pub record DynamicParameterManager : Type 0 where
    pub block_reward : Carrier
    pub storage_price : Carrier
    pub training_payment : Carrier
    pub max_adjustment_percent : Carrier
    pub bounds : ParameterType → Bounds
    pub adjustment_history : List ParameterAdjustment

module _ {N : Num} where
  open N use {Carrier, nought, add, sub, mul, div, lt, dec}

  abbrev pub value : ParameterType → DynamicParameterManager N → Carrier
  value block_reward m = m.block_reward
  value storage_price m = m.storage_price
  value training_payment m = m.training_payment

  abbrev pub write_value :
      ParameterType → Carrier → DynamicParameterManager N → DynamicParameterManager N
  write_value block_reward x m = record m { block_reward = x }
  write_value storage_price x m = record m { storage_price = x }
  write_value training_payment x m = record m { training_payment = x }

  -- A step up or down.
  abbrev pub moved : Bool → Carrier → DynamicParameterManager N → Carrier
  moved increase old_value m =
      let adjustment = mul old_value m.max_adjustment_percent in
      if increase then add old_value adjustment else sub old_value adjustment

  abbrev pub out_of_bounds : ParameterType → Carrier → DynamicParameterManager N → Bool
  out_of_bounds parameter_type x m =
      lt x (m.bounds parameter_type).min || lt (m.bounds parameter_type).max x

  -- The body that `adjust_block_reward`, `adjust_storage_price` and `adjust_training_payment` share.
  unfoldable pub adjust :
      ParameterType
      → (block_index : ℤ) (block_leader : String) (increase : Bool) → DynamicParameterManager N
      → Outcome N × DynamicParameterManager N
  adjust parameter_type block_index block_leader increase m =
      let old_value = value parameter_type m in
      let new_value = moved increase old_value m in
      let t = write_value parameter_type new_value m in
      let adj : ParameterAdjustment N = record {
        parameter_type = parameter_type;
        block_index = block_index;
        block_leader = block_leader;
        old_value = old_value;
        new_value = new_value;
        adjustment_percent = mul (div (sub new_value old_value) old_value) (dec 100 0);
      } in
      if out_of_bounds parameter_type new_value m
      then (rejected, m)
      else if eq_num N old_value nought
      then (zero_division_error, t)
      else (adjusted adj, record t { adjustment_history = t.adjustment_history ++ (adj ∷ []) })

  abbrev pub adjust_block_reward :
      (block_index : ℤ) (block_leader : String) (increase : Bool)
      → DynamicParameterManager N
      → Outcome N × DynamicParameterManager N
  adjust_block_reward = adjust block_reward

  abbrev pub adjust_storage_price :
      (block_index : ℤ) (block_leader : String) (increase : Bool)
      → DynamicParameterManager N
      → Outcome N × DynamicParameterManager N
  adjust_storage_price = adjust storage_price

  abbrev pub adjust_training_payment :
      (block_index : ℤ) (block_leader : String) (increase : Bool)
      → DynamicParameterManager N
      → Outcome N × DynamicParameterManager N
  adjust_training_payment = adjust training_payment

  -- The entries of one parameter, the first ones first.
  abbrev pub of_type : ParameterType → List (ParameterAdjustment N) → List (ParameterAdjustment N)
  of_type parameter_type history =
      keep_if (λ (adj : ParameterAdjustment N). same_type adj.parameter_type parameter_type) history

module _ (N : Num) where
  open N use {Carrier, div, mul, lt, dec}

  -- `__init__`
  abbrev pub new_parameters :
      (block_reward storage_price training_payment max_adjustment_percent : Carrier)
      (bounds : ParameterType → Bounds N)
      → DynamicParameterManager N
  new_parameters reward price payment max_adjustment_percent bounds = record {
    block_reward = reward;
    storage_price = price;
    training_payment = payment;
    max_adjustment_percent = div max_adjustment_percent (dec 100 0);
    bounds = bounds;
    adjustment_history = [];
  }

  -- `none` is no change.
  unfoldable pub suggest_adjustment : ParameterType → Dict Carrier → Option Bool
  suggest_adjustment storage_price metrics =
      let utilization = get_or "storage_utilization" (dec 5 1) metrics in
      if lt (dec 8 1) utilization
      then some true
      else if lt utilization (dec 3 1)
      then some false
      else none
  suggest_adjustment block_reward metrics =
      let mining_rate = get_or "blocks_per_hour" (dec 60 0) metrics in
      let target_rate = get_or "target_blocks_per_hour" (dec 60 0) metrics in
      if lt mining_rate (mul target_rate (dec 9 1))
      then some true
      else if lt (mul target_rate (dec 11 1)) mining_rate
      then some false
      else none
  suggest_adjustment training_payment metrics =
      let training_utilization = get_or "training_utilization" (dec 5 1) metrics in
      if lt (dec 8 1) training_utilization
      then some true
      else if lt training_utilization (dec 3 1)
      then some false
      else none
