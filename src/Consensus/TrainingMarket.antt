-- ===== src/Consensus/TrainingMarket.antt =====
-- dessin/consensus/training_market.py: the market of training tasks. `tiebreak` stands for
-- `_vrf_tiebreak` at the seed of the block, a hash of the task's id. Reasons for a refusal are
-- constructors in place of texts.
pub mod Packing
pub mod Selection
pub mod Cooldown
pub mod BaseFee
mod Tests
use dessin.Prelude.{
  ℕ, zero, suc, ◌+◌, Bool, true, false, not, ◌&&◌, ◌||◌, Option, none, some, List, [], ◌∷◌, String,
  ◌==◌, ltb, if◌then◌else◌, length, keep_if,
}
use dessin.Prelude.Int.{ℤ, pos, ◌+ℤ◌, ◌-ℤ◌, leb_ℤ, ltb_ℤ, eq_ℤ}
use dessin.Dict.{Dict, get, get_or, set, del, contains, values}
use dessin.Num.{Num, min_num, max_num, eq_num}

-- `min(a, b)` and `max(a, b)` of two `int`s
abbrev pub min_ℤ : ℤ → ℤ → ℤ
min_ℤ a b = if ltb_ℤ b a then b else a

abbrev pub max_ℤ : ℤ → ℤ → ℤ
max_ℤ a b = if ltb_ℤ a b then b else a

pub data Reason : Type 0 where
  accepted low_base_fee low_tip low_deposit duplicate in_cooldown : Reason
  cancelled not_found not_owner : Reason

module _ (N : Num) where
  open N use {Carrier, nought, add, sub, mul, div, lt, le, of_int, dec}

  pub record TrainingMarketConfig : Type 0 where
    pub max_tasks_per_block : ℤ
    pub initial_base_fee : Carrier
    pub min_base_fee : Carrier
    pub max_base_fee : Carrier
    pub min_tip : Carrier
    pub target_utilization : Carrier
    pub base_fee_change_rate : Carrier
    pub urgency_rate : Carrier
    pub urgency_cap : Carrier
    pub default_cooldown_blocks : ℤ
    pub max_cooldown_blocks : ℤ

  pub record TrainingTaskSpec : Type 0 where
    pub task_id : String
    pub model_id : String
    pub owner : String
    pub deposit : Carrier
    pub base_fee : Carrier
    pub tip : Carrier
    pub cooldown_blocks : ℤ
    pub max_slots : ℤ
    pub submitted_block : ℤ
    pub expiry_block : ℤ

  pub record ScheduledTrainingSlot : Type 0 where
    pub task_id : String
    pub model_id : String
    pub owner : String
    pub tip_paid : Carrier
    pub base_fee_burned : Carrier

  pub record TrainingMarket : Type 0 where
    pub config : TrainingMarketConfig
    pub base_fee : Carrier
    pub cooldowns : Dict ℤ
    pub pending : Dict TrainingTaskSpec
    pub last_block_slots_used : ℕ
    pub last_block_height : ℤ

  abbrev pub new_market : TrainingMarketConfig → TrainingMarket
  new_market config = record {
    config = config;
    base_fee = config.initial_base_fee;
    cooldowns = [];
    pending = [];
    last_block_slots_used = 0;
    last_block_height = pos 0;
  }

-- `model_id in seen_models`
unfoldable pub is_seen : String → List String → Bool
is_seen m [] = false
is_seen m (n ∷ ns) = (n == m) || is_seen m ns

module _ {N : Num} where
  open N use {Carrier, nought, add, sub, mul, div, lt, le, of_int, dec}

  -- `_model_in_cooldown`
  unfoldable pub model_in_cooldown : String → ℤ → TrainingMarket N → Bool
  model_in_cooldown model_id current_block s =
      ltb_ℤ current_block (get_or model_id (pos 0) s.cooldowns)

  unfoldable pub urgency_multiplier : TrainingTaskSpec N → ℤ → TrainingMarketConfig N → Carrier
  urgency_multiplier task current_block c =
      let blocks_waiting = max_ℤ (pos 0) (current_block -ℤ task.submitted_block) in
      min_num N (add (dec 1 0) (mul (of_int blocks_waiting) c.urgency_rate)) c.urgency_cap

  -- `_effective_tip`
  unfoldable pub effective_tip : TrainingTaskSpec N → ℤ → TrainingMarketConfig N → Carrier
  effective_tip task current_block c = mul task.tip (urgency_multiplier task current_block c)

  unfoldable pub submit_task :
      TrainingTaskSpec N → ℤ → TrainingMarket N → (Bool × Reason) × TrainingMarket N
  submit_task task current_block s =
      if lt task.base_fee s.base_fee
      then ((false, low_base_fee), s)
      else if lt task.tip s.config.min_tip
      then ((false, low_tip), s)
      else if lt task.deposit (add task.base_fee task.tip)
      then ((false, low_deposit), s)
      else if contains task.task_id s.pending
      then ((false, duplicate), s)
      else if model_in_cooldown task.model_id current_block s
      then ((false, in_cooldown), s)
      else ((true, accepted), record s { pending = set task.task_id task s.pending })

  unfoldable pub cancel_task :
      (task_id owner : String) → TrainingMarket N → (Bool × Reason) × TrainingMarket N
  cancel_task task_id owner s = elim (get task_id s.pending) [
    | none ↦ ((false, not_found), s)
    | some task ↦
        if not (task.owner == owner)
        then ((false, not_owner), s)
        else ((true, cancelled), record s { pending = del task_id s.pending })
  ]

  abbrev pub is_eligible : ℤ → TrainingMarket N → TrainingTaskSpec N → Bool
  is_eligible current_block s t =
      not (model_in_cooldown t.model_id current_block s) && ltb_ℤ current_block t.expiry_block

  -- `_sort_key(a) < _sort_key(b)`, on tuples
  abbrev pub key_lt :
      (tiebreak : String → ℕ) → ℤ → TrainingMarketConfig N → (a b : TrainingTaskSpec N) → Bool
  key_lt tiebreak current_block c a b =
      let x = effective_tip a current_block c in
      let y = effective_tip b current_block c in
      if eq_num N x y then ltb (tiebreak a.task_id) (tiebreak b.task_id) else lt x y

  abbrev pub slot_of : TrainingTaskSpec N → ScheduledTrainingSlot N
  slot_of t = record {
    task_id = t.task_id;
    model_id = t.model_id;
    owner = t.owner;
    tip_paid = t.tip;
    base_fee_burned = t.base_fee;
  }

  -- The loop of `select_tasks_for_block`.
  unfoldable pub pack :
      (max_slots : ℤ) (slots_used : ℕ) (seen_models : List String)
      → List (TrainingTaskSpec N)
      → List (ScheduledTrainingSlot N)
  pack max_slots slots_used seen [] = []
  pack max_slots slots_used seen (t ∷ ts) = elim (leb_ℤ max_slots (pos slots_used)) [
    | true ↦ []
    | false ↦ elim (is_seen t.model_id seen) [
      | true ↦ pack max_slots slots_used seen ts
      | false ↦ slot_of t ∷ pack max_slots (suc slots_used) (t.model_id ∷ seen) ts
    ]
  ]

-- `list.sort(key=..., reverse=True)`: the greatest first, and equal ones in the order they had. `below`
-- compares the keys.
module _ {A : Type 0} (below : A → A → Bool) where
  unfoldable pub insert : A → List A → List A
  insert x [] = x ∷ []
  insert x (y ∷ ys) = let rest = insert x ys in if below x y then y ∷ rest else x ∷ y ∷ ys

  unfoldable pub sort_reverse : List A → List A
  sort_reverse [] = []
  sort_reverse (x ∷ xs) = insert x (sort_reverse xs)

module _ {N : Num} where
  open N use {Carrier, nought, add, sub, mul, div, lt, le, of_int, dec}

  abbrev pub slots_allowed : Option ℤ → TrainingMarket N → ℤ
  slots_allowed none s = s.config.max_tasks_per_block
  slots_allowed (some n) s = n

  unfoldable pub select_tasks_for_block :
      (tiebreak : String → ℕ) (current_block : ℤ) (max_slots : Option ℤ)
      → TrainingMarket N
      → List (ScheduledTrainingSlot N)
  select_tasks_for_block tiebreak current_block max_slots s =
      let eligible = keep_if (is_eligible current_block s) (values s.pending) in
      pack (slots_allowed max_slots s) 0 []
        (sort_reverse (key_lt tiebreak current_block s.config) eligible)

  -- `change_factor` of `_adjust_base_fee`
  abbrev pub change_factor : (slots_used : ℕ) (max_slots : ℤ) → TrainingMarketConfig N → Carrier
  change_factor slots_used max_slots c =
      let utilization = div (of_int (pos slots_used)) (of_int max_slots) in
      let target = c.target_utilization in
      let rate = c.base_fee_change_rate in
      let deviation = if lt nought target then div (sub utilization target) target else nought in
      max_num N (sub nought rate) (min_num N rate (mul deviation rate))

  -- `_adjust_base_fee`, the new fee
  unfoldable pub adjust_base_fee : (slots_used : ℕ) (max_slots : ℤ) → TrainingMarket N → Carrier
  adjust_base_fee slots_used max_slots s =
      if eq_ℤ max_slots (pos 0)
      then s.base_fee
      else let new_fee =
          mul s.base_fee (add (dec 1 0) (change_factor slots_used max_slots s.config)) in
        max_num N s.config.min_base_fee (min_num N s.config.max_base_fee new_fee)

  -- `_adjust_base_fee` logs the fee divided by `1.0 + change_factor` after it has set the new one, and
  -- raises a `ZeroDivisionError` there.
  abbrev pub log_raises : (slots_used : ℕ) (max_slots : ℤ) → TrainingMarket N → Bool
  log_raises slots_used max_slots s =
      not (eq_ℤ max_slots (pos 0))
      && eq_num N (add (dec 1 0) (change_factor slots_used max_slots s.config)) nought

  -- The blocks that a scheduled model waits.
  unfoldable pub cooldown_length : TrainingMarketConfig N → ℤ
  cooldown_length c = max_ℤ (pos 1) (min_ℤ c.default_cooldown_blocks c.max_cooldown_blocks)

  -- The loop of `finalize_block`.
  unfoldable pub settle_slots :
      List (ScheduledTrainingSlot N) → ℤ → TrainingMarket N → TrainingMarket N
  settle_slots [] current_block s = s
  settle_slots (slot ∷ slots) current_block s = settle_slots slots current_block (record s {
    pending = del slot.task_id s.pending;
    cooldowns = set slot.model_id (current_block +ℤ cooldown_length s.config) s.cooldowns;
  })

  -- The state that `finalize_block` leaves, also where the log line raises.
  unfoldable pub finalize_block :
      List (ScheduledTrainingSlot N) → ℤ → TrainingMarket N → TrainingMarket N
  finalize_block scheduled current_block s =
      let t = settle_slots scheduled current_block s in
      let u = record t {
        base_fee = adjust_base_fee (length scheduled) t.config.max_tasks_per_block t;
      } in
      if log_raises (length scheduled) t.config.max_tasks_per_block t
      then u
      else record u { last_block_slots_used = length scheduled; last_block_height = current_block }

  abbrev pub is_stale : ℤ → TrainingTaskSpec N → Bool
  is_stale current_block t = leb_ℤ t.expiry_block current_block

  -- `for t in expired: del self._pending[t.task_id]`
  unfoldable pub del_tasks :
      List (TrainingTaskSpec N) → Dict (TrainingTaskSpec N) → Dict (TrainingTaskSpec N)
  del_tasks [] d = d
  del_tasks (t ∷ ts) d = del_tasks ts (del t.task_id d)

  unfoldable pub expire_stale_tasks :
      ℤ → TrainingMarket N → List (TrainingTaskSpec N) × TrainingMarket N
  expire_stale_tasks current_block s =
      let expired = keep_if (is_stale current_block) (values s.pending) in
      (expired, record s { pending = del_tasks expired s.pending })
