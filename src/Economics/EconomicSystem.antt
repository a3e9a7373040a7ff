-- ===== src/Economics/EconomicSystem.antt =====
-- dessin/economics/economic_system.py: the state of `EconomicSystem` and the steps that its methods
-- are made of. Timestamps, descriptions and printed lines are left out. A method is an action on the
-- state; `self.balances[a] -= x` raises `KeyError` where `a` has no entry, and what was written
-- before a raise stays written.
pub mod Transfers
pub mod Rewards
pub mod Staking
pub mod Training
pub mod Penalties
pub mod Accounting
pub mod Queues
pub mod Holdings
pub mod Conservation
pub mod StakeConservation
pub mod TrainingConservation
pub mod PaymentConservation
pub mod Supply
pub mod Histories
mod Tests
pub mod Slashing
use dessin.Prelude.{
  Bool, true, false, not, ◌&&◌, Option, none, some, List, [], ◌∷◌, ◌++◌, String, ◌==◌,
  if◌then◌else◌,
}
use dessin.Prelude.Int.{ℤ, pos}
use dessin.Dict.{Dict, get, get_or, set, del}
use dessin.Num.{Num}

pub data EconomicEventType : Type 0 where
  block_reward training_payment training_iteration_payment attestation_reward : EconomicEventType
  slashing_penalty query_payment storage_fee storage_rental storage_extension : EconomicEventType
  transaction_fee training_escrow_deposit bootstrap_materialization : EconomicEventType
  unstake_request : EconomicEventType

-- The address of the system account.
abbrev pub system : String
system = "system"

abbrev pub genesis_address : String
genesis_address = "genesis_0000000000000000000000000000000000000000"

-- What the methods read of a `PogoBlock`.
pub record PogoBlock : Type 0 where
  pub index : ℤ
  pub hash : String
  pub model_id : String
  pub training_steps : ℤ
  pub model_size_full : ℤ

pub data Result (A : Type 0) : Type 0 where
  returned : A → Result A
  key_error : Result A

module _ (N : Num) where
  open N use {Carrier, nought, dec}

  pub record EconomicEvent : Type 0 where
    pub event_type : EconomicEventType
    pub block_index : ℤ
    pub from_address : String
    pub to_address : String
    pub amount : Carrier
    pub block_hash : Option String

  pub record EconomicSystem : Type 0 where
    pub initial_supply : Carrier
    pub mining_reward : Carrier
    pub training_payment_per_step : Carrier
    pub training_iteration_payment : Carrier
    pub attestation_reward : Carrier
    pub query_fee_per_token : Carrier
    pub storage_fee_per_gb_per_block : Carrier
    pub storage_price_multiplier : Carrier
    pub min_storage_price_multiplier : Carrier
    pub max_storage_price_multiplier : Carrier
    pub balances : Dict Carrier
    pub staked_amounts : Dict Carrier
    pub economic_events : List EconomicEvent
    pub total_supply : Carrier
    pub model_storage_payments : Dict Carrier
    pub model_training_payments : Dict Carrier
    pub model_training_escrow : Dict Carrier
    pub bootstrap_virtual_locked : Dict Carrier
    pub total_tokens_emitted : Carrier
    pub unbonding_queue : Dict (List (Carrier × ℤ))

  abbrev pub event :
      EconomicEventType → ℤ → String → String → Carrier → Option String → EconomicEvent
  event t b f to a h = record {
    event_type = t;
    block_index = b;
    from_address = f;
    to_address = to;
    amount = a;
    block_hash = h;
  }

  -- `__init__` with `_initialize_genesis`
  abbrev pub new_system : (initial_supply mining_reward : Carrier) → EconomicSystem
  new_system initial_supply mining_reward = record {
    initial_supply = initial_supply;
    mining_reward = mining_reward;
    training_payment_per_step = dec 1 1;
    training_iteration_payment = dec 1 3;
    attestation_reward = dec 5 1;
    query_fee_per_token = dec 1 3;
    storage_fee_per_gb_per_block = dec 1 3;
    storage_price_multiplier = dec 1 0;
    min_storage_price_multiplier = dec 1 1;
    max_storage_price_multiplier = dec 10 0;
    balances = (genesis_address, initial_supply) ∷ [];
    staked_amounts = (genesis_address, nought) ∷ [];
    economic_events =
        event block_reward (pos 0) system genesis_address initial_supply (some "genesis") ∷ [];
    total_supply = initial_supply;
    model_storage_payments = [];
    model_training_payments = [];
    model_training_escrow = [];
    bootstrap_virtual_locked = [];
    total_tokens_emitted = nought;
    unbonding_queue = [];
  }

  abbrev pub Action : Type 0 → Type 0
  Action A = EconomicSystem → Result A × EconomicSystem

module _ {N : Num} where
  open N use {Carrier, nought, add, sub}

  abbrev pub get_balance : String → EconomicSystem N → Carrier
  get_balance a s = get_or a nought s.balances

  abbrev pub get_staked_amount : String → EconomicSystem N → Carrier
  get_staked_amount a s = get_or a nought s.staked_amounts

  abbrev pub pure : {A : Type 0} → A → Action N A
  pure a s = (returned a, s)

  abbrev pub gets : {A : Type 0} → (EconomicSystem N → A) → Action N A
  gets f s = (returned (f s), s)

  abbrev pub modify : (EconomicSystem N → EconomicSystem N) → Action N (Unit {0})
  modify f s = (returned tt, f s)

  infixl 5 ◌>>=◌ ◌>>◌
  abbrev pub ◌>>=◌ : {A B : Type 0} → Action N A → (A → Action N B) → Action N B
  ◌>>=◌ m f s = let (r, t) = m s in elim r [ returned a ↦ f a t | key_error ↦ (key_error, t) ]

  abbrev pub ◌>>◌ : {A B : Type 0} → Action N A → Action N B → Action N B
  m >> k = m >>= λ _. k

  -- `if test: body`
  abbrev pub when : Bool → Action N (Unit {0}) → Action N (Unit {0})
  when test body = if test then body else pure tt

  -- `self.economic_events.append(...)`
  abbrev pub record_event : EconomicEvent N → Action N (Unit {0})
  record_event e = modify (λ s. record s { economic_events = s.economic_events ++ (e ∷ []) })

  -- `self.balances[a] -= x`
  abbrev pub debit_balance : String → Carrier → Action N (Unit {0})
  debit_balance a x s = elim (get a s.balances) [
    | none ↦ (key_error, s)
    | some b ↦ (returned tt, record s { balances = set a (sub b x) s.balances })
  ]

  -- `self.balances[a] = self.balances.get(a, 0.0) + x`
  abbrev pub credit_balance : String → Carrier → Action N (Unit {0})
  credit_balance a x =
      modify (λ s. record s { balances = set a (add (get_balance a s) x) s.balances })

  -- `self.staked_amounts[a] = self.staked_amounts.get(a, 0.0) + x`
  abbrev pub credit_stake : String → Carrier → Action N (Unit {0})
  credit_stake a x =
      modify
        (λ s. record s { staked_amounts = set a (add (get_staked_amount a s) x) s.staked_amounts })

  -- `self.staked_amounts[a] = self.get_staked_amount(a) - x`
  abbrev pub debit_stake : String → Carrier → Action N (Unit {0})
  debit_stake a x =
      modify
        (λ s. record s { staked_amounts = set a (sub (get_staked_amount a s) x) s.staked_amounts })
