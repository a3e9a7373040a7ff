-- ===== src/Consensus/Bootstrap/State.antt =====
-- dessin/consensus/enhanced_pogo_consensus.py: what the bootstrap and the economics of a block read and
-- write of the consensus, and the steps that their methods are made of.
use dessin.Prelude.{Bool, false, String, if◌then◌else◌, length}
use dessin.Prelude.Int.{ℤ, pos, leb_ℤ, ltb_ℤ}
use dessin.Dict.{Dict}
use dessin.Num.{Num}
use dessin.Economics.EconomicSystem.{EconomicSystem, Result, returned, key_error, Action}
use dessin.Consensus.Leader.{Roster}

module _ (N : Num) where
  open N use {Carrier}

  pub record Node : Type 0 where
    pub roster : Roster
    pub system : EconomicSystem N
    pub bootstrap_materialization_done : Bool
    pub model_owners : Dict String
    pub bootstrap_max_active_nodes : ℤ
    pub bootstrap_virtual_stake : Carrier
    pub bootstrap_materialization_grant : Carrier
    pub post_bootstrap_min_holdings_fraction : Carrier
    pub annual_emission_rate_bootstrap : Carrier
    pub annual_emission_rate_post_bootstrap : Carrier
    pub avg_block_time_seconds : Carrier
    pub unstake_cooldown_blocks : ℤ

  abbrev pub NodeAction : Type 0 → Type 0
  NodeAction A = Node → Result A × Node

module _ {N : Num} where
  abbrev pub pure : {A : Type 0} → A → NodeAction N A
  pure a s = (returned a, s)

  abbrev pub gets : {A : Type 0} → (Node N → A) → NodeAction N A
  gets f s = (returned (f s), s)

  abbrev pub modify : (Node N → Node N) → NodeAction N (Unit {0})
  modify f s = (returned tt, f s)

  infixl 5 ◌>>=◌ ◌>>◌
  abbrev pub ◌>>=◌ : {A B : Type 0} → NodeAction N A → (A → NodeAction N B) → NodeAction N B
  ◌>>=◌ m f s = let (r, t) = m s in elim r [ returned a ↦ f a t | key_error ↦ (key_error, t) ]

  abbrev pub ◌>>◌ : {A B : Type 0} → NodeAction N A → NodeAction N B → NodeAction N B
  m >> k = m >>= λ _. k

  abbrev pub when : Bool → NodeAction N (Unit {0}) → NodeAction N (Unit {0})
  when test body = if test then body else pure tt

  -- A method of `self.economic_system`.
  abbrev pub call_system : {A : Type 0} → Action N A → NodeAction N A
  call_system m s = let (r, t) = m s.system in (r, record s { system = t })

  -- `len(self.chain)`
  abbrev pub next_height : Node N → ℤ
  next_height s = pos (length s.roster.chain)

  unfoldable pub is_bootstrap_period_at_height : (block_index : ℤ) → Node N → Bool
  is_bootstrap_period_at_height block_index s =
      if leb_ℤ s.roster.bootstrap_period_blocks (pos 0)
      then false
      else ltb_ℤ block_index s.roster.bootstrap_period_blocks
