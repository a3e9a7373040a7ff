-- ===== src/Consensus/Bootstrap.antt =====
-- dessin/consensus/enhanced_pogo_consensus.py: registration, ranking and the end of the bootstrap period,
-- and the economics of a block. A method is an action on the node; what it raises is caught by
-- `_process_block_economics`, and what was written before stays written.
pub mod State
pub mod Ranking
pub mod Sorting
pub mod Counting
pub mod Leaving
pub mod Culling
pub mod Stakes
pub mod Shrinking
pub mod Blocks
mod Tests
use dessin.Prelude.{
  Bool, true, false, not, ◌&&◌, Option, none, some, List, [], ◌∷◌, String, ◌==◌, if◌then◌else◌,
}
use dessin.Prelude.Int.{ℤ, pos, leb_ℤ, ltb_ℤ, eq_ℤ}
use dessin.Dict.{contains, get_or, set}
use dessin.Num.{Num, max_num}
use dessin.Economics.EconomicSystem.{PogoBlock, system}
use dessin.Economics.EconomicSystem.Rewards.{distribute_block_reward}
use dessin.Economics.EconomicSystem.Staking.{
  grant_bootstrap_virtual_stake, slash_bootstrap_participant, materialize_bootstrap_survivor,
  request_unstake,
}
use dessin.Economics.EconomicSystem.Training.{process_training_payment}
use dessin.Consensus.Leader.{Roster, member, note_participating_miner}
use dessin.Consensus.Bootstrap.State.{
  Node, NodeAction, pure, gets, modify, ◌>>=◌, ◌>>◌, when, call_system, next_height,
  is_bootstrap_period_at_height,
}
use dessin.Consensus.Bootstrap.Ranking.{
  keys, participants, active_miners, total_holdings_for_eligibility,
}

module _ (N : Num) where
  open N use {Carrier, nought, mul, div, le, dec}

  unfoldable pub register_bootstrap_participant : (address : String) → NodeAction N Bool
  register_bootstrap_participant address = do
    modify (λ s. record s { roster = note_participating_miner address s.roster })
    no_bootstrap ← gets (λ s. leb_ℤ s.roster.bootstrap_period_blocks (pos 0))
    if no_bootstrap then pure true else do
      h ← gets next_height
      over ← gets (λ s. not (is_bootstrap_period_at_height h s))
      if over then pure false else do
        known ← gets (λ s. contains address s.roster.bootstrap_registry)
        if known then pure true else do
          slashed ← gets (λ s. member address s.roster.bootstrap_slashed)
          if slashed then pure false else do
            modify (λ s. record s {
              roster = record s.roster {
                bootstrap_registry = set address h s.roster.bootstrap_registry;
              };
            })
            grant ← gets (λ s. s.bootstrap_virtual_stake)
            call_system (grant_bootstrap_virtual_stake N address grant)
            pure true

  unfoldable pub is_active_bootstrap_miner : (address : String) → Node N → Bool
  is_active_bootstrap_miner address s =
      if leb_ℤ s.roster.bootstrap_period_blocks (pos 0)
      then true
      else if member address s.roster.bootstrap_slashed
      then false
      else if not (contains address s.roster.bootstrap_registry)
      then false
      else member address (active_miners s)

  unfoldable pub is_post_bootstrap_eligible_miner : (address : String) → Node N → Bool
  is_post_bootstrap_eligible_miner address s =
      if member address s.roster.bootstrap_slashed
      then false
      else if not (contains address s.roster.bootstrap_registry)
      then false
      else let te = max_num N (dec 1 18) s.system.total_tokens_emitted in
        le s.post_bootstrap_min_holdings_fraction
          (div (total_holdings_for_eligibility address s.system) te)

  unfoldable pub is_eligible_to_mine : (address : String) → Node N → Bool
  is_eligible_to_mine address s =
      if leb_ℤ s.roster.bootstrap_period_blocks (pos 0)
      then true
      else if is_bootstrap_period_at_height (next_height s) s
      then is_active_bootstrap_miner address s
      else is_post_bootstrap_eligible_miner address s

  unfoldable pub submit_unstake_request : (address : String) → Carrier → NodeAction N Bool
  submit_unstake_request address amount = do
    cd ←
        gets (λ s.
          if ltb_ℤ (pos 0) s.unstake_cooldown_blocks then s.unstake_cooldown_blocks else pos 0)
    h ← gets next_height
    call_system (request_unstake N address amount h cd)

  -- The loop of `_finalize_bootstrap_materialization`.
  unfoldable pub materialize_all : List String → Carrier → ℤ → NodeAction N (Unit {0})
  materialize_all [] grant block_index = pure tt
  materialize_all (addr ∷ addrs) grant block_index = do
    slashed ← gets (λ s. member addr s.roster.bootstrap_slashed)
    when (not slashed) (call_system (materialize_bootstrap_survivor N addr grant block_index))
    materialize_all addrs grant block_index

  unfoldable pub finalize_bootstrap_materialization : (block_index : ℤ) → NodeAction N (Unit {0})
  finalize_bootstrap_materialization block_index = do
    done ← gets (λ s. s.bootstrap_materialization_done)
    if done then pure tt else do
      grant ← gets (λ s. s.bootstrap_materialization_grant)
      addrs ← gets (λ s. keys s.roster.bootstrap_registry)
      materialize_all addrs grant block_index
      modify (λ s. record s { bootstrap_materialization_done = true })

  -- The loop of `_bootstrap_ranking_slash`.
  unfoldable pub slash_inactive : (active : List String) → List String → NodeAction N (Unit {0})
  slash_inactive active [] = pure tt
  slash_inactive active (addr ∷ addrs) = do
    when (not (member addr active)) (do
      call_system (slash_bootstrap_participant N addr)
      modify (λ s. record s {
        roster = record s.roster { bootstrap_slashed = addr ∷ s.roster.bootstrap_slashed };
      }))
    slash_inactive active addrs

  unfoldable pub bootstrap_ranking_slash : (block_index : ℤ) → NodeAction N (Unit {0})
  bootstrap_ranking_slash block_index = do
    outside ← gets (λ s. not (is_bootstrap_period_at_height block_index s))
    if outside then pure tt else do
      active ← gets active_miners
      registered ← gets participants
      slash_inactive active registered

  -- The parts of `_process_block_economics`: the end of the bootstrap period,
  unfoldable pub end_bootstrap : PogoBlock → NodeAction N (Unit {0})
  end_bootstrap block = do
    ends ← gets (λ s.
        ltb_ℤ (pos 0) s.roster.bootstrap_period_blocks
        && eq_ℤ block.index s.roster.bootstrap_period_blocks
        && not s.bootstrap_materialization_done)
    when ends (finalize_bootstrap_materialization block.index)

  abbrev blocks_per_year : Node N → Carrier
  blocks_per_year s =
      div (mul (mul (dec 365 0) (dec 24 0)) (dec 3600 0))
        (max_num N (dec 1 0) s.avg_block_time_seconds)

  abbrev annual_rate : (in_boot : Bool) → Node N → Option Carrier
  annual_rate in_boot s =
      if ltb_ℤ (pos 0) s.roster.bootstrap_period_blocks
      then some (
          if in_boot
          then s.annual_emission_rate_bootstrap
          else s.annual_emission_rate_post_bootstrap)
      else none

  -- the reward of the miner,
  unfoldable pub reward_miner : (miner : String) → PogoBlock → (in_boot : Bool) → NodeAction N Bool
  reward_miner miner block in_boot s =
      call_system
        (distribute_block_reward N miner block (annual_rate in_boot s)
          (ltb_ℤ (pos 0) s.roster.bootstrap_period_blocks) (blocks_per_year s))
        s

  -- and the payment of the owner of the model.
  unfoldable pub pay_for_training :
      (miner : String) → PogoBlock → (in_boot : Bool) → NodeAction N (Unit {0})
  pay_for_training miner block in_boot s =
      let model_owner = get_or block.model_id system s.model_owners in
      when (not (model_owner == system))
        (call_system (process_training_payment N model_owner miner block in_boot) >> pure tt) s

  -- `_process_block_economics` inside its `try`, on a block of `miner`.
  unfoldable pub block_economics : (miner : String) → PogoBlock → NodeAction N (Unit {0})
  block_economics miner block = do
    end_bootstrap block
    in_boot ← gets (is_bootstrap_period_at_height block.index)
    reward_miner miner block in_boot
    pay_for_training miner block in_boot
    bootstrap_ranking_slash block.index

  -- `_process_block_economics`
  unfoldable pub process_block_economics : (miner : String) → PogoBlock → Node N → Node N
  process_block_economics miner block s = (block_economics miner block s).1
