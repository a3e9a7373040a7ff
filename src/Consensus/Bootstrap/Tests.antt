-- ===== src/Consensus/Bootstrap/Tests.antt =====
-- Runs and instances for the bootstrap of dessin/consensus/enhanced_pogo_consensus.py.
use dessin.Economics.EconomicSystem.Rewards.{distribute_block_reward, mint_from_genesis}
use dessin.Economics.EconomicSystem.Staking.{
  materialize_bootstrap_survivor, mint_need, slash_bootstrap_participant,
  grant_bootstrap_virtual_stake,
}
use dessin.Prelude.{
  ◌≡◌, refl, arith, List, String, true, false, not, ◌&&◌, ◌||◌, none, [], ◌∷◌, if◌then◌else◌,
  length, ltb,
}
use dessin.Prelude.Int.{ℤ, pos, ◌+ℤ◌, ◌-ℤ◌}
use dessin.Num.Units.{units-IsOrdered}
use dessin.Num.Micro.{millionths, micro}
use dessin.Dict.{get, set, del, IsDistinct}
use dessin.Economics.EconomicSystem.{PogoBlock, returned, new_system, get_staked_amount}
use dessin.Consensus.Leader.{member, note_participating_miner}
use dessin.Consensus.Bootstrap.{
  process_block_economics, block_economics, end_bootstrap, reward_miner, pay_for_training,
  finalize_bootstrap_materialization, materialize_all, bootstrap_ranking_slash,
  register_bootstrap_participant, is_eligible_to_mine, slash_inactive, is_active_bootstrap_miner,
}
use dessin.Consensus.Bootstrap.State.{Node, is_bootstrap_period_at_height}
use dessin.Consensus.Bootstrap.Ranking.{
  participants, ranks_before, keys, active_miners, rank, insert_ranked, effective_bootstrap_stake,
}
use dessin.Consensus.Bootstrap.Stakes.{IsStaked}
use dessin.Consensus.Bootstrap.Shrinking.{Shrinks}
use dessin.Consensus.Bootstrap.Blocks.{process_blocks, process_blocks-Shrinks}
use dessin.Consensus.Bootstrap.Culling.{bootstrap_ranking_slash_best}

-- Ann, Bob and Cid are registered, and two may be active. Bob and Cid have as much stake, and Bob came
-- first.
abbrev node : Node micro
node = record {
  roster = record {
    chain = record { miner = "genesis"; hash = "g" } ∷ [];
    training_miner_roster = [];
    bootstrap_registry = ("cid", pos 2) ∷ ("ann", pos 3) ∷ ("bob", pos 1) ∷ [];
    bootstrap_slashed = [];
    miner_address = "ann";
    bootstrap_period_blocks = pos 100;
  };
  system = record (new_system micro (pos 1_000_000_000) (pos 10_000_000)) {
    staked_amounts = ("ann", pos 9_000_000) ∷ ("cid", pos 1_000_000) ∷ [];
    bootstrap_virtual_locked = ("cid", pos 1_000_000) ∷ ("bob", pos 2_000_000) ∷ [];
  };
  bootstrap_materialization_done = false;
  model_owners = [];
  bootstrap_max_active_nodes = pos 2;
  bootstrap_virtual_stake = pos 2_000_000;
  bootstrap_materialization_grant = pos 5_000_000;
  post_bootstrap_min_holdings_fraction = pos 10_000;
  annual_emission_rate_bootstrap = pos 80_000;
  annual_emission_rate_post_bootstrap = pos 20_000;
  avg_block_time_seconds = pos 7_200_000_000;
  unstake_cooldown_blocks = pos 10;
}

registry-IsDistinct : IsDistinct node.roster.bootstrap_registry
unfolding get
registry-IsDistinct = (refl, (refl, (refl, tt)))

inside_period : is_bootstrap_period_at_height (pos 4) node ≡ true
unfolding is_bootstrap_period_at_height
inside_period = refl

-- Cid has to go.
bootstrap_ranking_slash_best_example :
    let t = (bootstrap_ranking_slash micro (pos 4) node).1 in
    let leaves = member "cid" (participants node) && not (member "cid" (participants t)) in
    (length (participants t)
      ≡ (if ltb (length (participants node)) 2 then length (participants node) else 2))
    × ((member "bob" (participants t) && (leaves && ranks_before node "cid" "bob")) ≡ false)
    × (member "cid" t.roster.bootstrap_slashed
        ≡ (member "cid" node.roster.bootstrap_slashed || leaves))
    × (get "cid" t.system.staked_amounts
        ≡ (if leaves then none else get "cid" node.system.staked_amounts))
    × (get "cid" t.system.bootstrap_virtual_locked
        ≡ (if leaves then none else get "cid" node.system.bootstrap_virtual_locked))
bootstrap_ranking_slash_best_example =
    bootstrap_ranking_slash_best (pos 4) 2 "bob" "cid" node (units-IsOrdered millionths)
      registry-IsDistinct refl inside_period

slashes_cid : participants (bootstrap_ranking_slash micro (pos 4) node).1 ≡ "ann" ∷ "bob" ∷ []
unfolding keys bootstrap_ranking_slash is_bootstrap_period_at_height slash_inactive active_miners
    rank insert_ranked ranks_before effective_bootstrap_stake ◌+ℤ◌ get slash_bootstrap_participant
slashes_cid = refl

-- A fourth may register, and mines if his stake is enough.
registers_dan : (register_bootstrap_participant micro "dan" node).0 ≡ returned true
unfolding register_bootstrap_participant note_participating_miner is_bootstrap_period_at_height get
    grant_bootstrap_virtual_stake
registers_dan = refl

cid_may_not_mine : is_eligible_to_mine micro "cid" node ≡ false
unfolding is_eligible_to_mine is_bootstrap_period_at_height is_active_bootstrap_miner get
    active_miners rank keys insert_ranked ranks_before effective_bootstrap_stake ◌+ℤ◌
cid_may_not_mine = refl

stakes-IsStaked : IsStaked millionths node.system
unfolding get
stakes-IsStaked = record { distinct = (refl, (refl, tt)); nonneg = λ a. ground arith }

-- Ann mines a block in the bootstrap period, and Bob the one at its end.
abbrev block_at : ℤ → PogoBlock
block_at height = record {
  index = height;
  hash = "h";
  model_id = "m";
  training_steps = pos 20;
  model_size_full = pos 1_000_000;
}

abbrev blocks : List (String × PogoBlock)
blocks = ("ann", block_at (pos 4)) ∷ ("bob", block_at (pos 100)) ∷ []

process_blocks-Shrinks_example :
    Shrinks millionths node.system (process_blocks millionths blocks node).system
process_blocks-Shrinks_example =
    process_blocks-Shrinks millionths blocks node (record { distinct = tt; nonneg = tt })
      stakes-IsStaked

-- Bob's virtual stake of 2 and the grant of 5 become stake, and he has the reward of his block.
bob_at_the_end :
    get_staked_amount "bob" (process_blocks millionths blocks node).system ≡ pos 7_204_566
unfolding get process_blocks process_block_economics block_economics end_bootstrap reward_miner
    distribute_block_reward mint_from_genesis ◌+ℤ◌ is_bootstrap_period_at_height pay_for_training
    bootstrap_ranking_slash slash_inactive keys active_miners rank insert_ranked
    effective_bootstrap_stake ranks_before finalize_bootstrap_materialization materialize_all del
    set materialize_bootstrap_survivor mint_need slash_bootstrap_participant ◌-ℤ◌
bob_at_the_end = refl
