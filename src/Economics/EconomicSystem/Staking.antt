-- ===== src/Economics/EconomicSystem/Staking.antt =====
-- dessin/economics/economic_system.py: stake, unbonding and the stake of the bootstrap period.
use dessin.Prelude.{not, Bool, true, false, none, [], ◌∷◌, ◌++◌, String, if◌then◌else◌}
use dessin.Prelude.Int.{ℤ, pos, ◌+ℤ◌, ltb_ℤ, eq_ℤ}
use dessin.Dict.{get_or, set, del}
use dessin.Num.{Num, min_num}
use dessin.Economics.EconomicSystem.{
  Action, pure, gets, modify, ◌>>=◌, ◌>>◌, when, record_event, event, system, genesis_address,
  get_balance, get_staked_amount, debit_balance, credit_balance, credit_stake, debit_stake,
  unstake_request, bootstrap_materialization,
}
use dessin.Economics.EconomicSystem.Transfers.{finalize_matured_unstakes}
use dessin.Economics.EconomicSystem.Rewards.{emit_tokens}

module _ (N : Num) where
  open N use {Carrier, nought, add, sub, lt, le, dec}

  -- `_unstake_immediate_to_liquid`
  unfoldable pub unstake_immediate_to_liquid : String → Carrier → Action N Bool
  unstake_immediate_to_liquid a amount = do
    short ← gets (λ s. lt (get_staked_amount a s) amount)
    if short then pure false else do debit_stake a amount; credit_balance a amount; pure true

  -- `self.unbonding_queue.setdefault(address, []).append(...)`
  abbrev pub enqueue : String → Carrier → ℤ → Action N (Unit {0})
  enqueue a amount unlock_at = modify (λ s. record s {
    unbonding_queue =
        set a (get_or a [] s.unbonding_queue ++ ((amount, unlock_at) ∷ [])) s.unbonding_queue;
  })

  unfoldable pub request_unstake :
      String → Carrier → (current_block_index cooldown_blocks : ℤ) → Action N Bool
  request_unstake a amount current_block_index cooldown_blocks =
      if le amount nought
      then pure false
      else if ltb_ℤ cooldown_blocks (pos 0)
      then pure false
      else if eq_ℤ cooldown_blocks (pos 0)
      then unstake_immediate_to_liquid a amount
      else do
        short ← gets (λ s. lt (add (get_staked_amount a s) (dec 1 12)) amount)
        if short then pure false else do
          debit_stake a amount
          enqueue a amount (current_block_index +ℤ cooldown_blocks)
          record_event (event N unstake_request current_block_index system a amount none)
          pure true

  abbrev pub unstake_tokens :
      String → Carrier → (current_block_index cooldown_blocks : ℤ) → Action N Bool
  unstake_tokens a amount current_block_index cooldown_blocks =
      request_unstake a amount current_block_index cooldown_blocks

  unfoldable pub stake_tokens : String → Carrier → ℤ → Action N Bool
  stake_tokens a amount block_index = do
    finalize_matured_unstakes N a block_index
    short ← gets (λ s. lt (get_balance a s) amount)
    if short then pure false else do debit_balance a amount; credit_stake a amount; pure true

  unfoldable pub grant_bootstrap_virtual_stake : String → Carrier → Action N (Unit {0})
  grant_bootstrap_virtual_stake a amount = modify (λ s. record s {
    bootstrap_virtual_locked =
        set a (add (get_or a nought s.bootstrap_virtual_locked) amount) s.bootstrap_virtual_locked;
  })

  unfoldable pub slash_bootstrap_participant : String → Action N (Unit {0})
  slash_bootstrap_participant a = modify (λ s. record s {
    bootstrap_virtual_locked = del a s.bootstrap_virtual_locked;
    staked_amounts = del a s.staked_amounts;
  })

  -- The part of `materialize_bootstrap_survivor` under `if need_from_genesis > 0`: what it mints.
  unfoldable pub mint_need : String → Carrier → ℤ → Action N Carrier
  mint_need a need block_index = if not (lt nought need) then pure nought else do
    avail ← gets (get_balance genesis_address)
    let minted = min_num N need avail
    when (lt nought minted) (do
      debit_balance genesis_address minted
      emit_tokens N minted
      record_event (event N bootstrap_materialization block_index genesis_address a minted none))
    pure minted

  unfoldable pub materialize_bootstrap_survivor : String → Carrier → ℤ → Action N (Unit {0})
  unfolding mint_need
  materialize_bootstrap_survivor a grant block_index = do
    virt ← gets (λ s. get_or a nought s.bootstrap_virtual_locked)
    rew ← gets (get_staked_amount a)
    slash_bootstrap_participant a
    minted ← mint_need a (add virt grant) block_index
    let staked_total = add rew minted
    if le staked_total nought then pure tt else credit_stake a staked_total
