-- ===== src/Economics/EconomicSystem/Rewards.antt =====
-- dessin/economics/economic_system.py: rewards minted from the genesis account, and the rewards of
-- attestation.
use dessin.Prelude.{Bool, true, false, Option, none, some, List, [], ◌∷◌, String, if◌then◌else◌}
use dessin.Dict.{Dict, set}
use dessin.Num.{Num, min_num, max_num}
use dessin.Economics.EconomicSystem.{
  EconomicSystem, PogoBlock, Action, pure, gets, modify, ◌>>=◌, ◌>>◌, record_event, event, system,
  genesis_address, get_balance, debit_balance, credit_balance, credit_stake, block_reward,
  attestation_reward,
}
use dessin.Economics.EconomicSystem.Transfers.{transfer}

module _ (N : Num) where
  open N use {Carrier, nought, add, sub, mul, div, lt, le, of_int, dec}

  -- `self.total_tokens_emitted += x`
  abbrev pub emit_tokens : Carrier → Action N (Unit {0})
  emit_tokens x = modify (λ s. record s { total_tokens_emitted = add s.total_tokens_emitted x })

  -- `_mint_from_genesis`
  unfoldable pub mint_from_genesis : String → Carrier → PogoBlock → Bool → Action N Bool
  mint_from_genesis miner amount block to_stake = if le amount nought then pure true else do
    avail ← gets (get_balance genesis_address)
    let pay = min_num N amount avail
    if le pay nought then pure false else do
      debit_balance genesis_address pay
      (if to_stake then credit_stake miner pay else credit_balance miner pay)
      emit_tokens pay
      record_event (event N block_reward block.index genesis_address miner pay (some block.hash))
      pure true

  abbrev pub base_reward : Option Carrier → Carrier → EconomicSystem N → Carrier
  base_reward none blocks_per_year s = s.mining_reward
  base_reward (some rate) blocks_per_year s =
      div (mul s.initial_supply rate) (max_num N (dec 1 0) blocks_per_year)

  unfoldable pub distribute_block_reward :
      String → PogoBlock → Option Carrier → Bool → Carrier → Action N Bool
  distribute_block_reward miner block annual_emission_rate auto_stake blocks_per_year = do
    base ← gets (base_reward annual_emission_rate blocks_per_year)
    mint_from_genesis miner (add base (mul (of_int block.training_steps) (dec 1 2))) block
        auto_stake

  -- One round of the loop of `distribute_attestation_rewards`.
  unfoldable pub reward_verifier : String → PogoBlock → Bool → Carrier → Action N Bool
  reward_verifier verifier block auto_stake reward =
      if auto_stake
      then mint_from_genesis verifier reward block true
      else transfer N system verifier reward attestation_reward block.index (some block.hash)

  -- The rewards so far are `rewards`.
  unfoldable pub reward_verifiers :
      List String → PogoBlock → Bool → Dict Carrier → Action N (Dict Carrier)
  unfolding reward_verifier
  reward_verifiers [] block auto_stake rewards = pure rewards
  reward_verifiers (v ∷ vs) block auto_stake rewards = do
    reward ← gets (λ s. s.attestation_reward)
    success ← reward_verifier v block auto_stake reward
    reward_verifiers vs block auto_stake (if success then set v reward rewards else rewards)

  abbrev pub distribute_attestation_rewards :
      List String → PogoBlock → Bool → Action N (Dict Carrier)
  distribute_attestation_rewards verifiers block auto_stake =
      reward_verifiers verifiers block auto_stake []
