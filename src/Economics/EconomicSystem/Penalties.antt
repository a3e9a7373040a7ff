-- ===== src/Economics/EconomicSystem/Penalties.antt =====
-- dessin/economics/economic_system.py: `process_slashing_penalty`, which takes from the stake first
-- and from the balance second.
use dessin.Prelude.{Bool, true, some, String, if◌then◌else◌}
use dessin.Prelude.Int.{ℤ}
use dessin.Num.{Num, min_num}
use dessin.Economics.EconomicSystem.{
  Action, pure, gets, ◌>>=◌, ◌>>◌, when, record_event, event, system, get_balance,
  get_staked_amount, debit_balance, debit_stake, slashing_penalty,
}

module _ (N : Num) where
  open N use {Carrier, nought, add, sub, lt}

  -- What the stake did not cover.
  unfoldable pub slash_balance :
      (miner : String) (penalty_amount : Carrier) (block_hash : String) (block_index : ℤ)
      → Action N Bool
  slash_balance miner penalty_amount block_hash block_index = do
    when (lt nought penalty_amount) (debit_balance miner penalty_amount)
    record_event
        (event N slashing_penalty block_index miner system penalty_amount (some block_hash))
    pure true

  unfoldable pub process_slashing_penalty :
      (miner : String) (penalty_amount : Carrier) (block_hash : String) (block_index : ℤ)
      → Action N Bool
  process_slashing_penalty miner penalty_amount block_hash block_index = do
    staked ← gets (get_staked_amount miner)
    balance ← gets (get_balance miner)
    let capped =
        if lt (add staked balance) penalty_amount then add staked balance else penalty_amount
    let slash_from_stake = min_num N capped staked
    when (lt nought staked) (debit_stake miner slash_from_stake)
    let rest = if lt nought staked then sub capped slash_from_stake else capped
    slash_balance miner rest block_hash block_index
