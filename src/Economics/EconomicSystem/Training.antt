-- ===== src/Economics/EconomicSystem/Training.antt =====
-- dessin/economics/economic_system.py: the training escrow of a model, and the payment of a miner
-- from the escrow first and from the owner second.
use Prim.Native.String.{◌++◌ as concat}
use dessin.Prelude.{◌*◌, Bool, true, false, not, ◌&&◌, none, some, String, ◌==◌, if◌then◌else◌}
use dessin.Prelude.Int.{ℤ, pos}
use dessin.Dict.{get_or, set}
use dessin.Num.{Num, min_num, max_num, eq_num}
use dessin.Economics.EconomicSystem.{
  EconomicSystem, PogoBlock, Action, pure, gets, modify, ◌>>=◌, ◌>>◌, when, record_event, event,
  system, get_balance, get_staked_amount, debit_balance, credit_balance, training_escrow_deposit,
  training_payment,
}
use dessin.Economics.EconomicSystem.Transfers.{finalize_matured_unstakes, transfer, track_training}
use dessin.Economics.EconomicSystem.Staking.{unstake_immediate_to_liquid}

-- f"escrow:{model_id}"
abbrev pub escrow_address : String → String
escrow_address model_id = concat "escrow:" model_id

module _ (N : Num) where
  open N use {Carrier, nought, add, sub, mul, div, lt, le, of_int, dec}

  abbrev pub escrow_of : String → EconomicSystem N → Carrier
  escrow_of model_id s = get_or model_id nought s.model_training_escrow

  abbrev pub set_escrow : String → Carrier → Action N (Unit {0})
  set_escrow model_id x =
      modify (λ s. record s { model_training_escrow = set model_id x s.model_training_escrow })

  unfoldable pub deposit_model_training_escrow :
      (payer model_id : String) → Carrier → ℤ → Action N Bool
  deposit_model_training_escrow payer model_id amount block_index =
      if lt amount nought then pure false else if eq_num N amount nought then pure true else do
        finalize_matured_unstakes N payer block_index
        short ← gets (λ s. lt (get_balance payer s) amount)
        if short then pure false else do
          debit_balance payer amount
          escrow ← gets (escrow_of model_id)
          set_escrow model_id (add escrow amount)
          record_event (
              event N training_escrow_deposit block_index payer (escrow_address model_id) amount
                none)
          pure true

  -- `total_cost` of `process_training_payment`
  abbrev pub training_cost : PogoBlock → EconomicSystem N → Carrier
  training_cost block s = mul (mul (of_int block.training_steps) s.training_payment_per_step) (
      add (dec 1 0)
        (mul (div (of_int block.model_size_full) (of_int (pos (1024 * 1024 * 1024)))) (dec 1 1)))

  -- The unstaking under `allow_debit_bootstrap_stake`.
  unfoldable pub cover_from_stake : String → Carrier → Bool → Action N (Unit {0})
  cover_from_stake owner remainder allow = do
    short ← gets (λ s. lt (get_balance owner s) remainder && allow)
    take ← gets (λ s.
        min_num N (max_num N nought (sub remainder (get_balance owner s)))
          (get_staked_amount owner s))
    when (short && lt (dec 1 12) take) (unstake_immediate_to_liquid N owner take >> pure tt)

  -- Whether the owner can pay the remainder.
  unfoldable pub owner_can_pay : String → Carrier → ℤ → Bool → Action N Bool
  unfolding cover_from_stake
  owner_can_pay owner remainder block_index allow =
      if not (lt nought remainder && not (owner == system)) then pure true else do
        finalize_matured_unstakes N owner block_index
        cover_from_stake owner remainder allow
        gets (λ s. not (lt (get_balance owner s) remainder))

  unfoldable pub pay_from_escrow :
      String → PogoBlock → (escrow_avail from_escrow : Carrier) → Action N (Unit {0})
  pay_from_escrow miner block escrow_avail from_escrow = when (lt nought from_escrow) (do
    set_escrow block.model_id (sub escrow_avail from_escrow)
    credit_balance miner from_escrow
    record_event (
        event N training_payment block.index (escrow_address block.model_id) miner from_escrow
          (some block.hash))
    track_training N block.model_id from_escrow)

  unfoldable pub pay_from_owner : (owner miner : String) → PogoBlock → Carrier → Action N Bool
  pay_from_owner owner miner block remainder = if not (lt nought remainder) then pure true else do
    success ← transfer N owner miner remainder training_payment block.index (some block.hash)
    when success (track_training N block.model_id remainder)
    pure success

  unfoldable pub process_training_payment :
      (owner miner : String) → PogoBlock → Bool → Action N Bool
  process_training_payment owner miner block allow = do
    total_cost ← gets (training_cost block)
    escrow_avail ← gets (escrow_of block.model_id)
    let from_escrow = min_num N escrow_avail total_cost
    let remainder = sub total_cost from_escrow
    can_pay ← owner_can_pay owner remainder block.index allow
    if not can_pay then pure false else do
      pay_from_escrow miner block escrow_avail from_escrow
      pay_from_owner owner miner block remainder
