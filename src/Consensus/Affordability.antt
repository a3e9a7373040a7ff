-- ===== src/Consensus/Affordability.antt =====
-- dessin/consensus/enhanced_pogo_consensus.py, `can_owner_afford_training`: the check before a block is
-- trained that its owner can pay for it. Of the four values of its result, the first.
pub mod Payment
pub mod Sparing
pub mod Covering
pub mod Reaching
pub mod Payout
mod Tests
use dessin.Prelude.{
  Bool, true, false, not, Option, none, some, List, [], ◌∷◌, String, ◌==◌, if◌then◌else◌,
}
use dessin.Prelude.Int.{ℤ, pos, ltb_ℤ}
use dessin.Dict.{get_or}
use dessin.Num.{Num, max_num}
use dessin.Economics.EconomicSystem.{
  EconomicSystem, Action, pure, gets, ◌>>=◌, ◌>>◌, system, get_balance, get_staked_amount,
}
use dessin.Economics.EconomicSystem.Transfers.{split_matured, finalize_matured_unstakes}
use dessin.Economics.EconomicSystem.Training.{escrow_of}

-- The fields of a block that the estimate reads.
pub record Trained : Type 0 where
  pub model_id : String
  pub model_size_full : ℤ

-- The size in the latest block of the model that has one, 0 if none has.
unfoldable pub last_size : (model_id : String) → List Trained → ℤ
last_size model_id [] = pos 0
last_size model_id (block ∷ chain) =
    let later = last_size model_id chain in
    if ltb_ℤ (pos 0) later
    then later
    else if block.model_id == model_id
    then (if ltb_ℤ (pos 0) block.model_size_full then block.model_size_full else pos 0)
    else pos 0

-- The size that the estimate goes by. `catalog` is the size that the catalog of models has in bytes, 0
-- where the model is not in it.
abbrev pub estimated_size : (model_id : String) (catalog : ℤ) → List Trained → ℤ
estimated_size model_id catalog chain =
    let on_chain = last_size model_id chain in if ltb_ℤ (pos 0) on_chain then on_chain else catalog

module _ (N : Num) where
  open N use {Carrier, nought, add, sub, mul, div, lt, le, of_int, dec}

  unfoldable pub estimate_training_cost :
      (model_id : String) (training_steps catalog : ℤ) → List Trained → EconomicSystem N → Carrier
  estimate_training_cost model_id training_steps catalog chain s =
      let size = estimated_size model_id catalog chain in
      mul (mul (of_int training_steps) s.training_payment_per_step)
        (add (dec 1 0) (mul (div (of_int size) (of_int (pos 1_073_741_824))) (dec 1 1)))

  -- The balance with the unbonding that has matured.
  unfoldable pub preview_transferable_liquid : String → (at_block : ℤ) → EconomicSystem N → Carrier
  preview_transferable_liquid address at_block s =
      add (get_balance address s)
        (split_matured N at_block nought (get_or address [] s.unbonding_queue)).0

  -- What the owner can spend.
  abbrev pub tail_spendable : String → (bidx : ℤ) (in_boot : Bool) → EconomicSystem N → Carrier
  tail_spendable owner bidx in_boot s =
      add (preview_transferable_liquid owner bidx s)
        (if in_boot then get_staked_amount owner s else nought)

  -- `cost` is the estimate, `owner` the registered owner of the model, `bidx` the height asked for.
  unfoldable pub can_owner_afford :
      (owner model_id : String) (cost : Carrier) (bidx : ℤ) (in_boot : Bool) → Action N Bool
  can_owner_afford owner model_id cost bidx in_boot = if owner == system then pure true else do
    escrow ← gets (escrow_of N model_id)
    let remainder = max_num N nought (sub cost escrow)
    if le remainder nought then pure true else do
      finalize_matured_unstakes N owner bidx
      gets (λ s. le remainder (tail_spendable owner bidx in_boot s))
