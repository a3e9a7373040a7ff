-- ===== src/Consensus/Affordability/Tests.antt =====
-- Runs and instances for `can_owner_afford_training` of dessin/consensus/enhanced_pogo_consensus.py.
use dessin.Prelude.{◌≡◌, refl, List, eq_iff, true, false, [], ◌∷◌, arith}
use dessin.Prelude.Int.{ℤ, pos, ◌+ℤ◌, ◌-ℤ◌}
use dessin.Num.Micro.{millionths, micro}
use dessin.Dict.{get, set, del}
use dessin.Economics.EconomicSystem.{EconomicSystem, PogoBlock, new_system, returned, get_balance}
use dessin.Economics.EconomicSystem.Transfers.{split_matured, finalize_matured_unstakes, settle}
use dessin.Economics.EconomicSystem.Training.{process_training_payment}
use dessin.Consensus.Affordability.{
  Trained, estimate_training_cost, last_size, can_owner_afford, preview_transferable_liquid,
}
use dessin.Consensus.Affordability.Payout.{process_training_payment-can_owner_afford}

-- Olga has 1 token, 2 more that are free from height 5 on, 4 at stake, and 1 in the escrow of her model.
abbrev economy : EconomicSystem micro
economy = record (new_system micro (pos 1_000_000_000) (pos 10_000_000)) {
  balances = ("olga", pos 1_000_000) ∷ [];
  staked_amounts = ("olga", pos 4_000_000) ∷ [];
  unbonding_queue = ("olga", (pos 2_000_000, pos 5) ∷ []) ∷ [];
  model_training_escrow = ("m", pos 1_000_000) ∷ [];
}

-- A block of 50 steps on a model of 4 GiB, at height 6, by Mia.
abbrev trained : PogoBlock
trained = record {
  index = pos 6;
  hash = "h";
  model_id = "m";
  training_steps = pos 50;
  model_size_full = pos 4_294_967_296;
}

abbrev chain : List Trained
chain = record { model_id = "m"; model_size_full = pos 4_294_967_296 } ∷ []

abbrev cost : ℤ
cost = estimate_training_cost micro "m" (pos 50) (pos 0) chain economy

-- In the bootstrap period Olga can pay the 7 tokens that it costs, and Mia gets them.
process_training_payment-can_owner_afford_example :
    let t = (can_owner_afford micro "olga" "m" cost (pos 6) true economy).1 in
    let (paid, u) = process_training_payment micro "olga" "mia" trained true t in
    (paid ≡ returned true) × (get_balance "mia" u ≡ pos 7_000_000)
unfolding can_owner_afford split_matured get finalize_matured_unstakes settle del set ◌-ℤ◌ ◌+ℤ◌
    preview_transferable_liquid estimate_training_cost last_size
process_training_payment-can_owner_afford_example =
    process_training_payment-can_owner_afford millionths "olga" "mia"
      (ground (arith, eq_iff "olga" "mia")) trained (pos 0) chain true economy
      (λ y positive. positive) (record { distinct = (refl, tt); nonneg = ((omega arith, tt), tt) })
      refl (omega arith) (omega arith) refl

-- After it, she cannot.
not_without_stake :
    (can_owner_afford micro "olga" "m" (pos 7_000_000) (pos 6) false economy).0 ≡ returned false
unfolding can_owner_afford ◌-ℤ◌ get finalize_matured_unstakes split_matured ◌+ℤ◌
    preview_transferable_liquid set del
not_without_stake = refl

-- The estimate goes by the size of the last block of the model.
last_block_counts :
    last_size "m" (
      record { model_id = "m"; model_size_full = pos 3 }
      ∷ record { model_id = "m"; model_size_full = pos 5 }
      ∷ record { model_id = "other"; model_size_full = pos 7 }
      ∷ [])
    ≡ pos 5
unfolding last_size
last_block_counts = refl
