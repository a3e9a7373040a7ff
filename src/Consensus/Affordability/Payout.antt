-- ===== src/Consensus/Affordability/Payout.antt =====
-- dessin/consensus/enhanced_pogo_consensus.py and dessin/economics/economic_system.py: after a check that
-- the owner passes, the payment for the block reaches the miner.
use mathlib.Core.Path.{subst}
use dessin.Prelude.{◌≡◌, ◌≢◌, refl, Bool, true, List, String, ap, ◌∙◌, sym}
use dessin.Prelude.Int.{ℤ, pos, ◌+ℤ◌, ◌≤ℤ◌, ltb_ℤ}
use dessin.Dict.{get_or}
use dessin.Num.Units.{Scale}
use dessin.Economics.EconomicSystem.{EconomicSystem, PogoBlock, returned, get_balance}
use dessin.Economics.EconomicSystem.Holdings.{U, IsQueued}
use dessin.Economics.EconomicSystem.Training.{
  escrow_of, training_cost, owner_can_pay, process_training_payment,
}
use dessin.Consensus.Affordability.{
  Trained, estimated_size, estimate_training_cost, can_owner_afford,
}
use dessin.Consensus.Affordability.Payment.{remainder_of, owner_can_pay-can_owner_afford}
use dessin.Consensus.Affordability.Covering.{due_nonneg}
use dessin.Consensus.Affordability.Reaching.{process_training_payment_pays}
use dessin.Consensus.Affordability.Sparing.{can_owner_afford-Spares}

module _ (k : Scale) (owner miner : String) (apart : owner ≢ miner) where
  -- The cost that the payment computes after the check is the estimate.
  cost_same :
      (block : PogoBlock) (catalog : ℤ) (chain : List Trained) (s t : EconomicSystem (U k))
      → estimated_size block.model_id catalog chain ≡ block.model_size_full
      → t.training_payment_per_step ≡ s.training_payment_per_step
      → training_cost (U k) block t
        ≡ estimate_training_cost (U k) block.model_id block.training_steps catalog chain s
  unfolding estimate_training_cost
  cost_same block catalog chain s t sized price = rw (sized, price) refl

  -- The estimate of the cost of a block is checked against what its owner can spend, and then the block
  -- is paid at the height of the check and on the state that the check leaves. Where the check says that
  -- the owner can afford it, the payment succeeds and the miner has the estimate more than before: in
  -- the bootstrap period and after it, whatever the escrow, the balance, the matured unbonding and the
  -- stake contribute. The block has the size that the estimate goes by, its owner is not the miner, the
  -- estimate and the escrow are not negative, the queues of unbonding are a proper dict without negative
  -- entries, and the smallest amount is more than 1e-12.
  pub process_training_payment-can_owner_afford :
      (block : PogoBlock) (catalog : ℤ) (chain : List Trained) (in_boot : Bool)
      (s : EconomicSystem (U k))
      → let cost =
          estimate_training_cost (U k) block.model_id block.training_steps catalog chain s in
        let (r, t) = can_owner_afford (U k) owner block.model_id cost block.index in_boot s in
        let (paid, u) = process_training_payment (U k) owner miner block in_boot t in
        ((y : ℤ) → ltb_ℤ (pos 0) y ≡ true → ltb_ℤ (k.dec 1 12) y ≡ true)
        → IsQueued k s
        → estimated_size block.model_id catalog chain ≡ block.model_size_full
        → pos 0 ≤ℤ cost
        → pos 0 ≤ℤ escrow_of (U k) block.model_id s
        → r ≡ returned true
        → (paid ≡ returned true) × (get_balance miner u ≡ get_balance miner s +ℤ cost)
  process_training_payment-can_owner_afford block catalog chain in_boot s fine h sized costs holds
        afforded =
      let m = block.model_id in
      let cost = estimate_training_cost (U k) m block.training_steps catalog chain s in
      let t = (can_owner_afford (U k) owner m cost block.index in_boot s).1 in
      let spared = can_owner_afford-Spares k owner miner apart m cost block.index in_boot s in
      let queued = spared.queued h in
      let same_cost = cost_same block catalog chain s t sized spared.price in
      let same_escrow = ap (get_or m (pos 0)) spared.escrow in
      let can =
        owner_can_pay-can_owner_afford k owner m cost block.index in_boot s fine
          (due_nonneg k owner block.index t queued) afforded in
      let (paid, gets_it) =
        process_training_payment_pays k owner miner apart block in_boot t queued
          (subst (λ n. pos 0 ≤ℤ n) (sym same_cost) costs)
          (subst (λ n. pos 0 ≤ℤ n) (sym same_escrow) holds)
          (ap (λ n. (owner_can_pay (U k) owner n block.index in_boot t).0)
              (ap (λ e. remainder_of k e (training_cost (U k) block t)) same_escrow
                ∙ ap (remainder_of k (escrow_of (U k) m s)) same_cost)
            ∙ can) in
      (
        paid,
        gets_it
            ∙ ap (λ b. b +ℤ training_cost (U k) block t) spared.other
            ∙ ap (λ c. get_balance miner s +ℤ c) same_cost,
      )
