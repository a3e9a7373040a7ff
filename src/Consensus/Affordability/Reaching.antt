-- ===== src/Consensus/Affordability/Reaching.antt =====
-- dessin/economics/economic_system.py: a payment for training that the owner can make reaches the miner.
use dessin.Prelude.{
  ◌≡◌, ◌≢◌, refl, inl, inr, Bool, true, false, not, ◌&&◌, Option-cases, Option, some, [], String,
  ◌==◌, if◌then◌else◌, Bool-cases, ap, ◌∙◌, arith, eq_iff,
}
use dessin.Prelude.Int.{ℤ, pos, ◌+ℤ◌, ◌-ℤ◌, ◌≤ℤ◌, ltb_ℤ}
use dessin.Dict.{get, get_or, set, get_or-set, get_or-set_self}
use dessin.Num.{min_num}
use dessin.Num.Units.{Scale}
use dessin.Economics.EconomicSystem.{
  EconomicSystem, PogoBlock, returned, Action, pure, ◌>>◌, when, system, get_balance,
  training_payment,
}
use dessin.Economics.EconomicSystem.Transfers.{
  finalize_matured_unstakes, split_matured, transfer, transfer_settled, track_training,
}
use dessin.Economics.EconomicSystem.Holdings.{U, IsQueued}
use dessin.Economics.EconomicSystem.Conservation.{transfer_settled_pays, transfer_eq}
use dessin.Economics.EconomicSystem.Training.{
  escrow_of, training_cost, owner_can_pay, pay_from_escrow, pay_from_owner,
  process_training_payment,
}
use dessin.Consensus.Affordability.{preview_transferable_liquid}
use dessin.Consensus.Affordability.Payment.{finalize_balance, bind_returned, remainder_of}
use dessin.Consensus.Affordability.Covering.{
  due_nonneg, grown_covers, unchanged, shares, adds_up, owner_can_pay-covers,
}
use dessin.Consensus.Affordability.Sparing.{other_balance, finalize_others, owner_can_pay-Spares}

module _ (k : Scale) (owner miner : String) (apart : owner ≢ miner) where
  -- What the escrow pays.
  pay_from_escrow_balances :
      (block : PogoBlock) (avail x : ℤ) (s : EconomicSystem (U k))
      → pos 0 ≤ℤ x
      → let (r, t) = pay_from_escrow (U k) miner block avail x s in
        (r ≡ returned tt)
        × (get_balance miner t ≡ get_balance miner s +ℤ x)
        × (get_balance owner t ≡ get_balance owner s)
        × (t.unbonding_queue ≡ s.unbonding_queue)
  unfolding pay_from_escrow
  pay_from_escrow_balances block avail x s h = elim (Bool-cases (ltb_ℤ (pos 0) x)) [
    | inl some_due ↦ rw some_due (
      refl,
      get_or-set_self miner (pos 0) (get_balance miner s +ℤ x) s.balances,
      ground (
        arith,
        get_or-set miner owner (pos 0) (get_balance miner s +ℤ x) s.balances,
        eq_iff miner owner,
        apart,
      ),
      refl,
    )
    | inr none_due ↦ rw none_due (refl, unchanged k (get_balance miner s) x h none_due, refl, refl)
  ]

  -- A transfer of what the balance covers.
  transfer_settled_balance :
      (x b : ℤ) (hash : Option String) (s : EconomicSystem (U k))
      → (owner == system) ≡ false
      → ltb_ℤ (pos 0) x ≡ true
      → ltb_ℤ (get_balance owner s) x ≡ false
      → let (r, t) = transfer_settled (U k) owner miner x training_payment b hash s in
        (r ≡ returned true) × (get_balance miner t ≡ get_balance miner s +ℤ x)
  transfer_settled_balance x b hash s somebody owes covered =
      elim (Option-cases (get owner s.balances)) [
        | inl missing ↦
            let poor : ltb_ℤ (pos 0) x ≡ false = rw missing at covered in
            absurd (ground (arith, poor, owes))
        | inr (v, e) ↦
            let enough : ltb_ℤ v x ≡ false = rw e at covered in
            let d = set owner (v -ℤ x) s.balances in
            rw (transfer_settled_pays k owner miner x v training_payment b hash s somebody e enough)
              (
                refl,
                get_or-set_self miner (pos 0) (get_or miner (pos 0) d +ℤ x) d
                    ∙ ap (λ n. n +ℤ x) (other_balance k owner miner apart (v -ℤ x) s),
              )
      ]

  -- After what has matured is credited, the balance is no less.
  transfer_balance :
      (x b : ℤ) (hash : Option String) (s : EconomicSystem (U k))
      → IsQueued k s
      → (owner == system) ≡ false
      → ltb_ℤ (pos 0) x ≡ true
      → ltb_ℤ (get_balance owner s) x ≡ false
      → let (r, t) = transfer (U k) owner miner x training_payment b hash s in
        (r ≡ returned true) × (get_balance miner t ≡ get_balance miner s +ℤ x)
  unfolding preview_transferable_liquid
  transfer_balance x b hash s h somebody owes covered =
      let t = (finalize_matured_unstakes (U k) owner b s).1 in
      let due = due_nonneg k owner b s h in
      let (balance, stake) = finalize_balance k owner b s due in
      let credited = (split_matured (U k) b (pos 0) (get_or owner [] s.unbonding_queue)).0 in
      let still : ltb_ℤ (get_balance owner t) x ≡ false =
        ap (λ n. ltb_ℤ n x) balance ∙ grown_covers k (get_balance owner s) credited x due covered in
      let (paid, gets_it) = transfer_settled_balance x b hash t somebody owes still in
      rw (transfer_eq k owner miner x training_payment b hash s somebody)
        (paid, gets_it ∙ ap (λ n. n +ℤ x) (finalize_others k owner miner apart b s).2)

  transfer_pays :
      (x b : ℤ) (hash : Option String) (s : EconomicSystem (U k))
      → IsQueued k s
      → ltb_ℤ (pos 0) x ≡ true
      → ((ltb_ℤ (pos 0) x && not (owner == system)) ≡ true
          → not (ltb_ℤ (get_balance owner s) x) ≡ true)
      → let (r, t) = transfer (U k) owner miner x training_payment b hash s in
        (r ≡ returned true) × (get_balance miner t ≡ get_balance miner s +ℤ x)
  unfolding transfer transfer_settled
  transfer_pays x b hash s h owes covers = elim (Bool-cases (owner == system)) [
    | inl nobody ↦
        rw nobody (refl, get_or-set_self miner (pos 0) (get_balance miner s +ℤ x) s.balances)
    | inr somebody ↦
        transfer_balance x b hash s h somebody owes
          (ground (arith, somebody, owes, covers (ground (arith, somebody, owes))))
  ]

  -- What the owner pays, who can, and the system account, which always can.
  pay_from_owner_balance :
      (block : PogoBlock) (x : ℤ) (s : EconomicSystem (U k))
      → IsQueued k s
      → pos 0 ≤ℤ x
      → ((ltb_ℤ (pos 0) x && not (owner == system)) ≡ true
          → not (ltb_ℤ (get_balance owner s) x) ≡ true)
      → let (r, t) = pay_from_owner (U k) owner miner block x s in
        (r ≡ returned true) × (get_balance miner t ≡ get_balance miner s +ℤ x)
  unfolding pay_from_owner
  pay_from_owner_balance block x s h positive covers =
      let moved_to = transfer (U k) owner miner x training_payment block.index (some block.hash) in
      let track : Bool → Action (U k) Bool =
        λ paid. when paid (track_training (U k) block.model_id x) >> pure paid in
      elim (Bool-cases (ltb_ℤ (pos 0) x)) [
        | inr nothing ↦ rw nothing (refl, unchanged k (get_balance miner s) x positive nothing)
        | inl owes ↦
            let (paid, gets_it) = transfer_pays x block.index (some block.hash) s h owes covers in
            rw (owes, bind_returned k moved_to track true s paid) (refl, gets_it)
      ]

  same_queue :
      (s t : EconomicSystem (U k))
      → t.unbonding_queue ≡ s.unbonding_queue
      → IsQueued k s
      → IsQueued k t
  same_queue s t e h = record { distinct = rw e h.distinct; nonneg = rw e h.nonneg }

  -- A payment that the owner can make gives the miner the cost.
  pub process_training_payment_pays :
      (block : PogoBlock) (allow : Bool) (s : EconomicSystem (U k))
      → let cost = training_cost (U k) block s in
        let escrow = escrow_of (U k) block.model_id s in
        let (r, t) = process_training_payment (U k) owner miner block allow s in
        IsQueued k s
        → pos 0 ≤ℤ cost
        → pos 0 ≤ℤ escrow
        → (owner_can_pay (U k) owner (remainder_of k escrow cost) block.index allow s).0
          ≡ returned true
        → (r ≡ returned true) × (get_balance miner t ≡ get_balance miner s +ℤ cost)
  unfolding process_training_payment
  process_training_payment_pays block allow s h costs holds can =
      let cost = training_cost (U k) block s in
      let escrow = escrow_of (U k) block.model_id s in
      let part = min_num (U k) escrow cost in
      let remainder = remainder_of k escrow cost in
      let check = owner_can_pay (U k) owner remainder block.index allow in
      let from_escrow = pay_from_escrow (U k) miner block escrow part in
      let from_owner = pay_from_owner (U k) owner miner block remainder in
      let t = (check s).1 in
      let u = (from_escrow t).1 in
      let spared = owner_can_pay-Spares k owner miner apart remainder block.index allow s in
      let (part_nonneg, remainder_nonneg) = shares k escrow cost costs holds in
      let (done, to_miner, owner_same, queue_same) =
        pay_from_escrow_balances block escrow part t part_nonneg in
      let covers : (ltb_ℤ (pos 0) remainder && not (owner == system)) ≡ true
          → not (ltb_ℤ (get_balance owner u) remainder) ≡ true =
        λ owes.
          ap (λ b. not (ltb_ℤ b remainder)) owner_same
          ∙ owner_can_pay-covers k owner remainder block.index allow s owes can in
      let (paid, gets_it) =
        pay_from_owner_balance block remainder u (same_queue t u queue_same (spared.queued h))
          remainder_nonneg covers in
      let settle_up : Bool → Action (U k) Bool =
        λ can_pay. if not can_pay then pure false else from_escrow >> from_owner in
      rw
        (
          bind_returned k check settle_up true s can,
          bind_returned k from_escrow (λ r. from_owner) tt t done,
        )
        (
          paid,
          gets_it
              ∙ adds_up k (get_balance miner s) escrow cost (get_balance miner t)
                  (get_balance miner u) spared.other to_miner,
        )
