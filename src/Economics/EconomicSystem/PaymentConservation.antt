-- ===== src/Economics/EconomicSystem/PaymentConservation.antt =====
-- dessin/economics/economic_system.py: the payment of a miner for training moves tokens and creates
-- none.
use dessin.Prelude.{
  ◌≡◌, ◌≢◌, refl, ◌∙◌, Bool, true, false, not, ◌&&◌, some, List, [], ◌∷◌, String, arith, ◌==◌,
  if◌then◌else◌, Bool-cases, inl, inr, ap,
}
use dessin.Prelude.Int.{ℤ, pos, ◌+ℤ◌, ◌-ℤ◌, ltb_ℤ, int_laws, parts_of_eq}
use dessin.Dict.{get_or, set}
use dessin.Num.{min_num, max_num}
use dessin.Num.Units.{Scale}
use dessin.Economics.EconomicSystem.{
  EconomicSystem, PogoBlock, Result, returned, key_error, system, Action, ◌>>=◌, ◌>>◌, pure, when,
  gets, get_balance, get_staked_amount, training_payment,
}
use dessin.Economics.EconomicSystem.Transfers.{
  finalize_matured_unstakes, settle, finalize_entries, split_matured, transfer, track_training,
}
use dessin.Economics.EconomicSystem.Accounting.{total, total-set}
use dessin.Economics.EconomicSystem.Holdings.{
  U, holdings, IsQueued, Issues, finalize_lem, same_Issues, after_Issues, not_system,
}
use dessin.Economics.EconomicSystem.Staking.{unstake_immediate_to_liquid}
use dessin.Economics.EconomicSystem.StakeConservation.{unstake_immediate_lem}
use dessin.Economics.EconomicSystem.Conservation.{transfer_lem}
use dessin.Economics.EconomicSystem.Training.{
  training_cost, cover_from_stake, owner_can_pay, pay_from_escrow, pay_from_owner,
  process_training_payment,
}

module _ (k : Scale) where
  -- An action that issues nothing and leaves the training escrow alone.
  record Quiet {A : Type 0} (s : EconomicSystem (U k)) (out : Result A × EconomicSystem (U k))
      : Type 0 where
    conserves : Issues k (pos 0) s out
    escrow : out.1.model_training_escrow ≡ s.model_training_escrow

  idle : {A : Type 0} (s : EconomicSystem (U k)) (r : Result A) → IsQueued k s → Quiet s (r, s)
  idle s r h = record { conserves = same_Issues k s r s h refl; escrow = refl }

  pub bind_Issues :
      {A B : Type 0} (m : Action (U k) A) (f : A → Action (U k) B) (s : EconomicSystem (U k))
      → Issues k (pos 0) s (m s)
      → ((r : A) → IsQueued k (m s).1 → Issues k (pos 0) (m s).1 (f r (m s).1))
      → Issues k (pos 0) s ((m >>= f) s)
  bind_Issues {A = A} {B = B} m f s = next (m s)
    where
      next :
          (p : Result A × EconomicSystem (U k))
          → Issues k (pos 0) s p
          → ((r : A) → IsQueued k p.1 → Issues k (pos 0) p.1 (f r p.1))
          → Issues k {A = B}
              (pos 0)
              s
              (elim p.0 [ returned a ↦ f a p.1 | key_error ↦ (key_error, p.1) ])
      next (returned r, t) h rest = after_Issues k (pos 0) s (returned r, t) _ h (rest r h.queued)
      next (key_error, t) h rest = record { queued = h.queued; holds = h.holds }

  bind_Quiet :
      {A B : Type 0} (m : Action (U k) A) (f : A → Action (U k) B) (s : EconomicSystem (U k))
      → Quiet s (m s)
      → ((r : A) → IsQueued k (m s).1 → Quiet (m s).1 (f r (m s).1))
      → Quiet s ((m >>= f) s)
  bind_Quiet {A = A} {B = B} m f s = next (m s)
    where
      next :
          (p : Result A × EconomicSystem (U k))
          → Quiet s p
          → ((r : A) → IsQueued k p.1 → Quiet p.1 (f r p.1))
          → Quiet {A = B} s (elim p.0 [ returned a ↦ f a p.1 | key_error ↦ (key_error, p.1) ])
      next (returned r, t) h rest =
          let q = rest r h.conserves.queued in
          record {
            conserves = after_Issues k (pos 0) s (returned r, t) _ h.conserves q.conserves;
            escrow = q.escrow ∙ h.escrow;
          }
      next (key_error, t) h rest = record {
        conserves = record { queued = h.conserves.queued; holds = h.conserves.holds };
        escrow = h.escrow;
      }

  finalize_escrow :
      (a : String) (tip : ℤ) (s : EconomicSystem (U k))
      → (finalize_matured_unstakes (U k) a tip s).1.model_training_escrow ≡ s.model_training_escrow
  unfolding finalize_matured_unstakes settle
  finalize_escrow a tip s = entries (get_or a [] s.unbonding_queue)
    where
      entries :
          (q : List (ℤ × ℤ))
          → (finalize_entries (U k) a tip q s).1.model_training_escrow ≡ s.model_training_escrow
      entries [] = refl
      entries (x ∷ xs) =
          elim (Bool-cases (ltb_ℤ (pos 0) (split_matured (U k) tip (pos 0) (x ∷ xs)).0)) [
            | inl some_due ↦ rw some_due refl
            | inr none_due ↦ rw none_due refl
          ]

  finalize_Quiet :
      (a : String) (tip : ℤ) (s : EconomicSystem (U k))
      → IsQueued k s
      → Quiet s (finalize_matured_unstakes (U k) a tip s)
  finalize_Quiet a tip s h = record {
    conserves = finalize_lem k a tip s h;
    escrow = finalize_escrow a tip s;
  }

  unstake_Quiet :
      (a : String) (x : ℤ) (s : EconomicSystem (U k))
      → IsQueued k s
      → Quiet s (unstake_immediate_to_liquid (U k) a x s)
  unfolding unstake_immediate_to_liquid
  unstake_Quiet a x s h = elim (Bool-cases (ltb_ℤ (get_or a (pos 0) s.staked_amounts) x)) [
    | inl short ↦ record { conserves = unstake_immediate_lem k a x s h; escrow = ground arith }
    | inr covered ↦ record { conserves = unstake_immediate_lem k a x s h; escrow = ground arith }
  ]

  cover_Quiet :
      (a : String) (x : ℤ) (allow : Bool) (s : EconomicSystem (U k))
      → IsQueued k s
      → Quiet s (cover_from_stake (U k) a x allow s)
  unfolding cover_from_stake
  cover_Quiet a x allow s h =
      let take =
        min_num (U k) (max_num (U k) (pos 0) (x -ℤ get_balance a s)) (get_staked_amount a s) in
      elim (Bool-cases ((ltb_ℤ (get_balance a s) x && allow) && ltb_ℤ (k.dec 1 12) take)) [
        | inl unstakes ↦ rw unstakes (
            bind_Quiet (unstake_immediate_to_liquid (U k) a take) (λ r. pure tt) s
              (unstake_Quiet a take s h) (λ r. idle _ (returned tt)))
        | inr leaves ↦ rw leaves (idle s (returned tt) h)
      ]

  owner_can_pay-Quiet :
      (owner : String) (x b : ℤ) (allow : Bool) (s : EconomicSystem (U k))
      → IsQueued k s
      → Quiet s (owner_can_pay (U k) owner x b allow s)
  unfolding owner_can_pay
  owner_can_pay-Quiet owner x b allow s h =
      let ask : Action (U k) Bool = gets (λ t. not (ltb_ℤ (get_balance owner t) x)) in
      let rest : ℤ → Action (U k) Bool = λ n. cover_from_stake (U k) owner x allow >> ask in
      elim (Bool-cases (ltb_ℤ (pos 0) x && not (owner == system))) [
        | inl owes ↦ rw owes (
            bind_Quiet (finalize_matured_unstakes (U k) owner b) rest s (finalize_Quiet owner b s h)
              (λ n q.
                bind_Quiet (cover_from_stake (U k) owner x allow) (λ r. ask) _
                  (cover_Quiet owner x allow _ q) (λ r. idle _ (returned _))))
        | inr free ↦ rw free (idle s (returned true) h)
      ]

  pay_from_escrow_lem :
      (miner : String) (block : PogoBlock) (avail x : ℤ) (s : EconomicSystem (U k))
      → get_or block.model_id (pos 0) s.model_training_escrow ≡ avail
      → IsQueued k s
      → Issues k (pos 0) s (pay_from_escrow (U k) miner block avail x s)
        × ((pay_from_escrow (U k) miner block avail x s).0 ≡ returned tt)
  unfolding pay_from_escrow
  pay_from_escrow_lem miner block avail x s e h =
      let m = block.model_id in
      let debited : total (set m (avail -ℤ x) s.model_training_escrow) +ℤ avail
          ≡ total s.model_training_escrow +ℤ (avail -ℤ x) =
        rw e at (total-set m (avail -ℤ x) s.model_training_escrow) in
      let credited = total-set miner (get_balance miner s +ℤ x) s.balances in
      elim (Bool-cases (ltb_ℤ (pos 0) x)) [
        | inl some_due ↦ rw some_due (
          record {
            queued = record { distinct = h.distinct; nonneg = h.nonneg };
            holds = omega (int_laws, parts_of_eq debited, parts_of_eq credited);
          },
          refl,
        )
        | inr none_due ↦ rw none_due (same_Issues k s _ _ h refl, refl)
      ]

  pay_from_owner_lem :
      (owner miner : String) (block : PogoBlock) (x : ℤ) (s : EconomicSystem (U k))
      → (owner == system) ≡ false
      → IsQueued k s
      → Issues k (pos 0) s (pay_from_owner (U k) owner miner block x s)
  unfolding pay_from_owner
  pay_from_owner_lem owner miner block x s ne h =
      let track : Bool → Action (U k) Bool =
        λ paid. when paid (track_training (U k) block.model_id x) >> pure paid in
      let i = transfer_lem k owner miner x training_payment block.index (some block.hash) s ne h in
      elim (Bool-cases (ltb_ℤ (pos 0) x)) [
        | inl owes ↦ rw owes (
            bind_Issues
              (transfer (U k) owner miner x training_payment block.index (some block.hash)) track s
              i
              (λ paid q. elim (Bool-cases paid) [
                | inl done ↦ rw done (record {
                  queued = record { distinct = q.distinct; nonneg = q.nonneg };
                  holds = omega int_laws;
                })
                | inr refused ↦ rw refused (same_Issues k _ _ _ q refl)
              ]))
        | inr nothing ↦ rw nothing (same_Issues k s _ _ h refl)
      ]

  pub process_training_payment_lem :
      (owner miner : String) (block : PogoBlock) (allow : Bool) (s : EconomicSystem (U k))
      → owner ≢ system
      → IsQueued k s
      → Issues k (pos 0) s (process_training_payment (U k) owner miner block allow s)
  unfolding process_training_payment
  process_training_payment_lem owner miner block allow s ne h =
      let cost = training_cost (U k) block s in
      let avail = get_or block.model_id (pos 0) s.model_training_escrow in
      let part = min_num (U k) avail cost in
      let can = owner_can_pay-Quiet owner (cost -ℤ part) block.index allow s h in
      let settle_up : Bool → Action (U k) Bool = λ can_pay.
        if not can_pay
        then pure false
        else pay_from_escrow (U k) miner block avail part
          >> pay_from_owner (U k) owner miner block (cost -ℤ part) in
      bind_Issues (owner_can_pay (U k) owner (cost -ℤ part) block.index allow) settle_up s
        can.conserves
        (λ r q. elim (Bool-cases r) [
          | inr refused ↦ rw refused (same_Issues k _ _ _ q refl)
          | inl pays ↦ rw pays (
              bind_Issues (pay_from_escrow (U k) miner block avail part)
                (λ u. pay_from_owner (U k) owner miner block (cost -ℤ part)) _
                (pay_from_escrow_lem miner block avail part _
                  (ap (get_or block.model_id (pos 0)) can.escrow) q).0
                (λ u w.
                  pay_from_owner_lem owner miner block (cost -ℤ part) _ (not_system owner ne) w))
        ])

  -- A payment for training conserves the holdings, whatever the escrow, the stake and the balance of
  -- the owner cover, when the owner is not the system account and the queues of unbonding are a proper
  -- dict without negative entries.
  pub process_training_payment-holdings :
      (owner miner : String) (block : PogoBlock) (allow : Bool) (s : EconomicSystem (U k))
      → owner ≢ system
      → IsQueued k s
      → holdings k (process_training_payment (U k) owner miner block allow s).1 ≡ holdings k s
  process_training_payment-holdings owner miner block allow s ne h =
      omega
        (int_laws, parts_of_eq (process_training_payment_lem owner miner block allow s ne h).holds)
