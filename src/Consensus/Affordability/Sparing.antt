-- ===== src/Consensus/Affordability/Sparing.antt =====
-- dessin/consensus/enhanced_pogo_consensus.py and dessin/economics/economic_system.py: what the check and
-- the first half of a payment leave alone.
use dessin.Prelude.{
  ◌≡◌, ◌≢◌, refl, inl, inr, Bool, not, ◌&&◌, List, [], ◌∷◌, String, ◌==◌, Bool-cases, ◌∙◌, arith,
  eq_iff,
}
use dessin.Prelude.Int.{ℤ, pos, ◌+ℤ◌, ◌-ℤ◌, leb_ℤ, ltb_ℤ}
use dessin.Dict.{get_or, set, get_or-set}
use dessin.Num.{min_num, max_num}
use dessin.Num.Units.{Scale}
use dessin.Economics.EconomicSystem.{
  EconomicSystem, Result, returned, key_error, Action, pure, gets, ◌>>=◌, ◌>>◌, system, get_balance,
  get_staked_amount,
}
use dessin.Economics.EconomicSystem.Transfers.{
  finalize_matured_unstakes, settle, finalize_entries, split_matured,
}
use dessin.Economics.EconomicSystem.Staking.{unstake_immediate_to_liquid}
use dessin.Economics.EconomicSystem.Holdings.{U, IsQueued, finalize_lem}
use dessin.Economics.EconomicSystem.Training.{escrow_of, cover_from_stake, owner_can_pay}
use dessin.Consensus.Affordability.{tail_spendable, can_owner_afford}

module _ (k : Scale) (owner miner : String) (apart : owner ≢ miner) where
  -- What leaves the miner, the escrows and the price alone, and the queues in order.
  pub record Spares (s t : EconomicSystem (U k)) : Type 0 where
    pub queued : IsQueued k s → IsQueued k t
    pub escrow : t.model_training_escrow ≡ s.model_training_escrow
    pub price : t.training_payment_per_step ≡ s.training_payment_per_step
    pub other : get_balance miner t ≡ get_balance miner s

  idle_Spares : (s : EconomicSystem (U k)) → Spares s s
  idle_Spares s = record { queued = λ h. h; escrow = refl; price = refl; other = refl }

  after_Spares : (s t u : EconomicSystem (U k)) → Spares s t → Spares t u → Spares s u
  after_Spares s t u p q = record {
    queued = λ h. q.queued (p.queued h);
    escrow = q.escrow ∙ p.escrow;
    price = q.price ∙ p.price;
    other = q.other ∙ p.other;
  }

  bind_Spares :
      {A B : Type 0} (m : Action (U k) A) (f : A → Action (U k) B)
      → ((s : EconomicSystem (U k)) → Spares s (m s).1)
      → ((a : A) (s : EconomicSystem (U k)) → Spares s (f a s).1)
      → (s : EconomicSystem (U k)) → Spares s (◌>>=◌ {N = U k} m f s).1
  bind_Spares {A = A} {B = B} m f first rest s = next (m s) (first s)
    where
      next :
          (p : Result A × EconomicSystem (U k))
          → Spares s p.1
          → Spares s
              (elim p.0 as (λ r. Result B × EconomicSystem (U k)) [
                | returned r ↦ f r p.1
                | key_error ↦ (key_error, p.1)
              ]).1
      next (returned r, t) h = after_Spares s t _ h (rest r t)
      next (key_error, t) h = h

  pub other_balance :
      (x : ℤ) (s : EconomicSystem (U k))
      → get_or miner (pos 0) (set owner x s.balances) ≡ get_balance miner s
  other_balance x s =
      ground (arith, get_or-set owner miner (pos 0) x s.balances, eq_iff owner miner, apart)

  pub finalize_others :
      (tip : ℤ) (s : EconomicSystem (U k))
      → let t = (finalize_matured_unstakes (U k) owner tip s).1 in
        (t.model_training_escrow ≡ s.model_training_escrow)
        × (t.training_payment_per_step ≡ s.training_payment_per_step)
        × (get_balance miner t ≡ get_balance miner s)
  unfolding finalize_matured_unstakes settle
  finalize_others tip s = entries (get_or owner [] s.unbonding_queue)
    where
      entries :
          (q : List (ℤ × ℤ))
          → let t = (finalize_entries (U k) owner tip q s).1 in
            (t.model_training_escrow ≡ s.model_training_escrow)
            × (t.training_payment_per_step ≡ s.training_payment_per_step)
            × (get_balance miner t ≡ get_balance miner s)
      entries [] = (refl, refl, refl)
      entries (x ∷ xs) =
          let credited = (split_matured (U k) tip (pos 0) (x ∷ xs)).0 in
          elim (Bool-cases (ltb_ℤ (pos 0) credited)) [
            | inl some_due ↦
                rw some_due (refl, refl, other_balance (get_balance owner s +ℤ credited) s)
            | inr none_due ↦ rw none_due (refl, refl, refl)
          ]

  pub finalize_Spares :
      (tip : ℤ) (s : EconomicSystem (U k))
      → Spares s (finalize_matured_unstakes (U k) owner tip s).1
  finalize_Spares tip s =
      let (escrow, price, other) = finalize_others tip s in
      record {
        queued = λ h. let f = finalize_lem k owner tip s h in f.queued;
        escrow = escrow;
        price = price;
        other = other;
      }

  unstake_Spares :
      (x : ℤ) (s : EconomicSystem (U k)) → Spares s (unstake_immediate_to_liquid (U k) owner x s).1
  unfolding unstake_immediate_to_liquid
  unstake_Spares x s = elim (Bool-cases (ltb_ℤ (get_staked_amount owner s) x)) [
    | inl short ↦ rw short (idle_Spares s)
    | inr covered ↦ rw covered (record {
      queued = λ h. record { distinct = h.distinct; nonneg = h.nonneg };
      escrow = refl;
      price = refl;
      other = other_balance (get_balance owner s +ℤ x) s;
    })
  ]

  cover_Spares :
      (x : ℤ) (allow : Bool) (s : EconomicSystem (U k))
      → Spares s (cover_from_stake (U k) owner x allow s).1
  unfolding cover_from_stake
  cover_Spares x allow s =
      let take =
        min_num (U k) (max_num (U k) (pos 0) (x -ℤ get_balance owner s))
          (get_staked_amount owner s) in
      elim (Bool-cases ((ltb_ℤ (get_balance owner s) x && allow) && ltb_ℤ (k.dec 1 12) take)) [
        | inl unstakes ↦ rw unstakes (
            bind_Spares (unstake_immediate_to_liquid (U k) owner take) (λ r. pure tt)
              (unstake_Spares take) (λ r t. idle_Spares t) s)
        | inr leaves ↦ rw leaves (idle_Spares s)
      ]

  pub owner_can_pay-Spares :
      (x b : ℤ) (allow : Bool) (s : EconomicSystem (U k))
      → Spares s (owner_can_pay (U k) owner x b allow s).1
  unfolding owner_can_pay
  owner_can_pay-Spares x b allow s =
      let ask : Action (U k) Bool = gets (λ t. not (ltb_ℤ (get_balance owner t) x)) in
      let rest : ℤ → Action (U k) Bool = λ n. cover_from_stake (U k) owner x allow >> ask in
      elim (Bool-cases (ltb_ℤ (pos 0) x && not (owner == system))) [
        | inl owes ↦ rw owes (
            bind_Spares (finalize_matured_unstakes (U k) owner b) rest (finalize_Spares b)
              (λ n.
                bind_Spares (cover_from_stake (U k) owner x allow) (λ r. ask) (cover_Spares x allow)
                  (λ r t. idle_Spares t))
              s)
        | inr free ↦ rw free (idle_Spares s)
      ]

  pub can_owner_afford-Spares :
      (model_id : String) (cost b : ℤ) (in_boot : Bool) (s : EconomicSystem (U k))
      → Spares s (can_owner_afford (U k) owner model_id cost b in_boot s).1
  unfolding can_owner_afford
  can_owner_afford-Spares model_id cost b in_boot s =
      let needed = max_num (U k) (pos 0) (cost -ℤ escrow_of (U k) model_id s) in
      elim (Bool-cases (owner == system)) [
        | inl nobody ↦ rw nobody (idle_Spares s)
        | inr somebody ↦ elim (Bool-cases (leb_ℤ needed (pos 0))) [
          | inl paid ↦ rw (somebody, paid) (idle_Spares s)
          | inr owes ↦
              rw (somebody, owes)
                (bind_Spares (finalize_matured_unstakes (U k) owner b)
                  (λ n. gets (λ u. leb_ℤ needed (tail_spendable (U k) owner b in_boot u)))
                  (finalize_Spares b) (λ n t. idle_Spares t) s)
        ]
      ]
