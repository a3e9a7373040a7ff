-- ===== src/Economics/EconomicSystem/TrainingConservation.antt =====
-- dessin/economics/economic_system.py: escrow deposits and training payments move tokens and create
-- none.
use dessin.Prelude.{
  ◌≡◌, ◌⊎◌, ◌&&◌, none, some, [], ◌∷◌, ◌++◌, String, arith, Option-cases, Bool-cases, inl, inr,
}
use dessin.Prelude.Int.{ℤ, pos, ◌+ℤ◌, ◌-ℤ◌, leb_ℤ, ltb_ℤ, int_laws, parts_of_eq}
use dessin.Dict.{get, get_or, set}
use dessin.Num.Units.{Scale}
use dessin.Economics.EconomicSystem.{EconomicSystem, event, training_escrow_deposit}
use dessin.Economics.EconomicSystem.Transfers.{finalize_matured_unstakes}
use dessin.Economics.EconomicSystem.Accounting.{total, total-set}
use dessin.Economics.EconomicSystem.Holdings.{
  U, holdings, IsQueued, Issues, finalize_lem, finalize_returns, same_Issues,
}
use dessin.Economics.EconomicSystem.Training.{deposit_model_training_escrow, escrow_address}

module _ (k : Scale) where
  abbrev deposited : (a m : String) (x v b : ℤ) → EconomicSystem (U k) → EconomicSystem (U k)
  deposited a m x v b s = record s {
    balances = set a (v -ℤ x) s.balances;
    model_training_escrow =
        set m (get_or m (pos 0) s.model_training_escrow +ℤ x) s.model_training_escrow;
    economic_events =
        s.economic_events
        ++ (event (U k) training_escrow_deposit b a (escrow_address m) x none ∷ []);
  }

  deposit_cases :
      (a m : String) (x b : ℤ) (s : EconomicSystem (U k))
      → let t = (finalize_matured_unstakes (U k) a b s).1 in
        let u = (deposit_model_training_escrow (U k) a m x b s).1 in
        (u ≡ s) ⊎ (u ≡ t) ⊎ ((v : ℤ) × (get a t.balances ≡ some v) × (u ≡ deposited a m x v b t))
  unfolding deposit_model_training_escrow
  deposit_cases a m x b s =
      let (c, f) = finalize_returns k a b s in
      let t = (finalize_matured_unstakes (U k) a b s).1 in
      elim (Bool-cases (ltb_ℤ x (pos 0))) [
        | inl negative ↦ inl (ground arith)
        | inr nonneg ↦ elim (Bool-cases (leb_ℤ x (pos 0) && leb_ℤ (pos 0) x)) [
          | inl nothing ↦ inl (ground arith)
          | inr positive ↦ elim (Option-cases (get a t.balances)) [
            | inl missing ↦ inr (inl (ground arith))
            | inr (v, e) ↦ elim (Bool-cases (ltb_ℤ v x)) [
              | inl short ↦ inr (inl (ground arith))
              | inr covered ↦ inr (inr (v, e, ground arith))
            ]
          ]
        ]
      ]

  pub deposit_lem :
      (a m : String) (x b : ℤ) (s : EconomicSystem (U k))
      → IsQueued k s
      → Issues k (pos 0) s (deposit_model_training_escrow (U k) a m x b s)
  deposit_lem a m x b s h =
      let f = finalize_lem k a b s h in
      let t = (finalize_matured_unstakes (U k) a b s).1 in
      elim (deposit_cases a m x b s) [
        | inl same ↦ same_Issues k s _ _ h same
        | inr (inl settled) ↦ record { queued = rw settled f.queued; holds = rw settled f.holds }
        | inr (inr (v, e, done)) ↦
            let debited : total (set a (v -ℤ x) t.balances) +ℤ v ≡ total t.balances +ℤ (v -ℤ x) =
              rw e at (total-set a (v -ℤ x) t.balances) in
            let credited =
              total-set m (get_or m (pos 0) t.model_training_escrow +ℤ x) t.model_training_escrow in
            record {
              queued = rw done (record { distinct = f.queued.distinct; nonneg = f.queued.nonneg });
              holds = rw done (
                  omega (int_laws, parts_of_eq debited, parts_of_eq credited, parts_of_eq f.holds));
            }
      ]

  -- A deposit into a training escrow conserves the holdings, whatever the amount.
  pub deposit-holdings :
      (a m : String) (x b : ℤ) (s : EconomicSystem (U k))
      → IsQueued k s
      → holdings k (deposit_model_training_escrow (U k) a m x b s).1 ≡ holdings k s
  deposit-holdings a m x b s h = omega (int_laws, parts_of_eq (deposit_lem a m x b s h).holds)
