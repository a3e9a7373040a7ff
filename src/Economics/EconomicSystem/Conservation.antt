-- ===== src/Economics/EconomicSystem/Conservation.antt =====
-- dessin/economics/economic_system.py: which methods move tokens, and which create or destroy them,
-- for exact amounts.
use dessin.Prelude.{
  ◌≡◌, ◌≢◌, ◌⊎◌, refl, true, false, Option, some, [], ◌∷◌, ◌++◌, String, arith, ◌==◌, Option-cases,
  Bool-cases, inl, inr,
}
use dessin.Prelude.Int.{ℤ, pos, ◌+ℤ◌, ◌-ℤ◌, ltb_ℤ, int_laws, parts_of_eq}
use dessin.Dict.{Dict, get, get_or, set}
use dessin.Num.{Num}
use dessin.Num.Units.{Scale}
use dessin.Economics.EconomicSystem.{EconomicSystem, EconomicEventType, returned, system, event}
use dessin.Economics.EconomicSystem.Transfers.{
  finalize_matured_unstakes, transfer, transfer_settled,
}
use dessin.Economics.EconomicSystem.Accounting.{total, total-set}
use dessin.Economics.EconomicSystem.Holdings.{
  U, holdings, IsQueued, Issues, finalize_lem, finalize_returns, same_Issues, after_Issues,
  not_system,
}

module _ (k : Scale) where
  abbrev V : Num
  V = U k

  abbrev pub moved :
      (from to : String) (x v : ℤ) (ty : EconomicEventType) (b : ℤ) (hash : Option String)
      → EconomicSystem V
      → EconomicSystem V
  moved from to x v ty b hash s =
      let d : Dict ℤ = set from (v -ℤ x) s.balances in
      record s {
        balances = set to (get_or to (pos 0) d +ℤ x) d;
        economic_events = s.economic_events ++ (event V ty b from to x hash ∷ []);
      }

  -- A transfer between accounts changes nothing, or moves the amount.
  pub transfer_settled_cases :
      (from to : String) (x : ℤ) (ty : EconomicEventType) (b : ℤ) (hash : Option String)
      (s : EconomicSystem V)
      → (from == system) ≡ false
      → let (r, t) = transfer_settled V from to x ty b hash s in
        (t ≡ s) ⊎ ((v : ℤ) × (get from s.balances ≡ some v) × (t ≡ moved from to x v ty b hash s))
  unfolding transfer_settled
  transfer_settled_cases from to x ty b hash s ne = elim (Option-cases (get from s.balances)) [
    | inl missing ↦ inl (ground arith)
    | inr (v, e) ↦ elim (Bool-cases (ltb_ℤ v x)) [
      | inl short ↦ inl (ground arith)
      | inr covered ↦ inr (v, e, ground arith)
    ]
  ]

  -- A transfer of what the balance covers.
  pub transfer_settled_pays :
      (from to : String) (x v : ℤ) (ty : EconomicEventType) (b : ℤ) (hash : Option String)
      (s : EconomicSystem V)
      → (from == system) ≡ false
      → get from s.balances ≡ some v
      → ltb_ℤ v x ≡ false
      → transfer_settled V from to x ty b hash s ≡ (returned true, moved from to x v ty b hash s)
  unfolding transfer_settled
  transfer_settled_pays from to x v ty b hash s ne e covered = ground arith

  moved-holdings :
      (from to : String) (x v : ℤ) (ty : EconomicEventType) (b : ℤ) (hash : Option String)
      (s : EconomicSystem V)
      → get from s.balances ≡ some v
      → holdings k (moved from to x v ty b hash s) ≡ holdings k s
  moved-holdings from to x v ty b hash s e =
      let d : Dict ℤ = set from (v -ℤ x) s.balances in
      let debited : total d +ℤ v ≡ total s.balances +ℤ (v -ℤ x) =
        rw e at (total-set from (v -ℤ x) s.balances) in
      omega (int_laws, parts_of_eq debited, parts_of_eq (total-set to (get_or to (pos 0) d +ℤ x) d))

  transfer_settled_lem :
      (from to : String) (x : ℤ) (ty : EconomicEventType) (b : ℤ) (hash : Option String)
      (s : EconomicSystem V)
      → (from == system) ≡ false
      → IsQueued k s
      → Issues k (pos 0) s (transfer_settled V from to x ty b hash s)
  transfer_settled_lem from to x ty b hash s ne h =
      elim (transfer_settled_cases from to x ty b hash s ne) [
        | inl same ↦ same_Issues k s _ _ h same
        | inr (v, e, done) ↦ record {
          queued = rw done (record { distinct = h.distinct; nonneg = h.nonneg });
          holds =
              rw done (omega (int_laws, parts_of_eq (moved-holdings from to x v ty b hash s e)));
        }
      ]

  pub transfer_eq :
      (from to : String) (x : ℤ) (ty : EconomicEventType) (b : ℤ) (hash : Option String)
      (s : EconomicSystem V)
      → (from == system) ≡ false
      → transfer V from to x ty b hash s
        ≡ transfer_settled V from to x ty b hash (finalize_matured_unstakes V from b s).1
  unfolding transfer
  transfer_eq from to x ty b hash s ne = let (c, e) = finalize_returns k from b s in ground arith

  pub transfer_lem :
      (from to : String) (x : ℤ) (ty : EconomicEventType) (b : ℤ) (hash : Option String)
      (s : EconomicSystem V)
      → (from == system) ≡ false
      → IsQueued k s
      → Issues k (pos 0) s (transfer V from to x ty b hash s)
  transfer_lem from to x ty b hash s ne h =
      let f = finalize_lem k from b s h in
      rw (transfer_eq from to x ty b hash s ne) (
        after_Issues k (pos 0) s (finalize_matured_unstakes V from b s) _ f
          (transfer_settled_lem from to x ty b hash _ ne f.queued))

  -- A transfer from any account but the system's, of any amount and whether it succeeds, is refused
  -- or raises, leaves the holdings as they were, if the queues of unbonding are a proper dict without
  -- negative entries.
  pub transfer-holdings :
      (from to : String) (x : ℤ) (ty : EconomicEventType) (b : ℤ) (hash : Option String)
      (s : EconomicSystem V)
      → from ≢ system
      → IsQueued k s
      → holdings k (transfer V from to x ty b hash s).1 ≡ holdings k s
  transfer-holdings from to x ty b hash s ne h =
      omega
        (int_laws, parts_of_eq (transfer_lem from to x ty b hash s (not_system from ne) h).holds)

  -- A transfer from the system account is always paid, and creates its amount: nothing is debited.
  pub transfer-holdings-system :
      (to : String) (x : ℤ) (ty : EconomicEventType) (b : ℤ) (hash : Option String)
      (s : EconomicSystem V)
      → let (r, t) = transfer V system to x ty b hash s in
        (r ≡ returned true) × (holdings k t ≡ holdings k s +ℤ x)
  unfolding transfer transfer_settled
  transfer-holdings-system to x ty b hash s = (
    refl,
    omega (int_laws, parts_of_eq (total-set to (get_or to (pos 0) s.balances +ℤ x) s.balances)),
  )
