-- ===== src/Economics/EconomicSystem/Holdings.antt =====
-- dessin/economics/economic_system.py: the holdings of a system with exact amounts, and that crediting
-- matured unbonding leaves them alone. The holdings are the liquid balances, the stake, the training
-- escrow and the queues of unbonding; virtual bootstrap stake is no token.
use dessin.Prelude.{
  ◌≡◌, ◌≢◌, refl, false, some, List, [], ◌∷◌, String, arith, ◌==◌, eq_iff, Option-cases, Bool-cases,
  inl, inr,
}
use dessin.Prelude.Int.{ℤ, pos, ◌+ℤ◌, ◌≤ℤ◌, leb_ℤ, ltb_ℤ, int_laws, parts_of_eq}
use dessin.Dict.{Dict, get, get_or, IsDistinct, set-IsDistinct, del-IsDistinct}
use dessin.Num.{Num}
use dessin.Num.Units.{Scale, units}
use dessin.Economics.EconomicSystem.{EconomicSystem, Result, returned, system, get_balance}
use dessin.Economics.EconomicSystem.Transfers.{
  finalize_matured_unstakes, split_matured, settle, keep_pending, finalize_entries,
}
use dessin.Economics.EconomicSystem.Accounting.{
  total, principal, total_queued, total-set, total_queued-set, total_queued-del,
}
use dessin.Economics.EconomicSystem.Queues.{
  NonnegQueue, NonnegQueues, get-NonnegQueue, set-NonnegQueues, del-NonnegQueues,
}

module _ (k : Scale) where
  abbrev pub U : Num
  U = units k

  abbrev pub holdings : EconomicSystem U → ℤ
  holdings s =
      total s.balances
      +ℤ total s.staked_amounts
      +ℤ total s.model_training_escrow
      +ℤ total_queued s.unbonding_queue

  -- The queues are a real `dict`, and what `request_unstake` puts there is not negative.
  pub record IsQueued (s : EconomicSystem U) : Type 0 where
    pub distinct : IsDistinct s.unbonding_queue
    pub nonneg : NonnegQueues s.unbonding_queue

  pub not_below : (x : ℤ) → ltb_ℤ (pos 0) x ≡ false → x ≤ℤ pos 0
  not_below x h = ground arith

  pub split_matured_lem :
      (tip c : ℤ) (q : List (ℤ × ℤ))
      → NonnegQueue q
      → let (credited, pending) = split_matured U tip c q in
        (credited +ℤ principal pending ≡ c +ℤ principal q) × (c ≤ℤ credited) × NonnegQueue pending
  unfolding split_matured principal
  split_matured_lem tip c [] n = (refl, omega arith, tt)
  split_matured_lem tip c ((amt, unlock) ∷ q) n = elim (Bool-cases (leb_ℤ unlock tip)) [
    | inl due ↦
        let ih = split_matured_lem tip (c +ℤ amt) q n.1 in
        rw due (omega (int_laws, parts_of_eq ih.0), omega (int_laws, ih.1, n.0), ih.2)
    | inr later ↦
        let ih = split_matured_lem tip c q n.1 in
        rw later (omega (int_laws, parts_of_eq ih.0), ih.1, (n.0, ih.2))
  ]

  keep_pending_lem :
      (a : String) (pending : List (ℤ × ℤ)) (d : Dict (List (ℤ × ℤ)))
      → IsDistinct d
      → NonnegQueues d
      → NonnegQueue pending
      → (total_queued (keep_pending U a pending d) +ℤ principal (get_or a [] d)
          ≡ total_queued d +ℤ principal pending)
        × IsDistinct (keep_pending U a pending d)
        × NonnegQueues (keep_pending U a pending d)
  unfolding principal
  keep_pending_lem a [] d h n p = (
    omega (int_laws, parts_of_eq (total_queued-del a d h)),
    del-IsDistinct a d h,
    del-NonnegQueues a d n,
  )
  keep_pending_lem a (e ∷ es) d h n p = (
    total_queued-set a (e ∷ es) d,
    set-IsDistinct a (e ∷ es) d h,
    set-NonnegQueues a (e ∷ es) d n p,
  )

  -- What one action does: the queues stay in order, and the holdings grow by `issued`.
  pub record Issues {A : Type 0} (issued : ℤ) (s : EconomicSystem U)
      (out : Result A × EconomicSystem U) : Type 0 where
    pub queued : IsQueued out.1
    pub holds : holdings out.1 ≡ holdings s +ℤ issued

  pub settle_lem :
      (a : String) (tip : ℤ) (q : List (ℤ × ℤ)) (s : EconomicSystem U)
      → get a s.unbonding_queue ≡ some q
      → IsQueued s
      → Issues (pos 0) s (settle U a tip q s)
  unfolding settle
  settle_lem a tip q s e h =
      let (credited, pending) = split_matured U tip (pos 0) q in
      let (adds, grows, rest) =
        split_matured_lem tip (pos 0) q (get-NonnegQueue a q s.unbonding_queue h.nonneg e) in
      let (sum, distinct, nonneg) =
        keep_pending_lem a pending s.unbonding_queue h.distinct h.nonneg rest in
      let queued_sum : total_queued (keep_pending U a pending s.unbonding_queue) +ℤ principal q
          ≡ total_queued s.unbonding_queue +ℤ principal pending =
        rw e at sum in
      elim (Bool-cases (ltb_ℤ (pos 0) credited)) [
        | inl some_due ↦ rw some_due (record {
          queued = record { distinct = distinct; nonneg = nonneg };
          holds = omega (
            int_laws,
            parts_of_eq (total-set a (get_balance a s +ℤ credited) s.balances),
            parts_of_eq queued_sum,
            parts_of_eq adds,
          );
        })
        | inr none_due ↦ rw none_due (record {
          queued = record { distinct = distinct; nonneg = nonneg };
          holds = omega (
            int_laws,
            parts_of_eq queued_sum,
            parts_of_eq adds,
            grows,
            not_below credited none_due,
          );
        })
      ]

  pub finalize_lem :
      (a : String) (tip : ℤ) (s : EconomicSystem U)
      → IsQueued s
      → Issues (pos 0) s (finalize_matured_unstakes U a tip s)
  unfolding finalize_matured_unstakes
  finalize_lem a tip s h = elim (Option-cases (get a s.unbonding_queue)) [
    | inl missing ↦
        rw (missing, finalize_matured_unstakes) (record { queued = h; holds = omega int_laws })
    | inr (q, e) ↦ rw (e, finalize_matured_unstakes) (entries q e)
  ]
    where
      entries :
          (q : List (ℤ × ℤ))
          → get a s.unbonding_queue ≡ some q
          → Issues {A = ℤ} (pos 0) s (finalize_entries U a tip q s)
      entries [] e = record { queued = h; holds = omega int_laws }
      entries (x ∷ xs) e = settle_lem a tip (x ∷ xs) s e h

  settle_returns :
      (a : String) (tip : ℤ) (q : List (ℤ × ℤ)) (s : EconomicSystem U)
      → (c : ℤ) × ((settle U a tip q s).0 ≡ returned c)
  unfolding settle
  settle_returns a tip q s = elim (Bool-cases (ltb_ℤ (pos 0) (split_matured U tip (pos 0) q).0)) [
    | inl some_due ↦ rw some_due (_, refl)
    | inr none_due ↦ rw none_due (_, refl)
  ]

  -- It never raises.
  pub finalize_returns :
      (a : String) (tip : ℤ) (s : EconomicSystem U)
      → (c : ℤ) × ((finalize_matured_unstakes U a tip s).0 ≡ returned c)
  unfolding finalize_matured_unstakes
  finalize_returns a tip s = elim (Option-cases (get a s.unbonding_queue)) [
    | inl missing ↦ rw (missing, finalize_matured_unstakes) (pos 0, refl)
    | inr (q, e) ↦ rw (e, finalize_matured_unstakes) (entries q)
  ]
    where
      entries : (q : List (ℤ × ℤ)) → (c : ℤ) × ((finalize_entries U a tip q s).0 ≡ returned c)
      entries [] = (pos 0, refl)
      entries (x ∷ xs) = settle_returns a tip (x ∷ xs) s

  pub same_Issues :
      {A : Type 0} (s : EconomicSystem U) (r : Result A) (t : EconomicSystem U)
      → IsQueued s
      → t ≡ s
      → Issues (pos 0) s (r, t)
  same_Issues s r t h e = rw e (record { queued = h; holds = omega int_laws })

  pub after_Issues :
      {A B : Type 0} (j : ℤ) (s : EconomicSystem U) (m : Result A × EconomicSystem U)
      (out : Result B × EconomicSystem U)
      → Issues (pos 0) s m
      → Issues j m.1 out
      → Issues j s out
  after_Issues j s m out p q = record {
    queued = q.queued;
    holds = omega (int_laws, parts_of_eq p.holds, parts_of_eq q.holds);
  }

pub not_system : (a : String) → a ≢ system → (a == system) ≡ false
not_system a ne = ground (arith, eq_iff a system)
