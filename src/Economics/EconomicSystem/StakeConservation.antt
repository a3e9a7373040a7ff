-- ===== src/Economics/EconomicSystem/StakeConservation.antt =====
-- dessin/economics/economic_system.py: staking, unstaking and escrow deposits move tokens and create
-- none.
use dessin.Prelude.{
  ◌≡◌, ◌⊎◌, refl, true, false, none, some, List, [], ◌∷◌, ◌++◌, String, arith, Option-cases,
  Bool-cases, inl, inr,
}
use dessin.Prelude.Int.{ℤ, pos, ◌+ℤ◌, ◌-ℤ◌, ◌≤ℤ◌, ◌<ℤ◌, leb_ℤ, ltb_ℤ, eq_ℤ, int_laws, parts_of_eq}
use dessin.Dict.{get-set_self, Dict, get, get_or, set, set-IsDistinct}
use dessin.Num.Units.{Scale}
use dessin.Economics.EconomicSystem.{
  EconomicSystem, returned, system, get_staked_amount, event, unstake_request,
}
use dessin.Economics.EconomicSystem.Transfers.{finalize_matured_unstakes}
use dessin.Economics.EconomicSystem.Accounting.{
  total, principal, total-set, total_queued-set, principal-append,
}
use dessin.Economics.EconomicSystem.Queues.{
  NonnegQueue, NonnegQueues, get-NonnegQueue, set-NonnegQueues,
}
use dessin.Economics.EconomicSystem.Holdings.{
  U, holdings, IsQueued, Issues, finalize_lem, finalize_returns, same_Issues, after_Issues,
}
use dessin.Economics.EconomicSystem.Staking.{
  stake_tokens, request_unstake, unstake_immediate_to_liquid,
}

module _ (k : Scale) where
  abbrev staked : (a : String) (x v : ℤ) → EconomicSystem (U k) → EconomicSystem (U k)
  staked a x v s = record s {
    balances = set a (v -ℤ x) s.balances;
    staked_amounts = set a (get_or a (pos 0) s.staked_amounts +ℤ x) s.staked_amounts;
  }

  stake_tokens_cases :
      (a : String) (x b : ℤ) (s : EconomicSystem (U k))
      → let t = (finalize_matured_unstakes (U k) a b s).1 in
        let u = (stake_tokens (U k) a x b s).1 in
        (u ≡ t) ⊎ ((v : ℤ) × (get a t.balances ≡ some v) × (u ≡ staked a x v t))
  unfolding stake_tokens
  stake_tokens_cases a x b s =
      let (c, f) = finalize_returns k a b s in
      let t = (finalize_matured_unstakes (U k) a b s).1 in
      elim (Option-cases (get a t.balances)) [
        | inl missing ↦ inl (ground arith)
        | inr (v, e) ↦ elim (Bool-cases (ltb_ℤ v x)) [
          | inl short ↦ inl (ground arith)
          | inr covered ↦ inr (v, e, ground arith)
        ]
      ]

  pub stake_tokens_lem :
      (a : String) (x b : ℤ) (s : EconomicSystem (U k))
      → IsQueued k s
      → Issues k (pos 0) s (stake_tokens (U k) a x b s)
  stake_tokens_lem a x b s h =
      let f = finalize_lem k a b s h in
      let m = finalize_matured_unstakes (U k) a b s in
      after_Issues k (pos 0) s m _ f (elim (stake_tokens_cases a x b s) [
        | inl same ↦ same_Issues k m.1 _ _ f.queued same
        | inr (v, e, done) ↦
            let debited : total (set a (v -ℤ x) m.1.balances) +ℤ v
                ≡ total m.1.balances +ℤ (v -ℤ x) =
              rw e at (total-set a (v -ℤ x) m.1.balances) in
            let credited =
              total-set a (get_or a (pos 0) m.1.staked_amounts +ℤ x) m.1.staked_amounts in
            record {
              queued = rw done (record { distinct = f.queued.distinct; nonneg = f.queued.nonneg });
              holds = rw done (omega (int_laws, parts_of_eq debited, parts_of_eq credited));
            }
      ])

  -- `stake_tokens` conserves the holdings, for any amount.
  pub stake_tokens-holdings :
      (a : String) (x b : ℤ) (s : EconomicSystem (U k))
      → IsQueued k s
      → holdings k (stake_tokens (U k) a x b s).1 ≡ holdings k s
  stake_tokens-holdings a x b s h = omega (int_laws, parts_of_eq (stake_tokens_lem a x b s h).holds)

  abbrev liquid : (a : String) (x : ℤ) → EconomicSystem (U k) → EconomicSystem (U k)
  liquid a x s = record s {
    balances = set a (get_or a (pos 0) s.balances +ℤ x) s.balances;
    staked_amounts = set a (get_or a (pos 0) s.staked_amounts -ℤ x) s.staked_amounts;
  }

  pub unstake_immediate_lem :
      (a : String) (x : ℤ) (s : EconomicSystem (U k))
      → IsQueued k s
      → Issues k (pos 0) s (unstake_immediate_to_liquid (U k) a x s)
  unfolding unstake_immediate_to_liquid
  unstake_immediate_lem a x s h = elim (Bool-cases (ltb_ℤ (get_or a (pos 0) s.staked_amounts) x)) [
    | inl short ↦ same_Issues k s _ _ h (ground arith)
    | inr covered ↦
        let done : (unstake_immediate_to_liquid (U k) a x s).1 ≡ liquid a x s = ground arith in
        let debited = total-set a (get_or a (pos 0) s.staked_amounts -ℤ x) s.staked_amounts in
        let credited = total-set a (get_or a (pos 0) s.balances +ℤ x) s.balances in
        record {
          queued = rw done (record { distinct = h.distinct; nonneg = h.nonneg });
          holds = rw done (omega (int_laws, parts_of_eq debited, parts_of_eq credited));
        }
  ]

  abbrev unbonding : (a : String) (x b c : ℤ) → EconomicSystem (U k) → EconomicSystem (U k)
  unbonding a x b c s = record s {
    staked_amounts = set a (get_or a (pos 0) s.staked_amounts -ℤ x) s.staked_amounts;
    unbonding_queue = set a (get_or a [] s.unbonding_queue ++ ((x, b +ℤ c) ∷ [])) s.unbonding_queue;
    economic_events = s.economic_events ++ (event (U k) unstake_request b system a x none ∷ []);
  }

  append-NonnegQueue :
      (q : List (ℤ × ℤ)) (x u : ℤ) → NonnegQueue q → pos 0 ≤ℤ x → NonnegQueue (q ++ ((x, u) ∷ []))
  append-NonnegQueue [] x u n h = (h, tt)
  append-NonnegQueue ((y, w) ∷ q) x u n h = (n.0, append-NonnegQueue q x u n.1 h)

  queue_of-NonnegQueue :
      (a : String) (d : Dict (List (ℤ × ℤ))) → NonnegQueues d → NonnegQueue (get_or a [] d)
  queue_of-NonnegQueue a d n = elim (Option-cases (get a d)) [
    | inl missing ↦ rw missing tt
    | inr (q, e) ↦ rw e (get-NonnegQueue a q d n e)
  ]

  principal_single : (x u : ℤ) → principal ((x, u) ∷ []) ≡ x
  unfolding principal
  principal_single x u = omega int_laws

  request_unstake_cases :
      (a : String) (x b c : ℤ) (s : EconomicSystem (U k))
      → let u = (request_unstake (U k) a x b c s).1 in
        (u ≡ s)
        ⊎ (u ≡ (unstake_immediate_to_liquid (U k) a x s).1)
        ⊎ ((pos 0 ≤ℤ x) × (u ≡ unbonding a x b c s))
  unfolding request_unstake
  request_unstake_cases a x b c s = elim (Bool-cases (leb_ℤ x (pos 0))) [
    | inl none_asked ↦ inl (ground arith)
    | inr asked ↦ elim (Bool-cases (ltb_ℤ c (pos 0))) [
      | inl negative ↦ inl (ground arith)
      | inr waits ↦ elim (Bool-cases (eq_ℤ c (pos 0))) [
        | inl now ↦ inr (inl (ground arith))
        | inr later ↦
            elim (Bool-cases (ltb_ℤ (get_or a (pos 0) s.staked_amounts +ℤ k.dec 1 12) x)) [
              | inl short ↦ inl (ground arith)
              | inr covered ↦ inr (inr (ground arith, ground arith))
            ]
      ]
    ]
  ]

  pub request_unstake_lem :
      (a : String) (x b c : ℤ) (s : EconomicSystem (U k))
      → IsQueued k s
      → Issues k (pos 0) s (request_unstake (U k) a x b c s)
  request_unstake_lem a x b c s h = elim (request_unstake_cases a x b c s) [
    | inl same ↦ same_Issues k s _ _ h same
    | inr (inl now) ↦
        let i = unstake_immediate_lem a x s h in
        record { queued = rw now i.queued; holds = rw now i.holds }
    | inr (inr (nonneg, done)) ↦
        let q = get_or a [] s.unbonding_queue in
        let entry : List (ℤ × ℤ) = (x, b +ℤ c) ∷ [] in
        let debited = total-set a (get_or a (pos 0) s.staked_amounts -ℤ x) s.staked_amounts in
        let queued_up = total_queued-set a (q ++ entry) s.unbonding_queue in
        record {
          queued = rw done (record {
            distinct = set-IsDistinct a (q ++ entry) s.unbonding_queue h.distinct;
            nonneg = set-NonnegQueues a (q ++ entry) s.unbonding_queue h.nonneg (
                append-NonnegQueue q x (b +ℤ c) (queue_of-NonnegQueue a s.unbonding_queue h.nonneg)
                  nonneg);
          });
          holds = rw done (
              omega (
                int_laws,
                parts_of_eq debited,
                parts_of_eq queued_up,
                parts_of_eq (principal-append q entry),
                parts_of_eq (principal_single x (b +ℤ c)),
              ));
        }
  ]

  -- `request_unstake` conserves the holdings, whatever the amount and the cooldown: what leaves the
  -- stake is liquid or in the queue.
  pub request_unstake-holdings :
      (a : String) (x b c : ℤ) (s : EconomicSystem (U k))
      → IsQueued k s
      → holdings k (request_unstake (U k) a x b c s).1 ≡ holdings k s
  request_unstake-holdings a x b c s h =
      omega (int_laws, parts_of_eq (request_unstake_lem a x b c s h).holds)

  -- A queued request of more than the stake, by at most `1e-12`, is granted, and leaves a negative
  -- stake, when the stake is not negative and the cooldown is positive.
  pub request_unstake_overdraws :
      (a : String) (x b c v : ℤ) (s : EconomicSystem (U k))
      → get a s.staked_amounts ≡ some v
      → pos 0 ≤ℤ v
      → v <ℤ x
      → x ≤ℤ v +ℤ k.dec 1 12
      → pos 1 ≤ℤ c
      → let (r, t) = request_unstake (U k) a x b c s in
        (r ≡ returned true) × (get_staked_amount a t <ℤ pos 0)
  unfolding request_unstake
  request_unstake_overdraws a x b c v s e nonneg over within wait =
      let allowed : ltb_ℤ (v +ℤ k.dec 1 12) x ≡ false = ground arith in
      let done : (request_unstake (U k) a x b c s) ≡ (returned true, unbonding a x b c s) =
        ground arith in
      let left = get-set_self a (get_or a (pos 0) s.staked_amounts -ℤ x) s.staked_amounts in
      rw done (refl, rw (left, e) (omega (int_laws, over)))
