-- ===== src/Consensus/Bootstrap/Shrinking.antt =====
-- dessin/consensus/enhanced_pogo_consensus.py: the economics of a block creates no tokens.
use dessin.Prelude.{
  ◌≡◌, ◌⊎◌, refl, inl, inr, true, none, some, [], ◌∷◌, ◌++◌, String, if◌then◌else◌, Option-cases,
  Bool-cases, arith,
}
use dessin.Prelude.Int.{ℤ, pos, ◌+ℤ◌, ◌-ℤ◌, ◌≤ℤ◌, leb_ℤ, ltb_ℤ, int_laws, +ℤ_parts, parts_of_eq}
use dessin.Dict.{get, get_or, set}
use dessin.Num.{min_num}
use dessin.Num.Units.{Scale}
use dessin.Economics.EconomicSystem.{
  EconomicSystem, Result, returned, key_error, Action, pure, credit_stake, genesis_address,
  get_balance, get_staked_amount, event, bootstrap_materialization,
}
use dessin.Economics.EconomicSystem.Accounting.{total, total-set, total-del}
use dessin.Economics.EconomicSystem.Holdings.{U, holdings, IsQueued}
use dessin.Economics.EconomicSystem.Staking.{
  mint_need, slash_bootstrap_participant, materialize_bootstrap_survivor,
}
use dessin.Consensus.Bootstrap.Stakes.{
  IsStaked, same_stakes, staked, slash_bootstrap_participant-IsStaked,
}

module _ (k : Scale) where
  -- The queues and the stakes stay in order, and the holdings do not grow.
  pub record Shrinks (s t : EconomicSystem (U k)) : Type 0 where
    pub queued : IsQueued k t
    pub staked : IsStaked k t
    pub holds : holdings k t ≤ℤ holdings k s

  slash_lem :
      (a : String) (s : EconomicSystem (U k))
      → IsStaked k s
      → holdings k (slash_bootstrap_participant (U k) a s).1 +ℤ get_staked_amount a s ≡ holdings k s
  unfolding slash_bootstrap_participant
  slash_lem a s h = omega (int_laws, parts_of_eq (total-del a s.staked_amounts h.distinct))

  slash_queue :
      (a : String) (s : EconomicSystem (U k))
      → IsQueued k s
      → IsQueued k (slash_bootstrap_participant (U k) a s).1
  unfolding slash_bootstrap_participant
  slash_queue a s h = record { distinct = h.distinct; nonneg = h.nonneg }

  pub slash_Shrinks :
      (a : String) (s : EconomicSystem (U k))
      → IsQueued k s
      → IsStaked k s
      → Shrinks s (slash_bootstrap_participant (U k) a s).1
  slash_Shrinks a s q h = record {
    queued = slash_queue a s q;
    staked = slash_bootstrap_participant-IsStaked k a s h;
    holds = omega (int_laws, parts_of_eq (slash_lem a s h), h.nonneg a);
  }

  -- What is minted for a survivor comes from the genesis account.
  record Mints (s : EconomicSystem (U k)) (out : Result ℤ × EconomicSystem (U k)) : Type 0 where
    queue : out.1.unbonding_queue ≡ s.unbonding_queue
    stakes : out.1.staked_amounts ≡ s.staked_amounts
    holds : holdings k out.1 ≤ℤ holdings k s
    pays :
        (out.0 ≡ key_error)
        ⊎ ((m : ℤ) × (out.0 ≡ returned m) × ((holdings k out.1 +ℤ m) ≤ℤ holdings k s))

  abbrev drained : (a : String) (m v b : ℤ) → EconomicSystem (U k) → EconomicSystem (U k)
  drained a m v b s = record s {
    balances = set genesis_address (v -ℤ m) s.balances;
    total_tokens_emitted = s.total_tokens_emitted +ℤ m;
    economic_events =
        s.economic_events
        ++ (event (U k) bootstrap_materialization b genesis_address a m none ∷ []);
  }

  mint_need_pays :
      (a : String) (need v b : ℤ) (s : EconomicSystem (U k))
      → ltb_ℤ (pos 0) need ≡ true
      → get genesis_address s.balances ≡ some v
      → ltb_ℤ (pos 0) (min_num (U k) need v) ≡ true
      → mint_need (U k) a need b s
        ≡ (returned (min_num (U k) need v), drained a (min_num (U k) need v) v b s)
  unfolding mint_need
  mint_need_pays a need v b s due e pays = ground arith

  drained_lem :
      (a : String) (m v b : ℤ) (s : EconomicSystem (U k))
      → get genesis_address s.balances ≡ some v
      → ltb_ℤ (pos 0) m ≡ true
      → Mints s (returned m, drained a m v b s)
  drained_lem a m v b s e pays =
      let debited : total (set genesis_address (v -ℤ m) s.balances) +ℤ v
          ≡ total s.balances +ℤ (v -ℤ m) =
        rw e at (total-set genesis_address (v -ℤ m) s.balances) in
      let conserved : holdings k (drained a m v b s) +ℤ m ≡ holdings k s =
        omega (int_laws, parts_of_eq debited) in
      record {
        queue = refl;
        stakes = refl;
        holds =
            ground
              (arith, pays, parts_of_eq conserved, +ℤ_parts (holdings k (drained a m v b s)) m);
        pays = inr (m, refl, omega (int_laws, parts_of_eq conserved));
      }

  mint_need_lem :
      (a : String) (need b : ℤ) (s : EconomicSystem (U k)) → Mints s (mint_need (U k) a need b s)
  unfolding mint_need
  mint_need_lem a need b s =
      let avail = get_balance genesis_address s in
      let m = min_num (U k) need avail in
      elim (Bool-cases (ltb_ℤ (pos 0) need)) [
        | inr nothing ↦ rw nothing (record {
          queue = refl;
          stakes = refl;
          holds = omega arith;
          pays = inr (pos 0, refl, omega int_laws);
        })
        | inl due ↦ elim (Bool-cases (ltb_ℤ (pos 0) m)) [
          | inr empty ↦
              rw (due, empty)
                (record {
                  queue = refl;
                  stakes = refl;
                  holds = omega arith;
                  pays = inr (m, refl, ground (arith, empty, +ℤ_parts (holdings k s) m));
                })
          | inl pays ↦ elim (Option-cases (get genesis_address s.balances)) [
            | inl missing ↦
                let none_there : ltb_ℤ (pos 0) (min_num (U k) need (pos 0)) ≡ true =
                  rw missing at pays in
                absurd (ground (arith, none_there, due))
            | inr (v, e) ↦
                let worth : ltb_ℤ (pos 0) (min_num (U k) need v) ≡ true = rw e at pays in
                rw (mint_need_pays a need v b s due e worth)
                  (drained_lem a (min_num (U k) need v) v b s e worth)
          ]
        ]
      ]

  same_order :
      (s t : EconomicSystem (U k))
      → t.unbonding_queue ≡ s.unbonding_queue
      → t.staked_amounts ≡ s.staked_amounts
      → IsQueued k s
      → IsStaked k s
      → IsQueued k t × IsStaked k t
  same_order s t e f q h =
      (record { distinct = rw e q.distinct; nonneg = rw e q.nonneg }, same_stakes k s t f h)

  -- The end of a survivor's materialization: his stake of `rew` and what was minted go back to him.
  abbrev give_back : (a : String) (rew m : ℤ) → Action (U k) (Unit {0})
  give_back a rew m =
      let staked_total = rew +ℤ m in
      if leb_ℤ staked_total (pos 0) then pure tt else credit_stake a staked_total

  give_back-Shrinks :
      (a : String) (rew m : ℤ) (s t : EconomicSystem (U k))
      → IsQueued k t
      → IsStaked k t
      → (holdings k t +ℤ rew) ≤ℤ holdings k s
      → (holdings k t +ℤ rew +ℤ m) ≤ℤ holdings k s
      → pos 0 ≤ℤ rew
      → Shrinks s (give_back a rew m t).1
  give_back-Shrinks a rew m s t q h less paid nonneg =
      elim (Bool-cases (leb_ℤ (rew +ℤ m) (pos 0))) [
        | inl nothing ↦
            rw nothing (record { queued = q; staked = h; holds = omega (int_laws, less, nonneg) })
        | inr worth ↦
            let held = h.nonneg a in
            let x = get_staked_amount a t +ℤ (rew +ℤ m) in
            let more : pos 0 ≤ℤ x =
              ground (arith, held, worth, +ℤ_parts (get_staked_amount a t) (rew +ℤ m)) in
            rw worth (record {
              queued = record { distinct = q.distinct; nonneg = q.nonneg };
              staked = staked k a x t _ more refl h;
              holds = omega (int_laws, paid, parts_of_eq (total-set a x t.staked_amounts));
            })
      ]

  pub materialize_Shrinks :
      (a : String) (grant b : ℤ) (s : EconomicSystem (U k))
      → IsQueued k s
      → IsStaked k s
      → Shrinks s (materialize_bootstrap_survivor (U k) a grant b s).1
  unfolding materialize_bootstrap_survivor slash_bootstrap_participant
  materialize_Shrinks a grant b s q h =
      let rew = get_staked_amount a s in
      let u = (slash_bootstrap_participant (U k) a s).1 in
      let need = get_or a (pos 0) s.bootstrap_virtual_locked +ℤ grant in
      let nonneg = h.nonneg a in
      let dropped = slash_lem a s h in
      next rew u (slash_queue a s q) (slash_bootstrap_participant-IsStaked k a s h) dropped nonneg
        (mint_need (U k) a need b u) (mint_need_lem a need b u)
    where
      next :
          (rew : ℤ) (u : EconomicSystem (U k))
          → IsQueued k u
          → IsStaked k u
          → holdings k u +ℤ rew ≡ holdings k s
          → pos 0 ≤ℤ rew
          → (p : Result ℤ × EconomicSystem (U k)) → Mints u p
          → Shrinks s
              (elim p.0 as (λ r. Result (Unit {0}) × EconomicSystem (U k)) [
                | returned m ↦ give_back a rew m p.1
                | key_error ↦ (key_error, p.1)
              ]).1
      next rew u q h dropped nonneg (key_error, t) mints =
          let (queued, kept) = same_order u t mints.queue mints.stakes q h in
          record {
            queued = queued;
            staked = kept;
            holds = omega (int_laws, parts_of_eq dropped, mints.holds, nonneg);
          }
      next rew u q h dropped nonneg (returned m, t) mints =
          let (queued, kept) = same_order u t mints.queue mints.stakes q h in
          let paid : (holdings k t +ℤ m) ≤ℤ holdings k u = elim mints.pays [
            | inl raised ↦ cc
            | inr (n, e, below) ↦ let same : n ≡ m = cc in rw (← same) below
          ] in
          give_back-Shrinks a rew m s t queued kept
            (omega (int_laws, parts_of_eq dropped, mints.holds))
            (omega (int_laws, parts_of_eq dropped, paid)) nonneg
