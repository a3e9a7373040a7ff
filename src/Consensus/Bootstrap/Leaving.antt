-- ===== src/Consensus/Bootstrap/Leaving.antt =====
-- dessin/consensus/enhanced_pogo_consensus.py, `_bootstrap_ranking_slash`: what a round writes.
use dessin.Prelude.{
  ◌≡◌, refl, inl, inr, Bool, true, false, not, ◌&&◌, ◌||◌, Option, none, List, [], ◌∷◌, String,
  ◌==◌, if◌then◌else◌, Bool-cases, ap, ◌∙◌, sym, arith, eq_iff,
}
use dessin.Prelude.Int.{ℤ}
use dessin.Dict.{Dict, get, del, get-del}
use dessin.Num.{Num}
use dessin.Economics.EconomicSystem.Staking.{slash_bootstrap_participant}
use dessin.Consensus.Leader.{member}
use dessin.Consensus.Leader.Sorted.{member-keep_if}
use dessin.Consensus.Bootstrap.{slash_inactive, bootstrap_ranking_slash}
use dessin.Consensus.Bootstrap.State.{Node, is_bootstrap_period_at_height}
use dessin.Consensus.Bootstrap.Ranking.{keys, participants, active_miners}

-- Whom a round over `addrs` slashes.
abbrev pub goes : (active addrs : List String) → String → Bool
goes active addrs a = member a addrs && not (member a active)

or_left : (p q r : Bool) → ((p || q) || r) ≡ (q || (p || r))
or_left true true r = refl
or_left true false r = refl
or_left false true r = refl
or_left false false r = refl

left_out :
    (slashed registered active here : Bool)
    → here ≡ (not slashed && registered)
    → (here && not (not (slashed || (here && not active)) && registered)) ≡ (here && not active)
left_out slashed registered active here e = ground (arith, e)

kept_in :
    (slashed registered active here : Bool)
    → here ≡ (not slashed && registered)
    → (not (slashed || (here && not active)) && registered) ≡ (here && active)
kept_in slashed registered active here e = ground (arith, e)

deleted :
    {V : Type 0} (addr a : String) (before all : Bool) (d : Dict V) (now : Option V)
    → all ≡ ((addr == a) || before)
    → now ≡ (if before then none else get a (del addr d))
    → now ≡ (if all then none else get a d)
deleted addr a before all d now e h = ground (arith, e, h, get-del addr a d)

module _ {N : Num} where
  -- What a round leaves.
  pub record Slashes (gone : String → Bool) (s t : Node N) : Type 0 where
    pub slashed :
        (a : String)
        → member a t.roster.bootstrap_slashed ≡ (member a s.roster.bootstrap_slashed || gone a)
    pub stake :
        (a : String)
        → get a t.system.staked_amounts ≡ (if gone a then none else get a s.system.staked_amounts)
    pub virtual :
        (a : String)
        → get a t.system.bootstrap_virtual_locked
          ≡ (if gone a then none else get a s.system.bootstrap_virtual_locked)
    pub registry : t.roster.bootstrap_registry ≡ s.roster.bootstrap_registry

  abbrev dropped : String → Node N → Node N
  dropped addr s = record s {
    system = record s.system {
      bootstrap_virtual_locked = del addr s.system.bootstrap_virtual_locked;
      staked_amounts = del addr s.system.staked_amounts;
    };
    roster = record s.roster { bootstrap_slashed = addr ∷ s.roster.bootstrap_slashed };
  }

  slash_inactive_lem :
      (active addrs : List String) (s : Node N)
      → Slashes (goes active addrs) s (slash_inactive N active addrs s).1
  unfolding slash_inactive slash_bootstrap_participant
  slash_inactive_lem active [] s = record {
    slashed = λ a. ground arith;
    stake = λ a. refl;
    virtual = λ a. refl;
    registry = refl;
  }
  slash_inactive_lem active (addr ∷ addrs) s = elim (Bool-cases (member addr active)) [
    | inl stays ↦
        let rest = slash_inactive_lem active addrs s in
        let same : (a : String) → goes active (addr ∷ addrs) a ≡ goes active addrs a = λ a.
          elim (Bool-cases (addr == a)) [
            | inl equal ↦
                let addr_is_a : addr ≡ a = ground (arith, eq_iff addr a, equal) in
                let a_stays : member a active ≡ true =
                  ap (λ b. member b active) (sym addr_is_a) ∙ stays in
                ground (arith, a_stays)
            | inr other ↦ ground (arith, other)
          ] in
        rw stays (record {
          slashed = λ a.
              rest.slashed a ∙ ap (λ g. member a s.roster.bootstrap_slashed || g) (sym (same a));
          stake = λ a.
              rest.stake a
              ∙ ap (λ g. if g then none else get a s.system.staked_amounts) (sym (same a));
          virtual = λ a.
              rest.virtual a
              ∙ ap (λ g. if g then none else get a s.system.bootstrap_virtual_locked)
                  (sym (same a));
          registry = rest.registry;
        })
    | inr leaves ↦
        let rest = slash_inactive_lem active addrs (dropped addr s) in
        let more : (a : String)
            → goes active (addr ∷ addrs) a ≡ ((addr == a) || goes active addrs a) =
          λ a. elim (Bool-cases (addr == a)) [
            | inl equal ↦
                let addr_is_a : addr ≡ a = ground (arith, eq_iff addr a, equal) in
                let a_leaves : member a active ≡ false =
                  ap (λ b. member b active) (sym addr_is_a) ∙ leaves in
                ground (arith, equal, a_leaves)
            | inr other ↦ ground (arith, other)
          ] in
        rw leaves (record {
          slashed = λ a.
              rest.slashed a
              ∙ or_left (addr == a) (member a s.roster.bootstrap_slashed) (goes active addrs a)
              ∙ ap (λ g. member a s.roster.bootstrap_slashed || g) (sym (more a));
          stake = λ a.
              deleted addr a (goes active addrs a) _ s.system.staked_amounts _ (more a)
                (rest.stake a);
          virtual = λ a.
              deleted addr a (goes active addrs a) _ s.system.bootstrap_virtual_locked _ (more a)
                (rest.virtual a);
          registry = rest.registry;
        })
  ]

  -- A round in the bootstrap period.
  pub round_lem :
      (b : ℤ) (s : Node N)
      → is_bootstrap_period_at_height b s ≡ true
      → Slashes (goes (active_miners s) (participants s)) s (bootstrap_ranking_slash N b s).1
  unfolding bootstrap_ranking_slash
  round_lem b s inside = rw inside (slash_inactive_lem (active_miners s) (participants s) s)

  -- Who is registered and not slashed, in a state whose registry is `d`.
  participants_lem :
      (s t : Node N) (gone : String → Bool) (a : String)
      → Slashes gone s t
      → member a (participants t) ≡ (
          not (member a s.roster.bootstrap_slashed || gone a)
          && member a (keys s.roster.bootstrap_registry))
  participants_lem s t gone a h =
      member-keep_if (λ b. not (member b t.roster.bootstrap_slashed)) a
        (keys t.roster.bootstrap_registry)
      ∙ ap (λ m. not m && member a (keys t.roster.bootstrap_registry)) (h.slashed a)
      ∙ ap (λ d. not (member a s.roster.bootstrap_slashed || gone a) && member a (keys d))
          h.registry

  -- In a round, those who leave are the registered who are not active.
  pub leaves_lem :
      (s t : Node N) (active : List String) (a : String)
      → Slashes (goes active (participants s)) s t
      → (member a (participants s) && not (member a (participants t)))
        ≡ goes active (participants s) a
  leaves_lem s t active a h =
      let there = participants_lem s t (goes active (participants s)) a h in
      let here =
        member-keep_if (λ b. not (member b s.roster.bootstrap_slashed)) a
          (keys s.roster.bootstrap_registry) in
      ap (λ m. member a (participants s) && not m) there
      ∙ left_out (member a s.roster.bootstrap_slashed) (member a (keys s.roster.bootstrap_registry))
          (member a active) (member a (participants s)) here

  pub stays_lem :
      (s t : Node N) (active : List String) (a : String)
      → Slashes (goes active (participants s)) s t
      → member a (participants t) ≡ (member a (participants s) && member a active)
  stays_lem s t active a h =
      let there = participants_lem s t (goes active (participants s)) a h in
      let here =
        member-keep_if (λ b. not (member b s.roster.bootstrap_slashed)) a
          (keys s.roster.bootstrap_registry) in
      there
      ∙ kept_in (member a s.roster.bootstrap_slashed) (member a (keys s.roster.bootstrap_registry))
          (member a active) (member a (participants s)) here
