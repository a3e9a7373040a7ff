-- ===== src/Consensus/Bootstrap/Culling.antt =====
-- dessin/consensus/enhanced_pogo_consensus.py, `_bootstrap_ranking_slash`: who stays and who goes.
use dessin.Prelude.{
  ℕ, ◌≡◌, refl, Bool, true, false, not, ◌&&◌, ◌||◌, none, String, if◌then◌else◌, length, take,
  count_if, ap, ◌∙◌, sym, arith, ltb,
}
use dessin.Prelude.Int.{ℤ, pos}
use dessin.Dict.{get, IsDistinct}
use dessin.Num.{Num, IsOrdered}
use dessin.Consensus.Leader.{member}
use dessin.Consensus.Leader.Sorted.{member-keep_if}
use dessin.Consensus.Bootstrap.{bootstrap_ranking_slash}
use dessin.Consensus.Bootstrap.State.{Node, is_bootstrap_period_at_height}
use dessin.Consensus.Bootstrap.Ranking.{keys, participants, rank, ranks_before, active_miners}
use dessin.Consensus.Bootstrap.Counting.{
  keys-IsUnique, keep_if-IsUnique, length-keep_if, count_if-keep_if, length-take, active_miners_lem,
}
use dessin.Consensus.Bootstrap.Sorting.{
  length-rank, count_if_cong, count_if-take, count_if-rank, member-rank, rank-IsUnique,
  rank-IsRanked, take-IsRanked,
}
use dessin.Consensus.Bootstrap.Leaving.{goes, Slashes, round_lem, leaves_lem, stays_lem}

still_open :
    (slashed registered active here : Bool)
    → here ≡ (not slashed && registered)
    → registered ≡ true
    → not (slashed || (here && not active)) ≡ (not slashed && active)
still_open slashed registered active here e known = ground (arith, e, known)

and_left : (p q : Bool) → (p && q) ≡ true → p ≡ true
and_left p q h = ground (arith, h)

and_right : (p q : Bool) → (p && q) ≡ true → q ≡ true
and_right p q h = ground (arith, h)

denied : (p : Bool) → not p ≡ true → p ≡ false
denied p h = ground (arith, h)

never :
    (stays leaves before : Bool)
    → (stays ≡ true → leaves ≡ true → before ≡ false)
    → (stays && (leaves && before)) ≡ false
never true true before h = h refl refl
never true false before h = refl
never false leaves before h = refl

module _ {N : Num} where
  -- As many stay as are active.
  length_stays :
      (s t : Node N) (n : ℕ)
      → s.bootstrap_max_active_nodes ≡ pos n
      → IsDistinct s.roster.bootstrap_registry
      → Slashes (goes (active_miners s) (participants s)) s t
      → length (participants t)
        ≡ (if ltb (length (participants s)) n then length (participants s) else n)
  length_stays s t n cap distinct h =
      let active = active_miners s in
      let ps = participants s in
      let ks = keys s.roster.bootstrap_registry in
      let ranked = rank s ps in
      let open_s = λ (a : String). not (member a s.roster.bootstrap_slashed) in
      let open_t = λ (a : String). not (member a t.roster.bootstrap_slashed) in
      let unique =
        keep_if-IsUnique open_s ks (keys-IsUnique s.roster.bootstrap_registry distinct) in
      let counted : count_if open_t ks ≡ count_if (λ a. open_s a && member a active) ks =
        count_if_cong _ _ ks (λ a m.
          ap not (h.slashed a)
          ∙ still_open (member a s.roster.bootstrap_slashed) (member a ks) (member a active)
              (member a ps) (member-keep_if open_s a ks) m) in
      length-keep_if open_t (keys t.roster.bootstrap_registry)
      ∙ ap (λ d. count_if open_t (keys d)) h.registry
      ∙ counted
      ∙ sym (count_if-keep_if open_s (λ a. member a active) ks)
      ∙ sym (count_if-rank s (λ a. member a active) ps)
      ∙ ap (λ xs. count_if (λ a. member a xs) ranked) (active_miners_lem s n cap)
      ∙ count_if-take n ranked (rank-IsUnique s ps unique)
      ∙ length-take n ranked
      ∙ ap (λ m. if ltb m n then m else n) (length-rank s ps)

  -- Whoever stays is active, and whoever leaves is not.
  stays_ahead :
      (s t : Node N) (n : ℕ) (a c : String)
      → IsOrdered N
      → s.bootstrap_max_active_nodes ≡ pos n
      → Slashes (goes (active_miners s) (participants s)) s t
      → (member a (participants t)
          && ((member c (participants s) && not (member c (participants t))) && ranks_before s c a))
        ≡ false
  stays_ahead s t n a c ordered cap h =
      let ps = participants s in
      let active = active_miners s in
      let ahead : (member a ps && member a active) ≡ true
          → goes active ps c ≡ true
          → ranks_before s c a ≡ false =
        λ stays leaves.
          let cut = active_miners_lem s n cap in
          let first : member a (take n (rank s ps)) ≡ true =
            ap (member a) (sym cut) ∙ and_right (member a ps) (member a active) stays in
          let there : member c (rank s ps) ≡ true =
            member-rank s c ps ∙ and_left (member c ps) (not (member c active)) leaves in
          let behind : member c (take n (rank s ps)) ≡ false =
            ap (member c) (sym cut)
            ∙ denied (member c active) (and_right (member c ps) (not (member c active)) leaves) in
          take-IsRanked s n a c (rank s ps) (rank-IsRanked s ordered ps) first there behind in
      ap (λ m. m && ((member c ps && not (member c (participants t))) && ranks_before s c a))
        (stays_lem s t active a h)
      ∙ ap (λ m. (member a ps && member a active) && (m && ranks_before s c a))
          (leaves_lem s t active c h)
      ∙ never (member a ps && member a active) (goes active ps c) (ranks_before s c a) ahead

  -- A round of the ranking in the bootstrap period, when the registry is a proper dict and the number of
  -- active nodes is not negative, for ordered numbers. Of the registered who are not slashed, as many stay
  -- as may be active, all of them if they are not more. Nobody who leaves is ranked before one who stays:
  -- he does not have more effective stake, nor as much and an earlier registration. Who leaves is slashed
  -- and loses his stake and his virtual stake; of all others these are as they were.
  pub bootstrap_ranking_slash_best :
      (b : ℤ) (n : ℕ) (a c : String) (s : Node N)
      → IsOrdered N
      → IsDistinct s.roster.bootstrap_registry
      → s.bootstrap_max_active_nodes ≡ pos n
      → is_bootstrap_period_at_height b s ≡ true
      → let t = (bootstrap_ranking_slash N b s).1 in
        let leaves = member c (participants s) && not (member c (participants t)) in
        (length (participants t)
          ≡ (if ltb (length (participants s)) n then length (participants s) else n))
        × ((member a (participants t) && (leaves && ranks_before s c a)) ≡ false)
        × (member c t.roster.bootstrap_slashed ≡ (member c s.roster.bootstrap_slashed || leaves))
        × (get c t.system.staked_amounts ≡ (if leaves then none else get c s.system.staked_amounts))
        × (get c t.system.bootstrap_virtual_locked
            ≡ (if leaves then none else get c s.system.bootstrap_virtual_locked))
  bootstrap_ranking_slash_best b n a c s ordered distinct cap inside =
      let t = (bootstrap_ranking_slash N b s).1 in
      let h = round_lem b s inside in
      let same = leaves_lem s t (active_miners s) c h in
      (
        length_stays s t n cap distinct h,
        stays_ahead s t n a c ordered cap h,
        h.slashed c ∙ ap (λ g. member c s.roster.bootstrap_slashed || g) (sym same),
        h.stake c ∙ ap (λ g. if g then none else get c s.system.staked_amounts) (sym same),
        h.virtual c
            ∙ ap (λ g. if g then none else get c s.system.bootstrap_virtual_locked) (sym same),
      )
