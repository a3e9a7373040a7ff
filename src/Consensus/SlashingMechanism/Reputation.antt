-- ===== src/Consensus/SlashingMechanism/Reputation.antt =====
-- dessin/consensus/slashing_mechanism.py: reputation over the life of a mechanism.
use dessin.Prelude.{
  ◌≡◌, inl, inr, Bool, true, false, Option, none, some, String, arith, ℕ, get_elem?, Bool-cases,
  Option-cases, from_option, ◌==◌,
}
use dessin.Prelude.Int.{ℤ}
use dessin.Dict.{get, set, get-set}
use dessin.Num.{Num, IsOrdered, max_num}
use dessin.Economics.EconomicSystem.{EconomicSystem, Result, returned, key_error, get_staked_amount}
use dessin.Consensus.SlashingMechanism.{
  SlashingReason, SlashingMechanism, SlashingEvent, new_mechanism, penalties, get_reputation_score,
  update_reputation_score, is_address_banned, propose_slashing, apply_slashing,
  cleanup_expired_bans, enforce, conclude, penalize,
}

module _ (N : Num) where
  -- One call of a mechanism.
  pub data Step : SlashingMechanism N → SlashingMechanism N → Type 0 where
    ban_step :
        (now : N.Carrier) (a : String) (s : SlashingMechanism N)
        → Step s (is_address_banned now a s).1
    propose_step :
        (now : N.Carrier) (h a : String) (r : SlashingReason) (reporter : String)
        (s : SlashingMechanism N)
        → Step s (propose_slashing now h a r reporter s).1
    apply_step :
        (now : N.Carrier) (ref : ℕ) (b : ℤ) (s : SlashingMechanism N)
        → Step s (apply_slashing now ref b s).1
    cleanup_step : (now : N.Carrier) (s : SlashingMechanism N) → Step s (cleanup_expired_bans now s)

  -- The states that a new mechanism's calls lead to.
  pub data Reachable : SlashingMechanism N → Type 0 where
    created :
        (threshold : N.Carrier) (e : EconomicSystem N) → Reachable (new_mechanism N threshold e)
    stepped : {s t : SlashingMechanism N} → Reachable s → Step s t → Reachable t

-- A score between 0 and 100, or none.
abbrev pub InRange : (N : Num) → Option N.Carrier → Type 0
InRange N none = Unit
InRange N (some x) = (N.le N.nought x ≡ true) × (N.le x (N.dec 100 0) ≡ true)

abbrev pub Scored : {N : Num} → SlashingMechanism N → Type 0
Scored {N} s = (a : String) → InRange N (get a s.reputation_scores)

module _ {N : Num} (o : IsOrdered N) (top : N.le N.nought (N.dec 100 0) ≡ true)
    (penal : (r : SlashingReason) → N.le N.nought (penalties N r).reputation_penalty ≡ true) where
  fallback : (x : Option N.Carrier) → InRange N x → InRange N (some (from_option (N.dec 100 0) x))
  fallback none h = (top, o.le_refl _)
  fallback (some x) h = h

  lowered :
      (x p : N.Carrier)
      → N.le N.nought p ≡ true
      → InRange N (some x)
      → InRange N (some (max_num N N.nought (N.sub x p)))
  lowered x p nonneg h = elim (Bool-cases (N.lt N.nought (N.sub x p))) [
    | inl above ↦ rw above (
      ground (arith, o.lt-eq-not-le N.nought (N.sub x p), o.le_total N.nought (N.sub x p), above),
      o.le_trans (N.sub x p) x (N.dec 100 0) (o.sub_below x p nonneg) h.1,
    )
    | inr below ↦ rw below (o.le_refl _, top)
  ]

  update_reputation_score-Scored :
      (a : String) (r : SlashingReason) (s : SlashingMechanism N)
      → Scored s
      → Scored (update_reputation_score a (penalties N r).reputation_penalty s)
  unfolding update_reputation_score get_reputation_score
  update_reputation_score-Scored a r s h j =
      let new =
        lowered (get_reputation_score a s) (penalties N r).reputation_penalty (penal r)
          (fallback (get a s.reputation_scores) (h a)) in
      rw get-set
        (elim (Bool-cases (a == j)) [ inl same ↦ rw same new | inr other ↦ rw other (h j) ])

  is_address_banned-Scored :
      (now : N.Carrier) (a : String) (s : SlashingMechanism N)
      → Scored s
      → Scored (is_address_banned now a s).1
  unfolding is_address_banned
  is_address_banned-Scored now a s h = elim (Option-cases (get a s.banned_addresses)) [
    | inl free ↦ rw (free, is_address_banned) h
    | inr (ban, e) ↦ elim (Bool-cases (N.lt ban now)) [
      | inl over ↦ rw (e, over, is_address_banned) h
      | inr on ↦ rw (e, on, is_address_banned) h
    ]
  ]

  propose_slashing-Scored :
      (now : N.Carrier) (h a : String) (r : SlashingReason) (reporter : String)
      (s : SlashingMechanism N)
      → Scored s
      → Scored (propose_slashing now h a r reporter s).1
  unfolding propose_slashing
  propose_slashing-Scored now h a r reporter s scored =
      let (banned, t) = is_address_banned now a s in
      let kept = is_address_banned-Scored now a s scored in
      elim (Bool-cases (is_address_banned now a s).0) [
        | inl banned_now ↦ rw (banned_now, propose_slashing) kept
        | inr free ↦ elim (Bool-cases (N.le (get_staked_amount a t.economic_system) N.nought)) [
          | inl poor ↦ rw (free, poor, propose_slashing) kept
          | inr staked ↦ rw (free, staked, propose_slashing) kept
        ]
      ]

  conclude-Scored :
      (now : N.Carrier) (ref : ℕ) (e : SlashingEvent N) (result : Result Bool)
      (s : SlashingMechanism N)
      → Scored s
      → Scored (conclude now ref e result s).1
  unfolding conclude enforce
  conclude-Scored now ref e key_error s h = h
  conclude-Scored now ref e (returned false) s h = h
  conclude-Scored now ref e (returned true) s h =
      update_reputation_score-Scored e.slashed_address e.reason
        (record s {
          banned_addresses =
              set e.slashed_address (N.add now (N.of_int e.ban_duration_seconds))
                s.banned_addresses;
        })
        h

  apply_slashing-Scored :
      (now : N.Carrier) (ref : ℕ) (b : ℤ) (s : SlashingMechanism N)
      → Scored s
      → Scored (apply_slashing now ref b s).1
  unfolding apply_slashing penalize
  apply_slashing-Scored now ref b s h = elim (Option-cases (get_elem? s.events ref)) [
    | inl none_there ↦ rw (none_there, apply_slashing) h
    | inr (e, found) ↦
        let (result, t) = penalize ref e b s in
        rw (found, apply_slashing) (conclude-Scored now ref e result t h)
  ]

  Step-Scored : {s t : SlashingMechanism N} → Step N s t → Scored s → Scored t
  unfolding cleanup_expired_bans
  Step-Scored (ban_step now a s) h = is_address_banned-Scored now a s h
  Step-Scored (propose_step now b a r reporter s) h = propose_slashing-Scored now b a r reporter s h
  Step-Scored (apply_step now ref b s) h = apply_slashing-Scored now ref b s h
  Step-Scored (cleanup_step now s) h = h

  Reachable-Scored : {s : SlashingMechanism N} → Reachable N s → Scored s
  unfolding get
  Reachable-Scored (created threshold e) = λ a. tt
  Reachable-Scored (stepped before step) = Step-Scored step (Reachable-Scored before)

  -- In every state that the calls of a new mechanism lead to, the reputation of every address is between
  -- 0 and 100. Comparisons are ordered, 100 is not below 0, and neither is a penalty.
  pub get_reputation_score_range :
      {s : SlashingMechanism N}
      → Reachable N s
      → (a : String)
      → (N.le N.nought (get_reputation_score a s) ≡ true)
        × (N.le (get_reputation_score a s) (N.dec 100 0) ≡ true)
  unfolding get_reputation_score
  get_reputation_score_range {s} reached a =
      fallback (get a s.reputation_scores) (Reachable-Scored reached a)
