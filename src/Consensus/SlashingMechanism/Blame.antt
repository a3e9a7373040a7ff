-- ===== src/Consensus/SlashingMechanism/Blame.antt =====
-- dessin/consensus/slashing_mechanism.py: against whom the checks of a block make proposals.
use mathlib.Core.Path.{subst}
use dessin.Prelude.{
  ◌≡◌, refl, ◌⊎◌, inl, inr, Bool, true, false, ◌&&◌, Option, none, some, String, List, [], ◌∷◌,
  ◌++◌, ℕ, zero, suc, ◌==◌, if◌then◌else◌, arith, eq_iff, count_if, Bool-cases, get_elem?, length,
  All, All-map, All-append, ◌∙◌, ap, sym, ◌+◌,
}
use dessin.Dict.{Dict, get, get_or, get-set, IsDistinct, set-IsDistinct, entries-get}
use dessin.Num.{Num}
use dessin.Economics.EconomicSystem.{get_staked_amount}
use dessin.Consensus.SlashingMechanism.{
  SlashingReason, negative_attestations, SlashingMechanism, SlashingEvent, propose_slashing,
  is_address_banned, proposed,
}
use dessin.Consensus.SlashingMechanism.Penalties.{ban-frame, last}
use dessin.Consensus.SlashingMechanism.Attestations.{
  AttestationTransaction, is_negative, Counts, bump, count_one, count_attestations, is_excessive,
  collect, check_address, check_negative_attestations,
}

-- What an attester's counts ought to be.
abbrev pub total_of : String → List AttestationTransaction → ℕ
total_of a ats = count_if (λ t. t.sender == a) ats

abbrev pub negatives_of : String → List AttestationTransaction → ℕ
negatives_of a ats = count_if (λ t. (t.sender == a) && is_negative t) ats

get-bump :
    (k a : String) (d : Dict ℕ)
    → get_or a 0 (bump k d) ≡ (if k == a then suc (get_or a 0 d) else get_or a 0 d)
get-bump k a d = rw get-set (elim (Bool-cases (k == a)) [
  | inl same ↦ let e : k ≡ a = ground (arith, eq_iff k a, same) in rw (same, e) refl
  | inr other ↦ rw other refl
])

-- What one attestation adds to a count.
abbrev tick : Bool → ℕ → ℕ
tick b n = if b then suc n else n

count_one_lem :
    (a : String) (t : AttestationTransaction) (c : Counts)
    → let d = count_one t c in
      (get_or a 0 d.negative_counts
        ≡ tick ((t.sender == a) && is_negative t) (get_or a 0 c.negative_counts))
      × (get_or a 0 d.total_attestations ≡ tick (t.sender == a) (get_or a 0 c.total_attestations))
count_one_lem a t c = elim (Bool-cases (is_negative t)) [
  | inl against ↦ rw against (
    get-bump t.sender a c.negative_counts ∙ same (t.sender == a) (get_or a 0 c.negative_counts),
    get-bump t.sender a c.total_attestations,
  )
  | inr favour ↦ rw favour (
    none_more (t.sender == a) (get_or a 0 c.negative_counts),
    get-bump t.sender a c.total_attestations,
  )
]
  where
    same : (b : Bool) (n : ℕ) → (if b then suc n else n) ≡ tick (b && true) n
    same true n = refl
    same false n = refl

    none_more : (b : Bool) (n : ℕ) → n ≡ tick (b && false) n
    none_more true n = refl
    none_more false n = refl

count_if-tick :
    {A : Type 0} (test : A → Bool) (x : A) (xs : List A) (n : ℕ)
    → count_if test xs + tick (test x) n ≡ count_if test (x ∷ xs) + n
count_if-tick test x xs n = ground arith

count_attestations-IsDistinct :
    (ats : List AttestationTransaction) (c : Counts)
    → IsDistinct c.negative_counts
    → IsDistinct (count_attestations ats c).negative_counts
unfolding count_attestations
count_attestations-IsDistinct [] c h = h
count_attestations-IsDistinct (t ∷ ats) c h =
    count_attestations-IsDistinct ats (count_one t c) (elim (Bool-cases (is_negative t)) [
      | inl against ↦ rw against (set-IsDistinct t.sender _ c.negative_counts h)
      | inr favour ↦ rw favour h
    ])

-- Counting gives each address the number of its attestations and of its negative ones, on top of what
-- was counted before.
pub count_attestations_lem :
    (a : String) (ats : List AttestationTransaction) (c : Counts)
    → let d = count_attestations ats c in
      (get_or a 0 d.negative_counts ≡ negatives_of a ats + get_or a 0 c.negative_counts)
      × (get_or a 0 d.total_attestations ≡ total_of a ats + get_or a 0 c.total_attestations)
unfolding count_attestations
count_attestations_lem a [] c = (omega arith, omega arith)
count_attestations_lem a (t ∷ ats) c =
    let (negative, total) = count_attestations_lem a ats (count_one t c) in
    let (one, all) = count_one_lem a t c in
    (
      negative
          ∙ ap (λ n. negatives_of a ats + n) one
          ∙ count_if-tick (λ t. (t.sender == a) && is_negative t) t ats _,
      total ∙ ap (λ n. total_of a ats + n) all ∙ count_if-tick (λ t. t.sender == a) t ats _,
    )

get_elem?-append :
    {A : Type 0} (xs ys : List A) (i : ℕ) (x : A)
    → get_elem? xs i ≡ some x
    → get_elem? (xs ++ ys) i ≡ some x
get_elem?-append [] ys i x h = cc
get_elem?-append (z ∷ xs) ys zero x h = h
get_elem?-append (z ∷ xs) ys (suc i) x h = get_elem?-append xs ys i x h

-- Every attester whose count is checked has that count.
abbrev Counted : List AttestationTransaction → Dict ℕ → Dict ℕ → Type 0
Counted ats total counts =
    All (λ (a, n). (n ≡ negatives_of a ats) × (get_or a 0 total ≡ total_of a ats)) counts

counted :
    (ats : List AttestationTransaction)
    → let c = count_attestations ats (record { negative_counts = []; total_attestations = [] }) in
      Counted ats c.total_attestations c.negative_counts
unfolding get
counted ats =
    let empty : Counts = record { negative_counts = []; total_attestations = [] } in
    let c = count_attestations ats empty in
    All-map c.negative_counts
      (λ (a, n) there.
        let (negative, total) = count_attestations_lem a ats empty in
        let here : get_or a 0 c.negative_counts ≡ n = rw there refl in
        (omega (arith, here, negative), omega (arith, total)))
      (entries-get c.negative_counts (count_attestations-IsDistinct ats empty tt))

module _ {N : Num} where
  -- What a proposal does to the objects: one more, of the address and the reason, or none.
  abbrev Files :
      (a : String) (r : SlashingReason) (threshold : N.Carrier) (events : List (SlashingEvent N))
      (out : Option ℕ × SlashingMechanism N)
      → Type 0
  Files a r threshold events out =
      (out.1.slashing_threshold ≡ threshold)
      × (((out.0 ≡ none) × (out.1.events ≡ events))
          ⊎ ((e : SlashingEvent N) × (out.0 ≡ some (length events))
              × (out.1.events ≡ events ++ (e ∷ []))
              × (e.slashed_address ≡ a)
              × (e.reason ≡ r)))

  propose_slashing-Files :
      (now : N.Carrier) (h a : String) (r : SlashingReason) (reporter : String)
      (s : SlashingMechanism N)
      → Files a r s.slashing_threshold s.events (propose_slashing now h a r reporter s)
  unfolding propose_slashing
  propose_slashing-Files now h a r reporter s =
      let (banned, t) = is_address_banned now a s in
      let (economy, events, threshold) = ban-frame now a s in
      let ref : some (length t.events) ≡ some (length s.events) =
        ap (λ es. some (length es)) events in
      elim (Bool-cases banned) [
        | inl stopped ↦ rw (stopped, propose_slashing) (threshold, inl (refl, events))
        | inr free ↦ elim (Bool-cases (N.le (get_staked_amount a t.economic_system) N.nought)) [
          | inl poor ↦ rw (free, poor, propose_slashing) (threshold, inl (refl, events))
          | inr staked ↦
              rw (free, staked, propose_slashing)
                (
                  threshold,
                  inr (
                    proposed h a r reporter t,
                    ref,
                    ap (λ es. es ++ (proposed h a r reporter t ∷ [])) events,
                    refl,
                    refl,
                  ),
                )
        ]
      ]

  -- The object at `ref` blames an address whose negative attestations reach the threshold.
  abbrev pub Blames :
      List AttestationTransaction → (threshold : N.Carrier) → List (SlashingEvent N) → ℕ → Type 0
  Blames ats threshold events ref =
      (e : SlashingEvent N) × (get_elem? events ref ≡ some e)
      × (e.reason ≡ negative_attestations)
      × (is_excessive N threshold (negatives_of e.slashed_address ats)
            (total_of e.slashed_address ats)
          ≡ true)

  Blames-append :
      (ats : List AttestationTransaction) (threshold : N.Carrier)
      (events more : List (SlashingEvent N)) (found : List ℕ)
      → All (Blames ats threshold events) found
      → All (Blames ats threshold (events ++ more)) found
  Blames-append ats threshold events more found = All-map found (λ ref b.
      let (e, there, reason, over) = b in
      (e, get_elem?-append events more ref e there, reason, over))

  collect-Blames :
      (ats : List AttestationTransaction) (a : String) (threshold : N.Carrier)
      (events : List (SlashingEvent N)) (found : List ℕ) (out : Option ℕ × SlashingMechanism N)
      → is_excessive N threshold (negatives_of a ats) (total_of a ats) ≡ true
      → Files a negative_attestations threshold events out
      → All (Blames ats threshold events) found
      → (All (Blames ats threshold (collect found out).1.events) (collect found out).0)
        × ((collect found out).1.slashing_threshold ≡ threshold)
  collect-Blames ats a threshold events found (none, t) over (same, inl (r, es)) b =
      (subst (λ es. All (Blames ats threshold es) found) (sym es) b, same)
  collect-Blames ats a threshold events found (none, t) over (same, inr (e, r, es, own, reason)) b =
      cc
  collect-Blames ats a threshold events found (some ref, t) over (same, inl (r, es)) b = cc
  collect-Blames ats a threshold events found (some ref, t) over (same, inr (e, r, es, own, reason))
        b =
      let position : ref ≡ length events = cc in
      rw (position, es)
        (
          All-append _ found (length events ∷ [])
              (Blames-append ats threshold events (e ∷ []) found b)
              ((e, last events e, reason, rw own over), tt),
          same,
        )

  check_address-Blames :
      (ats : List AttestationTransaction) (now : N.Carrier) (h : String) (counts total : Dict ℕ)
      (found : List ℕ) (threshold : N.Carrier) (s : SlashingMechanism N)
      → Counted ats total counts
      → s.slashing_threshold ≡ threshold
      → All (Blames ats threshold s.events) found
      → let (out, t) = check_address now h counts total found s in
        All (Blames ats threshold t.events) out
  unfolding check_address
  check_address-Blames ats now h [] total found threshold s c same b = b
  check_address-Blames ats now h ((a, n) ∷ counts) total found threshold s ((own, all), c) same b =
      elim (Bool-cases (is_excessive N s.slashing_threshold n (get_or a 0 total))) [
        | inl over ↦
            let out = propose_slashing now h a negative_attestations "consensus_mechanism" s in
            let (still, files) =
              propose_slashing-Files now h a negative_attestations "consensus_mechanism" s in
            let reached : is_excessive N threshold (negatives_of a ats) (total_of a ats) ≡ true =
              rw (same, own, all) at over in
            let (kept, at_threshold) =
              collect-Blames ats a threshold s.events found out reached (still ∙ same, files) b in
            rw (over, check_address)
              (check_address-Blames ats now h counts total (collect found out).0 threshold
                (collect found out).1 c at_threshold kept)
        | inr fine ↦
            rw (fine, check_address)
              (check_address-Blames ats now h counts total found threshold s c same b)
      ]

  -- Every proposal that the check of a block's attestations makes is against an attester whose negative
  -- attestations, as a share of all his attestations in the list, reach the threshold, and is for that
  -- reason.
  pub check_negative_attestations-Blames :
      (ats : List AttestationTransaction) (now : N.Carrier) (h : String) (s : SlashingMechanism N)
      → let (out, t) = check_negative_attestations now h ats s in
        All (Blames ats s.slashing_threshold t.events) out
  unfolding check_negative_attestations
  check_negative_attestations-Blames ats now h s =
      let empty : Counts = record { negative_counts = []; total_attestations = [] } in
      let c = count_attestations ats empty in
      check_address-Blames ats now h c.negative_counts c.total_attestations [] s.slashing_threshold
        s (counted ats) refl tt
