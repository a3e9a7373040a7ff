-- ===== src/Consensus/TrainingMarket/Packing.antt =====
-- dessin/consensus/training_market.py: the loop of `select_tasks_for_block`.
use dessin.Prelude.{
  ℕ, suc, ◌+◌, ◌≡◌, ◌≢◌, ◌⊎◌, inl, inr, refl, true, false, List, [], ◌∷◌, String, arith, ◌==◌,
  eq_refl, Bool-cases, length, map, All, All-map,
}
use dessin.Prelude.Int.{ℤ, pos, ◌≤ℤ◌, ◌<ℤ◌, leb_ℤ, int_laws}
use dessin.Num.{Num}
use dessin.Consensus.TrainingMarket.{
  TrainingTaskSpec, ScheduledTrainingSlot, slot_of, is_seen, pack,
}

room : (max : ℤ) (used : ℕ) → leb_ℤ max (pos used) ≡ false → pos (suc used) ≤ℤ max
room max used h = ground arith

unseen_tail :
    (m n : String) (seen : List String)
    → is_seen m (n ∷ seen) ≡ false
    → (m ≢ n) × (is_seen m seen ≡ false)
unfolding is_seen
unseen_tail m n seen h = (λ e. ground (arith, h, e, eq_refl n), ground (arith, h))

first : (m : String) (ns : List String) → is_seen m (m ∷ ns) ≡ true
unfolding is_seen
first m ns = rw (eq_refl m) refl

module _ {N : Num} where
  pack_stop :
      (max : ℤ) (used : ℕ) (seen : List String) (t : TrainingTaskSpec N)
      (ts : List (TrainingTaskSpec N))
      → leb_ℤ max (pos used) ≡ true
      → pack max used seen (t ∷ ts) ≡ []
  unfolding pack
  pack_stop max used seen t ts full = rw (full, pack) refl

  pack_skip :
      (max : ℤ) (used : ℕ) (seen : List String) (t : TrainingTaskSpec N)
      (ts : List (TrainingTaskSpec N))
      → leb_ℤ max (pos used) ≡ false
      → is_seen t.model_id seen ≡ true
      → pack max used seen (t ∷ ts) ≡ pack max used seen ts
  unfolding pack
  pack_skip max used seen t ts free again = rw (free, again, pack) refl

  pack_take :
      (max : ℤ) (used : ℕ) (seen : List String) (t : TrainingTaskSpec N)
      (ts : List (TrainingTaskSpec N))
      → leb_ℤ max (pos used) ≡ false
      → is_seen t.model_id seen ≡ false
      → pack max used seen (t ∷ ts) ≡ slot_of t ∷ pack max (suc used) (t.model_id ∷ seen) ts
  unfolding pack
  pack_take max used seen t ts free new = rw (free, new, pack) refl

  -- The slots fit in what is allowed.
  pub pack_fits :
      (max : ℤ) (used : ℕ) (seen : List String) (ts : List (TrainingTaskSpec N))
      → pos used ≤ℤ max
      → pos (used + length (pack max used seen ts)) ≤ℤ max
  unfolding pack
  pack_fits max used seen [] h = omega (int_laws, h)
  pack_fits max used seen (t ∷ ts) h = elim (Bool-cases (leb_ℤ max (pos used))) [
    | inl full ↦ rw (pack_stop max used seen t ts full) omega (int_laws, h)
    | inr free ↦ elim (Bool-cases (is_seen t.model_id seen)) [
      | inl again ↦ rw (pack_skip max used seen t ts free again) (pack_fits max used seen ts h)
      | inr new ↦
          let ih = pack_fits max (suc used) (t.model_id ∷ seen) ts (room max used free) in
          rw (pack_take max used seen t ts free new) (omega (arith, ih))
    ]
  ]

  pub pack_none :
      (max : ℤ) (used : ℕ) (seen : List String) (ts : List (TrainingTaskSpec N))
      → leb_ℤ max (pos used) ≡ true
      → pack max used seen ts ≡ []
  unfolding pack
  pack_none max used seen [] h = refl
  pack_none max used seen (t ∷ ts) h = pack_stop max used seen t ts h

  -- What holds of the slots of all tasks holds of the slots that are packed.
  pub pack-All :
      (P : ScheduledTrainingSlot N → Type 0) (max : ℤ) (used : ℕ) (seen : List String)
      (ts : List (TrainingTaskSpec N))
      → All (λ t. P (slot_of t)) ts
      → All P (pack max used seen ts)
  unfolding pack
  pack-All P max used seen [] h = tt
  pack-All P max used seen (t ∷ ts) h = elim (Bool-cases (leb_ℤ max (pos used))) [
    | inl full ↦ rw (pack_stop max used seen t ts full) tt
    | inr free ↦ elim (Bool-cases (is_seen t.model_id seen)) [
      | inl again ↦ rw (pack_skip max used seen t ts free again) (pack-All P max used seen ts h.1)
      | inr new ↦
          rw (pack_take max used seen t ts free new)
            (h.0, pack-All P max (suc used) (t.model_id ∷ seen) ts h.1)
    ]
  ]

  -- No packed slot has a model that was seen before.
  pub pack_unseen :
      (max : ℤ) (used : ℕ) (seen : List String) (ts : List (TrainingTaskSpec N))
      → All (λ slot. is_seen slot.model_id seen ≡ false) (pack max used seen ts)
  unfolding pack
  pack_unseen max used seen [] = tt
  pack_unseen max used seen (t ∷ ts) = elim (Bool-cases (leb_ℤ max (pos used))) [
    | inl full ↦ rw (pack_stop max used seen t ts full) tt
    | inr free ↦ elim (Bool-cases (is_seen t.model_id seen)) [
      | inl again ↦ rw (pack_skip max used seen t ts free again) (pack_unseen max used seen ts)
      | inr new ↦ rw (pack_take max used seen t ts free new) (
        new,
        All-map _ (λ slot h. (unseen_tail slot.model_id t.model_id seen h).1)
            (pack_unseen max (suc used) (t.model_id ∷ seen) ts),
      )
    ]
  ]

  -- No two slots have one model.
  abbrev pub IsOnePerModel : List (ScheduledTrainingSlot N) → Type 0
  IsOnePerModel [] = Unit
  IsOnePerModel (a ∷ slots) = All (λ b. b.model_id ≢ a.model_id) slots × IsOnePerModel slots

  pub pack-IsOnePerModel :
      (max : ℤ) (used : ℕ) (seen : List String) (ts : List (TrainingTaskSpec N))
      → IsOnePerModel (pack max used seen ts)
  unfolding pack
  pack-IsOnePerModel max used seen [] = tt
  pack-IsOnePerModel max used seen (t ∷ ts) = elim (Bool-cases (leb_ℤ max (pos used))) [
    | inl full ↦ rw (pack_stop max used seen t ts full) tt
    | inr free ↦ elim (Bool-cases (is_seen t.model_id seen)) [
      | inl again ↦
          rw (pack_skip max used seen t ts free again) (pack-IsOnePerModel max used seen ts)
      | inr new ↦ rw (pack_take max used seen t ts free new) (
        All-map _ (λ slot h. (unseen_tail slot.model_id t.model_id seen h).0)
            (pack_unseen max (suc used) (t.model_id ∷ seen) ts),
        pack-IsOnePerModel max (suc used) (t.model_id ∷ seen) ts,
      )
    ]
  ]

  abbrev models : List (ScheduledTrainingSlot N) → List String
  models = map (λ slot. slot.model_id)

  -- The task's model was seen before or is packed.
  abbrev pub IsServed : List String → List (ScheduledTrainingSlot N) → TrainingTaskSpec N → Type 0
  IsServed seen slots t =
      (is_seen t.model_id seen ≡ true) ⊎ (is_seen t.model_id (models slots) ≡ true)

  shift :
      (m : String) (seen : List String) (slot : ScheduledTrainingSlot N)
      (slots : List (ScheduledTrainingSlot N)) (t : TrainingTaskSpec N)
      → slot.model_id ≡ m
      → IsServed (m ∷ seen) slots t
      → IsServed seen (slot ∷ slots) t
  unfolding is_seen
  shift m seen slot slots t e h = elim (Bool-cases (m == t.model_id)) [
    | inl same ↦ inr (rw (e, same) refl)
    | inr other ↦ elim h [
      | inl before ↦ inl (ground (arith, before, other))
      | inr packed ↦ inr (rw e (ground (arith, packed)))
    ]
  ]

  along :
      (seen : List String) (slots others : List (ScheduledTrainingSlot N))
      (ts : List (TrainingTaskSpec N))
      → slots ≡ others
      → All (IsServed seen others) ts
      → All (IsServed seen slots) ts
  along seen slots others ts e = All-map ts (λ t h. rw e h)

  -- When slots are left over, every task's model was seen or is packed.
  pub pack_full :
      (max : ℤ) (used : ℕ) (seen : List String) (ts : List (TrainingTaskSpec N))
      → pos (used + length (pack max used seen ts)) <ℤ max
      → All (IsServed seen (pack max used seen ts)) ts
  unfolding pack
  pack_full max used seen [] h = tt
  pack_full max used seen (t ∷ ts) h = elim (Bool-cases (leb_ℤ max (pos used))) [
    | inl full ↦
        let used_up : pos (used + 0) <ℤ max = rw (pack_stop max used seen t ts full) at h in
        ground (arith, full, used_up)
    | inr free ↦ elim (Bool-cases (is_seen t.model_id seen)) [
      | inl again ↦
          let skip = pack_skip max used seen t ts free again in
          along seen _ (pack max used seen ts) (t ∷ ts) skip
            (inl again, pack_full max used seen ts (rw skip at h))
      | inr new ↦
          let rest = pack max (suc used) (t.model_id ∷ seen) ts in
          let take = pack_take max used seen t ts free new in
          let left : pos (used + suc (length rest)) <ℤ max = rw take at h in
          along seen _ (slot_of t ∷ rest) (t ∷ ts) take (
            inr (first t.model_id (models rest)),
            All-map ts (λ x. shift t.model_id seen (slot_of t) rest x refl)
                (pack_full max (suc used) (t.model_id ∷ seen) ts (omega (arith, left))),
          )
    ]
  ]
