-- ===== src/Consensus/TrainingMarket/Selection.antt =====
-- dessin/consensus/training_market.py: which tasks `select_tasks_for_block` schedules.
use dessin.Prelude.{
  ℕ, ◌≡◌, inl, inr, refl, Bool, true, false, Option, none, some, List, [], ◌∷◌, String, arith, ◌==◌,
  eq_iff, eq_refl, Bool-cases, length, map, All, All-map, keep_if,
}
use dessin.Prelude.Int.{ℤ, pos, ◌≤ℤ◌, ◌<ℤ◌, leb_ℤ, ltb_ℤ}
use dessin.Dict.{Dict, get, values, IsDistinct}
use dessin.Num.{Num}
use dessin.Consensus.TrainingMarket.{
  TrainingMarket, TrainingTaskSpec, ScheduledTrainingSlot, slot_of, is_seen, pack, max_ℤ, key_lt,
  is_eligible, model_in_cooldown, slots_allowed, select_tasks_for_block, insert, sort_reverse,
}
use dessin.Consensus.TrainingMarket.Packing.{
  pack_fits, pack_none, pack-All, IsOnePerModel, pack-IsOnePerModel, IsServed, pack_full,
}

module _ {A : Type 0} (P : A → Type 0) where
  keep_yes :
      (test : A → Bool) (x : A) (xs : List A)
      → test x ≡ true
      → keep_if test (x ∷ xs) ≡ x ∷ keep_if test xs
  keep_yes test x xs h = rw (h, keep_if) refl

  keep_no :
      (test : A → Bool) (x : A) (xs : List A)
      → test x ≡ false
      → keep_if test (x ∷ xs) ≡ keep_if test xs
  keep_no test x xs h = rw (h, keep_if) refl

  keep_if-All :
      (test : A → Bool) (xs : List A)
      → All P xs
      → All (λ x. P x × (test x ≡ true)) (keep_if test xs)
  keep_if-All test [] h = tt
  keep_if-All test (x ∷ xs) h = elim (Bool-cases (test x)) [
    | inl kept ↦ rw (keep_yes test x xs kept) ((h.0, kept), keep_if-All test xs h.1)
    | inr left ↦ rw (keep_no test x xs left) (keep_if-All test xs h.1)
  ]

  insert-All :
      (below : A → A → Bool) (x : A) (xs : List A) → P x → All P xs → All P (insert below x xs)
  unfolding insert
  insert-All below x [] p h = (p, tt)
  insert-All below x (y ∷ ys) p h = elim (Bool-cases (below x y)) [
    | inl under ↦ rw under (h.0, insert-All below x ys p h.1)
    | inr over ↦ rw over (p, h)
  ]

  sort_reverse-All : (below : A → A → Bool) (xs : List A) → All P xs → All P (sort_reverse below xs)
  unfolding sort_reverse
  sort_reverse-All below [] h = tt
  sort_reverse-All below (x ∷ xs) h =
      insert-All below x (sort_reverse below xs) h.0 (sort_reverse-All below xs h.1)

  insert_back :
      (below : A → A → Bool) (x : A) (xs : List A) → All P (insert below x xs) → P x × All P xs
  unfolding insert
  insert_back below x [] h = h
  insert_back below x (y ∷ ys) h = elim (Bool-cases (below x y)) [
    | inl under ↦
        let both : P y × All P (insert below x ys) = rw under at h in
        let back = insert_back below x ys both.1 in (back.0, (both.0, back.1))
    | inr over ↦ let all : P x × (P y × All P ys) = rw over at h in all
  ]

  sort_back : (below : A → A → Bool) (xs : List A) → All P (sort_reverse below xs) → All P xs
  unfolding sort_reverse
  sort_back below [] h = tt
  sort_back below (x ∷ xs) h =
      let back = insert_back below x (sort_reverse below xs) h in
      (back.0, sort_back below xs back.1)

  keep_back :
      (test : A → Bool) (xs : List A)
      → All P (keep_if test xs)
      → All (λ x. (test x ≡ true) → P x) xs
  keep_back test [] h = tt
  keep_back test (x ∷ xs) h = elim (Bool-cases (test x)) [
    | inl kept ↦
        let both : P x × All P (keep_if test xs) = rw (keep_yes test x xs kept) at h in
        (λ e. both.0, keep_back test xs both.1)
    | inr left ↦ (λ e. cc, keep_back test xs (rw (keep_no test x xs left) at h))
  ]

  value_back : (id : String) (x : A) (d : Dict A) → get id d ≡ some x → All P (values d) → P x
  unfolding get
  value_back id x [] e h = cc
  value_back id x ((j, y) ∷ d) e h = elim (Bool-cases (j == id)) [
    | inl same ↦ let eq : y ≡ x = cc (rw same at e) in rw (← eq) h.0
    | inr other ↦ value_back id x d (rw other at e) h.1
  ]

stands_later :
    {V : Type 0} (j id : String) (t u : V) (d : Dict V)
    → get j d ≡ none
    → get id d ≡ some u
    → get id ((j, t) ∷ d) ≡ some u
unfolding get
stands_later j id t u d absent e = elim (Bool-cases (j == id)) [
  | inl same ↦ ground (arith, absent, e, eq_iff j id, same)
  | inr other ↦ rw other e
]

module _ {N : Num} where
  -- A slot of a task that is pending, whose model is not in cooldown, and that has not expired.
  abbrev pub IsDue : ℤ → TrainingMarket N → ScheduledTrainingSlot N → Type 0
  IsDue b s slot =
      (t : TrainingTaskSpec N) × (slot ≡ slot_of t)
      × ((id : String) × (get id s.pending ≡ some t))
      × (model_in_cooldown t.model_id b s ≡ false)
      × (b <ℤ t.expiry_block)

  values_stand :
      (d : Dict (TrainingTaskSpec N))
      → IsDistinct d
      → All (λ t. (id : String) × (get id d ≡ some t)) (values d)
  unfolding get
  values_stand [] h = tt
  values_stand ((j, t) ∷ d) h = (
    (j, rw (eq_refl j) refl),
    All-map (values d) (λ u p. (p.0, stands_later j p.0 t u d h.0 p.1)) (values_stand d h.1),
  )

  due :
      (b : ℤ) (s : TrainingMarket N) (t : TrainingTaskSpec N)
      → ((id : String) × (get id s.pending ≡ some t)) × (is_eligible b s t ≡ true)
      → IsDue b s (slot_of t)
  due b s t h = (t, refl, h.0, ground (arith, h.1), ground (arith, h.1))

  fits :
      (max : ℤ) (ts : List (TrainingTaskSpec N))
      → pos (length (pack max 0 [] ts)) ≤ℤ max_ℤ (pos 0) max
  fits max ts = elim (Bool-cases (leb_ℤ max (pos 0))) [
    | inl none_allowed ↦
        rw (pack_none max 0 [] ts none_allowed) (elim (Bool-cases (ltb_ℤ (pos 0) max)) [
          | inl more ↦ rw more (ground arith)
          | inr less ↦ rw less (omega arith)
        ])
    | inr some_allowed ↦
        let positive : ltb_ℤ (pos 0) max ≡ true = ground arith in
        rw positive (omega (arith, pack_fits max 0 [] ts (ground arith)))
  ]

  -- The slots of a block come from pending tasks whose model is not in cooldown and that have not
  -- expired, at their own tip and base fee; no model has two; and they are no more than allowed. The
  -- pending tasks are a proper dict.
  pub select_tasks_for_block_sound :
      (tiebreak : String → ℕ) (b : ℤ) (allowed : Option ℤ) (s : TrainingMarket N)
      → IsDistinct s.pending
      → let slots = select_tasks_for_block tiebreak b allowed s in
        All (IsDue b s) slots
        × IsOnePerModel slots
        × (pos (length slots) ≤ℤ max_ℤ (pos 0) (slots_allowed allowed s))
  unfolding select_tasks_for_block
  select_tasks_for_block_sound tiebreak b allowed s h =
      let max = slots_allowed allowed s in
      let eligible = keep_if (is_eligible b s) (values s.pending) in
      let sorted = sort_reverse (key_lt tiebreak b s.config) eligible in
      let standing = λ (t : TrainingTaskSpec N). (id : String) × (get id s.pending ≡ some t) in
      let kept =
        keep_if-All standing (is_eligible b s) (values s.pending) (values_stand s.pending h) in
      (
        pack-All (IsDue b s) max 0 [] sorted (
            sort_reverse-All (λ t. IsDue b s (slot_of t)) (key_lt tiebreak b s.config) eligible
              (All-map eligible (due b s) kept)),
        pack-IsOnePerModel max 0 [] sorted,
        fits max sorted,
      )

  -- No slot is left over while there is a task to schedule: when fewer slots are used than allowed,
  -- the model of every pending task that could be scheduled has a slot in the block.
  pub select_tasks_for_block_complete :
      (tiebreak : String → ℕ) (b : ℤ) (allowed : Option ℤ) (s : TrainingMarket N) (id : String)
      (t : TrainingTaskSpec N)
      → get id s.pending ≡ some t
      → is_eligible b s t ≡ true
      → pos (length (select_tasks_for_block tiebreak b allowed s)) <ℤ slots_allowed allowed s
      → is_seen t.model_id
          (map (λ slot. slot.model_id) (select_tasks_for_block tiebreak b allowed s))
        ≡ true
  unfolding select_tasks_for_block is_seen
  select_tasks_for_block_complete tiebreak b allowed s id t stands may left =
      let max = slots_allowed allowed s in
      let eligible = keep_if (is_eligible b s) (values s.pending) in
      let below = key_lt tiebreak b s.config in
      let slots = pack max 0 [] (sort_reverse below eligible) in
      let served = IsServed [] slots in
      let room : pos (length slots) <ℤ max = left in
      let all =
        sort_back served below eligible
          (pack_full max 0 [] (sort_reverse below eligible) (omega (arith, room))) in
      let mine =
        value_back (λ x. (is_eligible b s x ≡ true) → served x) id t s.pending stands
          (keep_back served (is_eligible b s) (values s.pending) all) in
      elim (mine may) [ inl before ↦ cc | inr packed ↦ packed ]
