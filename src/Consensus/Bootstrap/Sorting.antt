-- ===== src/Consensus/Bootstrap/Sorting.antt =====
-- dessin/consensus/enhanced_pogo_consensus.py: the ranking is a rearrangement, in the order of the keys.
use dessin.Prelude.{
  ℕ, zero, suc, ◌≡◌, refl, inl, inr, Bool, true, false, ◌||◌, List, [], ◌∷◌, String, ◌==◌, length,
  take, count_if, All, All-map, Bool-cases, ap, ◌∙◌, sym, arith, eq_iff, eq_refl,
}
use dessin.Num.{Num, IsOrdered}
use dessin.Consensus.Leader.{member}
use dessin.Consensus.Bootstrap.State.{Node}
use dessin.Consensus.Bootstrap.Ranking.{
  effective_bootstrap_stake, ranks_before, insert_ranked, rank,
}

-- No address stands twice.
abbrev pub IsUnique : List String → Type 0
IsUnique [] = Unit
IsUnique (a ∷ addrs) = (member a addrs ≡ false) × IsUnique addrs

pub count_if_cong :
    (p q : String → Bool) (xs : List String)
    → ((x : String) → member x xs ≡ true → p x ≡ q x)
    → count_if p xs ≡ count_if q xs
count_if_cong p q [] h = refl
count_if_cong p q (x ∷ xs) h =
    let here : p x ≡ q x = h x (ap (λ e. e || member x xs) (eq_refl x)) in
    let there = count_if_cong p q xs (λ y m. h y (ground (arith, m))) in ground (arith, here, there)

-- Among the elements of a list without repetition, as many are in its first part as that has.
pub count_if-take :
    (n : ℕ) (xs : List String)
    → IsUnique xs
    → count_if (λ y. member y (take n xs)) xs ≡ length (take n xs)
count_if-take zero xs h = none_counted xs
  where
    none_counted : (xs : List String) → count_if (λ y. false) xs ≡ 0
    none_counted [] = refl
    none_counted (x ∷ xs) = none_counted xs
count_if-take (suc n) [] h = refl
count_if-take (suc n) (x ∷ xs) (new, h) =
    let self = eq_refl x in
    let others : count_if (λ y. (x == y) || member y (take n xs)) xs
        ≡ count_if (λ y. member y (take n xs)) xs =
      count_if_cong _ _ xs (λ y m. elim (Bool-cases (x == y)) [
        | inl same ↦
            let x_is_y : x ≡ y = ground (arith, eq_iff x y, same) in
            let again : member x xs ≡ true = ap (λ z. member z xs) x_is_y ∙ m in cc
        | inr other ↦ rw other refl
      ]) in
    rw (count_if, self) (ap suc (others ∙ count_if-take n xs h))

module _ {N : Num} (s : Node N) where
  pub count_if-insert_ranked :
      (p : String → Bool) (a : String) (bs : List String)
      → count_if p (insert_ranked s a bs) ≡ count_if p (a ∷ bs)
  unfolding insert_ranked
  count_if-insert_ranked p a [] = refl
  count_if-insert_ranked p a (b ∷ bs) = ground (arith, count_if-insert_ranked p a bs)

  pub count_if-rank :
      (p : String → Bool) (xs : List String) → count_if p (rank s xs) ≡ count_if p xs
  unfolding rank
  count_if-rank p [] = refl
  count_if-rank p (a ∷ xs) =
      count_if-insert_ranked p a (rank s xs) ∙ again p a (rank s xs) xs (count_if-rank p xs)
    where
      again :
          (p : String → Bool) (a : String) (ys xs : List String)
          → count_if p ys ≡ count_if p xs
          → count_if p (a ∷ ys) ≡ count_if p (a ∷ xs)
      again p a ys xs e = ground (arith, e)

  length-insert_ranked :
      (a : String) (bs : List String) → length (insert_ranked s a bs) ≡ suc (length bs)
  unfolding insert_ranked
  length-insert_ranked a [] = refl
  length-insert_ranked a (b ∷ bs) = ground (arith, length-insert_ranked a bs)

  pub length-rank : (xs : List String) → length (rank s xs) ≡ length xs
  unfolding rank
  length-rank [] = refl
  length-rank (a ∷ xs) = length-insert_ranked a (rank s xs) ∙ ap suc (length-rank xs)

  or_swap : (p q r : Bool) → (q || (p || r)) ≡ (p || (q || r))
  or_swap true true r = refl
  or_swap true false r = refl
  or_swap false true r = refl
  or_swap false false r = refl

  member-insert_ranked :
      (x a : String) (bs : List String)
      → member x (insert_ranked s a bs) ≡ ((a == x) || member x bs)
  unfolding insert_ranked
  member-insert_ranked x a [] = refl
  member-insert_ranked x a (b ∷ bs) = elim (Bool-cases (ranks_before s b a)) [
    | inl first ↦ rw first (
        ap (λ m. (b == x) || m) (member-insert_ranked x a bs)
        ∙ or_swap (a == x) (b == x) (member x bs))
    | inr later ↦ rw later refl
  ]

  pub member-rank : (x : String) (xs : List String) → member x (rank s xs) ≡ member x xs
  unfolding rank
  member-rank x [] = refl
  member-rank x (a ∷ xs) =
      member-insert_ranked x a (rank s xs) ∙ ap (λ m. (a == x) || m) (member-rank x xs)

  insert_ranked-IsUnique :
      (a : String) (bs : List String)
      → member a bs ≡ false
      → IsUnique bs
      → IsUnique (insert_ranked s a bs)
  unfolding insert_ranked
  insert_ranked-IsUnique a [] new h = (refl, tt)
  insert_ranked-IsUnique a (b ∷ bs) new (b_new, h) = elim (Bool-cases (ranks_before s b a)) [
    | inl first ↦
        let a_new : member a bs ≡ false = ground (arith, new) in
        let b_not_a : (a == b) ≡ false = ground (arith, new, eq_iff a b, eq_iff b a) in
        rw (first, insert_ranked)
          (
            member-insert_ranked b a bs ∙ ground (arith, b_not_a, b_new),
            insert_ranked-IsUnique a bs a_new h,
          )
    | inr later ↦ rw (later, insert_ranked) (new, (b_new, h))
  ]

  pub rank-IsUnique : (xs : List String) → IsUnique xs → IsUnique (rank s xs)
  unfolding rank
  rank-IsUnique [] h = tt
  rank-IsUnique (a ∷ xs) (new, h) =
      insert_ranked-IsUnique a (rank s xs) (member-rank a xs ∙ new) (rank-IsUnique xs h)

  -- Nobody stands behind one whom he should be before.
  abbrev pub IsRanked : List String → Type 0
  IsRanked [] = Unit
  IsRanked (a ∷ addrs) = All (λ b. ranks_before s b a ≡ false) addrs × IsRanked addrs

  module _ (ordered : IsOrdered N) where
    open N use {le, lt}

    ranks_before_asym : (a b : String) → ranks_before s a b ≡ true → ranks_before s b a ≡ false
    unfolding ranks_before
    ranks_before_asym a b h =
        let x = effective_bootstrap_stake a s.system in
        let y = effective_bootstrap_stake b s.system in
        let below = ordered.lt-eq-not-le x y in
        let above = ordered.lt-eq-not-le y x in
        let total = ordered.le_total x y in ground (arith, h, below, above, total)

    ranks_before_trans :
        (a b c : String)
        → ranks_before s b a ≡ false
        → ranks_before s c b ≡ false
        → ranks_before s c a ≡ false
    unfolding ranks_before
    ranks_before_trans a b c h g =
        let x = effective_bootstrap_stake a s.system in
        let y = effective_bootstrap_stake b s.system in
        let z = effective_bootstrap_stake c s.system in
        ground (
          arith,
          h,
          g,
          ordered.lt-eq-not-le x y,
          ordered.lt-eq-not-le y z,
          ordered.lt-eq-not-le x z,
          ordered.le_trans x y z,
          ordered.le_trans z y x,
          ordered.le_trans x z y,
          ordered.le_trans y x z,
          ordered.le_trans y z x,
          ordered.le_trans z x y,
          ordered.le_total x y,
          ordered.le_total y z,
          ordered.le_total x z,
        )

    insert_ranked-All :
        (c a : String) (bs : List String)
        → ranks_before s a c ≡ false
        → All (λ b. ranks_before s b c ≡ false) bs
        → All (λ b. ranks_before s b c ≡ false) (insert_ranked s a bs)
    unfolding insert_ranked
    insert_ranked-All c a [] h g = (h, tt)
    insert_ranked-All c a (b ∷ bs) h (e, g) = elim (Bool-cases (ranks_before s b a)) [
      | inl first ↦ rw (first, insert_ranked) (e, insert_ranked-All c a bs h g)
      | inr later ↦ rw (later, insert_ranked) (h, (e, g))
    ]

    insert_ranked-IsRanked :
        (a : String) (bs : List String) → IsRanked bs → IsRanked (insert_ranked s a bs)
    unfolding insert_ranked
    insert_ranked-IsRanked a [] h = (tt, tt)
    insert_ranked-IsRanked a (b ∷ bs) (least, h) = elim (Bool-cases (ranks_before s b a)) [
      | inl first ↦
          rw (first, insert_ranked)
            (
              insert_ranked-All b a bs (ranks_before_asym b a first) least,
              insert_ranked-IsRanked a bs h,
            )
      | inr later ↦
          rw (later, insert_ranked)
            ((later, All-map bs (λ c e. ranks_before_trans a b c later e) least), (least, h))
    ]

    pub rank-IsRanked : (xs : List String) → IsRanked (rank s xs)
    unfolding rank
    rank-IsRanked [] = tt
    rank-IsRanked (a ∷ xs) = insert_ranked-IsRanked a (rank s xs) (rank-IsRanked xs)

  All-found :
      (a c : String) (xs : List String)
      → All (λ b. ranks_before s b a ≡ false) xs
      → member c xs ≡ true
      → ranks_before s c a ≡ false
  All-found a c [] h m = cc
  All-found a c (b ∷ xs) (e, h) m = elim (Bool-cases (b == c)) [
    | inl same ↦
        let b_is_c : b ≡ c = ground (arith, eq_iff b c, same) in
        ap (λ d. ranks_before s d a) (sym b_is_c) ∙ e
    | inr other ↦ All-found a c xs h (rw other at m)
  ]

  -- One behind the cut is not before one ahead of it.
  pub take-IsRanked :
      (n : ℕ) (a c : String) (xs : List String)
      → IsRanked xs
      → member a (take n xs) ≡ true
      → member c xs ≡ true
      → member c (take n xs) ≡ false
      → ranks_before s c a ≡ false
  take-IsRanked zero a c xs h ahead there behind = cc
  take-IsRanked (suc n) a c [] h ahead there behind = cc
  take-IsRanked (suc n) a c (x ∷ xs) (least, h) ahead there behind =
      let c_rest : member c xs ≡ true = ground (arith, there, behind) in
      let c_behind : member c (take n xs) ≡ false = ground (arith, behind) in
      elim (Bool-cases (x == a)) [
        | inl same ↦
            let x_is_a : x ≡ a = ground (arith, eq_iff x a, same) in
            ap (λ d. ranks_before s c d) (sym x_is_a) ∙ All-found x c xs least c_rest
        | inr other ↦ take-IsRanked n a c xs h (rw other at ahead) c_rest c_behind
      ]
