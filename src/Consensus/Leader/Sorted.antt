-- ===== src/Consensus/Leader/Sorted.antt =====
-- dessin/consensus/enhanced_pogo_consensus.py: `sorted` of a set of addresses depends on its members only.
use mathlib.Core.Path.{subst}
use dessin.Prelude.{
  ◌≡◌, refl, inl, inr, Bool, true, false, ◌&&◌, ◌||◌, List, [], ◌∷◌, String, ◌==◌, keep_if,
  keep_if_yes, keep_if_no, All, Bool-cases, ap, ◌∙◌, sym, arith, eq_iff, eq_refl,
}
use dessin.Prelude.Strings.{ltb_str, ltb_str_trans, ltb_str_irrefl, ltb_str_total}
use dessin.Consensus.Leader.{member, insert, sorted}

-- Strictly increasing.
abbrev pub IsSorted : List String → Type 0
IsSorted [] = Unit
IsSorted (a ∷ bs) = All (λ b. ltb_str a b ≡ true) bs × IsSorted bs

-- The members are the same.
abbrev pub Agree : (xs ys : List String) → Type 0
Agree xs ys = (a : String) → member a xs ≡ member a ys

or_twice : (p q : Bool) → (p || q) ≡ (p || (p || q))
or_twice true q = refl
or_twice false q = refl

or_swap : (p q r : Bool) → (q || (p || r)) ≡ (p || (q || r))
or_swap true true r = refl
or_swap true false r = refl
or_swap false true r = refl
or_swap false false r = refl

and_or : (t p m : Bool) → (p ≡ true → t ≡ true) → (p || (t && m)) ≡ (t && (p || m))
and_or true p m h = refl
and_or false true m h = sym (h refl)
and_or false false m h = refl

and_without : (t p m : Bool) → (p ≡ true → t ≡ false) → (t && m) ≡ (t && (p || m))
and_without false p m h = refl
and_without true true m h = let e = h refl in cc
and_without true false m h = refl

member-insert :
    (x a : String) (bs : List String) → member x (insert a bs) ≡ ((a == x) || member x bs)
unfolding insert
member-insert x a [] = refl
member-insert x a (b ∷ bs) = elim (Bool-cases (ltb_str a b)) [
  | inl first ↦ rw first refl
  | inr later ↦ elim (Bool-cases (a == b)) [
    | inl same ↦
        let a_is_b : a ≡ b = ground (arith, eq_iff a b, same) in
        rw (later, same)
          (or_twice (b == x) (member x bs)
            ∙ ap (λ c. (c == x) || ((b == x) || member x bs)) (sym a_is_b))
    | inr other ↦
        rw (later, other)
          (ap (λ m. (b == x) || m) (member-insert x a bs) ∙ or_swap (a == x) (b == x) (member x bs))
  ]
]

pub member-sorted : (x : String) (xs : List String) → member x (sorted xs) ≡ member x xs
unfolding sorted
member-sorted x [] = refl
member-sorted x (a ∷ xs) =
    member-insert x a (sorted xs) ∙ ap (λ m. (a == x) || m) (member-sorted x xs)

pub member-keep_if :
    (test : String → Bool) (x : String) (xs : List String)
    → member x (keep_if test xs) ≡ (test x && member x xs)
member-keep_if test x [] = ground arith
member-keep_if test x (a ∷ xs) =
    let same : (a == x) ≡ true → a ≡ x = λ e. ground (arith, e, eq_iff a x) in
    elim (Bool-cases (test a)) [
      | inl passes ↦
          ap (member x) (keep_if_yes test a xs passes)
          ∙ ap (λ m. (a == x) || m) (member-keep_if test x xs)
          ∙ and_or (test x) (a == x) (member x xs) (λ e. ap test (sym (same e)) ∙ passes)
      | inr fails ↦
          ap (member x) (keep_if_no test a xs fails)
          ∙ member-keep_if test x xs
          ∙ and_without (test x) (a == x) (member x xs) (λ e. ap test (sym (same e)) ∙ fails)
    ]

All-less_trans :
    (a b : String) (bs : List String)
    → ltb_str a b ≡ true
    → All (λ c. ltb_str b c ≡ true) bs
    → All (λ c. ltb_str a c ≡ true) bs
All-less_trans a b [] below h = tt
All-less_trans a b (c ∷ bs) below (e, h) =
    (ltb_str_trans a b c below e, All-less_trans a b bs below h)

insert-All :
    (x a : String) (bs : List String)
    → ltb_str x a ≡ true
    → All (λ c. ltb_str x c ≡ true) bs
    → All (λ c. ltb_str x c ≡ true) (insert a bs)
unfolding insert
insert-All x a [] below h = (below, tt)
insert-All x a (b ∷ bs) below (e, h) = elim (Bool-cases (ltb_str a b)) [
  | inl first ↦ rw (first, insert) (below, (e, h))
  | inr later ↦ elim (Bool-cases (a == b)) [
    | inl same ↦ rw (later, same, insert) (e, h)
    | inr other ↦ rw (later, other, insert) (e, insert-All x a bs below h)
  ]
]

insert-IsSorted : (a : String) (bs : List String) → IsSorted bs → IsSorted (insert a bs)
unfolding insert
insert-IsSorted a [] h = (tt, tt)
insert-IsSorted a (b ∷ bs) (least, h) = elim (Bool-cases (ltb_str a b)) [
  | inl first ↦ rw (first, insert) ((first, All-less_trans a b bs first least), (least, h))
  | inr later ↦ elim (Bool-cases (a == b)) [
    | inl same ↦ rw (later, same, insert) (least, h)
    | inr other ↦
        let after : ltb_str b a ≡ true = elim (ltb_str_total a b) [
          | inl less ↦ cc
          | inr (inl same) ↦
              let e : (a == b) ≡ true = subst (λ c. (a == c) ≡ true) same (eq_refl a) in cc
          | inr (inr more) ↦ more
        ] in
        rw (later, other, insert) (insert-All b a bs after least, insert-IsSorted a bs h)
  ]
]

pub sorted-IsSorted : (xs : List String) → IsSorted (sorted xs)
unfolding sorted
sorted-IsSorted [] = tt
sorted-IsSorted (a ∷ xs) = insert-IsSorted a (sorted xs) (sorted-IsSorted xs)

-- What is below all is none of them.
least-member :
    (a : String) (bs : List String) → All (λ b. ltb_str a b ≡ true) bs → member a bs ≡ false
least-member a [] h = refl
least-member a (b ∷ bs) (e, h) =
    let apart : (b == a) ≡ false = elim (Bool-cases (b == a)) [
      | inl same ↦
          let b_is_a : b ≡ a = ground (arith, eq_iff b a, same) in
          let self : ltb_str a a ≡ true = subst (λ c. ltb_str a c ≡ true) b_is_a e in
          let never = ltb_str_irrefl a in cc
      | inr other ↦ other
    ] in
    rw (apart, least-member a bs h) refl

All-member :
    (a x : String) (bs : List String)
    → All (λ b. ltb_str a b ≡ true) bs
    → member x bs ≡ true
    → ltb_str a x ≡ true
All-member a x [] h m = cc
All-member a x (b ∷ bs) (e, h) m = elim (Bool-cases (b == x)) [
  | inl here ↦ subst (λ c. ltb_str a c ≡ true) (ground (arith, eq_iff b x, here)) e
  | inr there ↦ All-member a x bs h (rw there at m)
]

-- The least member of one list is not above that of the other.
first-not-above :
    (x y : String) (xs ys : List String)
    → All (λ b. ltb_str y b ≡ true) ys
    → Agree (x ∷ xs) (y ∷ ys)
    → ltb_str x y ≡ true
    → ⊥
first-not-above x y xs ys below same less =
    let there : member x (y ∷ ys) ≡ true = sym (same x) ∙ ap (λ p. p || member x xs) (eq_refl x) in
    elim (Bool-cases (y == x)) [
      | inl equal ↦
          let self : ltb_str x x ≡ true =
            subst (λ c. ltb_str x c ≡ true) (ground (arith, eq_iff y x, equal)) less in
          let never = ltb_str_irrefl x in cc
      | inr other ↦
          let above = All-member y x ys below (rw other at there) in
          let self = ltb_str_trans x y x less above in let never = ltb_str_irrefl x in cc
    ]

-- The rest of both lists has the same members.
Agree-rest :
    (x : String) (xs ys : List String)
    → All (λ b. ltb_str x b ≡ true) xs
    → All (λ b. ltb_str x b ≡ true) ys
    → Agree (x ∷ xs) (x ∷ ys)
    → Agree xs ys
Agree-rest x xs ys below_xs below_ys same a = elim (Bool-cases (x == a)) [
  | inl first ↦
      let x_is_a : x ≡ a = ground (arith, eq_iff x a, first) in
      subst (λ c. member c xs ≡ member c ys) x_is_a
        (least-member x xs below_xs ∙ sym (least-member x ys below_ys))
  | inr other ↦ let e = same a in rw other at e
]

-- Strictly increasing lists with the same members are the same.
pub IsSorted-unique : (xs ys : List String) → IsSorted xs → IsSorted ys → Agree xs ys → xs ≡ ys
IsSorted-unique [] [] h g same = refl
IsSorted-unique [] (y ∷ ys) h g same = let e = same y in ground (arith, e, eq_refl y)
IsSorted-unique (x ∷ xs) [] h g same = let e = same x in ground (arith, e, eq_refl x)
IsSorted-unique (x ∷ xs) (y ∷ ys) (below_x, h) (below_y, g) same = elim (ltb_str_total x y) [
  | inl less ↦ absurd (first-not-above x y xs ys below_y same less)
  | inr (inl equal) ↦
      let below_x' : All (λ b. ltb_str y b ≡ true) xs =
        subst (λ c. All (λ b. ltb_str c b ≡ true) xs) equal below_x in
      let same' : Agree (y ∷ xs) (y ∷ ys) = subst (λ c. Agree (c ∷ xs) (y ∷ ys)) equal same in
      ap (λ c. c ∷ xs) equal
      ∙ ap (λ zs. y ∷ zs) (IsSorted-unique xs ys h g (Agree-rest y xs ys below_x' below_y same'))
  | inr (inr more) ↦ absurd (first-not-above y x ys xs below_x (λ a. sym (same a)) more)
]
