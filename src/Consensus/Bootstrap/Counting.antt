-- ===== src/Consensus/Bootstrap/Counting.antt =====
-- dessin/consensus/enhanced_pogo_consensus.py: how many addresses are registered and active.
use dessin.Prelude.{
  ℕ, zero, suc, ◌≡◌, ◌≤◌, refl, inl, inr, Bool, false, ◌&&◌, none, some, List, [], ◌∷◌, String,
  ◌==◌, if◌then◌else◌, length, take, keep_if, count_if, Bool-cases, ap, ◌∙◌, sym, arith, ltb,
}
use dessin.Prelude.Int.{ℤ, pos, ltb_ℤ}
use dessin.Dict.{Dict, get, IsDistinct}
use dessin.Num.{Num}
use dessin.Consensus.Leader.{member}
use dessin.Consensus.Leader.Sorted.{member-keep_if}
use dessin.Consensus.Bootstrap.State.{Node}
use dessin.Consensus.Bootstrap.Ranking.{keys, slice, participants, rank, active_miners}
use dessin.Consensus.Bootstrap.Sorting.{IsUnique}

module _ {V : Type 0} where
  member-keys : (k : String) (d : Dict V) → get k d ≡ none → member k (keys d) ≡ false
  unfolding keys get
  member-keys k [] h = refl
  member-keys k ((j, v) ∷ d) h = elim (Bool-cases (j == k)) [
    | inl same ↦ let found : some v ≡ none = rw same at h in cc
    | inr other ↦ rw other (member-keys k d (rw other at h))
  ]

  pub keys-IsUnique : (d : Dict V) → IsDistinct d → IsUnique (keys d)
  unfolding keys
  keys-IsUnique [] h = tt
  keys-IsUnique ((j, v) ∷ d) (new, h) = (member-keys j d new, keys-IsUnique d h)

pub keep_if-IsUnique :
    (p : String → Bool) (xs : List String) → IsUnique xs → IsUnique (keep_if p xs)
keep_if-IsUnique p [] h = tt
keep_if-IsUnique p (x ∷ xs) (new, h) = elim (Bool-cases (p x)) [
  | inl passes ↦
      rw (keep_if, passes) (member-keep_if p x xs ∙ ground (arith, new), keep_if-IsUnique p xs h)
  | inr fails ↦ rw (keep_if, fails) (keep_if-IsUnique p xs h)
]

pub length-keep_if : (p : String → Bool) (xs : List String) → length (keep_if p xs) ≡ count_if p xs
length-keep_if p [] = refl
length-keep_if p (x ∷ xs) = ground (arith, length-keep_if p xs)

pub count_if-keep_if :
    (p q : String → Bool) (xs : List String)
    → count_if q (keep_if p xs) ≡ count_if (λ x. p x && q x) xs
count_if-keep_if p q [] = refl
count_if-keep_if p q (x ∷ xs) = ground (arith, count_if-keep_if p q xs)

pub length-take :
    (n : ℕ) (xs : List String) → length (take n xs) ≡ (if ltb (length xs) n then length xs else n)
length-take zero xs = ground arith
length-take (suc n) [] = ground arith
length-take (suc n) (x ∷ xs) = ground (arith, length-take n xs)

take_all : (n : ℕ) (xs : List String) → length xs ≤ n → take n xs ≡ xs
take_all zero [] h = refl
take_all zero (x ∷ xs) h = absurd (omega arith)
take_all (suc n) [] h = refl
take_all (suc n) (x ∷ xs) h = ap (λ ys. x ∷ ys) (take_all n xs (omega arith))

slice_min :
    (m : ℤ) (n : ℕ) (xs : List String)
    → m ≡ pos n
    → slice (if ltb_ℤ (pos (length xs)) m then pos (length xs) else m) xs ≡ take n xs
slice_min m n xs e = elim (Bool-cases (ltb_ℤ (pos (length xs)) (pos n))) [
  | inl few ↦
      let all_of_them = take_all n xs (ground (arith, few)) in
      rw (e, few) (take_all (length xs) xs (omega arith) ∙ sym all_of_them)
  | inr many ↦ rw (e, many) refl
]

module _ {N : Num} (s : Node N) where
  -- The cut at the number of active nodes.
  pub active_miners_lem :
      (n : ℕ)
      → s.bootstrap_max_active_nodes ≡ pos n
      → active_miners s ≡ take n (rank s (participants s))
  unfolding active_miners
  active_miners_lem n e = slice_min s.bootstrap_max_active_nodes n (rank s (participants s)) e
