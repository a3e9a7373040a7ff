-- ===== src/Dict.antt =====
-- A Python `dict` with string keys, in insertion order. A key stands at most once in a real `dict`;
-- `set` writes in place or appends, so it keeps that.
use dessin.Prelude.{
  ◌≡◌, refl, ◌≢◌, Bool, true, false, Option, none, some, List, [], ◌∷◌, arith, ◌==◌, eq_iff, String,
  if◌then◌else◌, from_option, All, All-map, Bool-cases, ap, inl, inr,
}

abbrev pub Dict : Type 0 → Type 0
Dict V = List (String × V)

module _ {V : Type 0} where
  -- `d.get(k)`
  unfoldable pub get : String → Dict V → Option V
  get k [] = none
  get k ((j, v) ∷ d) = if j == k then some v else get k d

  -- `d.get(k, v)`
  abbrev pub get_or : String → V → Dict V → V
  get_or k v d = from_option v (get k d)

  -- `k in d`
  abbrev pub contains : String → Dict V → Bool
  contains k d = elim (get k d) [ none ↦ false | some _ ↦ true ]

  -- `d[k] = v`
  unfoldable pub set : String → V → Dict V → Dict V
  set k v [] = (k, v) ∷ []
  set k v ((j, w) ∷ d) = if j == k then (j, v) ∷ d else (j, w) ∷ set k v d

  -- `d.pop(k, None)`, and `del d[k]` where `k` is there
  unfoldable pub del : String → Dict V → Dict V
  del k [] = []
  del k ((j, w) ∷ d) = let rest = del k d in if j == k then rest else (j, w) ∷ rest

  -- `d.values()`
  abbrev pub values : Dict V → List V
  values [] = []
  values ((j, w) ∷ d) = w ∷ values d

  -- No key stands twice.
  abbrev pub IsDistinct : Dict V → Type 0
  IsDistinct [] = Unit
  IsDistinct ((j, w) ∷ d) = (get j d ≡ none) × IsDistinct d

  pub get-set :
      (k j : String) (v : V) (d : Dict V) → get j (set k v d) ≡ (if k == j then some v else get j d)
  unfolding get set
  get-set k j v [] = refl
  get-set k j v ((i, w) ∷ d) = ground (arith, eq_iff k j, eq_iff i k, eq_iff i j, get-set k j v d)

  pub get-del : (k j : String) (d : Dict V) → get j (del k d) ≡ (if k == j then none else get j d)
  unfolding get del
  get-del k j [] = ground arith
  get-del k j ((i, w) ∷ d) = ground (arith, get-del k j d, eq_iff i k, eq_iff i j, eq_iff k j)

  pub get-set_self : (k : String) (v : V) (d : Dict V) → get k (set k v d) ≡ some v
  get-set_self k v d = ground (arith, get-set k k v d, eq_iff k k)

  pub get_or-set :
      (k j : String) (x v : V) (d : Dict V)
      → get_or j x (set k v d) ≡ (if k == j then v else get_or j x d)
  get_or-set k j x v d =
      rw (get-set k j v d)
        (elim (Bool-cases (k == j)) [ inl same ↦ rw same refl | inr other ↦ rw other refl ])

  pub get_or-del :
      (k j : String) (x : V) (d : Dict V)
      → get_or j x (del k d) ≡ (if k == j then x else get_or j x d)
  get_or-del k j x d =
      rw (get-del k j d)
        (elim (Bool-cases (k == j)) [ inl same ↦ rw same refl | inr other ↦ rw other refl ])

  pub get-del_self : (k : String) (d : Dict V) → get k (del k d) ≡ none
  get-del_self k d = ground (arith, get-del k k d, eq_iff k k)

  pub get_or-set_self : (k : String) (x v : V) (d : Dict V) → get_or k x (set k v d) ≡ v
  get_or-set_self k x v d = ap (from_option x) (get-set_self k v d)

  pub get-set_ne : (k j : String) (v : V) (d : Dict V) → k ≢ j → get j (set k v d) ≡ get j d
  get-set_ne k j v d h = ground (arith, get-set k j v d, eq_iff k j)

  pub set-IsDistinct : (k : String) (v : V) (d : Dict V) → IsDistinct d → IsDistinct (set k v d)
  unfolding get set
  set-IsDistinct k v [] h = (refl, tt)
  set-IsDistinct k v ((i, w) ∷ d) h =
      ground (arith, set-IsDistinct k v d h.1, get-set k i v d, eq_iff i k, eq_iff k i)

  pub del-IsDistinct : (k : String) (d : Dict V) → IsDistinct d → IsDistinct (del k d)
  unfolding get del
  del-IsDistinct k [] h = tt
  del-IsDistinct k ((i, w) ∷ d) h = ground (arith, del-IsDistinct k d h.1, get-del k i d)

  -- `{k: v for k, v in d.items() if test(v)}`
  unfoldable pub keep_values : (V → Bool) → Dict V → Dict V
  keep_values test [] = []
  keep_values test ((j, w) ∷ d) =
      let rest = keep_values test d in if test w then (j, w) ∷ rest else rest

  -- A value as far as the test keeps it.
  abbrev pub kept : (V → Bool) → Option V → Option V
  kept test none = none
  kept test (some v) = if test v then some v else none

  pub get-keep_values :
      (test : V → Bool) (k : String) (d : Dict V)
      → IsDistinct d
      → get k (keep_values test d) ≡ kept test (get k d)
  unfolding get keep_values
  get-keep_values test k [] h = refl
  get-keep_values test k ((j, w) ∷ d) h =
      ground (arith, get-keep_values test k d h.1, eq_iff j k, h.0)

  pub keep_values-IsDistinct :
      (test : V → Bool) (d : Dict V) → IsDistinct d → IsDistinct (keep_values test d)
  unfolding keep_values
  keep_values-IsDistinct test [] h = tt
  keep_values-IsDistinct test ((j, w) ∷ d) h =
      ground (arith, keep_values-IsDistinct test d h.1, get-keep_values test j d h.1, h.0)

  -- Every entry is what its key leads to.
  pub entries-get : (d : Dict V) → IsDistinct d → All (λ (k, v). get k d ≡ some v) d
  unfolding get
  entries-get [] h = tt
  entries-get ((j, w) ∷ d) h = (
    ground (arith, eq_iff j j),
    All-map d (λ (k, v) e. ground (arith, eq_iff j k, h.0, e)) (entries-get d h.1),
  )
