-- ===== src/Economics/EconomicSystem/Accounting.antt =====
-- dessin/economics/economic_system.py: what an address book sums to, under each write of the code,
-- for exact amounts.
use dessin.Prelude.{◌≡◌, refl, none, List, [], ◌∷◌, ◌++◌, String, arith, eq_iff}
use dessin.Prelude.Int.{ℤ, pos, ◌+ℤ◌, int_laws}
use dessin.Dict.{Dict, get, get_or, set, del, IsDistinct}

-- `sum(d.values())`
unfoldable pub total : Dict ℤ → ℤ
total [] = pos 0
total ((k, v) ∷ d) = v +ℤ total d

-- The principal in one address's queue, and in all of them.
unfoldable pub principal : List (ℤ × ℤ) → ℤ
principal [] = pos 0
principal ((amt, unlock) ∷ q) = amt +ℤ principal q

unfoldable pub total_queued : Dict (List (ℤ × ℤ)) → ℤ
total_queued [] = pos 0
total_queued ((k, q) ∷ d) = principal q +ℤ total_queued d

pub total-set :
    (k : String) (v : ℤ) (d : Dict ℤ) → total (set k v d) +ℤ get_or k (pos 0) d ≡ total d +ℤ v
unfolding total set get
total-set k v [] = omega int_laws
total-set k v ((j, w) ∷ d) = grind (int_laws, total-set k v d)

pub total_queued-set :
    (k : String) (q : List (ℤ × ℤ)) (d : Dict (List (ℤ × ℤ)))
    → total_queued (set k q d) +ℤ principal (get_or k [] d) ≡ total_queued d +ℤ principal q
unfolding total_queued principal set get
total_queued-set k q [] = omega int_laws
total_queued-set k q ((j, w) ∷ d) = grind (int_laws, total_queued-set k q d)

del_absent : {V : Type 0} (k : String) (d : Dict V) → get k d ≡ none → del k d ≡ d
unfolding get del
del_absent k [] h = refl
del_absent k ((j, w) ∷ d) h = ground (arith, del_absent k d)

pub total-del :
    (k : String) (d : Dict ℤ) → IsDistinct d → total (del k d) +ℤ get_or k (pos 0) d ≡ total d
unfolding total del get
total-del k [] h = omega int_laws
total-del k ((j, w) ∷ d) h = grind (int_laws, total-del k d h.1, del_absent k d, eq_iff j k)

pub total_queued-del :
    (k : String) (d : Dict (List (ℤ × ℤ)))
    → IsDistinct d
    → total_queued (del k d) +ℤ principal (get_or k [] d) ≡ total_queued d
unfolding total_queued principal del get
total_queued-del k [] h = omega int_laws
total_queued-del k ((j, w) ∷ d) h =
    grind (int_laws, total_queued-del k d h.1, del_absent k d, eq_iff j k)

pub principal-append : (q r : List (ℤ × ℤ)) → principal (q ++ r) ≡ principal q +ℤ principal r
unfolding principal
principal-append [] r = omega int_laws
principal-append ((amt, unlock) ∷ q) r = grind (int_laws, principal-append q r)
