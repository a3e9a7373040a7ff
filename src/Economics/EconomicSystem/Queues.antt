-- ===== src/Economics/EconomicSystem/Queues.antt =====
-- dessin/economics/economic_system.py: the queues of unbonding hold no negative entry.
use dessin.Prelude.{◌≡◌, some, List, [], ◌∷◌, String, ◌==◌, Bool-cases, inl, inr}
use dessin.Prelude.Int.{ℤ, pos, ◌≤ℤ◌}
use dessin.Dict.{Dict, get, set, del}

-- No entry of a queue is negative.
abbrev pub NonnegQueue : List (ℤ × ℤ) → Type 0
NonnegQueue [] = Unit
NonnegQueue ((amt, unlock) ∷ q) = (pos 0 ≤ℤ amt) × NonnegQueue q

abbrev pub NonnegQueues : Dict (List (ℤ × ℤ)) → Type 0
NonnegQueues [] = Unit
NonnegQueues ((k, q) ∷ d) = NonnegQueue q × NonnegQueues d

pub get-NonnegQueue :
    (k : String) (q : List (ℤ × ℤ)) (d : Dict (List (ℤ × ℤ)))
    → NonnegQueues d
    → get k d ≡ some q
    → NonnegQueue q
unfolding get
get-NonnegQueue k q [] n e = cc
get-NonnegQueue k q ((j, r) ∷ d) n e = elim (Bool-cases (j == k)) [
  | inl same ↦ let eq : r ≡ q = cc (rw same at e) in rw (← eq) n.0
  | inr other ↦ get-NonnegQueue k q d n.1 (rw other at e)
]

pub set-NonnegQueues :
    (k : String) (q : List (ℤ × ℤ)) (d : Dict (List (ℤ × ℤ)))
    → NonnegQueues d
    → NonnegQueue q
    → NonnegQueues (set k q d)
unfolding set
set-NonnegQueues k q [] n h = (h, tt)
set-NonnegQueues k q ((j, r) ∷ d) n h = elim (Bool-cases (j == k)) [
  | inl same ↦ rw same (h, n.1)
  | inr other ↦ rw other (n.0, set-NonnegQueues k q d n.1 h)
]

pub del-NonnegQueues :
    (k : String) (d : Dict (List (ℤ × ℤ))) → NonnegQueues d → NonnegQueues (del k d)
unfolding del
del-NonnegQueues k [] n = tt
del-NonnegQueues k ((j, r) ∷ d) n = elim (Bool-cases (j == k)) [
  | inl same ↦ rw same (del-NonnegQueues k d n.1)
  | inr other ↦ rw other (n.0, del-NonnegQueues k d n.1)
]
