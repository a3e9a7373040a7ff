-- ===== src/Consensus/Leader/Agreement.antt =====
-- dessin/consensus/enhanced_pogo_consensus.py: who is drawn, and when two nodes draw the same.
use native.Mathlib.Nat.{mod-lt}
use dessin.Prelude.{
  ℕ, zero, suc, ◌<◌, ◌%◌, ◌≡◌, ◌≢◌, ◌⊎◌, refl, inl, inr, Bool, true, false, ◌&&◌, ◌||◌, none, some,
  List, [], ◌∷◌, String, length, get_elem?, keep_if, ltb, Bool-cases, ap, ◌∙◌, sym, arith, eq_refl,
}
use dessin.Consensus.Leader.{
  Tip, Roster, member, combined, leader_lottery_eligible, training_leader_candidates, last_two,
  draw_from, expected_training_leader,
}
use dessin.Consensus.Leader.Sorted.{
  IsSorted, member-sorted, member-keep_if, sorted-IsSorted, IsSorted-unique,
}

-- An address that takes part in the lottery.
abbrev pub takes_part : Roster → String → Bool
takes_part s a = leader_lottery_eligible s a && member a (combined s)

member-candidates :
    (s : Roster) (a : String) → member a (training_leader_candidates s) ≡ takes_part s a
unfolding training_leader_candidates
member-candidates s a =
    member-sorted a (keep_if (leader_lottery_eligible s) (combined s))
    ∙ member-keep_if (leader_lottery_eligible s) a (combined s)

candidates-IsSorted : (s : Roster) → IsSorted (training_leader_candidates s)
unfolding training_leader_candidates
candidates-IsSorted s = sorted-IsSorted (keep_if (leader_lottery_eligible s) (combined s))

candidates-same :
    (s t : Roster)
    → ((a : String) → takes_part s a ≡ takes_part t a)
    → training_leader_candidates s ≡ training_leader_candidates t
candidates-same s t same =
    IsSorted-unique (training_leader_candidates s) (training_leader_candidates t)
      (candidates-IsSorted s) (candidates-IsSorted t)
      (λ a. member-candidates s a ∙ same a ∙ sym (member-candidates t a))

-- Two nodes on which the same addresses take part, however each came to know of them, and whose chains
-- have the same last two blocks, expect the same leader.
pub expected_training_leader-agrees :
    (draw : String → String → ℕ) (s t : Roster)
    → last_two s.chain ≡ last_two t.chain
    → ((a : String) → takes_part s a ≡ takes_part t a)
    → expected_training_leader draw s ≡ expected_training_leader draw t
unfolding expected_training_leader
expected_training_leader-agrees draw s t tips same =
    ap (λ eligible. draw_from draw eligible (last_two s.chain)) (candidates-same s t same)
    ∙ ap (draw_from draw (training_leader_candidates t)) tips

get_elem?-there :
    (xs : List String) (i : ℕ)
    → i < length xs
    → (a : String) × (get_elem? xs i ≡ some a) × (member a xs ≡ true)
get_elem?-there [] i below = absurd (omega (arith, below))
get_elem?-there (x ∷ xs) zero below = (x, refl, ap (λ b. b || member x xs) (eq_refl x))
get_elem?-there (x ∷ xs) (suc i) below =
    let (a, e, m) = get_elem?-there xs i (omega (arith, below)) in (a, e, ground (arith, m))

last_two-some : (b : Tip) (chain : List Tip) → (two : Tip × Tip) × (last_two (b ∷ chain) ≡ some two)
unfolding last_two
last_two-some b [] = ((b, b), refl)
last_two-some b (c ∷ []) = ((c, b), refl)
last_two-some b (c ∷ d ∷ chain) = last_two-some c (d ∷ chain)

draw_from_cases :
    (draw : String → String → ℕ) (eligible : List String) (two : Tip × Tip)
    → ((draw_from draw eligible (some two) ≡ none) × (ltb (length eligible) 2 ≡ true))
      ⊎ ((ltb (length eligible) 2 ≡ false)
          × ((a : String) × (draw_from draw eligible (some two) ≡ some a)
              × (member a eligible ≡ true)))
unfolding draw_from
draw_from_cases draw eligible (tip, below) = elim (Bool-cases (ltb (length eligible) 2)) [
  | inl few ↦ inl (rw few refl, few)
  | inr enough ↦
      let some_left : 0 < length eligible = ground (arith, enough) in
      let (a, found, there) =
        get_elem?-there eligible (draw tip.miner below.hash % length eligible)
          (mod-lt (draw tip.miner below.hash) some_left) in
      inr (enough, (a, rw enough found, there))
]

-- A leader is drawn exactly when at least two addresses are candidates and there is a block, and it is
-- one that takes part in the lottery.
pub expected_training_leader_cases :
    (draw : String → String → ℕ) (s : Roster)
    → ((expected_training_leader draw s ≡ none)
        × ((ltb (length (training_leader_candidates s)) 2 ≡ true) ⊎ (s.chain ≡ [])))
      ⊎ ((ltb (length (training_leader_candidates s)) 2 ≡ false)
          × (s.chain ≢ [])
          × ((a : String) × (expected_training_leader draw s ≡ some a) × (takes_part s a ≡ true)))
unfolding expected_training_leader draw_from last_two
expected_training_leader_cases draw s = go s.chain refl
  where
    go :
        (chain : List Tip)
        → s.chain ≡ chain
        → ((expected_training_leader draw s ≡ none)
            × ((ltb (length (training_leader_candidates s)) 2 ≡ true) ⊎ (s.chain ≡ [])))
          ⊎ ((ltb (length (training_leader_candidates s)) 2 ≡ false)
              × (s.chain ≢ [])
              × ((a : String) × (expected_training_leader draw s ≡ some a)
                  × (takes_part s a ≡ true)))
    go [] e =
        inl (ap (λ chain. draw_from draw (training_leader_candidates s) (last_two chain)) e, inr e)
    go (b ∷ chain) e =
        let (two, tips) = last_two-some b chain in
        let whole : expected_training_leader draw s
            ≡ draw_from draw (training_leader_candidates s) (some two) =
          ap (draw_from draw (training_leader_candidates s)) (ap last_two e ∙ tips) in
        elim (draw_from_cases draw (training_leader_candidates s) two) [
          | inl (idle, few) ↦ inl (whole ∙ idle, inl few)
          | inr (enough, (a, drawn, there)) ↦ inr (
            enough,
            λ empty. (let h : b ∷ chain ≡ [] = sym e ∙ empty in cc),
            (a, whole ∙ drawn, sym (member-candidates s a) ∙ there),
          )
        ]
