-- ===== src/Consensus/Leader.antt =====
-- dessin/consensus/enhanced_pogo_consensus.py: the lottery for the next block's proposer. A Python `set`
-- of addresses is a list, of which only the members matter. What hashlib and `int.from_bytes` make of
-- the two last blocks is a parameter.
pub mod Sorted
pub mod Agreement
mod Tests
use dessin.Prelude.{
  ℕ, zero, suc, ◌%◌, ◌-◌, Bool, true, false, not, ◌&&◌, ◌||◌, Option, none, some, List, [], ◌∷◌,
  ◌++◌, String, ◌==◌, if◌then◌else◌, length, get_elem?, keep_if, ltb, map,
}
use dessin.Prelude.Int.{ℤ, pos, leb_ℤ, ltb_ℤ}
use dessin.Prelude.Strings.{ltb_str}
use dessin.Dict.{Dict, contains, set}

-- The fields of a block that the lottery reads.
pub record Tip : Type 0 where
  pub miner : String
  pub hash : String

pub record Roster : Type 0 where
  pub chain : List Tip
  pub training_miner_roster : List String
  pub bootstrap_registry : Dict ℤ
  pub bootstrap_slashed : List String
  pub miner_address : String
  pub bootstrap_period_blocks : ℤ

-- `a in s`
abbrev pub member : String → List String → Bool
member a [] = false
member a (b ∷ bs) = let rest = member a bs in (b == a) || rest

abbrev pub is_no_miner : String → Bool
is_no_miner address = address == "" || address == "genesis"

unfoldable pub note_participating_miner : (address : String) → Roster → Roster
note_participating_miner address s =
    if is_no_miner address
    then s
    else record s { training_miner_roster = address ∷ s.training_miner_roster }

unfoldable pub chain_training_miners : Roster → List String
chain_training_miners s =
    keep_if (λ (m : String). not (is_no_miner m)) (map (λ (b : Tip). b.miner) s.chain)

unfoldable pub leader_lottery_eligible : Roster → String → Bool
leader_lottery_eligible s address =
    if is_no_miner address || member address s.bootstrap_slashed
    then false
    else if leb_ℤ s.bootstrap_period_blocks (pos 0)
    then true
    else member address (chain_training_miners s)
      || member address s.training_miner_roster
      || contains address s.bootstrap_registry

-- `sorted` of a set: each member once.
unfoldable pub insert : String → List String → List String
insert a [] = a ∷ []
insert a (b ∷ bs) =
    let rest = insert a bs in
    if ltb_str a b then a ∷ b ∷ bs else if a == b then b ∷ bs else b ∷ rest

unfoldable pub sorted : List String → List String
sorted [] = []
sorted (a ∷ as_set) = insert a (sorted as_set)

-- Everybody who may take part, `""` among them.
abbrev pub combined : Roster → List String
combined s = s.miner_address ∷ (s.training_miner_roster ++ chain_training_miners s)

unfoldable pub training_leader_candidates : Roster → List String
training_leader_candidates s = sorted (keep_if (leader_lottery_eligible s) (combined s))

-- The last two blocks, the last one first; the first block stands for a missing one.
unfoldable pub last_two : List Tip → Option (Tip × Tip)
last_two [] = none
last_two (b ∷ []) = some (b, b)
last_two (a ∷ b ∷ []) = some (b, a)
last_two (a ∷ b ∷ c ∷ chain) = last_two (b ∷ c ∷ chain)

-- `draw` is the number that the SHA-256 of the two texts begins with. `none` is the open race.
unfoldable pub draw_from :
    (draw : (miner_nm1 h_nm2 : String) → ℕ) (eligible : List String)
    → Option (Tip × Tip)
    → Option String
draw_from draw eligible none = none
draw_from draw eligible (some (tip, below)) =
    if ltb (length eligible) 2
    then none
    else get_elem? eligible (draw tip.miner below.hash % length eligible)

unfoldable pub expected_training_leader :
    (draw : (miner_nm1 h_nm2 : String) → ℕ) → Roster → Option String
expected_training_leader draw s = draw_from draw (training_leader_candidates s) (last_two s.chain)
