-- ===== src/Protocol/MerkleTree.antt =====
-- dessin/protocol/pogo_protocol.py: `MerkleTree`. `sha256_hex s` stands for
-- `hashlib.sha256(s.encode()).hexdigest()`. Positions are natural numbers: the callers pass no
-- negative ones.
pub mod Levels
pub mod Completeness
pub mod Binding
pub mod Padding
mod Tests
use Prim.Native.String.{◌++◌ as concat}
use dessin.Prelude.{
  ℕ, zero, suc, ◌+◌, ◌-◌, ◌/◌, ◌%◌, Bool, true, false, Option, none, some, List, [], ◌∷◌, String,
  ◌==◌, eq_ℕ, ltb, leb, if◌then◌else◌, length, get_elem?, from_option,
}

pub record MerkleTree : Type 0 where
  pub leaves : List String
  pub tree : List (List String)

-- `level[i]`; it is only read in bounds.
abbrev pub read : List String → ℕ → String
read level i = from_option "" (get_elem? level i)

-- `self.tree[-1][0]`
unfoldable pub top : List String → List (List String) → String
top level [] = read level 0
top level (up ∷ ups) = top up ups

unfoldable pub get_root : MerkleTree → String
get_root t = elim t.tree [ [] ↦ "" | level ∷ ups ↦ top level ups ]

-- The sibling of a node in its level; the node itself if it has none.
unfoldable pub sibling : List String → ℕ → String
sibling level i =
    let s = if eq_ℕ (i % 2) 0 then i + 1 else i - 1 in
    if ltb s (length level) then read level s else read level i

-- `for level in self.tree[:-1]`, with the last level left out.
unfoldable pub proof_from : List String → List (List String) → ℕ → List String
proof_from level [] i = []
proof_from level (up ∷ ups) i = sibling level i ∷ proof_from up ups (i / 2)

unfoldable pub get_proof : MerkleTree → ℕ → List String
get_proof t leaf_index =
    if leb (length t.leaves) leaf_index
    then []
    else elim t.tree [ [] ↦ [] | level ∷ ups ↦ proof_from level ups leaf_index ]

module _ (sha256_hex : String → String) where
  -- `hashlib.sha256((left + right).encode()).hexdigest()`
  unfoldable pub hash_pair : String → String → String
  hash_pair left right = sha256_hex (concat left right)

  -- The body of the `while`: nodes are paired, and a last odd one is paired with itself.
  unfoldable pub next_level : List String → List String
  next_level [] = []
  next_level (left ∷ []) = hash_pair left left ∷ []
  next_level (left ∷ right ∷ rest) = hash_pair left right ∷ next_level rest

  -- The levels above one level, `while len(tree[-1]) > 1`, with fuel for the rounds.
  unfoldable pub levels_above : ℕ → List String → List (List String)
  levels_above zero level = []
  levels_above (suc fuel) level =
      let next = next_level level in
      let rest = next ∷ levels_above fuel next in if ltb 1 (length level) then rest else []

  -- `_build_tree`: the rounds are fewer than the leaves.
  unfoldable pub build_tree : List String → List (List String)
  build_tree [] = []
  build_tree leaves = leaves ∷ levels_above (length leaves) leaves

  abbrev pub merkle_tree : List String → MerkleTree
  merkle_tree leaves = record { leaves = leaves; tree = build_tree leaves }

  -- One round of the loop of `verify_proof`.
  unfoldable pub climb : String → ℕ → List String → String
  climb current_hash i [] = current_hash
  climb current_hash i (s ∷ proof) =
      climb (if eq_ℕ (i % 2) 0 then hash_pair current_hash s else hash_pair s current_hash) (i / 2)
        proof

  unfoldable pub verify_proof : String → ℕ → List String → String → Bool
  verify_proof leaf leaf_index proof root = climb leaf leaf_index proof == root
