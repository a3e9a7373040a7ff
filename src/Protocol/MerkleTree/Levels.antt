-- ===== src/Protocol/MerkleTree/Levels.antt =====
-- dessin/protocol/pogo_protocol.py, `MerkleTree._build_tree`: the levels end in a single root, and
-- the fuel does not matter once it covers the leaves.
use dessin.Prelude.{
  ℕ, zero, suc, ◌+◌, ◌/◌, ◌≤◌, ◌≡◌, refl, List, [], ◌∷◌, String, arith, ltb, length, Bool-cases,
  inl, inr,
}
use dessin.Protocol.MerkleTree.{next_level, levels_above, build_tree}

-- The level that stands last, above a first one.
abbrev pub last_level : List String → List (List String) → List String
last_level level [] = level
last_level level (up ∷ ups) = last_level up ups

-- `tree[-1]`, of a tree that has a level.
abbrev pub end_of : List (List String) → List String
end_of [] = []
end_of (level ∷ ups) = last_level level ups

module _ (sha256_hex : String → String) where
  pub length-next_level :
      (xs : List String) → length (next_level sha256_hex xs) ≡ (length xs + 1) / 2
  unfolding next_level
  length-next_level [] = refl
  length-next_level (x ∷ []) = refl
  length-next_level (x ∷ y ∷ xs) = omega (arith, length-next_level xs)

  pub last_level-levels_above :
      (fuel : ℕ) (level : List String)
      → length level ≤ fuel
      → 1 ≤ length level
      → length (last_level level (levels_above sha256_hex fuel level)) ≡ 1
  unfolding levels_above
  last_level-levels_above zero level h k = absurd (omega arith)
  last_level-levels_above (suc fuel) level h k = elim (Bool-cases (ltb 1 (length level))) [
    | inl more ↦ rw more (
        last_level-levels_above fuel (next_level sha256_hex level)
          (ground (arith, length-next_level level)) (ground (arith, length-next_level level)))
    | inr single ↦ rw single (ground arith)
  ]

  pub levels_above_fuel :
      (f g : ℕ) (level : List String)
      → length level ≤ f
      → length level ≤ g
      → levels_above sha256_hex f level ≡ levels_above sha256_hex g level
  unfolding levels_above
  levels_above_fuel zero zero level h k = refl
  levels_above_fuel zero (suc g) level h k = ground arith
  levels_above_fuel (suc f) zero level h k = ground arith
  levels_above_fuel (suc f) (suc g) level h k = elim (Bool-cases (ltb 1 (length level))) [
    | inl more ↦ rw (
      more,
      levels_above_fuel f g (next_level sha256_hex level) (ground (arith, length-next_level level))
          (ground (arith, length-next_level level)),
    )
    | inr single ↦ rw single
  ]

  -- From any leaves but none, `_build_tree` ends with a level of exactly one hash, the root.
  pub build_tree_ends :
      (x : String) (xs : List String) → length (end_of (build_tree sha256_hex (x ∷ xs))) ≡ 1
  unfolding build_tree
  build_tree_ends x xs =
      last_level-levels_above (length (x ∷ xs)) (x ∷ xs) (omega arith) (omega arith)
