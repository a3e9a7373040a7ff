-- ===== src/Protocol/MerkleTree/Padding.antt =====
-- dessin/protocol/pogo_protocol.py, `MerkleTree`: an odd last leaf is paired with itself, so a root
-- does not tell a list of leaves from the one with its last leaf repeated.
use dessin.Prelude.{
  ℕ, zero, suc, ◌+◌, ◌*◌, ◌≤◌, ◌≡◌, refl, true, List, [], ◌∷◌, ◌++◌, String, arith, ltb, length,
  length-append,
}
use dessin.Protocol.MerkleTree.{next_level, levels_above, merkle_tree, get_root, build_tree, top}
use dessin.Protocol.MerkleTree.Levels.{length-next_level, levels_above_fuel}

module _ (sha256_hex : String → String) where
  next_level-padding :
      (k : ℕ) (xs : List String) (a : String)
      → length xs ≡ 2 * k
      → next_level sha256_hex (xs ++ (a ∷ [])) ≡ next_level sha256_hex (xs ++ (a ∷ a ∷ []))
  unfolding next_level
  next_level-padding k [] a h = refl
  next_level-padding k (x ∷ []) a h = absurd (omega arith)
  next_level-padding zero (x ∷ y ∷ xs) a h = absurd (omega arith)
  next_level-padding (suc k) (x ∷ y ∷ xs) a h = cc (next_level-padding k xs a (omega arith))

  -- The root of a longer tree is that of the next level.
  top-levels_above :
      (n : ℕ) (level : List String)
      → 2 ≤ length level
      → length level ≤ suc n
      → top level (levels_above sha256_hex (length level) level)
        ≡ top
            (next_level sha256_hex level)
            (levels_above sha256_hex n (next_level sha256_hex level))
  unfolding levels_above top
  top-levels_above n [] two h = absurd (omega arith)
  top-levels_above n (x ∷ level) two h =
      let more : ltb 1 (length (x ∷ level)) ≡ true = ground arith in
      rw (
        more,
        levels_above_fuel sha256_hex (length level) n (next_level sha256_hex (x ∷ level))
            (ground (arith, length-next_level sha256_hex (x ∷ level)))
            (ground (arith, length-next_level sha256_hex (x ∷ level))),
      )

  -- Any list of leaves of odd length above one has the root of the list with its last leaf repeated:
  -- two different lists of layer hashes, one commitment.
  pub get_root_padding :
      (k : ℕ) (xs : List String) (a : String)
      → length xs ≡ 2 * suc k
      → get_root (merkle_tree sha256_hex (xs ++ (a ∷ [])))
        ≡ get_root (merkle_tree sha256_hex (xs ++ (a ∷ a ∷ [])))
  unfolding get_root build_tree
  get_root_padding k [] a h = absurd (omega arith)
  get_root_padding k (x ∷ xs) a h =
      let one = (x ∷ xs) ++ (a ∷ []) in
      let two = (x ∷ xs) ++ (a ∷ a ∷ []) in
      let n = length (x ∷ xs) + 1 in
      rw (
        top-levels_above n one (omega (arith, length-append (x ∷ xs) (a ∷ [])))
            (omega (arith, length-append (x ∷ xs) (a ∷ []))),
        top-levels_above n two (omega (arith, length-append (x ∷ xs) (a ∷ a ∷ [])))
            (omega (arith, length-append (x ∷ xs) (a ∷ a ∷ []))),
        next_level-padding (suc k) (x ∷ xs) a h,
      )
