-- ===== src/Protocol/MerkleTree/Completeness.antt =====
-- dessin/protocol/pogo_protocol.py, `MerkleTree`: every proof that the tree hands out verifies.
use dessin.Prelude.{
  ℕ, zero, suc, ◌+◌, ◌-◌, ◌/◌, ◌%◌, ◌≤◌, ◌≡◌, refl, true, false, some, List, [], ◌∷◌, String, arith,
  ltb, leb, eq_ℕ, if◌then◌else◌, length, get_elem?, Bool-cases, inl, inr, eq_refl,
}
use dessin.Protocol.MerkleTree.{
  hash_pair, next_level, levels_above, build_tree, top, sibling, read, proof_from, climb,
  merkle_tree, get_root, get_proof, verify_proof,
}
use dessin.Protocol.MerkleTree.Levels.{length-next_level}

sibling_only : (a : String) → sibling (a ∷ []) 0 ≡ a
unfolding sibling
sibling_only a = refl

sibling_first : (a b : String) (level : List String) → sibling (a ∷ b ∷ level) 0 ≡ b
unfolding sibling
sibling_first a b level = ground arith

sibling_second : (a b : String) (level : List String) → sibling (a ∷ b ∷ level) 1 ≡ a
unfolding sibling
sibling_second a b level = ground arith

sibling-cons_cons :
    (a b : String) (level : List String) (i : ℕ)
    → sibling (a ∷ b ∷ level) (suc (suc i)) ≡ sibling level i
unfolding sibling
sibling-cons_cons a b level i =
    let parity : suc (suc i) % 2 ≡ i % 2 = omega arith in
    elim (Bool-cases (eq_ℕ (i % 2) 0)) [
      | inl even ↦
          let up : suc (suc i) + 1 ≡ suc (suc (i + 1)) = omega arith in
          rw (parity, even, up) (ground arith)
      | inr odd ↦
          let down : suc (suc i) - 1 ≡ suc (suc (i - 1)) = ground arith in
          rw (parity, odd, down) (ground arith)
    ]

module _ (sha256_hex : String → String) where
  -- The parent of a node is the hash of the node and its sibling, in their order.
  abbrev pub parent : List String → ℕ → String → String
  parent level i x =
      if eq_ℕ (i % 2) 0
      then hash_pair sha256_hex x (sibling level i)
      else hash_pair sha256_hex (sibling level i) x

  pub get_elem?-next_level :
      (level : List String) (i : ℕ) (x : String)
      → get_elem? level i ≡ some x
      → get_elem? (next_level sha256_hex level) (i / 2) ≡ some (parent level i x)
  unfolding next_level
  get_elem?-next_level [] i x h = cc
  get_elem?-next_level (a ∷ []) zero x h = cc (sibling_only a)
  get_elem?-next_level (a ∷ []) (suc i) x h = cc
  get_elem?-next_level (a ∷ b ∷ level) zero x h = cc (sibling_first a b level)
  get_elem?-next_level (a ∷ b ∷ level) (suc zero) x h = cc (sibling_second a b level)
  get_elem?-next_level (a ∷ b ∷ level) (suc (suc i)) x h =
      let half : suc (suc i) / 2 ≡ suc (i / 2) = omega arith in
      let parity : suc (suc i) % 2 ≡ i % 2 = omega arith in
      rw (half, parity, sibling-cons_cons a b level i) (get_elem?-next_level level i x h)

  pub climb-proof_from :
      (fuel : ℕ) (level : List String) (i : ℕ) (x : String)
      → length level ≤ fuel
      → get_elem? level i ≡ some x
      → let ups = levels_above sha256_hex fuel level in
        climb sha256_hex x i (proof_from level ups i) ≡ top level ups
  unfolding levels_above climb proof_from top
  climb-proof_from zero [] i x h e = cc
  climb-proof_from zero (a ∷ level) i x h e = absurd (omega arith)
  climb-proof_from (suc fuel) level i x h e = elim (Bool-cases (ltb 1 (length level))) [
    | inl more ↦ rw more (
        climb-proof_from fuel (next_level sha256_hex level) (i / 2) (parent level i x)
          (ground (arith, length-next_level sha256_hex level)) (get_elem?-next_level level i x e))
    | inr single ↦ rw single (only_element level i x single e)
  ]
    where
      only_element :
          (level : List String) (i : ℕ) (x : String)
          → ltb 1 (length level) ≡ false
          → get_elem? level i ≡ some x
          → x ≡ read level 0
      only_element [] i x s e = cc
      only_element (a ∷ []) zero x s e = cc
      only_element (a ∷ []) (suc i) x s e = cc
      only_element (a ∷ b ∷ level) i x s e = ground arith

  -- For every leaf of a tree, the proof that `get_proof` hands out for its position is accepted by
  -- `verify_proof` against the root of the tree.
  pub verify_proof-get_proof :
      (leaves : List String) (i : ℕ) (leaf : String)
      → get_elem? leaves i ≡ some leaf
      → let t = merkle_tree sha256_hex leaves in
        verify_proof sha256_hex leaf i (get_proof t i) (get_root t) ≡ true
  unfolding verify_proof get_proof get_root build_tree
  verify_proof-get_proof [] i leaf e = cc
  verify_proof-get_proof (a ∷ leaves) i leaf e =
      let n = length (a ∷ leaves) in
      rw (in_bounds (a ∷ leaves) i leaf e, climb-proof_from n (a ∷ leaves) i leaf (omega arith) e)
        (eq_refl _)
    where
      in_bounds :
          (xs : List String) (i : ℕ) (x : String)
          → get_elem? xs i ≡ some x
          → leb (length xs) i ≡ false
      in_bounds [] i x e = cc
      in_bounds (a ∷ xs) zero x e = ground arith
      in_bounds (a ∷ xs) (suc i) x e = ground (arith, in_bounds xs i x e)
