-- ===== src/Protocol/MerkleTree/Binding.antt =====
-- dessin/protocol/pogo_protocol.py, `MerkleTree.verify_proof`: what an accepted proof of another leaf
-- gives away.
use Prim.Native.String.{◌++◌ as concat, count}
use text.Mathlib.TextLemmas.{append_inj, length-append}
use dessin.Prelude.{
  ℕ, ◌/◌, ◌%◌, ◌≡◌, ◌≢◌, ◌⊎◌, sym, ◌∙◌, ap, true, some, List, [], ◌∷◌, String, arith, eq_ℕ, length,
  get_elem?, Bool-cases, if◌then◌else◌, refl, inl, inr, eq_refl, eq_iff, ◌==◌,
}
use dessin.Protocol.MerkleTree.{hash_pair, climb, merkle_tree, get_root, get_proof, verify_proof}
use dessin.Protocol.MerkleTree.Completeness.{verify_proof-get_proof}

module _ (sha256_hex : String → String) where
  -- What is hashed at a step of the climb from position `i`.
  abbrev pub joined : (i : ℕ) (here sibling : String) → String
  joined i here sibling = if eq_ℕ (i % 2) 0 then concat here sibling else concat sibling here

  -- At some step of the climbs from `x` with the proof `p` and from `y` with the proof `q`, two different
  -- texts are hashed and have one hash.
  abbrev pub Collides : (x y : String) (i : ℕ) (p q : List String) → Type 0
  Collides x y i [] q = ⊥
  Collides x y i (s ∷ p) [] = ⊥
  Collides x y i (s ∷ p) (t ∷ q) =
      ((joined i x s ≢ joined i y t) × (sha256_hex (joined i x s) ≡ sha256_hex (joined i y t)))
      ⊎ Collides (sha256_hex (joined i x s)) (sha256_hex (joined i y t)) (i / 2) p q

  climb-joined :
      (x s : String) (i : ℕ) (p : List String)
      → climb sha256_hex x i (s ∷ p) ≡ climb sha256_hex (sha256_hex (joined i x s)) (i / 2) p
  unfolding climb hash_pair
  climb-joined x s i p = elim (Bool-cases (eq_ℕ (i % 2) 0)) [
    | inl even ↦ rw even refl
    | inr odd ↦ rw odd refl
  ]

  joined_inj : (i : ℕ) (x y s t : String) → count x ≡ count y → joined i x s ≡ joined i y t → x ≡ y
  joined_inj i x y s t n h = elim (Bool-cases (eq_ℕ (i % 2) 0)) [
    | inl even ↦ (append_inj (rw even at h) n).0
    | inr odd ↦
        let e : concat s x ≡ concat t y = rw odd at h in
        let heads : count s ≡ count t =
          omega (arith, ap count e, length-append s x, length-append t y, n) in
        (append_inj e heads).1
  ]

  module _ (width : ℕ) (hex : (s : String) → count (sha256_hex s) ≡ width) where
    climb_binding :
        (p q : List String) (i : ℕ) (x y : String)
        → length p ≡ length q
        → count x ≡ count y
        → climb sha256_hex x i p ≡ climb sha256_hex y i q
        → (x ≡ y) ⊎ Collides x y i p q
    unfolding climb
    climb_binding [] [] i x y l n h = inl h
    climb_binding [] (t ∷ q) i x y l n h = absurd (omega arith)
    climb_binding (s ∷ p) [] i x y l n h = absurd (omega arith)
    climb_binding (s ∷ p) (t ∷ q) i x y l n h =
        let a = joined i x s in
        let b = joined i y t in
        elim (climb_binding p q (i / 2) (sha256_hex a) (sha256_hex b) (omega arith)
          (hex a ∙ sym (hex b)) (sym (climb-joined x s i p) ∙ h ∙ climb-joined y t i q)) [
            | inr above ↦ inr (inr above)
            | inl e ↦ elim (Bool-cases (a == b)) [
              | inl same ↦ inl (joined_inj i x y s t n ((eq_iff a b).0 same))
              | inr other ↦ inr (inl ((λ d. cc (rw (d, eq_refl b) at other)), e))
            ]
          ]

    -- If `verify_proof` accepts a claimed leaf for a position of a tree, with a proof as long as the
    -- one that the tree hands out, then the claimed leaf is the leaf at that position, or at some step
    -- of the climb from the claimed leaf with the given proof, the text that is hashed differs from the
    -- one at the same step of the climb from the true leaf with the tree's proof, and has its hash. The
    -- hash has a fixed width, and the claimed leaf is as long as the true one.
    pub verify_proof_binding :
        (leaves : List String) (i : ℕ) (leaf claimed : String) (proof : List String)
        → get_elem? leaves i ≡ some leaf
        → count claimed ≡ count leaf
        → length proof ≡ length (get_proof (merkle_tree sha256_hex leaves) i)
        → verify_proof sha256_hex claimed i proof (get_root (merkle_tree sha256_hex leaves)) ≡ true
        → (claimed ≡ leaf)
          ⊎ Collides claimed leaf i proof (get_proof (merkle_tree sha256_hex leaves) i)
    unfolding verify_proof
    verify_proof_binding leaves i leaf claimed proof e n l v =
        let t = merkle_tree sha256_hex leaves in
        let mine = (eq_iff _ _).0 v in
        let honest = (eq_iff _ _).0 (verify_proof-get_proof sha256_hex leaves i leaf e) in
        climb_binding proof (get_proof t i) i claimed leaf l n (mine ∙ sym honest)
