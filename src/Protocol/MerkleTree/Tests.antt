-- ===== src/Protocol/MerkleTree/Tests.antt =====
-- Runs and instances for `MerkleTree` of dessin/protocol/pogo_protocol.py.
use Prim.Native.String.{◌++◌ as concat}
use dessin.Prelude.{◌≡◌, ◌⊎◌, refl, true, List, [], ◌∷◌, ◌++◌, String, length}
use dessin.Protocol.MerkleTree.{
  hash_pair, next_level, levels_above, build_tree, merkle_tree, get_root, get_proof, verify_proof,
  top, sibling, proof_from, climb,
}
use dessin.Protocol.MerkleTree.Levels.{build_tree_ends, end_of}
use dessin.Protocol.MerkleTree.Completeness.{verify_proof-get_proof}
use dessin.Protocol.MerkleTree.Binding.{verify_proof_binding, Collides}
use dessin.Protocol.MerkleTree.Padding.{get_root_padding}

-- A hash that shows the tree: brackets round what is hashed.
abbrev brackets : String → String
brackets s = concat "(" (concat s ")")

abbrev three : List String
three = "a" ∷ "b" ∷ "c" ∷ []

root_of_three : get_root (merkle_tree brackets three) ≡ "((ab)(cc))"
unfolding get_root build_tree levels_above next_level top hash_pair
root_of_three = refl

proof_of_third : get_proof (merkle_tree brackets three) 2 ≡ "c" ∷ "(ab)" ∷ []
unfolding get_proof build_tree levels_above next_level proof_from sibling hash_pair
proof_of_third = refl

-- A hash of width one, for which the assumption of a fixed width holds.
abbrev constant : String → String
constant s = "h"

verify_proof-get_proof_example :
    let t = merkle_tree brackets three in
    verify_proof brackets "c" 2 (get_proof t 2) (get_root t) ≡ true
verify_proof-get_proof_example = verify_proof-get_proof brackets three 2 "c" refl

accepted :
    verify_proof constant "d" 2 ("x" ∷ "y" ∷ []) (get_root (merkle_tree constant three)) ≡ true
unfolding verify_proof climb get_root build_tree levels_above next_level top hash_pair get_proof
    proof_from sibling
accepted = refl

same_length :
    length {A = String} ("x" ∷ "y" ∷ []) ≡ length (get_proof (merkle_tree constant three) 2)
unfolding get_proof build_tree levels_above next_level proof_from sibling hash_pair
same_length = refl

-- Another leaf is accepted under that hash.
verify_proof_binding_example :
    (◌≡◌ {A = String} "d" "c")
    ⊎ Collides constant "d" "c" 2 ("x" ∷ "y" ∷ []) (get_proof (merkle_tree constant three) 2)
verify_proof_binding_example =
    verify_proof_binding constant 1 (λ s. refl) three 2 "c" "d" ("x" ∷ "y" ∷ []) refl refl
      same_length accepted

build_tree_ends_example : length (end_of (build_tree brackets three)) ≡ 1
build_tree_ends_example = build_tree_ends brackets "a" ("b" ∷ "c" ∷ [])

get_root_padding_example :
    get_root (merkle_tree brackets (("a" ∷ "b" ∷ []) ++ ("c" ∷ [])))
    ≡ get_root (merkle_tree brackets (("a" ∷ "b" ∷ []) ++ ("c" ∷ "c" ∷ [])))
get_root_padding_example = get_root_padding brackets 0 ("a" ∷ "b" ∷ []) "c" refl
