-- ===== src/Protocol/Commitments/Tests.antt =====
-- Runs and instances for the commitments of dessin/protocol/pogo_protocol.py.
use Prim.Native.String.{◌++◌ as concat}
use dessin.Prelude.{ℕ, ◌≡◌, refl, false, List, [], ◌∷◌, String}
use dessin.Protocol.MerkleTree.{
  hash_pair, next_level, levels_above, build_tree, get_root, get_proof, verify_proof, top, sibling,
  proof_from, climb,
}
use dessin.Protocol.Commitments.{
  QuantizationLevel, int4, layer_weights, create_single_commitment, verify_model_commitment,
}

abbrev brackets : String → String
brackets s = concat "(" (concat s ")")

-- Weights that are letters, left as they are; a layer is the texts in a row.
abbrev same : List String → QuantizationLevel → List String
same w level = w

abbrev join : List String → String
join [] = ""
join (s ∷ w) = concat s (join w)

abbrev eight : List String → ℕ
eight w = 8

abbrev weights : List String
weights = "a" ∷ "b" ∷ "c" ∷ []

abbrev shapes : List (List ℕ)
shapes = (1 ∷ 2 ∷ []) ∷ (1 ∷ []) ∷ []

-- The stored proof is that of the first layer: an honest second layer is refused.
second_layer_refused :
    verify_model_commitment brackets
      (create_single_commitment brackets same join eight weights shapes int4)
      1
    ≡ false
unfolding verify_model_commitment create_single_commitment layer_weights verify_proof climb get_root
    build_tree levels_above next_level top hash_pair get_proof proof_from sibling
second_layer_refused = refl
