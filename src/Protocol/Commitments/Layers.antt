-- ===== src/Protocol/Commitments/Layers.antt =====
-- dessin/protocol/pogo_protocol.py: what a commitment covers, and that it verifies.
use dessin.Prelude.{
  take, ℕ, zero, suc, ◌+◌, ◌≡◌, refl, true, false, List, [], ◌∷◌, ◌++◌, String, arith, length, ap,
  leb,
}
use dessin.Protocol.MerkleTree.Completeness.{verify_proof-get_proof}
use dessin.Protocol.Commitments.{
  QuantizationLevel, prod, drop, layer_weights, hash_layers, create_single_commitment,
  verify_model_commitment,
}

-- `sum` of the sizes of the layers.
abbrev pub total_size : List (List ℕ) → ℕ
total_size [] = 0
total_size (shape ∷ shapes) = prod shape + total_size shapes

module _ {W : Type 0} where
  -- The layers, one after the other.
  abbrev pub concatenate : List (List W) → List W
  concatenate [] = []
  concatenate (w ∷ ws) = w ++ concatenate ws

  take-drop : (n : ℕ) (w : List W) → take n w ++ drop n w ≡ w
  take-drop zero w = refl
  take-drop (suc n) [] = refl
  take-drop (suc n) (x ∷ w) = ap (λ t. x ∷ t) (take-drop n w)

  length-drop : (n m : ℕ) (w : List W) → length w ≡ n + m → length (drop n w) ≡ m
  length-drop zero m w h = omega arith
  length-drop (suc n) m [] h = omega arith
  length-drop (suc n) m (x ∷ w) h = length-drop n m w (omega arith)

  -- If the shapes account for all the weights, the slices that are hashed are the weights, in order:
  -- none is left out and none is hashed twice.
  pub layer_weights_cover :
      (shapes : List (List ℕ)) (w : List W)
      → length w ≡ total_size shapes
      → concatenate (layer_weights shapes w) ≡ w
  unfolding layer_weights
  layer_weights_cover [] [] h = refl
  layer_weights_cover [] (x ∷ w) h = absurd (omega arith)
  layer_weights_cover (shape ∷ shapes) w h =
      rw
        (layer_weights_cover shapes (drop (prod shape) w)
          (length-drop (prod shape) (total_size shapes) w h))
        (take-drop (prod shape) w)

module _ (sha256_hex : String → String) {W : Type 0}
    (quantize : List W → QuantizationLevel → List W) (layer_hex : List W → String)
    (nbytes : List W → ℕ) where
  -- The commitment to a model with at least one layer verifies for its first layer.
  pub verify_model_commitment-create :
      (weights : List W) (shape : List ℕ) (shapes : List (List ℕ)) (level : QuantizationLevel)
      → verify_model_commitment sha256_hex
          (create_single_commitment sha256_hex quantize layer_hex nbytes weights
            (shape ∷ shapes)
            level)
          0
        ≡ true
  unfolding verify_model_commitment create_single_commitment layer_weights
  verify_model_commitment-create weights shape shapes level =
      let hashes =
        hash_layers sha256_hex quantize layer_hex nbytes
          (layer_weights (shape ∷ shapes) (quantize weights level)) in
      let first : leb (length hashes) 0 ≡ false = ground arith in
      rw first (verify_proof-get_proof sha256_hex hashes 0 _ refl)
