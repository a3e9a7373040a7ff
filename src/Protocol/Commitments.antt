-- ===== src/Protocol/Commitments.antt =====
-- dessin/protocol/pogo_protocol.py: `ModelCommitment` and the methods of `PoGOProtocol` that make and
-- check one. The weights are a list; numpy's part is a parameter: `quantize` stands for
-- `quantize_weights`, `layer_hex w` for `w.tobytes().hex()`, `nbytes w` for `len(w.tobytes())`.
pub mod Layers
mod Tests
use dessin.Prelude.{
  take, ℕ, zero, suc, ◌*◌, ◌/◌, Bool, true, false, ◌||◌, List, [], ◌∷◌, String, leb, if◌then◌else◌,
  length, from_option, get_elem?, is_empty,
}
use dessin.Protocol.MerkleTree.{merkle_tree, get_root, get_proof, verify_proof}

pub data QuantizationLevel : Type 0 where
  float32 float16 int8 int4 : QuantizationLevel

pub record ModelCommitment : Type 0 where
  pub merkle_root : String
  pub quantization_level : QuantizationLevel
  pub model_size_bytes : ℕ
  pub layer_hashes : List String
  pub proof_path : List String

unfoldable pub get_quantized_size : ℕ → QuantizationLevel → ℕ
get_quantized_size original_size float32 = original_size
get_quantized_size original_size float16 = original_size / 2
get_quantized_size original_size int8 = original_size / 4
get_quantized_size original_size int4 = original_size / 8

-- `np.prod(shape)`
abbrev pub prod : List ℕ → ℕ
prod [] = 1
prod (n ∷ shape) = n * prod shape

module _ {W : Type 0} where
  -- `w[n:]`
  abbrev pub drop : ℕ → List W → List W
  drop zero w = w
  drop (suc n) [] = []
  drop (suc n) (x ∷ w) = drop n w

  -- The slices `quantized_weights[idx:idx + layer_size]` of the loop, with `idx` advanced.
  unfoldable pub layer_weights : List (List ℕ) → List W → List (List W)
  layer_weights [] w = []
  layer_weights (shape ∷ shapes) w =
      take (prod shape) w ∷ layer_weights shapes (drop (prod shape) w)

module _ (sha256_hex : String → String) {W : Type 0}
    (quantize : List W → QuantizationLevel → List W) (layer_hex : List W → String)
    (nbytes : List W → ℕ) where
  hash_layers : List (List W) → List String
  hash_layers [] = []
  hash_layers (w ∷ ws) = sha256_hex (layer_hex w) ∷ hash_layers ws

  -- `_create_single_commitment`
  unfoldable pub create_single_commitment :
      List W → List (List ℕ) → QuantizationLevel → ModelCommitment
  unfolding hash_layers
  create_single_commitment weights layer_shapes level =
      let hashes = hash_layers (layer_weights layer_shapes (quantize weights level)) in
      let t = merkle_tree sha256_hex hashes in
      record {
        merkle_root = get_root t;
        quantization_level = level;
        model_size_bytes = get_quantized_size (nbytes weights) level;
        layer_hashes = hashes;
        proof_path = if is_empty hashes then [] else get_proof t 0;
      }

module _ (sha256_hex : String → String) where
  unfoldable pub verify_model_commitment : ModelCommitment → ℕ → Bool
  verify_model_commitment c layer_index =
      if is_empty c.layer_hashes || leb (length c.layer_hashes) layer_index
      then false
      else verify_proof sha256_hex (from_option "" (get_elem? c.layer_hashes layer_index))
          layer_index c.proof_path c.merkle_root
