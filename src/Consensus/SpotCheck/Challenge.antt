-- ===== src/Consensus/SpotCheck/Challenge.antt =====
-- dessin/consensus/spot_check_verification.py: which steps are challenged. `none` is the
-- `OverflowError` of the counter of the stream, when it does not fit in four bytes.
use dessin.Prelude.{
  take, ℕ, Option, some, none, ltb, zero, suc, ◌+◌, ◌-◌, ◌*◌, ◌/◌, ◌%◌, ◌^◌, List, [], ◌∷◌, ◌++◌,
  map, length, if◌then◌else◌,
}
use dessin.Prelude.Int.{ℤ, pos, ltb_ℤ, pos_part}
use dessin.Consensus.SpotCheck.{Bytes}

-- `int.from_bytes(chunk, "big")`, with what stands before it.
abbrev pub from_bytes : ℕ → Bytes → ℕ
from_bytes n [] = n
from_bytes n (b ∷ bs) = from_bytes (n * 256 + b) bs

-- `counter.to_bytes(4, "big")`
unfoldable pub to_bytes4 : ℕ → Option Bytes
to_bytes4 n =
    if ltb n 4_294_967_296
    then some ((n / 2 ^ 24) % 256 ∷ (n / 2 ^ 16) % 256 ∷ (n / 2 ^ 8) % 256 ∷ n % 256 ∷ [])
    else none

-- The chunks of eight bytes, up to a shorter one.
unfoldable pub chunk_ints : Bytes → List ℕ
chunk_ints (a ∷ b ∷ c ∷ d ∷ e ∷ f ∷ g ∷ h ∷ rest) =
    from_bytes 0 (a ∷ b ∷ c ∷ d ∷ e ∷ f ∷ g ∷ h ∷ []) ∷ chunk_ints rest
chunk_ints block = []

pub data Draw : Type 0 where
  num_steps_error k_error overflow_error : Draw
  drawn : List ℤ → Draw

module _ (hmac : Bytes → Bytes → Bytes) (challenge_domain : Bytes) where
  -- The rounds of the `while`, `fuel` at most, from a counter on, with `count` numbers to go.
  unfoldable pub int_stream : (seed info : Bytes) (fuel counter count : ℕ) → Option (List ℕ)
  int_stream seed info zero counter count = some []
  int_stream seed info (suc fuel) counter zero = some []
  int_stream seed info (suc fuel) counter (suc n) = elim (to_bytes4 counter) [
    | none ↦ none
    | some bytes ↦
        let ints = chunk_ints (hmac seed (info ++ bytes)) in
        elim (int_stream seed info fuel (counter + 1) (suc n - length ints)) [
          | none ↦ none
          | some rest ↦ some (take (suc n) ints ++ rest)
        ]
  ]

  -- `_hkdf_like_int_stream`: a round gives at least one number.
  unfoldable pub hkdf_like_int_stream : (seed info : Bytes) (count : ℕ) → Option (List ℕ)
  hkdf_like_int_stream seed info count = int_stream seed info count 0 count

  unfoldable pub derive_challenge_step_indices : (seed : Bytes) (num_steps k : ℤ) → Draw
  derive_challenge_step_indices seed num_steps k =
      if ltb_ℤ num_steps (pos 1)
      then num_steps_error
      else if ltb_ℤ k (pos 1)
      then k_error
      else elim (hkdf_like_int_stream seed challenge_domain (pos_part k)) [
        | none ↦ overflow_error
        | some raw ↦ drawn (map (λ r. pos (r % pos_part num_steps + 1)) raw)
      ]
