-- ===== src/Consensus/SpotCheck/Tests.antt =====
-- Runs and instances for dessin/consensus/spot_check_verification.py. The tests write a number as that
-- many `i` and an `o`.
use Prim.Native.Char.{code}
use Prim.Native.String.{[] as end, ◌∷◌ as char}
use mathlib.Core.Bool.{false≢true}
use dessin.Prelude.{
  Bool, ℕ, zero, suc, ◌≡◌, ◌≢◌, ◌↔◌, refl, Option, none, some, true, false, List, [], ◌∷◌, All,
  String, arith, length, ◌∙◌, ◌+◌, eq_ℕ, if◌then◌else◌, ap,
}
use dessin.Prelude.Int.{ℤ, pos, ◌≤ℤ◌, ◌-ℤ◌, ltb_ℤ, negsuc, int_laws}
use dessin.Num.Micro.{micro}
use dessin.Dict.{get_or, get, set}
use dessin.Consensus.SpotCheck.{Bytes, TrainingTrace}
use dessin.Num.{max_num, abs_num}
use dessin.Consensus.SpotCheck.Replay.{
  Verifier, verify_spot_replay, index_out_of_range, check_indices, check_index,
}
use dessin.Consensus.SpotCheck.Replay.Acceptance.{Passes, verify_spot_replay_iff}
use dessin.Consensus.SpotCheck.Replay.Runs.{witnessed}
use dessin.Consensus.SpotCheck.Replay.Honest.{honest, verify_spot_replay-honest}
use dessin.Consensus.SpotCheck.Strikes.{
  ChainStrikeState, is_frozen, strikes_after, StrikeCall, accumulate, refresh, reset,
  accumulate_strikes,
}
use dessin.Consensus.SpotCheck.Challenge.{
  drawn, derive_challenge_step_indices, hkdf_like_int_stream, int_stream, chunk_ints, to_bytes4,
}

abbrev ones : ℕ → String → String
ones zero s = char "o" s
ones (suc n) s = char "i" (ones n s)

abbrev hex : Bytes → String
hex [] = ""
hex (n ∷ bs) = ones n (hex bs)

abbrev put : ℕ → Option Bytes → Option Bytes
put n none = none
put n (some bs) = some (n ∷ bs)

abbrev read : ℕ → String → Option Bytes
read n end = some []
read n (char c s) = if eq_ℕ (code c) 105 then read (suc n) s else put n (read 0 s)

abbrev fromhex : String → Option Bytes
fromhex s = read 0 s

read-ones : (m n : ℕ) (s : String) → read m (ones n s) ≡ put (m + n) (read 0 s)
read-ones m zero s = ap (λ k. put k (read 0 s)) (omega arith)
read-ones m (suc n) s = read-ones (suc m) n s ∙ ap (λ k. put k (read 0 s)) (omega arith)

fromhex-hex : (b : Bytes) → fromhex (hex b) ≡ some b
fromhex-hex [] = refl
fromhex-hex (n ∷ bs) =
    read-ones 0 n (hex bs)
    ∙ ap (put (0 + n)) (fromhex-hex bs)
    ∙ ap (λ k. some (k ∷ bs)) (omega arith)

abbrev sha256 : Bytes → Bytes
sha256 b = 1 ∷ b

abbrev is_end : String → Bool
is_end end = true
is_end (char c s) = false

digest_hex : (b : Bytes) → hex (sha256 b) ≢ ""
digest_hex b e = false≢true (ap is_end e)

-- Training writes the number of the step behind the state.
abbrev verifier : Verifier micro
verifier = record {
  sha256 = sha256;
  hex = hex;
  fromhex = fromhex;
  grad_chain_domain = 2 ∷ [];
  replay_fn = λ j s. record {
    grad_bytes = 1 ∷ [];
    grad_norm = pos 1_000_000;
    state_hex_after = char "a" s;
  };
  state_hash_fn = λ s. some s;
  grad_hash_chain_recompute = true;
  grad_norm_tolerance = pos 1000;
}

close :
    (x : ℤ)
    → ltb_ℤ (micro.mul (pos 1000) (max_num micro x (micro.dec 1 0))) (abs_num micro (x -ℤ x))
      ≡ false
close x =
    let none_left : x -ℤ x ≡ pos 0 = omega int_laws in
    rw none_left (allowed (max_num micro x (pos 1_000_000)) (ground arith))
  where
    allowed : (m : ℤ) → pos 0 ≤ℤ m → ltb_ℤ (micro.mul (pos 1000) m) (pos 0) ≡ false
    allowed (pos k) h = ground arith
    allowed (negsuc k) h = absurd (omega (arith, h))

verify_spot_replay-honest_example :
    verify_spot_replay verifier
      (honest verifier fromhex-hex digest_hex close
        (λ s. Unit)
        (λ j s h. tt)
        (λ s. s)
        (λ s h. refl)
        "m"
        3
        "s"
        [])
      (witnessed verifier 3 "s")
      (pos 2 ∷ pos 3 ∷ [])
    ≡ some (true, [])
verify_spot_replay-honest_example =
    verify_spot_replay-honest verifier fromhex-hex digest_hex close (λ s. Unit) (λ j s h. tt)
      (λ s. s) (λ s h. refl) "m" 3 "s" [] (pos 2 ∷ pos 3 ∷ []) tt
      ((omega arith, omega arith), ((omega arith, omega arith), tt))

-- What that miner publishes and keeps.
abbrev trace : TrainingTrace micro
trace =
    honest verifier fromhex-hex digest_hex close (λ s. Unit) (λ j s h. tt) (λ s. s) (λ s h. refl)
      "m" 3 "s" []

verify_spot_replay_iff_example :
    (verify_spot_replay verifier trace (witnessed verifier 3 "s") (pos 4 ∷ []) ≡ some (true, []))
    ↔ ((pos 3 ≡ pos 3)
        × (pos 3 ≡ pos 3)
        × All (Passes verifier trace (witnessed verifier 3 "s")) (pos 4 ∷ []))
verify_spot_replay_iff_example =
    verify_spot_replay_iff verifier trace (witnessed verifier 3 "s") (pos 4 ∷ [])

step4_refused :
    verify_spot_replay verifier trace (witnessed verifier 3 "s") (pos 4 ∷ [])
    ≡ some (false, index_out_of_range (pos 4) ∷ [])
unfolding verify_spot_replay check_indices check_index
step4_refused = refl

abbrev hmac : Bytes → Bytes → Bytes
hmac key message =
    0
    ∷ 0
    ∷ 0
    ∷ 0
    ∷ 0
    ∷ 0
    ∷ 1
    ∷ 2
    ∷ 0
    ∷ 0
    ∷ 0
    ∷ 0
    ∷ 0
    ∷ 0
    ∷ 0
    ∷ 7
    ∷ 0
    ∷ 0
    ∷ 0
    ∷ 0
    ∷ 0
    ∷ 0
    ∷ 0
    ∷ 9
    ∷ 0
    ∷ 0
    ∷ 0
    ∷ 0
    ∷ 0
    ∷ 0
    ∷ 0
    ∷ length message
    ∷ []

five_drawn :
    derive_challenge_step_indices hmac (3 ∷ []) (1 ∷ []) (pos 100) (pos 5)
    ≡ drawn (pos 59 ∷ pos 8 ∷ pos 10 ∷ pos 6 ∷ pos 59 ∷ [])
unfolding derive_challenge_step_indices hkdf_like_int_stream int_stream chunk_ints to_bytes4
five_drawn = refl

-- Two runs that never dip, one that does, and a refresh, between them a run of another model, and two
-- that do not dip again, which freeze the model.
abbrev calls : List (StrikeCall micro (λ x. true))
calls =
    accumulate "m" (pos 5 ∷ pos 6 ∷ []) (pos 2)
    ∷ accumulate "m" (pos 5 ∷ pos 5 ∷ []) (pos 2)
    ∷ accumulate "n" (pos 3 ∷ pos 2 ∷ []) (pos 1)
    ∷ refresh "m"
    ∷ accumulate "m" (pos 5 ∷ pos 4 ∷ []) (pos 2)
    ∷ accumulate "m" (pos 7 ∷ []) (pos 2)
    ∷ accumulate "m" (pos 2 ∷ pos 9 ∷ []) (pos 2)
    ∷ []

abbrev unstruck : ChainStrikeState
unstruck = record { strikes_by_model = []; frozen_models = [] }

model_frozen :
    let t = strikes_after micro (λ x. true) calls unstruck in
    (get_or "m" 0 t.strikes_by_model ≡ 2) × (is_frozen "m" t ≡ true)
unfolding get accumulate_strikes set is_frozen reset
model_frozen = (refl, refl)
