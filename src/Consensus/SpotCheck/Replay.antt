-- ===== src/Consensus/SpotCheck/Replay.antt =====
-- dessin/consensus/spot_check_verification.py: the replay of the challenged steps. `none` stands for
-- an exception that leaves the function: an index out of range, or text that is no hexadecimal. The
-- callbacks are parameters; `state_hash_fn` may raise.
pub mod Acceptance
pub mod Honest
mod Options
pub mod Runs
use dessin.Prelude.{
  ℕ, zero, suc, ◌+◌, ◌-◌, Bool, true, false, not, ◌&&◌, ◌||◌, Option, none, some, List, [], ◌∷◌,
  ◌++◌, String, ◌==◌, if◌then◌else◌, length, get_elem?, is_empty, eq_ℕ, ltb,
}
use dessin.Prelude.Int.{ℤ, pos, ltb_ℤ, eq_ℤ, pos_part}
use dessin.Num.{Num, max_num, abs_num}
use dessin.Consensus.SpotCheck.{Bytes, TrainingTrace, TrainingTracePrivate, ReplayOutcome}
use dessin.Consensus.SpotCheck.GradChain.{grad_chain_step, entry_before}

pub data Failure : Type 0 where
  witness_lengths_mismatch : Failure
  index_out_of_range pre_state_mismatch gradient_mismatch : ℤ → Failure
  chain_mismatch norm_mismatch post_state_mismatch : ℤ → Failure

infixl 5 ◌>>=◌
abbrev pub ◌>>=◌ : {A B : Type 0} → Option A → (A → Option B) → Option B
m >>= f = elim m [ none ↦ none | some a ↦ f a ]

-- A test of the loop: where it fails, its failure is appended, and the loop goes on to the next index.
abbrev pub require : Option Bool → Failure → Option (List Failure) → Option (List Failure)
require test failure rest = do ok ← test; if ok then rest else some (failure ∷ [])

-- `return (not failures), failures`
abbrev pub concluded : Option (List Failure) → Option (Bool × List Failure)
concluded checked = do failures ← checked; some (is_empty failures, failures)

-- The library's functions, the callbacks and the settings of one call.
pub record Verifier (N : Num) : Type 0 where
  pub sha256 : Bytes → Bytes
  pub hex : Bytes → String
  pub fromhex : String → Option Bytes
  pub grad_chain_domain : Bytes
  pub replay_fn : ℤ → String → ReplayOutcome N
  pub state_hash_fn : String → Option String
  pub grad_hash_chain_recompute : Bool
  pub grad_norm_tolerance : N.Carrier

module _ {N : Num} (v : Verifier N) (trace : TrainingTrace N) (private : TrainingTracePrivate) where
  open v use {
    sha256, hex, fromhex, grad_chain_domain, replay_fn, state_hash_fn, grad_hash_chain_recompute,
    grad_norm_tolerance,
  }

  unfoldable pub pre_state_ok : ℕ → (pre_state_hex : String) → Option Bool
  pre_state_ok idx pre_state_hex = do
    pre_state_hash ← state_hash_fn pre_state_hex
    some (not (eq_ℕ idx 0) || pre_state_hash == trace.state_0_hash)

  unfoldable pub gradient_ok : ℕ → ReplayOutcome N → Option Bool
  gradient_ok idx outcome = do
    witnessed ← get_elem? private.grad_hex idx
    grad_bytes ← fromhex witnessed
    some (hex (sha256 outcome.grad_bytes) == hex (sha256 grad_bytes))

  unfoldable pub chain_entry_ok : ℕ → ReplayOutcome N → Option Bool
  chain_entry_ok idx outcome = do
    prev_chain ← entry_before trace.gradient_hash_chain idx
    recomputed ← grad_chain_step sha256 hex fromhex grad_chain_domain prev_chain outcome.grad_bytes
    entry ← get_elem? trace.gradient_hash_chain idx
    some (recomputed == entry)

  abbrev pub chain_ok : ℕ → ReplayOutcome N → Option Bool
  chain_ok idx outcome = if grad_hash_chain_recompute then chain_entry_ok idx outcome else some true

  unfoldable pub norm_ok : ℕ → ReplayOutcome N → Option Bool
  norm_ok idx outcome = do
    claimed_norm ← get_elem? trace.gradient_norms idx
    some (
        not (
          N.lt (N.mul grad_norm_tolerance (max_num N claimed_norm (N.dec 1 0)))
            (abs_num N (N.sub outcome.grad_norm claimed_norm))))

  unfoldable pub next_state_hash : ℕ → Option String
  next_state_hash idx = do state ← get_elem? private.state_hex_before (idx + 1); state_hash_fn state

  -- The hash of the state that follows step `idx + 1`.
  abbrev pub expected_post_hash : ℕ → Option String
  expected_post_hash idx =
      if ltb_ℤ (pos (idx + 1)) trace.num_steps then next_state_hash idx else some trace.state_N_hash

  unfoldable pub post_state_ok : ℕ → ReplayOutcome N → Option Bool
  post_state_ok idx outcome = do
    post_state_hash ← state_hash_fn outcome.state_hex_after
    expected ← expected_post_hash idx
    some (post_state_hash == expected)

  -- The body of the loop for an index in range.
  unfoldable pub replay_step : (j : ℤ) (idx : ℕ) → Option (List Failure)
  replay_step j idx = do
    pre_state_hex ← get_elem? private.state_hex_before idx
    let outcome = replay_fn j pre_state_hex
    require (pre_state_ok idx pre_state_hex) (pre_state_mismatch j) (
        require (gradient_ok idx outcome) (gradient_mismatch j) (
          require (chain_ok idx outcome) (chain_mismatch j) (
            require (norm_ok idx outcome) (norm_mismatch j)
              (require (post_state_ok idx outcome) (post_state_mismatch j) (some [])))))

  unfoldable pub check_index : ℤ → Option (List Failure)
  check_index j =
      if ltb_ℤ j (pos 1) || ltb_ℤ trace.num_steps j
      then some (index_out_of_range j ∷ [])
      else replay_step j (pos_part j - 1)

  unfoldable pub check_indices : List ℤ → Option (List Failure)
  check_indices [] = some []
  check_indices (j ∷ js) = do
    failures ← check_index j
    rest ← check_indices js
    some (failures ++ rest)

  unfoldable pub verify_spot_replay :
      (challenge_step_indices : List ℤ) → Option (Bool × List Failure)
  verify_spot_replay challenge_step_indices =
      if not (eq_ℤ (pos (length private.state_hex_before)) trace.num_steps)
        || not (eq_ℤ (pos (length private.grad_hex)) trace.num_steps)
      then some (false, witness_lengths_mismatch ∷ [])
      else concluded (check_indices challenge_step_indices)
