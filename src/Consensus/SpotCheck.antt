-- ===== src/Consensus/SpotCheck.antt =====
-- dessin/consensus/spot_check_verification.py: what a miner publishes of a training run and what the
-- verifiers read. A `bytes` is a list of numbers. Parameters: `sha256`, `hmac key message` for the
-- digest of `hmac.new(key, message, hashlib.sha256)`, `hex` for `bytes.hex`, and `fromhex` for
-- `bytes.fromhex`, which is `none` where that raises. A failure is a constructor with the numbers that
-- stand in its message.
pub mod Challenge
pub mod GradChain
pub mod Replay
pub mod Strikes
pub mod Structure
mod Tests
use dessin.Prelude.{ℕ, String, List}
use dessin.Prelude.Int.{ℤ}
use dessin.Num.{Num}

abbrev pub Bytes : Type 0
Bytes = List ℕ

module _ (N : Num) where
  -- `data_seed`, `learning_rate` and `batch_size` are read by the replay alone.
  pub record TrainingTrace : Type 0 where
    pub model_id : String
    pub num_steps : ℤ
    pub state_0_hash : String
    pub state_N_hash : String
    pub loss_curve : List N.Carrier
    pub gradient_hash_chain : List String
    pub gradient_norms : List N.Carrier

  pub record ReplayOutcome : Type 0 where
    pub grad_bytes : Bytes
    pub grad_norm : N.Carrier
    pub state_hex_after : String

pub record TrainingTracePrivate : Type 0 where
  pub state_hex_before : List String
  pub grad_hex : List String
