-- ===== src/Consensus/SlashingMechanism/Attestations.antt =====
-- dessin/consensus/slashing_mechanism.py: proposals against a block's miner and against its attesters,
-- and the parts of an `AttestationTransaction` and of a `PogoBlock` that they read. A block has all the
-- attributes that `hasattr` asks for.
use dessin.Prelude.{
  Bool, true, false, not, ◌||◌, Option, none, some, String, List, [], ◌∷◌, ◌++◌, ℕ, zero, suc, ◌==◌,
  if◌then◌else◌,
}
use dessin.Prelude.Int.{ℤ, pos, leb_ℤ, ltb_ℤ}
use dessin.Dict.{Dict, get_or, set}
use dessin.Num.{Num}
use dessin.Consensus.SlashingMechanism.{
  SlashingReason, invalid_block, double_signing, negative_attestations, SlashingMechanism,
  propose_slashing,
}

pub record AttestationTransaction : Type 0 where
  pub sender : String
  pub attestation_type : String

abbrev pub is_negative : AttestationTransaction → Bool
is_negative attestation = attestation.attestation_type == "negative"

-- `negative_counts` and `total_attestations`.
pub record Counts : Type 0 where
  pub negative_counts : Dict ℕ
  pub total_attestations : Dict ℕ

-- `counts[address] = counts.get(address, 0) + 1`
abbrev pub bump : String → Dict ℕ → Dict ℕ
bump address counts = set address (suc (get_or address 0 counts)) counts

abbrev pub count_one : AttestationTransaction → Counts → Counts
count_one attestation c =
    let total = bump attestation.sender c.total_attestations in
    if is_negative attestation
    then record {
      negative_counts = bump attestation.sender c.negative_counts;
      total_attestations = total;
    }
    else record { negative_counts = c.negative_counts; total_attestations = total }

unfoldable pub count_attestations : List AttestationTransaction → Counts → Counts
count_attestations [] c = c
count_attestations (attestation ∷ attestations) c =
    count_attestations attestations (count_one attestation c)

module _ (N : Num) where
  -- The threshold is reached. With `total_count == 0` the address is passed over.
  abbrev pub is_excessive : (threshold : N.Carrier) (negative_count total_count : ℕ) → Bool
  is_excessive threshold negative_count zero = false
  is_excessive threshold negative_count (suc n) =
      N.le threshold (N.div (N.of_int (pos negative_count)) (N.of_int (pos (suc n))))

  pub record PogoBlock : Type 0 where
    pub index : ℤ
    pub hash : String
    pub miner : String
    pub loss_before : N.Carrier
    pub loss_after : N.Carrier
    pub training_steps : ℤ

module _ {N : Num} where
  open N use {Carrier, mul, lt, dec}

  -- `if event: events.append(event)`
  abbrev pub collect : List ℕ → Option ℕ × SlashingMechanism N → List ℕ × SlashingMechanism N
  collect events (none, s) = (events, s)
  collect events (some event, s) = (events ++ (event ∷ []), s)

  unfoldable pub check_address :
      (now : Carrier) (block_hash : String)
      → Dict ℕ
      → Dict ℕ
      → List ℕ
      → SlashingMechanism N
      → List ℕ × SlashingMechanism N
  check_address now block_hash [] total events s = (events, s)
  check_address now block_hash ((address, negative_count) ∷ counts) total events s =
      let (next, t) =
        if is_excessive N s.slashing_threshold negative_count (get_or address 0 total)
        then collect events
            (propose_slashing now block_hash address negative_attestations "consensus_mechanism" s)
        else (events, s) in
      check_address now block_hash counts total next t

  unfoldable pub check_negative_attestations :
      (now : Carrier) (block_hash : String)
      → List AttestationTransaction
      → SlashingMechanism N
      → List ℕ × SlashingMechanism N
  check_negative_attestations now block_hash attestations s =
      let c =
        count_attestations attestations
          (record { negative_counts = []; total_attestations = [] }) in
      check_address now block_hash c.negative_counts c.total_attestations [] s

  unfoldable pub validate_block_basic : PogoBlock N → Bool
  validate_block_basic block =
      if block.hash == "" || block.miner == "" || ltb_ℤ block.index (pos 0)
      then false
      else if lt (mul block.loss_before (dec 11 1)) block.loss_after
      then false
      else if leb_ℤ block.training_steps (pos 0) || ltb_ℤ (pos 1000) block.training_steps
      then false
      else true

  abbrev pub check_double_signing : PogoBlock N → Bool
  check_double_signing block = false

  -- One proposal against the miner, where the check fails.
  abbrev pub propose_if :
      Bool
      → (now : Carrier) → PogoBlock N
      → SlashingReason
      → List ℕ × SlashingMechanism N
      → List ℕ × SlashingMechanism N
  propose_if fails now block reason (events, s) =
      if fails
      then collect events
          (propose_slashing now block.hash block.miner reason "consensus_mechanism" s)
      else (events, s)

  unfoldable pub check_block_validity :
      (now : Carrier) → PogoBlock N → SlashingMechanism N → List ℕ × SlashingMechanism N
  check_block_validity now block s =
      propose_if (check_double_signing block) now block double_signing
        (propose_if (not (validate_block_basic block)) now block invalid_block ([], s))
