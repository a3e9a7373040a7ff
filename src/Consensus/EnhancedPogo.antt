-- ===== src/Consensus/EnhancedPogo.antt =====
-- dessin/consensus/enhanced_pogo_consensus.py: attestations of a block, weighed by stake, and how they
-- finalize it. A block is an object that `pending_blocks` and the chain share, and finalizing writes to
-- it: the objects stand in the state, and a reference is a position there. The time, keys and
-- signatures of an attestation are left out.
pub mod Finalization
pub mod Misplacing
mod Tests
use dessin.Prelude.{
  ℕ, zero, suc, Bool, true, false, Option, none, some, List, [], ◌∷◌, ◌++◌, String, ◌==◌,
  if◌then◌else◌, length, get_elem?,
}
use dessin.Prelude.Int.{ℤ, pos, ◌-ℤ◌, leb_ℤ}
use dessin.Dict.{Dict, get, get_or, set, del}
use dessin.Num.{Num, eq_num}
use dessin.Consensus.SlashingMechanism.Attestations.{AttestationTransaction}

abbrev pub is_positive : AttestationTransaction → Bool
is_positive attestation = attestation.attestation_type == "positive"

pub data AttestationResult : Type 0 where
  finalized slashed pending : AttestationResult

pub record Block : Type 0 where
  pub index : ℤ
  pub hash : String
  pub miner : String
  pub finalization_block : Option ℤ
  pub attestations : List AttestationTransaction

-- `blocks[ref] = block`
abbrev pub write : ℕ → Block → List Block → List Block
write ref block [] = []
write zero block (b ∷ bs) = block ∷ bs
write (suc ref) block (b ∷ bs) = b ∷ write ref block bs

-- A reference with its object; no reference dangles.
abbrev pub object : List Block → ℕ → Option (ℕ × Block)
object blocks ref = elim (get_elem? blocks ref) [ none ↦ none | some block ↦ some (ref, block) ]

-- `for block in self.chain: if block.hash == block_hash: return block`
unfoldable pub find_in_chain : (block_hash : String) → List ℕ → List Block → Option (ℕ × Block)
find_in_chain block_hash [] blocks = none
find_in_chain block_hash (ref ∷ refs) blocks =
    let rest = find_in_chain block_hash refs blocks in
    elim (object blocks ref) [
      | none ↦ rest
      | some (r, block) ↦ if block.hash == block_hash then some (r, block) else rest
    ]

module _ (N : Num) where
  pub record AttestationAggregation : Type 0 where
    pub positive_attestations : List AttestationTransaction
    pub negative_attestations : List AttestationTransaction
    pub total_stake_positive : N.Carrier
    pub total_stake_negative : N.Carrier
    pub total_stake : N.Carrier
    pub result : AttestationResult

  pub record EnhancedPogoConsensus : Type 0 where
    pub attestation_threshold : N.Carrier
    pub slashing_threshold : N.Carrier
    pub attestation_window_blocks : ℤ
    pub blocks : List Block
    pub chain : List ℕ
    pub pending_blocks : Dict ℕ
    pub pending_attestations : Dict (List AttestationTransaction)
    pub attestation_aggregations : Dict AttestationAggregation
    pub verifier_stakes : Dict N.Carrier
    pub total_stake : N.Carrier

module _ {N : Num} where
  open N use {Carrier, nought, add, div, lt, le, dec}

  -- `stake / total_stake` as the aggregation's methods have it.
  abbrev pub ratio : Carrier → AttestationAggregation N → Carrier
  ratio stake a = if eq_num N a.total_stake nought then nought else div stake a.total_stake

  abbrev pub get_positive_ratio : AttestationAggregation N → Carrier
  get_positive_ratio a = ratio a.total_stake_positive a

  abbrev pub get_negative_ratio : AttestationAggregation N → Carrier
  get_negative_ratio a = ratio a.total_stake_negative a

  unfoldable pub should_finalize : AttestationAggregation N → (threshold : Carrier) → Bool
  should_finalize a threshold = le threshold (get_positive_ratio a)

  unfoldable pub should_slash : AttestationAggregation N → (threshold : Carrier) → Bool
  should_slash a threshold = le threshold (get_negative_ratio a)

  unfoldable pub submit_attestation :
      (block_hash verifier_address attestation_type : String)
      → EnhancedPogoConsensus N
      → AttestationTransaction × EnhancedPogoConsensus N
  submit_attestation block_hash verifier_address attestation_type s =
      let attestation : AttestationTransaction = record {
        sender = verifier_address;
        attestation_type = attestation_type;
      } in
      (
        attestation,
        record s {
          pending_attestations =
              set block_hash (get_or block_hash [] s.pending_attestations ++ (attestation ∷ []))
                s.pending_attestations;
        },
      )

  -- The body of the loop of `aggregate_attestations`: what is not positive counts as negative.
  abbrev pub weigh_one :
      Dict Carrier → AttestationTransaction → AttestationAggregation N → AttestationAggregation N
  weigh_one stakes attestation a =
      let verifier_stake = get_or attestation.sender (dec 1 0) stakes in
      if is_positive attestation
      then record a {
        positive_attestations = a.positive_attestations ++ (attestation ∷ []);
        total_stake_positive = add a.total_stake_positive verifier_stake;
      }
      else record a {
        negative_attestations = a.negative_attestations ++ (attestation ∷ []);
        total_stake_negative = add a.total_stake_negative verifier_stake;
      }

  unfoldable pub weigh :
      Dict Carrier
      → List AttestationTransaction
      → AttestationAggregation N
      → AttestationAggregation N
  weigh stakes [] a = a
  weigh stakes (attestation ∷ attestations) a =
      weigh stakes attestations (weigh_one stakes attestation a)

  abbrev pub empty_aggregation : EnhancedPogoConsensus N → AttestationAggregation N
  empty_aggregation s = record {
    positive_attestations = [];
    negative_attestations = [];
    total_stake_positive = nought;
    total_stake_negative = nought;
    total_stake = s.total_stake;
    result = pending;
  }

  -- `result`, by the ratios that are 0 unless there is stake.
  abbrev pub judge : EnhancedPogoConsensus N → AttestationAggregation N → AttestationResult
  judge s a =
      let share =
        λ (stake : Carrier). if lt nought s.total_stake then div stake s.total_stake else nought in
      if le s.attestation_threshold (share a.total_stake_positive)
      then finalized
      else if le s.slashing_threshold (share a.total_stake_negative)
      then slashed
      else pending

  unfoldable pub aggregate_attestations :
      (block_hash : String)
      → EnhancedPogoConsensus N
      → AttestationAggregation N × EnhancedPogoConsensus N
  aggregate_attestations block_hash s =
      let weighed =
        weigh s.verifier_stakes (get_or block_hash [] s.pending_attestations)
          (empty_aggregation s) in
      let aggregation = record weighed { result = judge s weighed } in
      (
        aggregation,
        record s {
          attestation_aggregations = set block_hash aggregation s.attestation_aggregations;
        },
      )

  unfoldable pub get_block_by_hash :
      (block_hash : String) → EnhancedPogoConsensus N → Option (ℕ × Block)
  get_block_by_hash block_hash s = elim (get block_hash s.pending_blocks) [
    | some ref ↦ object s.blocks ref
    | none ↦ find_in_chain block_hash s.chain s.blocks
  ]

  unfoldable pub check_finalization_eligibility :
      (block_hash : String) → EnhancedPogoConsensus N → Bool
  check_finalization_eligibility block_hash s = elim (get_block_by_hash block_hash s) [
    | none ↦ false
    | some (ref, block) ↦ leb_ℤ s.attestation_window_blocks (pos (length s.chain) -ℤ block.index)
  ]

  -- The block object is written, and joins the chain.
  abbrev pub append_block :
      (block_hash : String) → ℕ × Block → EnhancedPogoConsensus N → EnhancedPogoConsensus N
  append_block block_hash (ref, block) s = record s {
    blocks =
        write ref
          (record block {
            attestations = get_or block_hash [] s.pending_attestations;
            finalization_block = some (pos (length s.chain));
          })
          s.blocks;
    chain = s.chain ++ (ref ∷ []);
    pending_attestations = del block_hash s.pending_attestations;
  }

  -- What the aggregation of the attestations decides.
  unfoldable pub decide :
      (block_hash : String)
      → AttestationAggregation N
      → EnhancedPogoConsensus N
      → Bool × EnhancedPogoConsensus N
  decide block_hash aggregation s =
      if should_finalize aggregation s.attestation_threshold
      then elim (get_block_by_hash block_hash s) [
        | none ↦ (false, s)
        | some found ↦ (true, append_block block_hash found s)
      ]
      else if should_slash aggregation s.slashing_threshold
      then (false, record s { pending_attestations = del block_hash s.pending_attestations })
      else (false, s)

  unfoldable pub finalize_block_with_attestations :
      (block_hash : String) → EnhancedPogoConsensus N → Bool × EnhancedPogoConsensus N
  finalize_block_with_attestations block_hash s =
      let (aggregation, t) = aggregate_attestations block_hash s in
      if check_finalization_eligibility block_hash s
      then decide block_hash aggregation t
      else (false, s)
