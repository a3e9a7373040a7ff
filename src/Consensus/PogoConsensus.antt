-- ===== src/Consensus/PogoConsensus.antt =====
-- dessin/consensus/consensus.py: the chain of a node, the blocks that gossip brings, the votes on a block
-- and its finalization, without a distributor. The fields of a block that no operation here reads are
-- two types: those that `to_dict` puts into gossip's dict, which has them with the defaults filled in,
-- and the five of the block time, which it omits. Its `finalization_block` is in the dict and not read
-- from it; its attestations are an empty list there, and not read either. `own` is the state of the
-- subclass, which its hooks change.
pub mod Append
pub mod Growth
pub mod Positions
pub mod Sync
pub mod Votes
mod Tests
use dessin.Prelude.{
  ℕ, zero, suc, ◌+◌, ◌-◌, Bool, true, false, not, ◌&&◌, ◌||◌, Option, none, some, List, [], ◌∷◌,
  ◌++◌, String, ◌==◌, if◌then◌else◌, length, get_elem?, count_if, is_empty, ltb, eq_ℕ, map,
  from_option,
}
use dessin.Prelude.Int.{ℤ, pos, negsuc, eq_ℤ, ltb_ℤ}
use dessin.Dict.{Dict, get_or, set, del}
use dessin.Num.{Num}
use dessin.Consensus.SlashingMechanism.Attestations.{AttestationTransaction, is_negative}
use dessin.Consensus.EnhancedPogo.{is_positive}

abbrev pub Bytes : Type 0
Bytes = List ℕ

-- `vrf_proof` as gossip carries it
pub data VrfProof : Type 0 where
  text : String → VrfProof
  raw : Bytes → VrfProof

-- The fields of a block that are only stored, by whether `to_dict` has them.
pub record Fields : Type 1 where
  pub Gossiped : Type 0
  pub BlockTime : Type 0
  pub default_block_time : BlockTime

module _ (R : Fields) where
  pub record PogoBlock : Type 0 where
    pub index : ℤ
    pub previous_hash : String
    pub miner : String
    pub vrf_proof : Bytes
    pub finalization_block : Option ℤ
    pub attestations : List AttestationTransaction
    pub hash : String
    pub rest : R.Gossiped
    pub block_time : R.BlockTime

  -- The dict of a block; a key may be missing.
  pub record BlockData : Type 0 where
    pub index : Option ℤ
    pub previous_hash : Option String
    pub miner : Option String
    pub vrf_proof : Option VrfProof
    pub finalization_block : Option ℤ
    pub attestations : List AttestationTransaction
    pub hash : Option String
    pub rest : R.Gossiped

  -- The messages of the gossip, by what their `data` is.
  pub data Message : Type 0 where
    pogo_block :
        (block_data : Option BlockData) (block_hash : Option String) (has_height : Bool) → Message
    pogo_transaction : (has_data : Bool) → Message
    control other : Message

  -- The library's functions and the hash of a block's fields. `fromhex` is `none` where it raises.
  pub record Codec : Type 0 where
    pub hex : Bytes → String
    pub fromhex : String → Option Bytes
    pub calculate_hash : PogoBlock → String
    pub genesis_rest : R.Gossiped

  pub record Hooks (S : Type 0) : Type 0 where
    pub observe_block_miner : PogoBlock → S → S
    pub handle_potential_equivocation : (incumbent conflicting : PogoBlock) → S → S

  pub record PogoConsensus (S : Type 0) : Type 0 where
    pub chain : List PogoBlock
    pub pending_blocks : Dict PogoBlock
    pub attestations : Dict (List AttestationTransaction)
    pub own : S

-- `chain[i]`, from the end for a negative `i`; `none` where it raises.
abbrev pub item : {A : Type 0} → List A → ℤ → Option A
item xs (pos i) = get_elem? xs i
item xs (negsuc i) = if ltb i (length xs) then get_elem? xs (length xs - 1 - i) else none

module _ {R : Fields} (c : Codec R) where
  -- `__post_init__`
  abbrev pub with_hash : PogoBlock R → PogoBlock R
  with_hash block =
      if block.hash == "" then record block { hash = c.calculate_hash block } else block

  unfoldable pub build_canonical_genesis_block : PogoBlock R
  build_canonical_genesis_block = with_hash (record {
    index = pos 0;
    previous_hash = "0000000000000000000000000000000000000000000000000000000000000000";
    miner = "genesis";
    vrf_proof = 103 ∷ 101 ∷ 110 ∷ 101 ∷ 115 ∷ 105 ∷ 115 ∷ [];
    finalization_block = some (pos 0);
    attestations = [];
    hash = "";
    rest = c.genesis_rest;
    block_time = R.default_block_time;
  })

  unfoldable pub to_dict : PogoBlock R → BlockData R
  to_dict block = record {
    index = some block.index;
    previous_hash = some block.previous_hash;
    miner = some block.miner;
    vrf_proof = some (text (c.hex block.vrf_proof));
    finalization_block = block.finalization_block;
    attestations = [];
    hash = some block.hash;
    rest = block.rest;
  }

  abbrev pub proof_of : Option VrfProof → Option Bytes
  proof_of none = some []
  proof_of (some (text t)) = c.fromhex t
  proof_of (some (raw b)) = some b

  -- The block that `add_message` makes of a dict.
  unfoldable pub block_of : BlockData R → Option (PogoBlock R)
  block_of block_data = elim (proof_of block_data.vrf_proof) [
    | none ↦ none
    | some vrf_proof ↦ some (
        with_hash (record {
          index = from_option (pos 0) block_data.index;
          previous_hash = from_option "" block_data.previous_hash;
          miner = from_option "" block_data.miner;
          vrf_proof = vrf_proof;
          finalization_block = none;
          attestations = [];
          hash = from_option "" block_data.hash;
          rest = block_data.rest;
          block_time = R.default_block_time;
        }))
  ]

-- A key is in the dict.
abbrev pub has : {A : Type 0} → Option A → Bool
has none = false
has (some a) = true

module _ {R : Fields} {S : Type 0} where
  unfoldable pub has_digest : String → PogoConsensus R S → Bool
  has_digest hash_digest s =
      ltb 0 (count_if (λ (block : PogoBlock R). block.hash == hash_digest) s.chain)

  -- `self.chain[-1].hash`; the chain is not empty.
  unfoldable pub get_latest_digest : PogoConsensus R S → Option String
  get_latest_digest s = elim (item s.chain (negsuc 0)) [
    | none ↦ none
    | some block ↦ some block.hash
  ]

  unfoldable pub add_attestation :
      (block_hash : String) → AttestationTransaction → PogoConsensus R S → Bool × PogoConsensus R S
  add_attestation block_hash attestation s =
      let existing = get_or block_hash [] s.attestations in
      if ltb 0
        (count_if (λ (att : AttestationTransaction). att.sender == attestation.sender) existing)
      then (false, record s { attestations = set block_hash existing s.attestations })
      else (
        true,
        record s { attestations = set block_hash (existing ++ (attestation ∷ [])) s.attestations },
      )

  unfoldable pub check_finalization :
      (N : Num) (attestation_threshold : N.Carrier) (block_hash : String) → PogoConsensus R S → Bool
  check_finalization N attestation_threshold block_hash s =
      let attestations = get_or block_hash [] s.attestations in
      let positive_weight = count_if is_positive attestations in
      let negative_weight = count_if is_negative attestations in
      if is_empty attestations
      then false
      else if eq_ℕ (positive_weight + negative_weight) 0
      then false
      else N.le attestation_threshold (
          N.div (N.of_int (pos positive_weight))
            (N.of_int (pos (positive_weight + negative_weight))))

  -- A block joins the chain, and the subclass is told.
  abbrev pub commit : Hooks R S → PogoBlock R → PogoConsensus R S → PogoConsensus R S
  commit hooks block s = record s {
    chain = s.chain ++ (block ∷ []);
    own = hooks.observe_block_miner block s.own;
  }

  -- The block as `finalize_block` changes it.
  abbrev pub finalized : PogoBlock R → PogoConsensus R S → PogoBlock R
  finalized block s = record block {
    attestations = get_or block.hash [] s.attestations;
    finalization_block = some (pos (length s.chain));
  }

  unfoldable pub finalize_block :
      Hooks R S
      → (N : Num) (attestation_threshold : N.Carrier) → PogoBlock R
      → PogoConsensus R S
      → Bool × PogoConsensus R S
  finalize_block hooks N attestation_threshold block s =
      if not (eq_ℤ block.index (pos (length s.chain)))
      then (false, s)
      else if not (check_finalization N attestation_threshold block.hash s)
      then (false, s)
      else let t = commit hooks (finalized block s) s in
        (true, record t { pending_blocks = del block.hash t.pending_blocks })

module _ {R : Fields} {S : Type 0} (c : Codec R) (hooks : Hooks R S) where
  -- `add_message` once the block is made: a height that the chain has.
  abbrev pub add_old_block : PogoBlock R → PogoConsensus R S → PogoConsensus R S
  add_old_block block s = elim (item s.chain block.index) [
    | none ↦ s
    | some incumbent ↦
        if incumbent.hash == block.hash
        then s
        else if incumbent.miner == block.miner
        then record s { own = hooks.handle_potential_equivocation incumbent block s.own }
        else s
  ]

  unfoldable pub add_block : PogoBlock R → PogoConsensus R S → PogoConsensus R S
  add_block block s =
      if eq_ℤ block.index (pos 0) && not (block.hash == (build_canonical_genesis_block c).hash)
      then s
      else if ltb_ℤ block.index (pos (length s.chain))
      then add_old_block block s
      else if has_digest block.hash s
      then s
      else if eq_ℤ block.index (pos (length s.chain))
      then commit hooks block s
      else s

  unfoldable pub add_message : Message R → PogoConsensus R S → PogoConsensus R S
  add_message (pogo_block (some block_data) block_hash has_height) s =
      elim (block_of c block_data) [ none ↦ s | some block ↦ add_block block s ]
  add_message message s = s

module _ {R : Fields} where
  unfoldable pub is_valid : Message R → Bool
  is_valid (pogo_block (some d) block_hash has_height) =
      has d.index && has d.previous_hash && has d.hash && has d.vrf_proof
  is_valid (pogo_block none none has_height) = false
  is_valid (pogo_block none (some notif) has_height) = not (notif == "") && has_height
  is_valid (pogo_transaction has_data) = has_data
  is_valid control = true
  is_valid other = false

  -- The blocks after the first one with the digest, all of them if there is none.
  unfoldable pub after_digest : String → List (PogoBlock R) → Option (List (PogoBlock R))
  after_digest digest [] = none
  after_digest digest (block ∷ blocks) =
      let rest = after_digest digest blocks in if block.hash == digest then some blocks else rest

  abbrev pub block_message : Codec R → PogoBlock R → Message R
  block_message c block = pogo_block (some (to_dict c block)) none true

  unfoldable pub gossip_object :
      Codec R → {S : Type 0} → (digest : String) → PogoConsensus R S → List (Message R)
  gossip_object c digest s =
      map (block_message c) (from_option s.chain (after_digest digest s.chain))
