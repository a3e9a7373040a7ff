-- ===== src/Consensus/PogoConsensus/Tests.antt =====
-- Runs and instances for dessin/consensus/consensus.py.
use dessin.Prelude.{
  ℕ, ◌≡◌, refl, true, Option, none, some, List, [], ◌∷◌, String, ◌==◌, if◌then◌else◌, arith, eq_ℕ,
  ◌⊎◌, ◌++◌, map,
}
use dessin.Prelude.Int.{pos}
use dessin.Num.Micro.{micro}
use dessin.Dict.{get, get_or, set}
use dessin.Consensus.SlashingMechanism.Attestations.{AttestationTransaction}
use dessin.Consensus.PogoConsensus.{
  Fields, Bytes, PogoBlock, Codec, Hooks, PogoConsensus, add_block, add_attestation,
  check_finalization, finalize_block, block_message, gossip_object, commit, add_message, block_of,
  to_dict, has_digest,
}
use dessin.Consensus.PogoConsensus.Append.{IsNext, add_block_cases}
use dessin.Consensus.PogoConsensus.Growth.{Call, gossip, vote, finalize, mined, run, step}
use dessin.Consensus.PogoConsensus.Positions.{as_received}
use dessin.Consensus.PogoConsensus.Sync.{receive, gossip_object-syncs}
use dessin.Consensus.PogoConsensus.Votes.{first_of_each, votes_for, run-attestations}

-- A block's other fields are its time, and the name of its adjustment.
abbrev fields : Fields
fields = record { Gossiped = ℕ; BlockTime = String; default_block_time = "" }

abbrev hex : Bytes → String
hex [] = ""
hex (b ∷ bytes) = if eq_ℕ b 170 then "aa" else "bb"

abbrev fromhex : String → Option Bytes
fromhex t = if t == "aa" then some (170 ∷ []) else if t == "bb" then some (187 ∷ []) else none

-- Two proofs have a text. A block's hash is its miner's name, and its other field is its time.
abbrev codec : Codec fields
codec = record { hex = hex; fromhex = fromhex; calculate_hash = λ b. b.miner; genesis_rest = 0 }

-- No subclass.
abbrev hooks : Hooks fields ℕ
hooks = record {
  observe_block_miner = λ b n. n;
  handle_potential_equivocation = λ incumbent conflicting n. n;
}

abbrev genesis : PogoBlock fields
genesis = record {
  index = pos 0;
  previous_hash = "0";
  miner = "genesis";
  vrf_proof = 170 ∷ [];
  finalization_block = some (pos 0);
  attestations = [];
  hash = "genesis";
  rest = 0;
  block_time = "";
}

abbrev by_alice : PogoBlock fields
by_alice = record genesis {
  index = pos 1;
  previous_hash = "genesis";
  miner = "alice";
  finalization_block = none;
  hash = "b1";
}

abbrev by_bob : PogoBlock fields
by_bob = record {
  index = pos 2;
  previous_hash = "b1";
  miner = "bob";
  vrf_proof = 187 ∷ [];
  finalization_block = none;
  attestations = [];
  hash = "b2";
  rest = 2;
  block_time = "";
}

abbrev node_of : List (PogoBlock fields) → PogoConsensus fields ℕ
node_of blocks = record { chain = blocks; pending_blocks = []; attestations = []; own = 0 }

abbrev new_node : PogoConsensus fields ℕ
new_node = node_of (genesis ∷ [])

abbrev carol : AttestationTransaction
carol = record { sender = "carol"; attestation_type = "positive" }

-- Alice's block as the peer has it.
abbrev finalized_by_carol : PogoBlock fields
finalized_by_carol = record by_alice {
  finalization_block = some (pos 1);
  attestations = carol ∷ [];
  block_time = "increase";
}

abbrev peer : PogoConsensus fields ℕ
peer = node_of (genesis ∷ finalized_by_carol ∷ by_bob ∷ [])

gossip_object-syncs_example :
    (receive codec hooks (gossip_object codec "genesis" peer) new_node).chain
    ≡ (genesis ∷ []) ++ map as_received (finalized_by_carol ∷ by_bob ∷ [])
gossip_object-syncs_example =
    gossip_object-syncs codec hooks "genesis" (genesis ∷ []) (finalized_by_carol ∷ by_bob ∷ []) peer
      new_node refl (refl, refl, tt) (refl, (refl, (refl, tt))) (omega arith)
      (refl, (refl, (refl, tt))) (refl, (refl, (refl, tt)), (refl, (refl, tt), (refl, tt, tt)))
      (refl, (refl, tt))

add_block_cases_example :
    (IsNext codec by_bob new_node
      × (add_block codec hooks by_bob new_node ≡ commit hooks by_bob new_node))
    ⊎ ((IsNext codec by_bob new_node → ⊥)
        × ((add_block codec hooks by_bob new_node).chain ≡ new_node.chain))
add_block_cases_example = add_block_cases codec hooks by_bob new_node

-- Carol votes twice for Alice's block, which comes by gossip between her votes; then Bob's is to be
-- finalized without a vote, and is appended as the node's own.
abbrev calls : List (Call fields)
calls =
    vote "b1" carol
    ∷ gossip (block_message codec by_alice)
    ∷ vote "b1" (record carol { attestation_type = "negative" })
    ∷ finalize by_bob
    ∷ mined by_bob
    ∷ []

run-attestations_example :
    get_or "b1" [] (run codec hooks micro (pos 660_000) calls new_node).attestations
    ≡ first_of_each (votes_for "b1" calls) []
unfolding get
run-attestations_example = run-attestations codec hooks micro (pos 660_000) "b1" calls new_node

her_first_vote_counts :
    let s = run codec hooks micro (pos 660_000) calls new_node in
    (s.chain ≡ genesis ∷ by_alice ∷ by_bob ∷ [])
    × (get_or "b1" [] s.attestations ≡ carol ∷ [])
    × (check_finalization micro (pos 660_000) "b1" s ≡ true)
unfolding run step finalize_block add_attestation get add_message block_of to_dict add_block
    has_digest set check_finalization
her_first_vote_counts = (refl, refl, refl)

-- Alice's block names no block of the chain as its previous one, and joins it.
unlinked_block_joins :
    (add_block codec hooks (record by_alice { previous_hash = "nowhere" }) new_node).chain
    ≡ genesis ∷ record by_alice { previous_hash = "nowhere" } ∷ []
unfolding add_block has_digest
unlinked_block_joins = refl
