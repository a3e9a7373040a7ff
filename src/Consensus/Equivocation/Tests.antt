-- ===== src/Consensus/Equivocation/Tests.antt =====
-- Runs and instances for `_handle_potential_equivocation` of dessin/consensus/enhanced_pogo_consensus.py.
use dessin.Economics.EconomicSystem.Penalties.{process_slashing_penalty, slash_balance}
use dessin.Prelude.{◌≡◌, refl, String, [], ◌∷◌, none, arith, ℕ}
use dessin.Prelude.Int.{ℤ, pos, negsuc, parts_of_eq, ◌-ℤ◌, ◌+ℤ◌}
use dessin.Num.Micro.{millionths, micro}
use dessin.Dict.{get, set}
use dessin.Economics.EconomicSystem.{EconomicSystem, new_system, genesis_address, get_staked_amount}
use dessin.Consensus.SlashingMechanism.{
  new_mechanism, is_address_banned, penalties, propose_slashing, apply_slashing, conclude, penalize,
  enforce,
}
use dessin.Consensus.PogoConsensus.{Fields, PogoBlock, Codec, PogoConsensus, add_block}
use dessin.Consensus.Equivocation.{Watch, watching, handle_potential_equivocation, punish}
use dessin.Consensus.Equivocation.Punishment.{Punished, add_block-Punished}

-- Alice has staked 40 tokens.
abbrev economy : EconomicSystem micro
economy = record (new_system micro (pos 1_000_000_000) (pos 10_000_000)) {
  balances = (genesis_address, pos 960_000_000) ∷ [];
  staked_amounts = ("alice", pos 40_000_000) ∷ [];
}

-- A block's other fields are its time, and the name of its adjustment.
abbrev fields : Fields
fields = record { Gossiped = ℕ; BlockTime = String; default_block_time = "" }

abbrev codec : Codec fields
codec = record {
  hex = λ b. "";
  fromhex = λ t. none;
  calculate_hash = λ b. "hash";
  genesis_rest = 0;
}

abbrev key : String → ℤ → String
key miner index = miner

abbrev observe : PogoBlock fields → Watch micro → Watch micro
observe block w = w

abbrev genesis : PogoBlock fields
genesis = record {
  index = pos 0;
  previous_hash = "";
  miner = "genesis";
  vrf_proof = [];
  finalization_block = none;
  attestations = [];
  hash = "hash";
  rest = 0;
  block_time = "";
}

abbrev by_alice : PogoBlock fields
by_alice = record genesis { index = pos 1; miner = "alice"; hash = "b1" }

-- Anyone can send it: it has neither a proof nor a previous hash.
abbrev forged : PogoBlock fields
forged = record by_alice { hash = "forged" }

abbrev node : PogoConsensus fields (Watch micro)
node = record {
  chain = genesis ∷ by_alice ∷ [];
  pending_blocks = [];
  attestations = [];
  own = record {
    slashing_mechanism = new_mechanism micro (pos 330_000) economy;
    equivocation_slash_keys = [];
  };
}

add_block-Punished_example :
    let t = add_block codec (watching key (pos 5) (pos 6) observe) forged node in
    (t.chain ≡ genesis ∷ by_alice ∷ [])
    × (t.own.equivocation_slash_keys ≡ "alice" ∷ [])
    × Punished millionths (pos 6) "alice" node.own.slashing_mechanism t.own.slashing_mechanism
unfolding penalties get is_address_banned
add_block-Punished_example =
    add_block-Punished millionths codec key (pos 5) (pos 6) observe by_alice forged node
      (λ first. ground (arith, parts_of_eq first)) refl refl refl refl refl refl (omega arith)
      (omega arith) (omega arith)

-- A height of -1 is the last block of the chain.
negative_height :
    let t =
      add_block codec
        (watching key (pos 5) (pos 6) observe)
        (record forged { index = negsuc 0 })
        node in
    get_staked_amount "alice" t.own.slashing_mechanism.economic_system ≡ pos 20_000_000
unfolding get add_block handle_potential_equivocation punish propose_slashing is_address_banned
    apply_slashing conclude penalize process_slashing_penalty slash_balance ◌-ℤ◌ ◌+ℤ◌ penalties
    enforce set
negative_height = refl
