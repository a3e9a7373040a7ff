-- ===== src/Consensus/Leader/Tests.antt =====
-- Runs and instances for the leader lottery of dessin/consensus/enhanced_pogo_consensus.py.
use dessin.Prelude.{
  ℕ, ◌≡◌, refl, true, false, some, [], ◌∷◌, String, Bool, ◌==◌, ◌||◌, ◌&&◌, if◌then◌else◌, arith,
}
use dessin.Prelude.Int.{pos}
use dessin.Dict.{get}
use dessin.Consensus.Leader.{
  Roster, last_two, training_leader_candidates, expected_training_leader, sorted, insert,
  leader_lottery_eligible, chain_training_miners, draw_from,
}
use dessin.Consensus.Leader.Agreement.{takes_part, expected_training_leader-agrees}

abbrev first_candidate : String → String → ℕ
first_candidate miner hash = 0

-- After the first block, which Bob mined; there is no bootstrap period.
abbrev node_of : String → Roster
node_of address = record {
  chain = record { miner = "genesis"; hash = "g" } ∷ record { miner = "bob"; hash = "b1" } ∷ [];
  training_miner_roster = [];
  bootstrap_registry = [];
  bootstrap_slashed = [];
  miner_address = address;
  bootstrap_period_blocks = pos 0;
}

-- Alice's node has heard of Bob by gossip too.
abbrev alice : Roster
alice = node_of "alice"

abbrev alice_told : Roster
alice_told = record alice { training_miner_roster = "bob" ∷ [] }

twice : (e p q : Bool) → (e && (p || (q || false))) ≡ (e && (p || (q || (q || false))))
twice e p q = ground arith

takes_part_told : (a : String) → takes_part alice a ≡ takes_part alice_told a
unfolding leader_lottery_eligible chain_training_miners get
takes_part_told a =
    twice (if a == "" || a == "genesis" || false then false else true) ("alice" == a) ("bob" == a)

expected_training_leader-agrees_example :
    expected_training_leader first_candidate alice
    ≡ expected_training_leader first_candidate alice_told
expected_training_leader-agrees_example =
    expected_training_leader-agrees first_candidate alice alice_told refl takes_part_told

-- With the same chain, each node counts its own address in: Alice's and Carol's expect other leaders.
own_address_divides :
    (expected_training_leader first_candidate alice ≡ some "alice")
    × (expected_training_leader first_candidate (node_of "carol") ≡ some "bob")
unfolding expected_training_leader draw_from last_two training_leader_candidates sorted
    leader_lottery_eligible insert chain_training_miners
own_address_divides = (refl, refl)
