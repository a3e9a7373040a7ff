-- ===== src/Consensus/SlashingMechanism/Tests.antt =====
-- Runs and instances for dessin/consensus/slashing_mechanism.py.
use dessin.Economics.EconomicSystem.Penalties.{process_slashing_penalty, slash_balance}
use dessin.Prelude.{◌≡◌, refl, true, [], ◌∷◌, List, All, arith}
use dessin.Prelude.Int.{pos, ◌-ℤ◌, ◌+ℤ◌, leb_ℤ}
use dessin.Num.Units.{units-IsOrdered}
use dessin.Num.Micro.{millionths, micro}
use dessin.Dict.{get, set}
use dessin.Economics.EconomicSystem.{EconomicSystem, new_system, genesis_address}
use dessin.Consensus.SlashingMechanism.{
  SlashingReason, invalid_block, double_signing, negative_attestations, verification_failure,
  malicious_behavior, unavailability, SlashingMechanism, new_mechanism, penalties,
  is_address_banned, propose_slashing, apply_slashing, get_reputation_score, file_proposal,
  proposed, penalties, conclude, penalize, enforce,
}
use dessin.Consensus.SlashingMechanism.Penalties.{asked, Slashes, apply_slashing-propose_slashing}
use dessin.Consensus.SlashingMechanism.Reputation.{
  created, stepped, propose_step, apply_step, get_reputation_score_range,
}
use dessin.Consensus.SlashingMechanism.Rounds.{
  Costs, check_and_apply_slashing, check_and_apply_slashing-Costs,
}
use dessin.Consensus.SlashingMechanism.Attestations.{
  AttestationTransaction, PogoBlock, check_negative_attestations, check_block_validity,
  check_address, count_attestations, validate_block_basic,
}
use dessin.Consensus.SlashingMechanism.Blame.{Blames, check_negative_attestations-Blames}

-- Alice has staked 40 tokens, Bob 10.
abbrev economy : EconomicSystem micro
economy = record (new_system micro (pos 1_000_000_000) (pos 10_000_000)) {
  balances = (genesis_address, pos 950_000_000) ∷ ("alice", pos 2_000_000) ∷ [];
  staked_amounts = ("alice", pos 40_000_000) ∷ ("bob", pos 10_000_000) ∷ [];
}

abbrev mechanism : SlashingMechanism micro
mechanism = new_mechanism micro (pos 330_000) economy

-- Two tokens are a twentieth of what Alice has staked.
apply_slashing-propose_slashing_example :
    Slashes millionths
      (pos 9)
      "alice"
      verification_failure
      (pos 7)
      economy
      []
      (propose_slashing (pos 5) "b7" "alice" verification_failure "carol" mechanism)
unfolding is_address_banned get penalties
apply_slashing-propose_slashing_example =
    apply_slashing-propose_slashing millionths (pos 5) (pos 9) "b7" "alice" verification_failure
      "carol" (pos 7) mechanism refl refl (omega arith) (omega arith) (omega arith)

-- The proposal above.
abbrev against_alice : SlashingMechanism micro
against_alice =
    (file_proposal (proposed "b7" "alice" verification_failure "carol" mechanism) mechanism).1

abbrev carol_votes : List AttestationTransaction
carol_votes =
    record { sender = "bob"; attestation_type = "negative" }
    ∷ record { sender = "bob"; attestation_type = "positive" }
    ∷ record { sender = "carol"; attestation_type = "positive" }
    ∷ []

check_negative_attestations-Blames_example :
    All
      (Blames {N = micro} carol_votes
        (pos 330_000)
        (check_negative_attestations (pos 5) "b7" carol_votes mechanism).1.events)
      (check_negative_attestations (pos 5) "b7" carol_votes mechanism).0
check_negative_attestations-Blames_example =
    check_negative_attestations-Blames carol_votes (pos 5) "b7" mechanism

-- Bob, who attested negatively in one case of two, is proposed.
bob_proposed : (check_negative_attestations (pos 5) "b7" carol_votes mechanism).0 ≡ 0 ∷ []
unfolding check_negative_attestations check_address count_attestations set get propose_slashing
    is_address_banned
bob_proposed = refl

abbrev worse : PogoBlock micro
worse = record {
  index = pos 7;
  hash = "b7";
  miner = "alice";
  loss_before = pos 2_000_000;
  loss_after = pos 2_200_001;
  training_steps = pos 100;
}

worse_proposed : (check_block_validity (pos 5) worse mechanism).0 ≡ 0 ∷ []
unfolding check_block_validity validate_block_basic propose_slashing is_address_banned get
worse_proposed = refl

nonneg_penalties :
    (r : SlashingReason) → leb_ℤ (pos 0) (penalties micro r).reputation_penalty ≡ true
unfolding penalties
nonneg_penalties invalid_block = refl
nonneg_penalties double_signing = refl
nonneg_penalties negative_attestations = refl
nonneg_penalties verification_failure = refl
nonneg_penalties malicious_behavior = refl
nonneg_penalties unavailability = refl

get_reputation_score_range_example :
    let s =
      (apply_slashing
        (pos 9_000_000)
        0
        (pos 7)
        (propose_slashing (pos 5) "b7" "alice" verification_failure "carol" mechanism).1).1 in
    (leb_ℤ (pos 0) (get_reputation_score "alice" s) ≡ true)
    × (leb_ℤ (get_reputation_score "alice" s) (pos 100_000_000) ≡ true)
get_reputation_score_range_example =
    get_reputation_score_range (units-IsOrdered millionths) refl nonneg_penalties
      (stepped
        (stepped (created (pos 330_000) economy)
          (propose_step (pos 5) "b7" "alice" verification_failure "carol" mechanism))
        (apply_step (pos 9_000_000) 0 (pos 7) _))
      "alice"

alice_scored :
    get_reputation_score "alice" (apply_slashing (pos 9_000_000) 0 (pos 7) against_alice).1
    ≡ pos 90_000_000
unfolding get_reputation_score get apply_slashing conclude penalize process_slashing_penalty
    slash_balance ◌-ℤ◌ ◌+ℤ◌ penalties enforce set
alice_scored = refl

-- A block as `create_empty_round_block` makes it.
abbrev noop : PogoBlock micro
noop = record {
  index = pos 7;
  hash = "b7";
  miner = "alice";
  loss_before = pos 0;
  loss_after = pos 0;
  training_steps = pos 0;
}

abbrev approvals : List AttestationTransaction
approvals = record { sender = "carol"; attestation_type = "positive" } ∷ []

check_and_apply_slashing-Costs_example :
    Costs millionths
      (pos 5)
      "alice"
      economy
      (check_and_apply_slashing (pos 5) noop approvals mechanism)
unfolding is_address_banned get penalties
check_and_apply_slashing-Costs_example =
    check_and_apply_slashing-Costs millionths (pos 5) noop approvals mechanism
      (λ (_, _, _, _, steps, _). omega (arith, steps)) (refl, tt) refl refl (omega arith)
      (omega arith) (omega arith)

-- It costs a fifth of the stake.
fifth_asked : asked millionths "alice" invalid_block economy ≡ pos 8_000_000
unfolding get penalties
fifth_asked = refl
