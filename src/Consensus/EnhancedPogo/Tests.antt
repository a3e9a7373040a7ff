-- ===== src/Consensus/EnhancedPogo/Tests.antt =====
-- Runs and instances for dessin/consensus/enhanced_pogo_consensus.py.
use dessin.Prelude.{ℕ, some, ◌++◌, arith, ◌≡◌, refl, true, none, [], ◌∷◌}
use dessin.Prelude.Int.{pos, ◌<ℤ◌, ◌-ℤ◌, ◌+ℤ◌}
use dessin.Num.Micro.{micro}
use dessin.Dict.{get, set}
use dessin.Consensus.EnhancedPogo.{
  Block, EnhancedPogoConsensus, submit_attestation, finalize_block_with_attestations,
  check_finalization_eligibility, get_block_by_hash, decide, should_finalize,
  aggregate_attestations, weigh,
}
use dessin.Consensus.EnhancedPogo.Finalization.{
  Finalizes, finalize_block_with_attestations-Finalizes,
}
use dessin.Consensus.EnhancedPogo.Misplacing.{finalize_block_with_attestations_misplaces}

abbrev block : Block
block = record {
  index = pos 0;
  hash = "b";
  miner = "alice";
  finalization_block = none;
  attestations = [];
}

-- One pending block, and three tokens of stake.
abbrev fresh : EnhancedPogoConsensus micro
fresh = record {
  attestation_threshold = pos 660_000;
  slashing_threshold = pos 330_000;
  attestation_window_blocks = pos 0;
  blocks = block ∷ [];
  chain = [];
  pending_blocks = ("b", 0) ∷ [];
  pending_attestations = [];
  attestation_aggregations = [];
  verifier_stakes = [];
  total_stake = pos 3_000_000;
}

-- Carol, whose stake is one token, attests twice.
abbrev attested : EnhancedPogoConsensus micro
attested =
    (submit_attestation "b" "carol" "positive"
      (submit_attestation "b" "carol" "positive" fresh).1).1

finalize_block_with_attestations-Finalizes_example :
    Finalizes "b" attested (finalize_block_with_attestations "b" attested)
finalize_block_with_attestations-Finalizes_example =
    finalize_block_with_attestations-Finalizes "b" attested

-- Her two attestations count as two thirds of the stake.
carol_finalizes :
    let (done, t) = finalize_block_with_attestations "b" attested in
    (done ≡ true) × (t.chain ≡ 0 ∷ [])
unfolding finalize_block_with_attestations check_finalization_eligibility get_block_by_hash get
    submit_attestation ◌-ℤ◌ decide should_finalize aggregate_attestations weigh set ◌+ℤ◌
carol_finalizes = (refl, refl)

-- A node with a window of one block and the block at the start of its chain.
abbrev waiting : EnhancedPogoConsensus micro
waiting = record attested { attestation_window_blocks = pos 1; chain = 0 ∷ [] }

waiting_finalizes : (finalize_block_with_attestations "b" waiting).0 ≡ true
unfolding finalize_block_with_attestations check_finalization_eligibility get_block_by_hash get
    submit_attestation ◌-ℤ◌ decide should_finalize aggregate_attestations weigh set ◌+ℤ◌
waiting_finalizes = refl

finalize_block_with_attestations_misplaces_example :
    (ref : ℕ) × (b : Block) × (get_block_by_hash "b" waiting ≡ some (ref, b))
    × ((finalize_block_with_attestations "b" waiting).1.chain ≡ (0 ∷ []) ++ (ref ∷ []))
    × (b.index <ℤ pos 1)
finalize_block_with_attestations_misplaces_example =
    finalize_block_with_attestations_misplaces "b" waiting (omega arith) waiting_finalizes
