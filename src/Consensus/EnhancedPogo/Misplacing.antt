-- ===== src/Consensus/EnhancedPogo/Misplacing.antt =====
-- dessin/consensus/enhanced_pogo_consensus.py: where `finalize_block_with_attestations` puts a block.
use dessin.Prelude.{ℕ, ◌≡◌, true, some, [], ◌∷◌, ◌++◌, String, length, inl, inr, arith}
use dessin.Prelude.Int.{pos, ◌≤ℤ◌, ◌<ℤ◌, -ℤ_parts}
use dessin.Num.{Num}
use dessin.Consensus.EnhancedPogo.{
  Block, EnhancedPogoConsensus, get_block_by_hash, finalize_block_with_attestations,
}
use dessin.Consensus.EnhancedPogo.Finalization.{finalize_block_with_attestations-Finalizes}

module _ {N : Num} where
  -- When blocks wait for attestations for at least one block, a block that
  -- `finalize_block_with_attestations` appends to the chain has an index below the position at which it
  -- then stands.
  pub finalize_block_with_attestations_misplaces :
      (h : String) (s : EnhancedPogoConsensus N)
      → pos 1 ≤ℤ s.attestation_window_blocks
      → (finalize_block_with_attestations h s).0 ≡ true
      → (ref : ℕ) × (b : Block) × (get_block_by_hash h s ≡ some (ref, b))
        × ((finalize_block_with_attestations h s).1.chain ≡ s.chain ++ (ref ∷ []))
        × (b.index <ℤ pos (length s.chain))
  finalize_block_with_attestations_misplaces h s waits done =
      elim (finalize_block_with_attestations-Finalizes h s) [
        | inl (_, favour, (ref, b, found, eligible, joined, cleared)) ↦ (
          ref,
          b,
          found,
          joined,
          ground (arith, eligible, waits, -ℤ_parts (pos (length s.chain)) b.index),
        )
        | inr (refused, _, _, _) ↦ absurd (ground (arith, done, refused))
      ]
