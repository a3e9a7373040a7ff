-- ===== src/Consensus/PogoConsensus/Growth.antt =====
-- dessin/consensus/consensus.py: the chain over a history of gossip, votes, finalizations and blocks of
-- the node's own, which dessin/runtime/node.py appends. `finalize_block_with_attestations` of the
-- subclass, which appends a block whatever its index is, is not among these calls.
use dessin.Prelude.{ℕ, suc, ◌≡◌, List, [], ◌∷◌, ◌++◌, String, length}
use dessin.Prelude.Int.{pos}
use dessin.Num.{Num}
use dessin.Consensus.SlashingMechanism.Attestations.{AttestationTransaction}
use dessin.Consensus.PogoConsensus.{
  Fields, PogoBlock, Codec, Hooks, Message, PogoConsensus, add_attestation, finalize_block, commit,
  add_message,
}

-- The calls of `add_message`, `add_attestation` and `finalize_block`, and the appending of a block that
-- the node has mined.
pub data Call (R : Fields) : Type 0 where
  gossip : Message R → Call R
  vote : (block_hash : String) → AttestationTransaction → Call R
  finalize : PogoBlock R → Call R
  mined : PogoBlock R → Call R

module _ {R : Fields} where
  -- The block at each position has that index, from `n` on.
  abbrev pub IsIndexed : (n : ℕ) → List (PogoBlock R) → Type 0
  IsIndexed n [] = Unit
  IsIndexed n (b ∷ bs) = (b.index ≡ pos n) × IsIndexed (suc n) bs

  module _ {S : Type 0} (c : Codec R) (hooks : Hooks R S) (N : Num) (threshold : N.Carrier) where
    unfoldable pub step : Call R → PogoConsensus R S → PogoConsensus R S
    step (gossip message) s = add_message c hooks message s
    step (vote block_hash attestation) s = (add_attestation block_hash attestation s).1
    step (finalize block) s = (finalize_block hooks N threshold block s).1
    step (mined block) s = commit hooks block s

    unfoldable pub run : List (Call R) → PogoConsensus R S → PogoConsensus R S
    run [] s = s
    run (call ∷ calls) s = run calls (step call s)

    -- A block of the node's own is appended while its index is the next one.
    abbrev pub IsTimely : Call R → PogoConsensus R S → Type 0
    IsTimely (gossip message) s = Unit
    IsTimely (vote block_hash attestation) s = Unit
    IsTimely (finalize block) s = Unit
    IsTimely (mined block) s = block.index ≡ pos (length s.chain)

    abbrev pub AreTimely : List (Call R) → PogoConsensus R S → Type 0
    AreTimely [] s = Unit
    AreTimely (call ∷ calls) s = IsTimely call s × AreTimely calls (step call s)

module _ {R : Fields} {S : Type 0} where
  -- The later chain is the earlier one with further blocks, and keeps the order of the indices.
  abbrev pub Extends : (s t : PogoConsensus R S) → Type 0
  Extends s t = ((xs : List (PogoBlock R)) × (t.chain ≡ s.chain ++ xs)) × IsIndexed 0 t.chain
