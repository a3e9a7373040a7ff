-- ===== src/Consensus/PogoConsensus/Append.antt =====
-- dessin/consensus/consensus.py: when a block joins the chain.
use dessin.Prelude.{
  ◌≡◌, ◌≢◌, ◌⊎◌, inl, inr, refl, true, false, not, ◌&&◌, [], ◌∷◌, ◌++◌, ◌==◌, length, arith, eq_iff,
  Bool-cases, Option-cases,
}
use dessin.Prelude.Int.{pos, eq_ℤ, ltb_ℤ, eq_ℤ→eq, parts_of_eq}
use dessin.Num.{Num}
use dessin.Consensus.PogoConsensus.{
  Fields, PogoBlock, Codec, Hooks, PogoConsensus, item, build_canonical_genesis_block, has_digest,
  commit, finalized, check_finalization, finalize_block, add_old_block, add_block,
}

module _ {R : Fields} {S : Type 0} (hooks : Hooks R S) where
  pub finalize_block_cases :
      (N : Num) (threshold : N.Carrier) (b : PogoBlock R) (s : PogoConsensus R S)
      → let (done, t) = finalize_block hooks N threshold b s in
        ((done ≡ true)
          × (t.chain ≡ s.chain ++ (finalized b s ∷ []))
          × (b.index ≡ pos (length s.chain))
          × (check_finalization N threshold b.hash s ≡ true))
        ⊎ ((done ≡ false)
            × (t ≡ s)
            × ((b.index ≢ pos (length s.chain))
                ⊎ (check_finalization N threshold b.hash s ≡ false)))
  unfolding finalize_block
  finalize_block_cases N threshold b s = elim (Bool-cases (eq_ℤ b.index (pos (length s.chain)))) [
    | inr other ↦
        rw (other, finalize_block)
          (inr (refl, refl, inl (λ same. ground (arith, other, parts_of_eq same))))
    | inl next ↦ elim (Bool-cases (check_finalization N threshold b.hash s)) [
      | inl final ↦
          rw (next, final, finalize_block)
            (inl (refl, refl, eq_ℤ→eq b.index (pos (length s.chain)) next, refl))
      | inr open_still ↦ rw (next, open_still, finalize_block) (inr (refl, refl, inr refl))
    ]
  ]

module _ {R : Fields} {S : Type 0} where
  -- What a block that gossip brings must be to join the chain.
  abbrev pub IsNext : Codec R → PogoBlock R → PogoConsensus R S → Type 0
  IsNext c b s =
      (b.index ≡ pos (length s.chain))
      × (has_digest b.hash s ≡ false)
      × (b.index ≡ pos 0 → b.hash ≡ (build_canonical_genesis_block c).hash)

module _ {R : Fields} {S : Type 0} (c : Codec R) (hooks : Hooks R S) where
  add_old_block-chain :
      (b : PogoBlock R) (s : PogoConsensus R S) → (add_old_block c hooks b s).chain ≡ s.chain
  add_old_block-chain b s = elim (Option-cases (item s.chain b.index)) [
    | inl nowhere ↦ rw (nowhere, add_old_block) refl
    | inr (incumbent, there) ↦ elim (Bool-cases (incumbent.hash == b.hash)) [
      | inl same ↦ rw (there, same, add_old_block) refl
      | inr other ↦ elim (Bool-cases (incumbent.miner == b.miner)) [
        | inl twice ↦ rw (there, other, twice, add_old_block) refl
        | inr once ↦ rw (there, other, once, add_old_block) refl
      ]
    ]
  ]

  -- A block that gossip brings either joins the end of the chain, which tells the subclass, or leaves the
  -- chain as it is. It joins exactly when its index is the length of the chain, no block has its hash,
  -- and, at height 0, its hash is that of the network's genesis block: nothing else of it matters, its
  -- previous hash included.
  pub add_block_cases :
      (b : PogoBlock R) (s : PogoConsensus R S)
      → (IsNext c b s × (add_block c hooks b s ≡ commit hooks b s))
        ⊎ ((IsNext c b s → ⊥) × ((add_block c hooks b s).chain ≡ s.chain))
  unfolding add_block
  add_block_cases b s =
      elim (Bool-cases
        (eq_ℤ b.index (pos 0) && not (b.hash == (build_canonical_genesis_block c).hash))) [
          | inl foreign ↦
              rw (foreign, add_block)
                (inr (
                  λ (next, new, canonical). ground (
                    arith,
                    foreign,
                    canonical,
                    eq_ℤ→eq b.index (pos 0),
                    eq_iff b.hash (build_canonical_genesis_block c).hash,
                  ),
                  refl,
                ))
          | inr fine ↦ elim (Bool-cases (ltb_ℤ b.index (pos (length s.chain)))) [
            | inl old ↦
                rw (fine, old, add_block)
                  (inr (
                    λ (next, new, canonical). ground (arith, old, parts_of_eq next),
                    add_old_block-chain b s,
                  ))
            | inr ahead ↦ elim (Bool-cases (has_digest b.hash s)) [
              | inl known ↦
                  rw (fine, ahead, known, add_block)
                    (inr (λ (next, new, canonical). ground (arith, known, new), refl))
              | inr new ↦ elim (Bool-cases (eq_ℤ b.index (pos (length s.chain)))) [
                | inl next ↦
                    rw (fine, ahead, new, next, add_block)
                      (inl (
                        (
                          eq_ℤ→eq b.index (pos (length s.chain)) next,
                          refl,
                          λ first. ground (
                            arith,
                            fine,
                            parts_of_eq first,
                            eq_iff b.hash (build_canonical_genesis_block c).hash,
                          ),
                        ),
                        refl,
                      ))
                | inr far ↦
                    rw (fine, ahead, new, far, add_block)
                      (inr (
                        λ (next, none_known, canonical). ground (arith, far, parts_of_eq next),
                        refl,
                      ))
              ]
            ]
          ]
        ]
