-- ===== src/Consensus/EnhancedPogo/Finalization.antt =====
-- dessin/consensus/enhanced_pogo_consensus.py: what it takes to finalize a block.
use mathlib.Core.Path.{subst}
use dessin.Prelude.{
  ℕ, ◌≡◌, ◌⊎◌, refl, inl, inr, Bool, true, false, not, none, some, List, [], ◌∷◌, ◌++◌, String,
  if◌then◌else◌, length, keep_if, keep_if_yes, keep_if_no, Bool-cases, Option-cases, ap, ◌∙◌, sym,
}
use dessin.Prelude.Int.{pos, ◌-ℤ◌, leb_ℤ}
use dessin.Dict.{Dict, get, get_or, get-del_self}
use dessin.Num.{Num, eq_num}
use dessin.Consensus.SlashingMechanism.Attestations.{AttestationTransaction}
use dessin.Consensus.EnhancedPogo.{
  is_positive, Block, AttestationAggregation, EnhancedPogoConsensus, weigh_one, weigh,
  empty_aggregation, aggregate_attestations, get_block_by_hash, check_finalization_eligibility,
  append_block, decide, should_finalize, should_slash, finalize_block_with_attestations,
}

module _ (N : Num) where
  open N use {Carrier, nought, add, div, le, dec}

  -- The stake behind attestations, each counted on its own, the first ones first.
  abbrev pub stake_of : Dict Carrier → Carrier → List AttestationTransaction → Carrier
  stake_of stakes sum [] = sum
  stake_of stakes sum (a ∷ attestations) =
      stake_of stakes (add sum (get_or a.sender (dec 1 0) stakes)) attestations

  abbrev pub positive_stake : Dict Carrier → List AttestationTransaction → Carrier
  positive_stake stakes attestations = stake_of stakes nought (keep_if is_positive attestations)

  abbrev pub negative_stake : Dict Carrier → List AttestationTransaction → Carrier
  negative_stake stakes attestations =
      stake_of stakes nought (keep_if (λ a. not (is_positive a)) attestations)

  -- A share of all stake, nothing where there is none.
  abbrev pub share : EnhancedPogoConsensus N → Carrier → Carrier
  share s stake = if eq_num N s.total_stake nought then nought else div stake s.total_stake

module _ {N : Num} where
  open N use {Carrier, nought, add, div, le, dec}

  weigh_one_lem :
      (stakes : Dict Carrier) (t : AttestationTransaction) (ts : List AttestationTransaction)
      (a : AttestationAggregation N)
      → let w = weigh_one stakes t a in
        (stake_of N stakes w.total_stake_positive (keep_if is_positive ts)
          ≡ stake_of N stakes a.total_stake_positive (keep_if is_positive (t ∷ ts)))
        × (stake_of N stakes w.total_stake_negative (keep_if (λ a. not (is_positive a)) ts)
            ≡ stake_of N stakes a.total_stake_negative
                (keep_if (λ a. not (is_positive a)) (t ∷ ts)))
        × (w.total_stake ≡ a.total_stake)
  weigh_one_lem stakes t ts a = elim (Bool-cases (is_positive t)) [
    | inl favour ↦
        let against : not (is_positive t) ≡ false = ap not favour in
        rw
          (
            keep_if_yes is_positive t ts favour,
            keep_if_no (λ a. not (is_positive a)) t ts against,
            favour,
          )
          (refl, refl, refl)
    | inr against ↦
        let counted : not (is_positive t) ≡ true = ap not against in
        rw
          (
            keep_if_no is_positive t ts against,
            keep_if_yes (λ a. not (is_positive a)) t ts counted,
            against,
          )
          (refl, refl, refl)
  ]

  weigh_lem :
      (stakes : Dict Carrier) (attestations : List AttestationTransaction)
      (a : AttestationAggregation N)
      → let w = weigh stakes attestations a in
        (w.total_stake_positive
          ≡ stake_of N stakes a.total_stake_positive (keep_if is_positive attestations))
        × (w.total_stake_negative
            ≡ stake_of N stakes a.total_stake_negative
                (keep_if (λ a. not (is_positive a)) attestations))
        × (w.total_stake ≡ a.total_stake)
  unfolding weigh
  weigh_lem stakes [] a = (refl, refl, refl)
  weigh_lem stakes (t ∷ ts) a =
      let (positive, negative, total) = weigh_lem stakes ts (weigh_one stakes t a) in
      let (more, less, same) = weigh_one_lem stakes t ts a in
      (positive ∙ more, negative ∙ less, total ∙ same)

  -- What a call of `finalize_block_with_attestations` does.
  abbrev pub Finalizes :
      (h : String) (s : EnhancedPogoConsensus N) (out : Bool × EnhancedPogoConsensus N) → Type 0
  Finalizes h s out =
      let attestations = get_or h [] s.pending_attestations in
      let favour =
        le s.attestation_threshold (share N s (positive_stake N s.verifier_stakes attestations)) in
      ((out.0 ≡ true)
        × (favour ≡ true)
        × ((ref : ℕ) × (b : Block) × (get_block_by_hash h s ≡ some (ref, b))
            × (leb_ℤ s.attestation_window_blocks (pos (length s.chain) -ℤ b.index) ≡ true)
            × (out.1.chain ≡ s.chain ++ (ref ∷ []))
            × (get h out.1.pending_attestations ≡ none)))
      ⊎ ((out.0 ≡ false)
          × (out.1.chain ≡ s.chain)
          × (out.1.blocks ≡ s.blocks)
          × ((favour ≡ false) ⊎ (check_finalization_eligibility h s ≡ false)))

  -- The test on the aggregation is the test on the shares of the stake.
  aggregate_attestations-should_finalize :
      (h : String) (s : EnhancedPogoConsensus N)
      → should_finalize (aggregate_attestations h s).0 s.attestation_threshold
        ≡ le s.attestation_threshold
            (share N s (positive_stake N s.verifier_stakes (get_or h [] s.pending_attestations)))
  unfolding aggregate_attestations should_finalize
  aggregate_attestations-should_finalize h s =
      let (positive, negative, total) =
        weigh_lem s.verifier_stakes (get_or h [] s.pending_attestations) (empty_aggregation s) in
      rw (positive, total) refl

  decide_lem :
      (h : String) (a : AttestationAggregation N) (s : EnhancedPogoConsensus N)
      → ((should_finalize a s.attestation_threshold ≡ true)
          × ((ref : ℕ) × (b : Block) × (get_block_by_hash h s ≡ some (ref, b))
              × (decide h a s ≡ (true, append_block h (ref, b) s))))
        ⊎ (((decide h a s).0 ≡ false)
            × ((decide h a s).1.chain ≡ s.chain)
            × ((decide h a s).1.blocks ≡ s.blocks)
            × ((should_finalize a s.attestation_threshold ≡ false)
                ⊎ (get_block_by_hash h s ≡ none)))
  unfolding decide
  decide_lem h a s = elim (Bool-cases (should_finalize a s.attestation_threshold)) [
    | inl favour ↦ elim (Option-cases (get_block_by_hash h s)) [
      | inl unknown ↦ inr (rw (favour, unknown, decide) (refl, refl, refl, inr refl))
      | inr ((ref, b), found) ↦ inl (favour, (ref, b, found, rw (favour, found, decide) refl))
    ]
    | inr short ↦ elim (Bool-cases (should_slash a s.slashing_threshold)) [
      | inl against ↦ inr (rw (short, against, decide) (refl, refl, refl, inl refl))
      | inr open_still ↦ inr (rw (short, open_still, decide) (refl, refl, refl, inl refl))
    ]
  ]

  get_block_by_hash-aggregate_attestations :
      (h : String) (s : EnhancedPogoConsensus N)
      → get_block_by_hash h (aggregate_attestations h s).1 ≡ get_block_by_hash h s
  unfolding aggregate_attestations get_block_by_hash
  get_block_by_hash-aggregate_attestations h s = refl

  check_finalization_eligibility-get_block_by_hash :
      (h : String) (s : EnhancedPogoConsensus N) (ref : ℕ) (b : Block)
      → get_block_by_hash h s ≡ some (ref, b)
      → check_finalization_eligibility h s
        ≡ leb_ℤ s.attestation_window_blocks (pos (length s.chain) -ℤ b.index)
  unfolding check_finalization_eligibility
  check_finalization_eligibility-get_block_by_hash h s ref b found =
      rw (found, check_finalization_eligibility) refl

  check_finalization_eligibility-none :
      (h : String) (s : EnhancedPogoConsensus N)
      → get_block_by_hash h s ≡ none
      → check_finalization_eligibility h s ≡ false
  unfolding check_finalization_eligibility
  check_finalization_eligibility-none h s unknown =
      rw (unknown, check_finalization_eligibility) refl

  decide-Finalizes :
      (h : String) (s : EnhancedPogoConsensus N)
      → check_finalization_eligibility h s ≡ true
      → let (a, t) = aggregate_attestations h s in Finalizes h s (decide h a t)
  unfolding aggregate_attestations
  decide-Finalizes h s eligible =
      let (a, t) = aggregate_attestations h s in
      let test = aggregate_attestations-should_finalize h s in
      let known = get_block_by_hash-aggregate_attestations h s in
      elim (decide_lem h a t) [
        | inl (favour, (ref, b, found, done)) ↦
            let there = sym known ∙ found in
            inl (
              ap (λ o. o.0) done,
              sym test ∙ favour,
              (
                ref,
                b,
                there,
                sym (check_finalization_eligibility-get_block_by_hash h s ref b there) ∙ eligible,
                ap (λ (o : Bool × EnhancedPogoConsensus N). o.1.chain) done,
                ap (λ (o : Bool × EnhancedPogoConsensus N). get h o.1.pending_attestations) done
                    ∙ get-del_self h s.pending_attestations,
              ),
            )
        | inr (refused, chain, blocks, why) ↦ inr (
          refused,
          chain,
          blocks,
          elim why [
            | inl short ↦ inl (sym test ∙ short)
            | inr unknown ↦ inr (check_finalization_eligibility-none h s (sym known ∙ unknown))
          ],
        )
      ]

  -- A call finalizes a block, or it leaves the chain and the blocks as they are. It finalizes exactly a
  -- known block whose window has passed and whose positive attestations have the threshold's share of
  -- all stake, each attestation counted on its own: then the block is the new end of the chain, and its
  -- attestations are no longer pending.
  pub finalize_block_with_attestations-Finalizes :
      (h : String) (s : EnhancedPogoConsensus N)
      → Finalizes h s (finalize_block_with_attestations h s)
  unfolding finalize_block_with_attestations
  finalize_block_with_attestations-Finalizes h s =
      elim (Bool-cases (check_finalization_eligibility h s)) [
        | inl eligible ↦
            let (a, t) = aggregate_attestations h s in
            let whole : finalize_block_with_attestations h s ≡ decide h a t =
              rw (eligible, finalize_block_with_attestations) refl in
            subst (Finalizes h s) (sym whole) (decide-Finalizes h s eligible)
        | inr early ↦
            rw (early, finalize_block_with_attestations) (inr (refl, refl, refl, inr refl))
      ]
