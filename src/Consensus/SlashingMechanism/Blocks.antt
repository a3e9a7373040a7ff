-- ===== src/Consensus/SlashingMechanism/Blocks.antt =====
-- dessin/consensus/slashing_mechanism.py: the check of a block.
use dessin.Prelude.{
  ◌≡◌, ◌≢◌, ◌↔◌, ◌⊎◌, refl, true, false, [], ◌∷◌, arith, eq_iff, inl, inr, length, Bool-cases, sym,
  ◌∙◌,
}
use dessin.Prelude.Int.{pos, ◌≤ℤ◌}
use mathlib.Core.Bool.{true≢false}
use dessin.Num.{Num}
use dessin.Economics.EconomicSystem.{get_staked_amount}
use dessin.Consensus.SlashingMechanism.{
  invalid_block, SlashingMechanism, is_address_banned, proposed, file_proposal,
}
use dessin.Consensus.SlashingMechanism.Attestations.{
  PogoBlock, validate_block_basic, check_block_validity,
}
use dessin.Consensus.SlashingMechanism.Penalties.{propose_slashing-file}

module _ {N : Num} where
  -- What a block is required to be.
  abbrev pub IsSound : PogoBlock N → Type 0
  IsSound b =
      (b.hash ≢ "")
      × (b.miner ≢ "")
      × (pos 0 ≤ℤ b.index)
      × (N.lt (N.mul b.loss_before (N.dec 11 1)) b.loss_after ≡ false)
      × (pos 1 ≤ℤ b.training_steps)
      × (b.training_steps ≤ℤ pos 1000)

  validate_block_basic-IsSound : (b : PogoBlock N) → (validate_block_basic b ≡ true) ↔ IsSound b
  unfolding validate_block_basic
  validate_block_basic-IsSound b = ground (arith, eq_iff b.hash "", eq_iff b.miner "")

  -- A sound block draws no proposal and changes nothing. One that is not sound, of a miner with stake
  -- who is not banned, draws exactly one proposal, which is against its miner for an invalid block.
  pub check_block_validity_lem :
      (now : N.Carrier) (b : PogoBlock N) (s : SlashingMechanism N)
      → (is_address_banned now b.miner s).0 ≡ false
      → N.le (get_staked_amount b.miner s.economic_system) N.nought ≡ false
      → let t = (is_address_banned now b.miner s).1 in
        (IsSound b × (check_block_validity now b s ≡ ([], s)))
        ⊎ ((IsSound b → ⊥)
            × (check_block_validity now b s ≡ (
              length t.events ∷ [],
              (file_proposal (proposed b.hash b.miner invalid_block "consensus_mechanism" t) t).1,
            )))
  unfolding check_block_validity
  check_block_validity_lem now b s free staked =
      let t = (is_address_banned now b.miner s).1 in
      let filed =
        propose_slashing-file now b.hash b.miner invalid_block "consensus_mechanism" s free
          staked in
      elim (Bool-cases (validate_block_basic b)) [
        | inl sound ↦
            inl ((validate_block_basic-IsSound b).0 sound, rw (sound, check_block_validity) refl)
        | inr broken ↦ inr (
          λ sound. true≢false (sym ((validate_block_basic-IsSound b).1 sound) ∙ broken),
          rw (broken, filed, check_block_validity) refl,
        )
      ]
