-- ===== src/Consensus/SlashingMechanism/Rounds.antt =====
-- dessin/consensus/enhanced_pogo_consensus.py: `_check_and_apply_slashing`, the round of slashing over a
-- block that is finalized. One time stands for the clock during a round. Proposals and penalties catch
-- what they raise, so nothing is left for the round to catch.
use mathlib.Core.Path.{subst}
use dessin.Prelude.{
  ◌≡◌, refl, inl, inr, false, not, List, [], ◌∷◌, ◌++◌, String, ℕ, All, ◌∙◌, sym, length,
}
use dessin.Prelude.Int.{ℤ, pos, ◌+ℤ◌, ◌-ℤ◌, ◌≤ℤ◌, leb_ℤ, ltb_ℤ}
use dessin.Num.{Num}
use dessin.Num.Units.{Scale}
use dessin.Economics.EconomicSystem.{EconomicSystem, get_staked_amount, get_balance}
use dessin.Economics.EconomicSystem.Holdings.{U, holdings}
use dessin.Consensus.SlashingMechanism.{
  SlashingMechanism, invalid_block, penalties, is_address_banned, proposed, file_proposal,
  apply_slashing,
}
use dessin.Consensus.SlashingMechanism.Attestations.{
  AttestationTransaction, is_negative, PogoBlock, Counts, count_one, count_attestations,
  check_address, check_negative_attestations, check_block_validity,
}
use dessin.Consensus.SlashingMechanism.Penalties.{ban-frame, asked, file_proposal-Slashes, last}
use dessin.Consensus.SlashingMechanism.Bans.{is_address_banned-apply_slashing}
use dessin.Consensus.SlashingMechanism.Blocks.{IsSound, check_block_validity_lem}

-- Attestations that are not negative.
abbrev pub NoNegatives : List AttestationTransaction → Type 0
NoNegatives attestations = All (λ a. is_negative a ≡ false) attestations

count_attestations-NoNegatives :
    (ats : List AttestationTransaction) (c : Counts)
    → NoNegatives ats
    → (count_attestations ats c).negative_counts ≡ c.negative_counts
unfolding count_attestations
count_attestations-NoNegatives [] c h = refl
count_attestations-NoNegatives (a ∷ ats) c (fine, h) =
    count_attestations-NoNegatives ats (count_one a c) h ∙ rw fine refl

module _ {N : Num} where
  -- `for slashing_event in all_slashing_events`
  unfoldable pub apply_all :
      (now : N.Carrier) → List ℕ → (block_index : ℤ) → SlashingMechanism N → SlashingMechanism N
  apply_all now [] block_index s = s
  apply_all now (ref ∷ refs) block_index s =
      apply_all now refs block_index (apply_slashing now ref block_index s).1

  unfoldable pub check_and_apply_slashing :
      (now : N.Carrier)
      → PogoBlock N
      → (attestations : List AttestationTransaction) → SlashingMechanism N
      → SlashingMechanism N
  check_and_apply_slashing now block attestations s =
      let (block_slashing_events, t) = check_block_validity now block s in
      let (attestation_slashing_events, u) =
        check_negative_attestations now block.hash attestations t in
      apply_all now (block_slashing_events ++ attestation_slashing_events) block.index u

  check_negative_attestations-NoNegatives :
      (now : N.Carrier) (hash : String) (ats : List AttestationTransaction)
      (s : SlashingMechanism N)
      → NoNegatives ats
      → check_negative_attestations now hash ats s ≡ ([], s)
  unfolding check_negative_attestations check_address
  check_negative_attestations-NoNegatives now hash ats s h =
      let none_counted =
        count_attestations-NoNegatives ats
          (record { negative_counts = []; total_attestations = [] }) h in
      rw none_counted refl

  -- The round over such a block, once its check has made one proposal.
  check_and_apply_slashing_one :
      (now : N.Carrier) (b : PogoBlock N) (ats : List AttestationTransaction)
      (s t : SlashingMechanism N) (ref : ℕ)
      → NoNegatives ats
      → check_block_validity now b s ≡ (ref ∷ [], t)
      → check_and_apply_slashing now b ats s ≡ (apply_slashing now ref b.index t).1
  unfolding check_and_apply_slashing apply_all
  check_and_apply_slashing_one now b ats s t ref h made =
      rw (made, check_negative_attestations-NoNegatives now b.hash ats t h) refl

module _ (k : Scale) where
  -- What a round costs the miner `a` of a block that is not sound: the share of the stake for an invalid
  -- block, from the stake alone and from all holdings, and a ban for its duration.
  abbrev pub Costs :
      (now : ℤ) (a : String) (economy : EconomicSystem (U k)) (u : SlashingMechanism (U k)) → Type 0
  Costs now a economy u =
      (get_staked_amount a u.economic_system
        ≡ get_staked_amount a economy -ℤ asked k a invalid_block economy)
      × (get_balance a u.economic_system ≡ get_balance a economy)
      × (holdings k u.economic_system ≡ holdings k economy -ℤ asked k a invalid_block economy)
      × ((later : ℤ)
          → (is_address_banned later a u).0
            ≡ not (
                ltb_ℤ (now +ℤ k.of_int (penalties (U k) invalid_block).ban_duration_seconds) later))

  -- A round of slashing over a block that is not sound, whose attestations are not negative, takes from
  -- its miner the share of the stake for an invalid block and bans the miner for the duration of that
  -- penalty. The miner has stake and is not banned, the share is at least nothing and at most the stake,
  -- and the balance is not negative.
  pub check_and_apply_slashing-Costs :
      (now : ℤ) (b : PogoBlock (U k)) (ats : List AttestationTransaction)
      (s : SlashingMechanism (U k))
      → (IsSound b → ⊥)
      → NoNegatives ats
      → (is_address_banned now b.miner s).0 ≡ false
      → leb_ℤ (get_staked_amount b.miner s.economic_system) (pos 0) ≡ false
      → pos 0 ≤ℤ asked k b.miner invalid_block s.economic_system
      → asked k b.miner invalid_block s.economic_system
        ≤ℤ get_staked_amount b.miner s.economic_system
      → pos 0 ≤ℤ get_balance b.miner s.economic_system
      → Costs now b.miner s.economic_system (check_and_apply_slashing now b ats s)
  check_and_apply_slashing-Costs now b ats s unsound h free staked nonneg fits balance =
      let a = b.miner in
      let v = (is_address_banned now a s).1 in
      let e = proposed b.hash a invalid_block "consensus_mechanism" v in
      let t = (file_proposal e v).1 in
      let (economy, events, threshold) = ban-frame now a s in
      elim (check_block_validity_lem now b s free staked) [
        | inl (sound, none_made) ↦ absurd (unsound sound)
        | inr (not_sound, made) ↦
            let whole = check_and_apply_slashing_one now b ats s t (length v.events) h made in
            let (filed, done, stake, balanced, held, applied) =
              file_proposal-Slashes k now b.hash a invalid_block "consensus_mechanism" b.index v
                (subst (λ x. pos 0 ≤ℤ asked k a invalid_block x) (sym economy) nonneg)
                (subst (λ x. asked k a invalid_block x ≤ℤ get_staked_amount a x) (sym economy) fits)
                (subst (λ x. pos 0 ≤ℤ get_balance a x) (sym economy) balance) in
            let u = (apply_slashing now (length v.events) b.index t).1 in
            subst (Costs now a s.economic_system) (sym whole) (
              subst (λ x. Costs now a x u) economy
                (
                  stake,
                  balanced,
                  held,
                  λ later.
                      is_address_banned-apply_slashing now later (length v.events) b.index e t
                        (last v.events e) done,
                ))
      ]
