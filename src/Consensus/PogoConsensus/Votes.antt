-- ===== src/Consensus/PogoConsensus/Votes.antt =====
-- dessin/consensus/consensus.py: the votes on a block.
use dessin.Prelude.{
  ◌≡◌, refl, inl, inr, Bool, none, some, List, [], ◌∷◌, ◌++◌, String, ◌==◌, if◌then◌else◌, count_if,
  Bool-cases, Option-cases, ap, ◌∙◌, sym, arith, eq_iff, ltb,
}
use dessin.Dict.{get_or, get_or-set}
use dessin.Num.{Num}
use dessin.Consensus.SlashingMechanism.Attestations.{AttestationTransaction}
use dessin.Consensus.PogoConsensus.{
  Fields, PogoBlock, Codec, Hooks, Message, PogoConsensus, pogo_block, pogo_transaction, control,
  other, block_of, add_attestation, finalize_block, add_block, add_message, add_old_block, item,
}
use dessin.Consensus.PogoConsensus.Growth.{Call, gossip, vote, finalize, mined, step, run}

-- The attestation votes for its block in the place of no earlier one of its sender.
abbrev pub repeats : AttestationTransaction → List AttestationTransaction → Bool
repeats a votes = ltb 0 (count_if (λ (b : AttestationTransaction). b.sender == a.sender) votes)

-- The first attestation of each sender, after the ones there are.
abbrev pub first_of_each :
    List AttestationTransaction → List AttestationTransaction → List AttestationTransaction
first_of_each [] votes = votes
first_of_each (a ∷ more) votes =
    first_of_each more (if repeats a votes then votes else votes ++ (a ∷ []))

-- The attestations that a history brings for a block.
abbrev pub votes_for : {R : Fields} → String → List (Call R) → List AttestationTransaction
votes_for h [] = []
votes_for h (gossip message ∷ calls) = votes_for h calls
votes_for h (finalize b ∷ calls) = votes_for h calls
votes_for h (mined b ∷ calls) = votes_for h calls
votes_for h (vote block_hash a ∷ calls) =
    let rest = votes_for h calls in if block_hash == h then a ∷ rest else rest

first_of_each-votes_for :
    {R : Fields} (h : String) (call : Call R) (calls : List (Call R))
    (votes : List AttestationTransaction)
    → first_of_each (votes_for h (call ∷ calls)) votes
      ≡ first_of_each (votes_for h calls) (first_of_each (votes_for h (call ∷ [])) votes)
first_of_each-votes_for h (gossip message) calls votes = refl
first_of_each-votes_for h (finalize b) calls votes = refl
first_of_each-votes_for h (mined b) calls votes = refl
first_of_each-votes_for h (vote block_hash a) calls votes = elim (Bool-cases (block_hash == h)) [
  | inl here ↦ rw here refl
  | inr elsewhere ↦ rw elsewhere refl
]

module _ {R : Fields} {S : Type 0} (c : Codec R) (hooks : Hooks R S) (N : Num)
    (threshold : N.Carrier) where
  add_old_block-attestations :
      (b : PogoBlock R) (s : PogoConsensus R S)
      → (add_old_block c hooks b s).attestations ≡ s.attestations
  add_old_block-attestations b s = elim (Option-cases (item s.chain b.index)) [
    | inl nowhere ↦ rw (nowhere, add_old_block) refl
    | inr (incumbent, there) ↦ rw (there, add_old_block) (ground arith)
  ]

  add_block-attestations :
      (b : PogoBlock R) (s : PogoConsensus R S)
      → (add_block c hooks b s).attestations ≡ s.attestations
  unfolding add_block
  add_block-attestations b s = ground (arith, add_old_block-attestations b s)

  add_message-attestations :
      (message : Message R) (s : PogoConsensus R S)
      → (add_message c hooks message s).attestations ≡ s.attestations
  unfolding add_message
  add_message-attestations (pogo_block none block_hash has_height) s = refl
  add_message-attestations (pogo_block (some d) block_hash has_height) s =
      elim (Option-cases (block_of c d)) [
        | inl unreadable ↦ rw (unreadable, add_message) refl
        | inr (b, read) ↦ rw (read, add_message) (add_block-attestations b s)
      ]
  add_message-attestations (pogo_transaction has_data) s = refl
  add_message-attestations control s = refl
  add_message-attestations other s = refl

  finalize_block-attestations :
      (b : PogoBlock R) (s : PogoConsensus R S)
      → (finalize_block hooks N threshold b s).1.attestations ≡ s.attestations
  unfolding finalize_block
  finalize_block-attestations b s = ground arith

  add_attestation-attestations :
      (h block_hash : String) (a : AttestationTransaction) (s : PogoConsensus R S)
      → get_or h [] (add_attestation block_hash a s).1.attestations
        ≡ first_of_each (votes_for {R = R} h (vote block_hash a ∷ [])) (get_or h [] s.attestations)
  unfolding add_attestation
  add_attestation-attestations h block_hash a s =
      let held = get_or block_hash [] s.attestations in
      elim (Bool-cases (repeats a held)) [
        | inl again ↦
            rw (again, get_or-set block_hash h [] held s.attestations)
              (elim (Bool-cases (block_hash == h)) [
                | inl here ↦
                    let same : h ≡ block_hash = ground (arith, here, eq_iff block_hash h) in
                    rw (here, ap (λ k. get_or k [] s.attestations) same, again) refl
                | inr elsewhere ↦ rw elsewhere refl
              ])
        | inr first ↦
            rw (first, get_or-set block_hash h [] (held ++ (a ∷ [])) s.attestations)
              (elim (Bool-cases (block_hash == h)) [
                | inl here ↦
                    let same : h ≡ block_hash = ground (arith, here, eq_iff block_hash h) in
                    rw (here, ap (λ k. get_or k [] s.attestations) same, first) refl
                | inr elsewhere ↦ rw elsewhere refl
              ])
      ]

  step-attestations :
      (h : String) (call : Call R) (s : PogoConsensus R S)
      → get_or h [] (step c hooks N threshold call s).attestations
        ≡ first_of_each (votes_for h (call ∷ [])) (get_or h [] s.attestations)
  unfolding step
  step-attestations h (gossip message) s = ap (get_or h []) (add_message-attestations message s)
  step-attestations h (vote block_hash a) s = add_attestation-attestations h block_hash a s
  step-attestations h (finalize b) s = ap (get_or h []) (finalize_block-attestations b s)
  step-attestations h (mined b) s = refl

  -- After any history, the attestations that a node holds for a block are the ones it held before and,
  -- of all that the history brings for the block, the first of each sender that has none there yet, in
  -- the order in which they came.
  pub run-attestations :
      (h : String) (calls : List (Call R)) (s : PogoConsensus R S)
      → get_or h [] (run c hooks N threshold calls s).attestations
        ≡ first_of_each (votes_for h calls) (get_or h [] s.attestations)
  unfolding run
  run-attestations h [] s = refl
  run-attestations h (call ∷ calls) s =
      let t = step c hooks N threshold call s in
      run-attestations h calls t
      ∙ ap (first_of_each (votes_for h calls)) (step-attestations h call s)
      ∙ sym (first_of_each-votes_for h call calls (get_or h [] s.attestations))
