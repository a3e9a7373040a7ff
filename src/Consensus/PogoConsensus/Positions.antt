-- ===== src/Consensus/PogoConsensus/Positions.antt =====
-- dessin/consensus/consensus.py: where a block stands in a chain, by its index and its hash.
use dessin.Prelude.{
  ℕ, suc, ◌+◌, ◌≡◌, ◌⊎◌, refl, inl, inr, false, none, some, List, [], ◌∷◌, ◌++◌, String, ◌==◌,
  length, get_elem?, count_if, All, Bool-cases, ap, ◌∙◌, arith, eq_iff,
}
use dessin.Prelude.Int.{pos}
use dessin.Consensus.PogoConsensus.{Fields, PogoBlock, Codec, block_of, to_dict, after_digest}
use dessin.Consensus.PogoConsensus.Growth.{IsIndexed}

-- `bytes.fromhex(proof.hex())` is the proof again.
abbrev pub IsReadable : {R : Fields} → Codec R → PogoBlock R → Type 0
IsReadable c b = c.fromhex (c.hex b.vrf_proof) ≡ some b.vrf_proof

module _ {R : Fields} where
  -- No block has the hash.
  abbrev pub IsFresh : String → List (PogoBlock R) → Type 0
  IsFresh hash bs = All (λ (b : PogoBlock R). (b.hash == hash) ≡ false) bs

  -- The blocks have different hashes, none of them empty.
  abbrev pub IsHashed : List (PogoBlock R) → Type 0
  IsHashed [] = Unit
  IsHashed (b ∷ bs) = ((b.hash == "") ≡ false) × IsFresh b.hash bs × IsHashed bs

  -- What gossip leaves of a block: its attestations, its finalization block and its block time are lost.
  abbrev pub as_received : PogoBlock R → PogoBlock R
  as_received b = record b {
    finalization_block = none;
    attestations = [];
    block_time = R.default_block_time;
  }

  -- The blocks have the same indices and hashes.
  abbrev pub Agree : (bs cs : List (PogoBlock R)) → Type 0
  Agree [] [] = Unit
  Agree [] (c ∷ cs) = ⊥
  Agree (b ∷ bs) [] = ⊥
  Agree (b ∷ bs) (c ∷ cs) = (b.index ≡ c.index) × (b.hash ≡ c.hash) × Agree bs cs

  pub Agree-append :
      (bs cs : List (PogoBlock R)) (x : PogoBlock R)
      → Agree bs cs
      → Agree (bs ++ (as_received x ∷ [])) (cs ++ (x ∷ []))
  Agree-append [] [] x h = (refl, refl, tt)
  Agree-append [] (c ∷ cs) x h = absurd h
  Agree-append (b ∷ bs) [] x h = absurd h
  Agree-append (b ∷ bs) (c ∷ cs) x (i, e, h) = (i, e, Agree-append bs cs x h)

  pub length-Agree : (bs cs : List (PogoBlock R)) → Agree bs cs → length bs ≡ length cs
  length-Agree [] [] h = refl
  length-Agree [] (c ∷ cs) h = absurd h
  length-Agree (b ∷ bs) [] h = absurd h
  length-Agree (b ∷ bs) (c ∷ cs) (i, e, h) = ap suc (length-Agree bs cs h)

  -- The block that stands where a peer's block stands.
  pub Agree-middle :
      (bs us vs : List (PogoBlock R)) (x : PogoBlock R)
      → Agree bs (us ++ (x ∷ vs))
      → (b : PogoBlock R) × (get_elem? bs (length us) ≡ some b) × (b.hash ≡ x.hash)
  Agree-middle [] [] vs x h = absurd h
  Agree-middle [] (u ∷ us) vs x h = absurd h
  Agree-middle (b ∷ bs) [] vs x (i, e, h) = (b, refl, e)
  Agree-middle (b ∷ bs) (u ∷ us) vs x (i, e, h) = Agree-middle bs us vs x h

  pub IsFresh-Agree :
      (hash : String) (bs cs : List (PogoBlock R)) → Agree bs cs → IsFresh hash cs → IsFresh hash bs
  IsFresh-Agree hash [] [] h fresh = tt
  IsFresh-Agree hash [] (c ∷ cs) h fresh = absurd h
  IsFresh-Agree hash (b ∷ bs) [] h fresh = absurd h
  IsFresh-Agree hash (b ∷ bs) (c ∷ cs) (i, e, h) (other, fresh) =
      (ap (λ x. x == hash) e ∙ other, IsFresh-Agree hash bs cs h fresh)

  pub block_of-to_dict :
      (c : Codec R) (b : PogoBlock R)
      → IsReadable c b
      → (b.hash == "") ≡ false
      → block_of c (to_dict c b) ≡ some (as_received b)
  unfolding block_of to_dict
  block_of-to_dict c b read named = rw (read, named) refl

  pub after_digest-IsFresh :
      (digest : String) (bs : List (PogoBlock R))
      → IsFresh digest bs
      → after_digest digest bs ≡ none
  unfolding after_digest
  after_digest-IsFresh digest [] h = refl
  after_digest-IsFresh digest (b ∷ bs) (e, h) = rw (after_digest-IsFresh digest bs h, e) refl

  -- What a peer sends: a part of the chain that ends with all the blocks past `ps`.
  pub after_digest-append :
      (digest : String) (ps xs : List (PogoBlock R))
      → IsFresh digest xs
      → (after_digest digest (ps ++ xs) ≡ none)
        ⊎ ((us vs : List (PogoBlock R)) × (ps ≡ us ++ vs)
            × (after_digest digest (ps ++ xs) ≡ some (vs ++ xs)))
  unfolding after_digest
  after_digest-append digest [] xs h = inl (after_digest-IsFresh digest xs h)
  after_digest-append digest (p ∷ ps) xs h = elim (Bool-cases (p.hash == digest)) [
    | inl here ↦ inr (p ∷ [], ps, refl, rw here refl)
    | inr elsewhere ↦ elim (after_digest-append digest ps xs h) [
      | inl nowhere ↦ inl (rw (elsewhere, nowhere) refl)
      | inr (us, vs, e, there) ↦ inr (p ∷ us, vs, ap (λ bs. p ∷ bs) e, rw (elsewhere, there) refl)
    ]
  ]

  pub get_elem?-middle :
      (us vs : List (PogoBlock R)) (b : PogoBlock R)
      → get_elem? (us ++ (b ∷ vs)) (length us) ≡ some b
  get_elem?-middle [] vs b = refl
  get_elem?-middle (u ∷ us) vs b = get_elem?-middle us vs b

  pub IsIndexed-middle :
      (n : ℕ) (us vs : List (PogoBlock R)) (b : PogoBlock R)
      → IsIndexed n (us ++ (b ∷ vs))
      → b.index ≡ pos (length us + n)
  IsIndexed-middle n [] vs b (e, h) = e ∙ ap pos (omega arith)
  IsIndexed-middle n (u ∷ us) vs b (e, h) =
      IsIndexed-middle (suc n) us vs b h ∙ ap pos (omega arith)

  pub All-middle :
      (P : PogoBlock R → Type 0) (us vs : List (PogoBlock R)) (b : PogoBlock R)
      → All P (us ++ (b ∷ vs))
      → P b
  All-middle P [] vs b h = h.0
  All-middle P (u ∷ us) vs b h = All-middle P us vs b h.1

  pub IsIndexed-front :
      (n : ℕ) (us vs : List (PogoBlock R)) → IsIndexed n (us ++ vs) → IsIndexed n us
  IsIndexed-front n [] vs h = tt
  IsIndexed-front n (u ∷ us) vs (e, h) = (e, IsIndexed-front (suc n) us vs h)

  pub All-front :
      (P : PogoBlock R → Type 0) (us vs : List (PogoBlock R)) → All P (us ++ vs) → All P us
  All-front P [] vs h = tt
  All-front P (u ∷ us) vs (p, h) = (p, All-front P us vs h)

  pub IsHashed-front : (us vs : List (PogoBlock R)) → IsHashed (us ++ vs) → IsHashed us
  IsHashed-front [] vs h = tt
  IsHashed-front (u ∷ us) vs (named, fresh, h) = (
    named,
    All-front (λ (b : PogoBlock R). (b.hash == u.hash) ≡ false) us vs fresh,
    IsHashed-front us vs h,
  )

  -- A block has another hash than all that stand before it.
  pub IsHashed-middle :
      (us vs : List (PogoBlock R)) (b : PogoBlock R)
      → IsHashed (us ++ (b ∷ vs))
      → ((b.hash == "") ≡ false) × IsFresh b.hash us
  IsHashed-middle [] vs b (named, fresh, h) = (named, tt)
  IsHashed-middle (u ∷ us) vs b (named, fresh, h) =
      let (b_named, before) = IsHashed-middle us vs b h in
      let apart = All-middle (λ (x : PogoBlock R). (x.hash == u.hash) ≡ false) us vs b fresh in
      (b_named, (ground (arith, apart, eq_iff b.hash u.hash, eq_iff u.hash b.hash), before))

  pub count_if-IsFresh :
      (hash : String) (bs : List (PogoBlock R))
      → IsFresh hash bs
      → count_if (λ (block : PogoBlock R). block.hash == hash) bs ≡ 0
  count_if-IsFresh hash [] h = refl
  count_if-IsFresh hash (b ∷ bs) (e, h) = rw (e, count_if) (count_if-IsFresh hash bs h)
