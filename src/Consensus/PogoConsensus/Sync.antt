-- ===== src/Consensus/PogoConsensus/Sync.antt =====
-- dessin/consensus/consensus.py: a node that is behind catches up with the blocks that a peer gossips.
use mathlib.Core.Path.{subst}
use dessin.Prelude.{
  ◌≡◌, ◌<◌, refl, inl, inr, Bool, true, false, some, List, [], ◌∷◌, ◌++◌, String, ◌==◌, length,
  length-append, append_assoc, append-nil, All, Bool-cases, ap, ◌∙◌, sym, arith, map, not, ◌&&◌,
  eq_refl,
}
use dessin.Prelude.Int.{pos, eq_ℤ, ltb_ℤ, parts_of_eq}
use dessin.Consensus.PogoConsensus.{
  Fields, PogoBlock, Codec, Hooks, Message, PogoConsensus, commit, has_digest, add_block,
  add_message, block_message, gossip_object, add_old_block, item, build_canonical_genesis_block,
}
use dessin.Consensus.PogoConsensus.Append.{add_block_cases}
use dessin.Consensus.PogoConsensus.Growth.{IsIndexed}
use dessin.Consensus.PogoConsensus.Positions.{
  as_received, Agree, Agree-append, length-Agree, Agree-middle, IsFresh-Agree, IsReadable, IsFresh,
  IsHashed, IsHashed-front, block_of-to_dict, after_digest-append, IsIndexed-middle, All-middle,
  IsIndexed-front, All-front, IsHashed-middle, count_if-IsFresh,
}

module _ {R : Fields} {S : Type 0} (c : Codec R) (hooks : Hooks R S) where
  -- Messages in the order in which they come.
  unfoldable pub receive : List (Message R) → PogoConsensus R S → PogoConsensus R S
  receive [] s = s
  receive (message ∷ messages) s = receive messages (add_message c hooks message s)

  receive-append :
      (ms ns : List (Message R)) (s : PogoConsensus R S)
      → receive (ms ++ ns) s ≡ receive ns (receive ms s)
  unfolding receive
  receive-append [] ns s = refl
  receive-append (m ∷ ms) ns s = receive-append ms ns (add_message c hooks m s)

  add_message-block_message :
      (b : PogoBlock R) (s : PogoConsensus R S)
      → IsReadable c b
      → (b.hash == "") ≡ false
      → add_message c hooks (block_message c b) s ≡ add_block c hooks (as_received b) s
  unfolding add_message
  add_message-block_message b s read named = rw (block_of-to_dict c b read named, add_message) refl

  -- A block of height 0 that is not the network's genesis block.
  abbrev foreign : PogoBlock R → Bool
  foreign b = eq_ℤ b.index (pos 0) && not (b.hash == (build_canonical_genesis_block c).hash)

  -- A block whose height and hash the chain has changes nothing.
  add_block_known :
      (us ws : List (PogoBlock R)) (b : PogoBlock R) (s : PogoConsensus R S)
      → Agree s.chain (us ++ (b ∷ ws))
      → b.index ≡ pos (length us)
      → add_block c hooks (as_received b) s ≡ s
  unfolding add_block
  add_block_known us ws b s agree index = elim (Bool-cases (foreign b)) [
    | inl other ↦ rw (other, add_block) refl
    | inr ours ↦
        let (incumbent, found, e) = Agree-middle s.chain us ws b agree in
        let there : item s.chain b.index ≡ some incumbent = ap (item s.chain) index ∙ found in
        let old : ltb_ℤ b.index (pos (length s.chain)) ≡ true =
          rw (index, length-Agree s.chain (us ++ (b ∷ ws)) agree, length-append us (b ∷ ws))
            (ground arith) in
        let same : (incumbent.hash == b.hash) ≡ true = rw e (eq_refl b.hash) in
        rw (ours, old, there, same, add_block, add_old_block) refl
  ]

  -- The block at the next height joins the chain.
  add_block_next :
      (b : PogoBlock R) (s : PogoConsensus R S)
      → 0 < length s.chain
      → b.index ≡ pos (length s.chain)
      → IsFresh b.hash s.chain
      → add_block c hooks b s ≡ commit hooks b s
  unfolding has_digest
  add_block_next b s begun next fresh = elim (add_block_cases c hooks b s) [
    | inl (_, e) ↦ e
    | inr (refused, _) ↦
        let new : has_digest b.hash s ≡ false = rw (count_if-IsFresh b.hash s.chain fresh) refl in
        absurd (refused (next, new, λ first. ground (arith, begun, parts_of_eq (sym first ∙ next))))
  ]

  receive_known :
      (us vs ws : List (PogoBlock R)) (s : PogoConsensus R S)
      → Agree s.chain (us ++ (vs ++ ws))
      → All (IsReadable c) (us ++ (vs ++ ws))
      → IsIndexed 0 (us ++ (vs ++ ws))
      → IsHashed (us ++ (vs ++ ws))
      → receive (map (block_message c) vs) s ≡ s
  unfolding receive
  receive_known us [] ws s agree readable indexed hashed = refl
  receive_known us (v ∷ vs) ws s agree readable indexed hashed =
      let index = IsIndexed-middle 0 us (vs ++ ws) v indexed in
      let (named, _) = IsHashed-middle us (vs ++ ws) v hashed in
      let same : add_message c hooks (block_message c v) s ≡ s =
        add_message-block_message v s (All-middle (IsReadable c) us (vs ++ ws) v readable) named
        ∙ add_block_known us (vs ++ ws) v s agree (index ∙ ap pos (omega arith)) in
      let shift = sym (append_assoc us (v ∷ []) (vs ++ ws)) in
      ap (receive (map (block_message c) vs)) same
      ∙ receive_known (us ++ (v ∷ [])) vs ws s (subst (Agree s.chain) shift agree)
          (subst (All (IsReadable c)) shift readable) (subst (IsIndexed 0) shift indexed)
          (subst IsHashed shift hashed)

  receive_next :
      (ps xs : List (PogoBlock R)) (s : PogoConsensus R S)
      → Agree s.chain ps
      → All (IsReadable c) (ps ++ xs)
      → 0 < length s.chain
      → IsIndexed 0 (ps ++ xs)
      → IsHashed (ps ++ xs)
      → (receive (map (block_message c) xs) s).chain ≡ s.chain ++ map as_received xs
  unfolding receive
  receive_next ps [] s agree readable begun indexed hashed = sym (append-nil s.chain)
  receive_next ps (x ∷ xs) s agree readable begun indexed hashed =
      let index = IsIndexed-middle 0 ps xs x indexed in
      let (named, fresh) = IsHashed-middle ps xs x hashed in
      let here = IsFresh-Agree x.hash s.chain ps agree fresh in
      let next : x.index ≡ pos (length s.chain) =
        index ∙ ap pos (omega (arith, length-Agree s.chain ps agree)) in
      let t = commit hooks (as_received x) s in
      let joined : add_message c hooks (block_message c x) s ≡ t =
        add_message-block_message x s (All-middle (IsReadable c) ps xs x readable) named
        ∙ add_block_next (as_received x) s begun next here in
      let whole = sym (append_assoc ps (x ∷ []) xs) in
      ap (λ (u : PogoConsensus R S). (receive (map (block_message c) xs) u).chain) joined
      ∙ receive_next (ps ++ (x ∷ [])) xs t (Agree-append s.chain ps x agree)
          (subst (All (IsReadable c)) whole readable)
          (rw (length-append s.chain (as_received x ∷ [])) (omega arith))
          (subst (IsIndexed 0) whole indexed) (subst IsHashed whole hashed)
      ∙ append_assoc s.chain (as_received x ∷ []) (map as_received xs)

  map-append :
      (xs ys : List (PogoBlock R))
      → map (block_message c) (xs ++ ys) ≡ map (block_message c) xs ++ map (block_message c) ys
  map-append [] ys = refl
  map-append (x ∷ xs) ys = ap (λ ms. block_message c x ∷ ms) (map-append xs ys)

  -- Any part of the chain that is further than the node's own brings it up to date.
  receive_from :
      (us vs xs : List (PogoBlock R)) (s : PogoConsensus R S)
      → Agree s.chain (us ++ vs)
      → All (IsReadable c) ((us ++ vs) ++ xs)
      → 0 < length s.chain
      → IsIndexed 0 ((us ++ vs) ++ xs)
      → IsHashed ((us ++ vs) ++ xs)
      → (receive (map (block_message c) (vs ++ xs)) s).chain ≡ s.chain ++ map as_received xs
  receive_from us vs xs s agree readable begun indexed hashed =
      let old = map (block_message c) vs in
      let new = map (block_message c) xs in
      let end = ap (λ ys. us ++ ys) (sym (append-nil vs)) in
      let known : receive old s ≡ s =
        receive_known us vs [] s (subst (Agree s.chain) end agree)
          (subst (All (IsReadable c)) end (All-front (IsReadable c) (us ++ vs) xs readable))
          (subst (IsIndexed 0) end (IsIndexed-front 0 (us ++ vs) xs indexed))
          (subst IsHashed end (IsHashed-front (us ++ vs) xs hashed)) in
      ap (λ ms. (receive ms s).chain) (map-append vs xs)
      ∙ ap (λ (t : PogoConsensus R S). t.chain) (receive-append old new s)
      ∙ ap (λ (t : PogoConsensus R S). (receive new t).chain) known
      ∙ receive_next (us ++ vs) xs s agree readable begun indexed hashed

  -- A peer's chain starts with blocks that have the indices and hashes of the node's chain, which is not
  -- empty, and goes on with the blocks that the node lacks. The peer's blocks are numbered by their
  -- positions and have different hashes, none of them empty, and reading a proof's hexadecimal text
  -- gives the proof. The peer is asked for the blocks after some digest that is not the hash of a block
  -- that the node lacks, known to the peer or not. Processing the peer's answer in order then appends
  -- the blocks that the node lacks to its chain, in their order and as gossip leaves them: without their
  -- attestations, their finalization block and their block time, all else as the peer has it.
  pub gossip_object-syncs :
      {T : Type 0} (digest : String) (ps xs : List (PogoBlock R)) (peer : PogoConsensus R T)
      (s : PogoConsensus R S)
      → peer.chain ≡ ps ++ xs
      → Agree s.chain ps
      → All (IsReadable c) peer.chain
      → 0 < length s.chain
      → IsIndexed 0 peer.chain
      → IsHashed peer.chain
      → IsFresh digest xs
      → (receive (gossip_object c digest peer) s).chain ≡ s.chain ++ map as_received xs
  unfolding gossip_object
  gossip_object-syncs digest ps xs peer s e agree readable begun indexed hashed fresh =
      let indexed_here = subst (IsIndexed 0) e indexed in
      let readable_here = subst (All (IsReadable c)) e readable in
      let hashed_here = subst IsHashed e hashed in
      elim (after_digest-append digest ps xs fresh) [
        | inl unknown ↦
            rw (e, unknown)
              (receive_from [] ps xs s agree readable_here begun indexed_here hashed_here)
        | inr (us, vs, split, found) ↦
            let cut = ap (λ ys. ys ++ xs) split in
            rw (e, found)
              (receive_from us vs xs s (subst (Agree s.chain) split agree)
                (subst (All (IsReadable c)) cut readable_here) begun
                (subst (IsIndexed 0) cut indexed_here) (subst IsHashed cut hashed_here))
      ]
