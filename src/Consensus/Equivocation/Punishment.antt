-- ===== src/Consensus/Equivocation/Punishment.antt =====
-- dessin/consensus: what two blocks at one height under one miner's name cost that miner.
use mathlib.Core.Path.{subst}
use dessin.Prelude.{
  ℕ, zero, suc, ◌≡◌, ◌≢◌, refl, inl, inr, true, false, not, Option, some, List, [], ◌∷◌, ◌++◌,
  String, ◌==◌, length, get_elem?, count_if, Bool-cases, ap, ◌∙◌, sym, arith,
}
use dessin.Prelude.Int.{ℤ, pos, negsuc, ◌-ℤ◌, ◌≤ℤ◌, leb_ℤ, ltb_ℤ, eq_ℤ, eq_ℤ→eq}
use dessin.Num.{Num}
use dessin.Num.Units.{Scale}
use dessin.Economics.EconomicSystem.{get_staked_amount, get_balance}
use dessin.Economics.EconomicSystem.Holdings.{U, holdings}
use dessin.Consensus.SlashingMechanism.{
  SlashingMechanism, double_signing, penalties, is_address_banned, propose_slashing, apply_slashing,
  proposed,
}
use dessin.Consensus.SlashingMechanism.Bans.{is_address_banned-apply_slashing}
use dessin.Consensus.SlashingMechanism.Penalties.{
  asked, apply_slashing-propose_slashing, propose_slashing-file, ban-frame, last,
}
use dessin.Consensus.PogoConsensus.{
  Fields, PogoBlock, Codec, Hooks, PogoConsensus, item, add_old_block, add_block,
}
use dessin.Consensus.Equivocation.{Watch, punish, handle_potential_equivocation, watching}

get_elem?-below :
    {A : Type 0} (xs : List A) (i : ℕ) (x : A)
    → get_elem? xs i ≡ some x
    → ltb_ℤ (pos i) (pos (length xs)) ≡ true
get_elem?-below [] i x e = cc
get_elem?-below (y ∷ xs) zero x e = ground arith
get_elem?-below (y ∷ xs) (suc i) x e = ground (arith, get_elem?-below xs i x e)

item-below :
    {A : Type 0} (xs : List A) (i : ℤ) (x : A)
    → item xs i ≡ some x
    → ltb_ℤ i (pos (length xs)) ≡ true
item-below xs (pos i) x e = get_elem?-below xs i x e
item-below xs (negsuc i) x e = ground arith

module _ {R : Fields} {S : Type 0} (c : Codec R) (hooks : Hooks R S) where
  -- Gossip of a second block hands both to the hook.
  add_block-hook :
      (incumbent b : PogoBlock R) (s : PogoConsensus R S)
      → b.index ≢ pos 0
      → item s.chain b.index ≡ some incumbent
      → (incumbent.hash == b.hash) ≡ false
      → (incumbent.miner == b.miner) ≡ true
      → add_block c hooks b s
        ≡ record s { own = hooks.handle_potential_equivocation incumbent b s.own }
  unfolding add_block
  add_block-hook incumbent b s later there other same =
      let below = item-below s.chain b.index incumbent there in
      elim (Bool-cases (eq_ℤ b.index (pos 0))) [
        | inl first ↦ absurd (later (eq_ℤ→eq b.index (pos 0) first))
        | inr past ↦ rw (past, below, there, other, same, add_block, add_old_block) refl
      ]

module _ {N : Num} where
  punish-some :
      (now later : N.Carrier) (a : String) (b : ℤ) (ref : ℕ) (out : Option ℕ × SlashingMechanism N)
      → out.0 ≡ some ref
      → punish now later a b out ≡ (apply_slashing later ref b out.1).1
  unfolding punish
  punish-some now later a b ref out e = rw (e, punish) refl

  -- The event of a proposal stands under its number.
  propose_slashing-event :
      (now : N.Carrier) (h a : String) (reporter : String) (s : SlashingMechanism N)
      → (is_address_banned now a s).0 ≡ false
      → N.le (get_staked_amount a s.economic_system) N.nought ≡ false
      → let v = (is_address_banned now a s).1 in
        get_elem? (propose_slashing now h a double_signing reporter s).1.events (length s.events)
        ≡ some (proposed h a double_signing reporter v)
  propose_slashing-event now h a reporter s free staked =
      let v = (is_address_banned now a s).1 in
      let e = proposed h a double_signing reporter v in
      let (economy, events, threshold) = ban-frame now a s in
      ap (λ (out : Option ℕ × SlashingMechanism N). get_elem? out.1.events (length s.events))
        (propose_slashing-file now h a double_signing reporter s free staked)
      ∙ ap (λ es. get_elem? (v.events ++ (e ∷ [])) (length es)) (sym events)
      ∙ last v.events e

module _ (k : Scale) where
  -- What a double signing comes to for the miner `a`: `s` before, `t` after.
  abbrev pub Punished : (later : ℤ) (a : String) (s t : SlashingMechanism (U k)) → Type 0
  Punished later a s t =
      let share = asked k a double_signing s.economic_system in
      (get_staked_amount a t.economic_system ≡ get_staked_amount a s.economic_system -ℤ share)
      × (holdings k t.economic_system ≡ holdings k s.economic_system -ℤ share)
      × ((at_time : ℤ)
          → (is_address_banned at_time a t).0
            ≡ not (ltb_ℤ ((U k).add later ((U k).of_int (pos 86400))) at_time))

  punish-Punished :
      (now later : ℤ) (h a : String) (b : ℤ) (s : SlashingMechanism (U k))
      → (is_address_banned now a s).0 ≡ false
      → leb_ℤ (get_staked_amount a s.economic_system) (pos 0) ≡ false
      → pos 0 ≤ℤ asked k a double_signing s.economic_system
      → asked k a double_signing s.economic_system ≤ℤ get_staked_amount a s.economic_system
      → pos 0 ≤ℤ get_balance a s.economic_system
      → Punished later a s
          (punish now later a b (propose_slashing now h a double_signing "pogo_equivocation" s))
  unfolding penalties
  punish-Punished now later h a b s free staked nonneg fits balance =
      let out = propose_slashing now h a double_signing "pogo_equivocation" s in
      let (filed, done, stake, balanced, held, applied) =
        apply_slashing-propose_slashing k now later h a double_signing "pogo_equivocation" b s free
          staked nonneg fits balance in
      let r = length s.events in
      let u = (apply_slashing later r b out.1).1 in
      let v = (is_address_banned now a s).1 in
      let e = proposed h a double_signing "pogo_equivocation" v in
      let found = propose_slashing-event {N = U k} now h a "pogo_equivocation" s free staked in
      subst (Punished later a s) (sym (punish-some {N = U k} now later a b r out filed)) (
        stake,
        held,
        λ at_time. is_address_banned-apply_slashing {N = U k} later at_time r b e out.1 found done,
      )

  -- A block comes by gossip at a height, other than the first, at which the chain has a block with
  -- another hash and the same name for its miner, and no two blocks were noted for that name and
  -- height before. The named miner is not banned, has stake, the share for double signing is at least
  -- nothing and at most the stake, and the balance is not negative. Then the chain stays, the share is
  -- taken from the stake and from all holdings, the miner is banned for a day, and the height is noted.
  -- Nothing else of the block matters, its proof and its previous hash included.
  pub add_block-Punished :
      {R : Fields} (c : Codec R) (key : String → ℤ → String) (now later : ℤ)
      (observe : PogoBlock R → Watch (U k) → Watch (U k)) (incumbent b : PogoBlock R)
      (s : PogoConsensus R (Watch (U k)))
      → b.index ≢ pos 0
      → item s.chain b.index ≡ some incumbent
      → (incumbent.hash == b.hash) ≡ false
      → (incumbent.miner == b.miner) ≡ true
      → let noted = s.own.equivocation_slash_keys in
        let m = s.own.slashing_mechanism in
        let name = key b.miner b.index in
        count_if (λ (j : String). j == name) noted ≡ 0
        → (is_address_banned now b.miner m).0 ≡ false
        → leb_ℤ (get_staked_amount b.miner m.economic_system) (pos 0) ≡ false
        → pos 0 ≤ℤ asked k b.miner double_signing m.economic_system
        → asked k b.miner double_signing m.economic_system
          ≤ℤ get_staked_amount b.miner m.economic_system
        → pos 0 ≤ℤ get_balance b.miner m.economic_system
        → let t = add_block c (watching key now later observe) b s in
          (t.chain ≡ s.chain)
          × (t.own.equivocation_slash_keys ≡ name ∷ noted)
          × Punished later b.miner m t.own.slashing_mechanism
  unfolding handle_potential_equivocation
  add_block-Punished c key now later observe incumbent b s height there other same unseen free
        staked nonneg fits balance =
      let hooks = watching key now later observe in
      let name = key b.miner b.index in
      let noted = s.own.equivocation_slash_keys in
      let m = s.own.slashing_mechanism in
      let whole = add_block-hook c hooks incumbent b s height there other same in
      let punished =
        punish-Punished now later b.hash b.miner b.index m free staked nonneg fits balance in
      rw (whole, unseen, handle_potential_equivocation) (refl, refl, punished)
