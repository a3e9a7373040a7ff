-- ===== src/Consensus/SlashingMechanism/Penalties.antt =====
-- dessin/consensus/slashing_mechanism.py: a proposal and what applying it takes.
use mathlib.Core.Path.{subst}
use dessin.Prelude.{
  ◌≡◌, refl, ◌⊎◌, inl, inr, true, false, Option, none, some, String, List, [], ◌∷◌, ◌++◌, arith, ℕ,
  get_elem?, length, Bool-cases, Option-cases, ◌∙◌, ap, sym,
}
use dessin.Prelude.Int.{ℤ, pos, ◌+ℤ◌, ◌-ℤ◌, ◌≤ℤ◌, leb_ℤ, ltb_ℤ, int_laws, parts_of_eq}
use dessin.Dict.{get}
use dessin.Num.{Num}
use dessin.Num.Units.{Scale}
use dessin.Economics.EconomicSystem.{EconomicSystem, get_staked_amount, get_balance}
use dessin.Economics.EconomicSystem.Holdings.{U, holdings}
use dessin.Economics.EconomicSystem.Slashing.{taken, from_stake, process_slashing_penalty_effect}
use dessin.Consensus.SlashingMechanism.{
  SlashingReason, SlashingMechanism, SlashingEvent, penalties, is_address_banned, proposed,
  file_proposal, propose_slashing, apply_slashing, enforce, conclude, penalize,
}
use dessin.Consensus.SlashingMechanism.Bans.{apply_slashing-conclude}

pub last : {A : Type 0} (xs : List A) (x : A) → get_elem? (xs ++ (x ∷ [])) (length xs) ≡ some x
last [] x = refl
last (y ∷ xs) x = last xs x

module _ {N : Num} where
  -- Asking about a ban leaves the economy, the events and the threshold alone.
  pub ban-frame :
      (now : N.Carrier) (a : String) (s : SlashingMechanism N)
      → let t = (is_address_banned now a s).1 in
        (t.economic_system ≡ s.economic_system)
        × (t.events ≡ s.events)
        × (t.slashing_threshold ≡ s.slashing_threshold)
  unfolding is_address_banned
  ban-frame now a s = elim (Option-cases (get a s.banned_addresses)) [
    | inl free ↦ rw (free, is_address_banned) (refl, refl, refl)
    | inr (ban, e) ↦ elim (Bool-cases (N.lt ban now)) [
      | inl over ↦ rw (e, over, is_address_banned) (refl, refl, refl)
      | inr on ↦ rw (e, on, is_address_banned) (refl, refl, refl)
    ]
  ]

  pub propose_slashing-file :
      (now : N.Carrier) (h a : String) (r : SlashingReason) (reporter : String)
      (s : SlashingMechanism N)
      → (is_address_banned now a s).0 ≡ false
      → N.le (get_staked_amount a s.economic_system) N.nought ≡ false
      → propose_slashing now h a r reporter s
        ≡ file_proposal
            (proposed h a r reporter (is_address_banned now a s).1)
            (is_address_banned now a s).1
  unfolding propose_slashing
  propose_slashing-file now h a r reporter s free staked =
      let same = (ban-frame now a s).0 in
      let has : N.le (get_staked_amount a (is_address_banned now a s).1.economic_system) N.nought
          ≡ false =
        ap (λ (e : EconomicSystem N). N.le (get_staked_amount a e) N.nought) same ∙ staked in
      rw (free, has, propose_slashing) refl

  -- A proposal is refused when the address is banned or has no stake.
  pub propose_slashing_refusal :
      (now : N.Carrier) (h a : String) (r : SlashingReason) (reporter : String)
      (s : SlashingMechanism N)
      → ((is_address_banned now a s).0 ≡ true)
        ⊎ (N.le (get_staked_amount a s.economic_system) N.nought ≡ true)
      → (propose_slashing now h a r reporter s).0 ≡ none
  unfolding propose_slashing
  propose_slashing_refusal now h a r reporter s why =
      let same = (ban-frame now a s).0 in
      elim (Bool-cases (is_address_banned now a s).0) [
        | inl banned ↦ rw (banned, propose_slashing) refl
        | inr free ↦ elim why [
          | inl banned ↦ cc
          | inr none_staked ↦
              let poor : N.le (get_staked_amount a (is_address_banned now a s).1.economic_system)
                    N.nought
                  ≡ true =
                ap (λ (e : EconomicSystem N). N.le (get_staked_amount a e) N.nought) same
                ∙ none_staked in
              rw (free, poor, propose_slashing) refl
        ]
      ]

module _ (k : Scale) where
  -- A penalty that the stake covers is taken from the stake alone.
  covered :
      (a : String) (x : ℤ) (s : EconomicSystem (U k))
      → x ≤ℤ get_staked_amount a s
      → pos 0 ≤ℤ get_balance a s
      → (taken k a x s ≡ x) × (from_stake k a x s ≡ x)
  unfolding taken from_stake
  covered a x s fits balance =
      let own = get_staked_amount a s +ℤ get_balance a s in
      let room : x ≤ℤ own = omega (int_laws, fits, balance) in
      let within : ltb_ℤ own x ≡ false = ground arith in
      let below : ltb_ℤ (get_staked_amount a s) x ≡ false = ground arith in
      (rw within refl, rw (within, below) refl)

  -- Applying an event whose amount the stake covers.
  apply_slashing_lem :
      (now : ℤ) (ref : ℕ) (b : ℤ) (e : SlashingEvent (U k)) (s : SlashingMechanism (U k))
      → get_elem? s.events ref ≡ some e
      → pos 0 ≤ℤ e.amount_slashed
      → e.amount_slashed ≤ℤ get_staked_amount e.slashed_address s.economic_system
      → pos 0 ≤ℤ get_balance e.slashed_address s.economic_system
      → let (done, t) = apply_slashing now ref b s in
        let a = e.slashed_address in
        (done ≡ true)
        × (get_staked_amount a t.economic_system
            ≡ get_staked_amount a s.economic_system -ℤ e.amount_slashed)
        × (get_balance a t.economic_system ≡ get_balance a s.economic_system)
        × (holdings k t.economic_system ≡ holdings k s.economic_system -ℤ e.amount_slashed)
        × (t.slashing_events ≡ s.slashing_events ++ (ref ∷ []))
  unfolding enforce penalize conclude
  apply_slashing_lem now ref b e s found nonneg fits balance =
      let a = e.slashed_address in
      let x = e.amount_slashed in
      let stake : pos 0 ≤ℤ get_staked_amount a s.economic_system = omega (arith, nonneg, fits) in
      let (paid, staked, balanced, held) =
        process_slashing_penalty_effect k a x e.block_hash b s.economic_system stake balance
          nonneg in
      let (all, own) = covered a x s.economic_system fits balance in
      rw (apply_slashing-conclude now ref b e s found, paid)
        (
          refl,
          rw own at staked,
          omega (int_laws, parts_of_eq balanced, parts_of_eq all, parts_of_eq own),
          rw all at held,
          refl,
        )

  -- What `propose_slashing` asks for.
  abbrev pub asked : String → SlashingReason → EconomicSystem (U k) → ℤ
  asked a reason economy =
      k.mul (get_staked_amount a economy) (penalties (U k) reason).stake_penalty_percentage

  -- What a proposal `out` comes to, filed under the number of `events`, when it is applied.
  abbrev pub Slashes :
      (later : ℤ) (a : String) (reason : SlashingReason) (b : ℤ) (economy : EconomicSystem (U k))
      (events : List (SlashingEvent (U k))) (out : Option ℕ × SlashingMechanism (U k))
      → Type 0
  Slashes later a reason b economy events out =
      let (done, u) = apply_slashing later (length events) b out.1 in
      (out.0 ≡ some (length events))
      × (done ≡ true)
      × (get_staked_amount a u.economic_system
          ≡ get_staked_amount a economy -ℤ asked a reason economy)
      × (get_balance a u.economic_system ≡ get_balance a economy)
      × (holdings k u.economic_system ≡ holdings k economy -ℤ asked a reason economy)
      × (u.slashing_events ≡ out.1.slashing_events ++ (length events ∷ []))

  pub file_proposal-Slashes :
      (later : ℤ) (h a : String) (reason : SlashingReason) (reporter : String) (b : ℤ)
      (v : SlashingMechanism (U k))
      → pos 0 ≤ℤ asked a reason v.economic_system
      → asked a reason v.economic_system ≤ℤ get_staked_amount a v.economic_system
      → pos 0 ≤ℤ get_balance a v.economic_system
      → Slashes later a reason b v.economic_system v.events
          (file_proposal (proposed h a reason reporter v) v)
  file_proposal-Slashes later h a reason reporter b v nonneg fits balance =
      let e = proposed h a reason reporter v in
      let t = (file_proposal e v).1 in
      let (done, stake, balanced, held, applied) =
        apply_slashing_lem later (length v.events) b e t (last v.events e) nonneg fits balance in
      (refl, done, stake, balanced, held, applied)

  -- Slashing from proposal to penalty: an address with stake that is not banned is proposed, and when
  -- its event is applied, the share of its stake that the reason asks for is taken from the stake
  -- alone, and from all holdings, and the event joins the applied ones. The share is at least nothing
  -- and at most the stake, and the balance is not negative.
  pub apply_slashing-propose_slashing :
      (now later : ℤ) (h a : String) (reason : SlashingReason) (reporter : String) (b : ℤ)
      (s : SlashingMechanism (U k))
      → (is_address_banned now a s).0 ≡ false
      → leb_ℤ (get_staked_amount a s.economic_system) (pos 0) ≡ false
      → pos 0 ≤ℤ asked a reason s.economic_system
      → asked a reason s.economic_system ≤ℤ get_staked_amount a s.economic_system
      → pos 0 ≤ℤ get_balance a s.economic_system
      → Slashes later a reason b s.economic_system s.events
          (propose_slashing now h a reason reporter s)
  apply_slashing-propose_slashing now later h a reason reporter b s free staked nonneg fits
        balance =
      let v = (is_address_banned now a s).1 in
      let (economy, events, threshold) = ban-frame now a s in
      let filed = propose_slashing-file now h a reason reporter s free staked in
      let slashes =
        file_proposal-Slashes later h a reason reporter b v
          (subst (λ (x : EconomicSystem (U k)). pos 0 ≤ℤ asked a reason x) (sym economy) nonneg)
          (subst (λ (x : EconomicSystem (U k)). asked a reason x ≤ℤ get_staked_amount a x)
            (sym economy) fits)
          (subst (λ (x : EconomicSystem (U k)). pos 0 ≤ℤ get_balance a x) (sym economy) balance) in
      let out = propose_slashing now h a reason reporter s in
      subst (λ x. Slashes later a reason b x s.events out) economy
        (subst (λ es. Slashes later a reason b v.economic_system es out) events
          (subst (λ x. Slashes later a reason b v.economic_system v.events x) (sym filed) slashes))
