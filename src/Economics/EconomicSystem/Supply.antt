-- ===== src/Economics/EconomicSystem/Supply.antt =====
-- dessin/economics/economic_system.py: block rewards move tokens of the genesis account, and
-- `process_slashing_penalty` destroys what it takes.
use dessin.Prelude.{
  zero, suc, length, ℕ, ◌≡◌, ◌⊎◌, refl, ◌∙◌, Bool, true, false, some, List, [], ◌∷◌, ◌++◌, String,
  arith, if◌then◌else◌, Option-cases, Bool-cases, inl, inr,
}
use dessin.Prelude.Int.{ℤ, pos, ◌+ℤ◌, ◌-ℤ◌, leb_ℤ, int_laws, parts_of_eq}
use dessin.Dict.{Dict, get, get_or, set}
use dessin.Num.{min_num}
use dessin.Num.Units.{Scale}
use dessin.Economics.EconomicSystem.{
  EconomicSystem, PogoBlock, returned, system, event, genesis_address, block_reward,
  attestation_reward,
}
use dessin.Economics.EconomicSystem.Transfers.{transfer, transfer_settled}
use dessin.Economics.EconomicSystem.Accounting.{total, total-set}
use dessin.Economics.EconomicSystem.Holdings.{
  U, holdings, IsQueued, Issues, same_Issues, after_Issues,
}
use dessin.Economics.EconomicSystem.Conservation.{transfer-holdings-system}
use dessin.Economics.EconomicSystem.Rewards.{
  mint_from_genesis, reward_verifier, reward_verifiers, distribute_attestation_rewards,
}

module _ (k : Scale) where
  abbrev pub pay_of : (x : ℤ) → EconomicSystem (U k) → ℤ
  pay_of x s = min_num (U k) x (get_or genesis_address (pos 0) s.balances)

  abbrev pub minted_liquid :
      (a : String) (p v : ℤ) (block : PogoBlock) → EconomicSystem (U k) → EconomicSystem (U k)
  minted_liquid a p v block s =
      let d : Dict ℤ = set genesis_address (v -ℤ p) s.balances in
      record s {
        balances = set a (get_or a (pos 0) d +ℤ p) d;
        total_tokens_emitted = s.total_tokens_emitted +ℤ p;
        economic_events =
            s.economic_events
            ++ (event (U k) block_reward block.index genesis_address a p (some block.hash) ∷ []);
      }

  abbrev pub minted_stake :
      (a : String) (p v : ℤ) (block : PogoBlock) → EconomicSystem (U k) → EconomicSystem (U k)
  minted_stake a p v block s = record s {
    balances = set genesis_address (v -ℤ p) s.balances;
    staked_amounts = set a (get_or a (pos 0) s.staked_amounts +ℤ p) s.staked_amounts;
    total_tokens_emitted = s.total_tokens_emitted +ℤ p;
    economic_events =
        s.economic_events
        ++ (event (U k) block_reward block.index genesis_address a p (some block.hash) ∷ []);
  }

  pub mint_cases :
      (a : String) (x : ℤ) (block : PogoBlock) (to_stake : Bool) (s : EconomicSystem (U k))
      → let u = (mint_from_genesis (U k) a x block to_stake s).1 in
        (u ≡ s)
        ⊎ ((p v : ℤ) × (leb_ℤ p (pos 0) ≡ false)
            × (get genesis_address s.balances ≡ some v)
            × ((u ≡ minted_liquid a p v block s) ⊎ (u ≡ minted_stake a p v block s)))
  unfolding mint_from_genesis
  mint_cases a x block to_stake s = elim (Bool-cases (leb_ℤ x (pos 0))) [
    | inl nothing ↦ inl (ground arith)
    | inr asked ↦ elim (Bool-cases (leb_ℤ (pay_of x s) (pos 0))) [
      | inl empty ↦ inl (ground arith)
      | inr pays ↦ elim (Option-cases (get genesis_address s.balances)) [
        | inl missing ↦ inl (ground arith)
        | inr (v, e) ↦ elim (Bool-cases to_stake) [
          | inl stake ↦ inr (pay_of x s, v, pays, e, inr (ground arith))
          | inr liquid ↦ inr (pay_of x s, v, pays, e, inl (ground arith))
        ]
      ]
    ]
  ]

  pub mint_lem :
      (a : String) (x : ℤ) (block : PogoBlock) (to_stake : Bool) (s : EconomicSystem (U k))
      → IsQueued k s
      → Issues k (pos 0) s (mint_from_genesis (U k) a x block to_stake s)
  mint_lem a x block to_stake s h = elim (mint_cases a x block to_stake s) [
    | inl same ↦ same_Issues k s _ _ h same
    | inr (p, v, pays, e, done) ↦
        let d : Dict ℤ = set genesis_address (v -ℤ p) s.balances in
        let debited : total d +ℤ v ≡ total s.balances +ℤ (v -ℤ p) =
          rw e at (total-set genesis_address (v -ℤ p) s.balances) in
        elim done [
          | inl liquid ↦ record {
            queued = rw liquid (record { distinct = h.distinct; nonneg = h.nonneg });
            holds = rw liquid (
                omega (
                  int_laws,
                  parts_of_eq debited,
                  parts_of_eq (total-set a (get_or a (pos 0) d +ℤ p) d),
                ));
          }
          | inr stake ↦ record {
            queued = rw stake (record { distinct = h.distinct; nonneg = h.nonneg });
            holds = rw stake (
                omega (
                  int_laws,
                  parts_of_eq debited,
                  parts_of_eq
                      (total-set a (get_or a (pos 0) s.staked_amounts +ℤ p) s.staked_amounts),
                ));
          }
        ]
  ]

  -- A reward from the genesis account, liquid or staked, conserves the holdings.
  pub mint_from_genesis-holdings :
      (a : String) (x : ℤ) (block : PogoBlock) (to_stake : Bool) (s : EconomicSystem (U k))
      → IsQueued k s
      → holdings k (mint_from_genesis (U k) a x block to_stake s).1 ≡ holdings k s
  mint_from_genesis-holdings a x block to_stake s h =
      omega (int_laws, parts_of_eq (mint_lem a x block to_stake s h).holds)

  -- The sum of `n` equal rewards.
  unfoldable pub times : ℕ → ℤ → ℤ
  times zero x = pos 0
  times (suc n) x = x +ℤ times n x

  transfer_from_system :
      (a : String) (x : ℤ) (block : PogoBlock) (s : EconomicSystem (U k))
      → let t = (transfer (U k) system a x attestation_reward block.index (some block.hash) s).1 in
        (t.unbonding_queue ≡ s.unbonding_queue) × (t.attestation_reward ≡ s.attestation_reward)
  unfolding transfer transfer_settled
  transfer_from_system a x block s = (refl, refl)

  liquid_step :
      (v : String) (vs : List String) (block : PogoBlock) (d : Dict ℤ) (s : EconomicSystem (U k))
      → reward_verifiers (U k) (v ∷ vs) block false d s
        ≡ reward_verifiers
            (U k)
            vs
            block
            false
            (set v s.attestation_reward d)
            (transfer
              (U k)
              system
              v
              s.attestation_reward
              attestation_reward
              block.index
              (some block.hash)
              s).1
  unfolding reward_verifiers reward_verifier transfer transfer_settled
  liquid_step v vs block d s = refl

  -- Attestation rewards that are not staked create one reward for each verifier of the list.
  pub reward_verifiers_liquid :
      (vs : List String) (block : PogoBlock) (d : Dict ℤ) (s : EconomicSystem (U k))
      → holdings k (reward_verifiers (U k) vs block false d s).1
        ≡ holdings k s +ℤ times (length vs) s.attestation_reward
  unfolding reward_verifiers times
  reward_verifiers_liquid [] block d s = omega int_laws
  reward_verifiers_liquid (v ∷ vs) block d s =
      let x = s.attestation_reward in
      let t = (transfer (U k) system v x attestation_reward block.index (some block.hash) s).1 in
      let paid =
        (transfer-holdings-system k v x attestation_reward block.index (some block.hash) s).1 in
      let same = (transfer_from_system v x block s).1 in
      let rest : holdings k (reward_verifiers (U k) vs block false (set v x d) t).1
          ≡ holdings k t +ℤ times (length vs) x =
        rw same at (reward_verifiers_liquid vs block (set v x d) t) in
      rw (liquid_step v vs block d s) (omega (int_laws, parts_of_eq paid, parts_of_eq rest))

  mint_returns :
      (a : String) (x : ℤ) (block : PogoBlock) (s : EconomicSystem (U k))
      → (r : Bool) × ((mint_from_genesis (U k) a x block true s).0 ≡ returned r)
  unfolding mint_from_genesis
  mint_returns a x block s = elim (Bool-cases (leb_ℤ x (pos 0))) [
    | inl nothing ↦ (true, ground arith)
    | inr asked ↦ elim (Bool-cases (leb_ℤ (pay_of x s) (pos 0))) [
      | inl empty ↦ (false, ground arith)
      | inr pays ↦ elim (Option-cases (get genesis_address s.balances)) [
        | inl missing ↦ (false, ground arith)
        | inr (v, e) ↦ (true, ground arith)
      ]
    ]
  ]

  staked_step :
      (v : String) (vs : List String) (block : PogoBlock) (d : Dict ℤ) (s : EconomicSystem (U k))
      → (e : Dict ℤ) × (reward_verifiers (U k) (v ∷ vs) block true d s
          ≡ reward_verifiers
              (U k)
              vs
              block
              true
              e
              (mint_from_genesis (U k) v s.attestation_reward block true s).1)
  unfolding reward_verifiers reward_verifier
  staked_step v vs block d s =
      let (r, e) = mint_returns v s.attestation_reward block s in
      (if r then set v s.attestation_reward d else d, ground arith)

  staked_lem :
      (vs : List String) (block : PogoBlock) (d : Dict ℤ) (s : EconomicSystem (U k))
      → IsQueued k s
      → Issues k (pos 0) s (reward_verifiers (U k) vs block true d s)
  unfolding reward_verifiers
  staked_lem [] block d s h = same_Issues k s _ _ h refl
  staked_lem (v ∷ vs) block d s h =
      let (e, step) = staked_step v vs block d s in
      let m = mint_from_genesis (U k) v s.attestation_reward block true s in
      let first = mint_lem v s.attestation_reward block true s h in
      rw step (after_Issues k (pos 0) s m _ first (staked_lem vs block e m.1 first.queued))

  liquid_queue :
      (vs : List String) (block : PogoBlock) (d : Dict ℤ) (s : EconomicSystem (U k))
      → (reward_verifiers (U k) vs block false d s).1.unbonding_queue ≡ s.unbonding_queue
  unfolding reward_verifiers
  liquid_queue [] block d s = refl
  liquid_queue (v ∷ vs) block d s =
      let x = s.attestation_reward in
      let t = (transfer (U k) system v x attestation_reward block.index (some block.hash) s).1 in
      rw (liquid_step v vs block d s)
        (liquid_queue vs block (set v x d) t ∙ (transfer_from_system v x block s).0)

  -- What `distribute_attestation_rewards` creates.
  abbrev pub attested : List String → Bool → EconomicSystem (U k) → ℤ
  attested vs auto_stake s = if auto_stake then pos 0 else times (length vs) s.attestation_reward

  pub attestation_lem :
      (vs : List String) (block : PogoBlock) (auto_stake : Bool) (s : EconomicSystem (U k))
      → IsQueued k s
      → Issues k
          (attested vs auto_stake s)
          s
          (distribute_attestation_rewards (U k) vs block auto_stake s)
  attestation_lem vs block true s h = staked_lem vs block [] s h
  attestation_lem vs block false s h =
      let same = liquid_queue vs block [] s in
      record {
        queued = record { distinct = rw same h.distinct; nonneg = rw same h.nonneg };
        holds = reward_verifiers_liquid vs block [] s;
      }

  -- Attestation rewards conserve the holdings when they are staked, and create one reward for each
  -- verifier of the list when they are not.
  pub distribute_attestation_rewards-holdings :
      (vs : List String) (block : PogoBlock) (auto_stake : Bool) (s : EconomicSystem (U k))
      → IsQueued k s
      → holdings k (distribute_attestation_rewards (U k) vs block auto_stake s).1
        ≡ holdings k s +ℤ (if auto_stake then pos 0 else times (length vs) s.attestation_reward)
  distribute_attestation_rewards-holdings vs block auto_stake s h =
      (attestation_lem vs block auto_stake s h).holds
