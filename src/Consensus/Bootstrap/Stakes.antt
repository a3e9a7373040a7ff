-- ===== src/Consensus/Bootstrap/Stakes.antt =====
-- dessin/economics/economic_system.py: the calls that the economics of a block makes leave no stake
-- negative, and leave the holdings at most what they were.
use dessin.Prelude.{
  ◌≡◌, refl, inl, inr, Bool, false, not, ◌&&◌, some, List, [], ◌∷◌, String, ◌==◌, if◌then◌else◌,
  Bool-cases, arith,
}
use dessin.Prelude.Int.{ℤ, pos, ◌+ℤ◌, ◌-ℤ◌, ◌≤ℤ◌, ltb_ℤ, +ℤ_parts, -ℤ_parts}
use dessin.Dict.{
  get_or, set, del, get_or-set, get_or-del, IsDistinct, set-IsDistinct, del-IsDistinct,
}
use dessin.Num.{min_num, max_num}
use dessin.Num.Units.{Scale}
use dessin.Economics.EconomicSystem.{
  EconomicSystem, PogoBlock, Result, returned, key_error, Action, pure, gets, ◌>>=◌, ◌>>◌, when,
  system, get_balance, get_staked_amount, training_payment,
}
use dessin.Economics.EconomicSystem.Transfers.{
  finalize_matured_unstakes, settle, finalize_entries, split_matured, transfer, transfer_settled,
  track_training,
}
use dessin.Economics.EconomicSystem.Holdings.{U}
use dessin.Economics.EconomicSystem.Conservation.{transfer_settled_cases, transfer_eq}
use dessin.Economics.EconomicSystem.Rewards.{mint_from_genesis}
use dessin.Economics.EconomicSystem.Supply.{minted_stake, minted_liquid, mint_cases}
use dessin.Economics.EconomicSystem.Staking.{
  unstake_immediate_to_liquid, slash_bootstrap_participant,
}
use dessin.Economics.EconomicSystem.Training.{
  training_cost, cover_from_stake, owner_can_pay, pay_from_escrow, pay_from_owner,
  process_training_payment,
}

module _ (k : Scale) where
  -- The stakes are a proper dict without negative entries.
  pub record IsStaked (s : EconomicSystem (U k)) : Type 0 where
    pub distinct : IsDistinct s.staked_amounts
    pub nonneg : (a : String) → pos 0 ≤ℤ get_staked_amount a s

  abbrev Keeps : (s t : EconomicSystem (U k)) → Type 0
  Keeps s t = IsStaked s → IsStaked t

  pub same_stakes : (s t : EconomicSystem (U k)) → t.staked_amounts ≡ s.staked_amounts → Keeps s t
  same_stakes s t e h = record { distinct = rw e h.distinct; nonneg = λ a. rw e (h.nonneg a) }

  bind_Keeps :
      {A B : Type 0} (m : Action (U k) A) (f : A → Action (U k) B)
      → ((s : EconomicSystem (U k)) → Keeps s (m s).1)
      → ((a : A) (s : EconomicSystem (U k)) → Keeps s (f a s).1)
      → (s : EconomicSystem (U k)) → Keeps s (◌>>=◌ {N = U k} m f s).1
  bind_Keeps {A = A} {B = B} m f first rest s = next (m s) (first s)
    where
      next :
          (p : Result A × EconomicSystem (U k))
          → Keeps s p.1
          → Keeps s
              (elim p.0 as (λ r. Result B × EconomicSystem (U k)) [
                | returned r ↦ f r p.1
                | key_error ↦ (key_error, p.1)
              ]).1
      next (returned r, t) h i = rest r t (h i)
      next (key_error, t) h i = h i

  pub staked :
      (a : String) (x : ℤ) (s t : EconomicSystem (U k))
      → pos 0 ≤ℤ x
      → t.staked_amounts ≡ set a x s.staked_amounts
      → Keeps s t
  staked a x s t positive e h = record {
    distinct = rw e (set-IsDistinct a x s.staked_amounts h.distinct);
    nonneg = λ b.
        rw (e, get_or-set a b (pos 0) x s.staked_amounts)
          (elim (Bool-cases (a == b)) [
            | inl same ↦ rw same positive
            | inr other ↦ rw other (h.nonneg b)
          ]);
  }

  finalize_stakes :
      (a : String) (tip : ℤ) (s : EconomicSystem (U k))
      → (finalize_matured_unstakes (U k) a tip s).1.staked_amounts ≡ s.staked_amounts
  unfolding finalize_matured_unstakes settle
  finalize_stakes a tip s = entries (get_or a [] s.unbonding_queue)
    where
      entries :
          (q : List (ℤ × ℤ))
          → (finalize_entries (U k) a tip q s).1.staked_amounts ≡ s.staked_amounts
      entries [] = refl
      entries (x ∷ xs) =
          elim (Bool-cases (ltb_ℤ (pos 0) (split_matured (U k) tip (pos 0) (x ∷ xs)).0)) [
            | inl some_due ↦ rw some_due refl
            | inr none_due ↦ rw none_due refl
          ]

  finalize_Keeps :
      (a : String) (tip : ℤ) (s : EconomicSystem (U k))
      → Keeps s (finalize_matured_unstakes (U k) a tip s).1
  finalize_Keeps a tip s = same_stakes s _ (finalize_stakes a tip s)

  unstake_Keeps :
      (a : String) (x : ℤ) (s : EconomicSystem (U k))
      → Keeps s (unstake_immediate_to_liquid (U k) a x s).1
  unfolding unstake_immediate_to_liquid
  unstake_Keeps a x s = elim (Bool-cases (ltb_ℤ (get_staked_amount a s) x)) [
    | inl short ↦ rw short (λ h. h)
    | inr covered ↦
        let left : pos 0 ≤ℤ (get_staked_amount a s -ℤ x) =
          ground (arith, covered, -ℤ_parts (get_staked_amount a s) x) in
        rw covered (staked a (get_staked_amount a s -ℤ x) s _ left refl)
  ]

  cover_Keeps :
      (a : String) (x : ℤ) (allow : Bool) (s : EconomicSystem (U k))
      → Keeps s (cover_from_stake (U k) a x allow s).1
  unfolding cover_from_stake
  cover_Keeps a x allow s =
      let take =
        min_num (U k) (max_num (U k) (pos 0) (x -ℤ get_balance a s)) (get_staked_amount a s) in
      elim (Bool-cases ((ltb_ℤ (get_balance a s) x && allow) && ltb_ℤ (k.dec 1 12) take)) [
        | inl unstakes ↦ rw unstakes (
            bind_Keeps (unstake_immediate_to_liquid (U k) a take) (λ r. pure tt)
              (unstake_Keeps a take) (λ r t h. h) s)
        | inr leaves ↦ rw leaves (λ h. h)
      ]

  owner_can_pay-Keeps :
      (owner : String) (x b : ℤ) (allow : Bool) (s : EconomicSystem (U k))
      → Keeps s (owner_can_pay (U k) owner x b allow s).1
  unfolding owner_can_pay
  owner_can_pay-Keeps owner x b allow s =
      let ask : Action (U k) Bool = gets (λ t. not (ltb_ℤ (get_balance owner t) x)) in
      let rest : ℤ → Action (U k) Bool = λ n. cover_from_stake (U k) owner x allow >> ask in
      elim (Bool-cases (ltb_ℤ (pos 0) x && not (owner == system))) [
        | inl owes ↦ rw owes (
            bind_Keeps (finalize_matured_unstakes (U k) owner b) rest (finalize_Keeps owner b)
              (λ n.
                bind_Keeps (cover_from_stake (U k) owner x allow) (λ r. ask)
                  (cover_Keeps owner x allow) (λ r t h. h))
              s)
        | inr free ↦ rw free (λ h. h)
      ]

  transfer_Keeps :
      (owner miner : String) (x b : ℤ) (hash : String) (s : EconomicSystem (U k))
      → (owner == system) ≡ false
      → Keeps s (transfer (U k) owner miner x training_payment b (some hash) s).1
  transfer_Keeps owner miner x b hash s ne =
      let t = (finalize_matured_unstakes (U k) owner b s).1 in
      let settled : Keeps t
          (transfer_settled (U k) owner miner x training_payment b (some hash) t).1 =
        elim (transfer_settled_cases k owner miner x training_payment b (some hash) t ne) [
          | inl same ↦ rw same (λ h. h)
          | inr (v, e, done) ↦ rw done (same_stakes t _ refl)
        ] in
      rw (transfer_eq k owner miner x training_payment b (some hash) s ne)
        (λ h. settled (finalize_Keeps owner b s h))

  pay_from_escrow-Keeps :
      (miner : String) (block : PogoBlock) (avail x : ℤ) (s : EconomicSystem (U k))
      → Keeps s (pay_from_escrow (U k) miner block avail x s).1
  unfolding pay_from_escrow
  pay_from_escrow-Keeps miner block avail x s = elim (Bool-cases (ltb_ℤ (pos 0) x)) [
    | inl some_due ↦ rw some_due (same_stakes s _ refl)
    | inr none_due ↦ rw none_due (λ h. h)
  ]

  pay_from_owner-Keeps :
      (owner miner : String) (block : PogoBlock) (x : ℤ) (s : EconomicSystem (U k))
      → (owner == system) ≡ false
      → Keeps s (pay_from_owner (U k) owner miner block x s).1
  unfolding pay_from_owner
  pay_from_owner-Keeps owner miner block x s ne =
      let pay = transfer (U k) owner miner x training_payment block.index (some block.hash) in
      let track : Bool → Action (U k) Bool =
        λ paid. when paid (track_training (U k) block.model_id x) >> pure paid in
      elim (Bool-cases (ltb_ℤ (pos 0) x)) [
        | inl owes ↦ rw owes (
            bind_Keeps pay track (λ t. transfer_Keeps owner miner x block.index block.hash t ne)
              (λ paid t. elim (Bool-cases paid) [
                | inl done ↦ rw done (same_stakes t _ refl)
                | inr refused ↦ rw refused (λ h. h)
              ])
              s)
        | inr nothing ↦ rw nothing (λ h. h)
      ]

  pub process_training_payment-IsStaked :
      (owner miner : String) (block : PogoBlock) (allow : Bool) (s : EconomicSystem (U k))
      → (owner == system) ≡ false
      → IsStaked s
      → IsStaked (process_training_payment (U k) owner miner block allow s).1
  unfolding process_training_payment
  process_training_payment-IsStaked owner miner block allow s ne =
      let cost = training_cost (U k) block s in
      let avail = get_or block.model_id (pos 0) s.model_training_escrow in
      let part = min_num (U k) avail cost in
      let settle_up : Bool → Action (U k) Bool = λ can_pay.
        if not can_pay
        then pure false
        else pay_from_escrow (U k) miner block avail part
          >> pay_from_owner (U k) owner miner block (cost -ℤ part) in
      bind_Keeps (owner_can_pay (U k) owner (cost -ℤ part) block.index allow) settle_up
        (owner_can_pay-Keeps owner (cost -ℤ part) block.index allow)
        (λ r t. elim (Bool-cases r) [
          | inr refused ↦ rw refused (λ h. h)
          | inl pays ↦ rw pays (
              bind_Keeps (pay_from_escrow (U k) miner block avail part)
                (λ u. pay_from_owner (U k) owner miner block (cost -ℤ part))
                (pay_from_escrow-Keeps miner block avail part)
                (λ u v. pay_from_owner-Keeps owner miner block (cost -ℤ part) v ne) t)
        ])
        s

  pub slash_bootstrap_participant-IsStaked :
      (a : String) (s : EconomicSystem (U k))
      → IsStaked s
      → IsStaked (slash_bootstrap_participant (U k) a s).1
  unfolding slash_bootstrap_participant
  slash_bootstrap_participant-IsStaked a s h = record {
    distinct = del-IsDistinct a s.staked_amounts h.distinct;
    nonneg = λ b.
        let gone : get_or b (pos 0) (del a s.staked_amounts)
            ≡ (if a == b then pos 0 else get_or b (pos 0) s.staked_amounts) =
          get_or-del a b (pos 0) s.staked_amounts in
        rw gone (elim (Bool-cases (a == b)) [
          | inl same ↦ rw same (omega arith)
          | inr other ↦ rw other (h.nonneg b)
        ]);
  }

  pub mint_from_genesis-IsStaked :
      (a : String) (x : ℤ) (block : PogoBlock) (to_stake : Bool) (s : EconomicSystem (U k))
      → IsStaked s
      → IsStaked (mint_from_genesis (U k) a x block to_stake s).1
  mint_from_genesis-IsStaked a x block to_stake s h = elim (mint_cases k a x block to_stake s) [
    | inl same ↦ rw same h
    | inr (p, v, pays, e, done) ↦ elim done [
      | inl liquid ↦ rw liquid (same_stakes s (minted_liquid k a p v block s) refl h)
      | inr stake ↦
          let held = h.nonneg a in
          let more : pos 0 ≤ℤ (get_staked_amount a s +ℤ p) =
            ground (arith, held, pays, +ℤ_parts (get_staked_amount a s) p) in
          rw stake
            (staked a (get_staked_amount a s +ℤ p) s (minted_stake k a p v block s) more refl h)
    ]
  ]
