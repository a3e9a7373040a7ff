-- ===== src/Consensus/Affordability/Payment.antt =====
-- dessin/consensus/enhanced_pogo_consensus.py: an owner who passes the check can pay.
use mathlib.Core.Path.{subst}
use dessin.Prelude.{
  ◌≡◌, refl, inl, inr, Bool, true, false, not, ◌&&◌, List, [], ◌∷◌, String, ◌==◌, if◌then◌else◌,
  Bool-cases, ap, ◌∙◌, sym, arith,
}
use dessin.Prelude.Int.{
  ℤ, pos, ◌+ℤ◌, ◌-ℤ◌, ◌≤ℤ◌, leb_ℤ, ltb_ℤ, int_laws, +ℤ_parts, -ℤ_parts, eq_of_parts,
}
use dessin.Dict.{get_or, set, get_or-set_self}
use dessin.Num.{min_num, max_num}
use dessin.Num.Units.{Scale}
use dessin.Economics.EconomicSystem.{
  EconomicSystem, Result, returned, key_error, Action, pure, gets, ◌>>=◌, ◌>>◌, system, get_balance,
  get_staked_amount,
}
use dessin.Economics.EconomicSystem.Transfers.{
  finalize_matured_unstakes, settle, finalize_entries, split_matured,
}
use dessin.Economics.EconomicSystem.Staking.{unstake_immediate_to_liquid}
use dessin.Economics.EconomicSystem.Holdings.{U, finalize_returns}
use dessin.Economics.EconomicSystem.Training.{escrow_of, cover_from_stake, owner_can_pay}
use dessin.Consensus.Affordability.{preview_transferable_liquid, tail_spendable, can_owner_afford}

abbrev answer : Result Bool → Bool
answer (returned b) = b
answer key_error = false

module _ (k : Scale) where
  -- Crediting what has matured leaves the stake, and makes the preview the balance. What has matured is
  -- not negative.
  pub finalize_balance :
      (a : String) (tip : ℤ) (s : EconomicSystem (U k))
      → pos 0 ≤ℤ (split_matured (U k) tip (pos 0) (get_or a [] s.unbonding_queue)).0
      → let t = (finalize_matured_unstakes (U k) a tip s).1 in
        (get_balance a t ≡ preview_transferable_liquid (U k) a tip s)
        × (get_staked_amount a t ≡ get_staked_amount a s)
  unfolding finalize_matured_unstakes settle preview_transferable_liquid split_matured
  finalize_balance a tip s due = entries (get_or a [] s.unbonding_queue) due
    where
      entries :
          (q : List (ℤ × ℤ))
          → pos 0 ≤ℤ (split_matured (U k) tip (pos 0) q).0
          → let t = (finalize_entries (U k) a tip q s).1 in
            (get_balance a t ≡ get_balance a s +ℤ (split_matured (U k) tip (pos 0) q).0)
            × (get_staked_amount a t ≡ get_staked_amount a s)
      entries [] h = (omega int_laws, refl)
      entries (x ∷ xs) h =
          let (credited, pending) = split_matured (U k) tip (pos 0) (x ∷ xs) in
          elim (Bool-cases (ltb_ℤ (pos 0) credited)) [
            | inl some_due ↦
                rw some_due
                  (get_or-set_self a (pos 0) (get_balance a s +ℤ credited) s.balances, refl)
            | inr none_due ↦ rw none_due (
              ground (
                arith,
                none_due,
                h,
                +ℤ_parts (get_balance a s) credited,
                eq_of_parts (get_balance a s) (get_balance a s +ℤ credited),
              ),
              refl,
            )
          ]

  -- The state after unstaking.
  abbrev unstaked : String → ℤ → EconomicSystem (U k) → EconomicSystem (U k)
  unstaked a y s = record s {
    staked_amounts = set a (get_staked_amount a s -ℤ y) s.staked_amounts;
    balances = set a (get_balance a s +ℤ y) s.balances;
  }

  unstake_covered :
      (a : String) (y : ℤ) (s : EconomicSystem (U k))
      → ltb_ℤ (get_staked_amount a s) y ≡ false
      → unstake_immediate_to_liquid (U k) a y s ≡ (returned true, unstaked a y s)
  unfolding unstake_immediate_to_liquid
  unstake_covered a y s covered = rw (covered, unstake_immediate_to_liquid) refl

  abbrev then_done : Result Bool × EconomicSystem (U k) → Result (Unit {0}) × EconomicSystem (U k)
  then_done out = elim out.0 [ returned b ↦ (returned tt, out.1) | key_error ↦ (key_error, out.1) ]

  -- Unstaking that the stake covers, and nothing after it.
  unstake_lem :
      (a : String) (y : ℤ) (s : EconomicSystem (U k))
      → ltb_ℤ (get_staked_amount a s) y ≡ false
      → let (r, t) = (unstake_immediate_to_liquid (U k) a y >> pure {N = U k} (tt {0})) s in
        (r ≡ returned tt) × (get_balance a t ≡ get_balance a s +ℤ y)
  unstake_lem a y s covered =
      let done = ap then_done (unstake_covered a y s covered) in
      (
        ap (λ (p : Result (Unit {0}) × EconomicSystem (U k)). p.0) done,
        ap (λ (p : Result (Unit {0}) × EconomicSystem (U k)). get_balance a p.1) done
            ∙ get_or-set_self a (pos 0) (get_balance a s +ℤ y) s.balances,
      )

  cover_lem :
      (owner : String) (x : ℤ) (allow : Bool) (s : EconomicSystem (U k))
      → ((y : ℤ) → ltb_ℤ (pos 0) y ≡ true → ltb_ℤ (k.dec 1 12) y ≡ true)
      → leb_ℤ x (get_balance owner s +ℤ (if allow then get_staked_amount owner s else pos 0)) ≡ true
      → let (r, t) = cover_from_stake (U k) owner x allow s in
        (r ≡ returned tt) × (ltb_ℤ (get_balance owner t) x ≡ false)
  unfolding cover_from_stake
  cover_lem owner x allow s fine enough = elim (Bool-cases (ltb_ℤ (get_balance owner s) x)) [
    | inr covered ↦ rw covered (refl, covered)
    | inl short ↦ elim (Bool-cases allow) [
      | inr no_stake ↦
          let contra : ⊥ =
            ground (arith, short, enough, no_stake, +ℤ_parts (get_balance owner s) (pos 0)) in
          absurd contra
      | inl boot ↦
          let bal = get_balance owner s in
          let stake = get_staked_amount owner s in
          let gap = x -ℤ bal in
          let within : leb_ℤ gap stake ≡ true =
            ground (arith, short, enough, boot, +ℤ_parts bal stake, -ℤ_parts x bal) in
          let positive : ltb_ℤ (pos 0) gap ≡ true = ground (arith, short, -ℤ_parts x bal) in
          let worth = fine gap positive in
          let not_above : ltb_ℤ stake gap ≡ false = ground (arith, within) in
          let (done, balance) = unstake_lem owner gap s not_above in
          let paid : ltb_ℤ (bal +ℤ gap) x ≡ false =
            ground (arith, +ℤ_parts bal gap, -ℤ_parts x bal) in
          rw (short, boot, positive, not_above, worth) (done, ap (λ b. ltb_ℤ b x) balance ∙ paid)
    ]
  ]

  -- What comes after an action that returns.
  pub bind_returned :
      {A B : Type 0} (m : Action (U k) A) (f : A → Action (U k) B) (a : A)
      (s : EconomicSystem (U k))
      → (m s).0 ≡ returned a
      → ◌>>=◌ {N = U k} m f s ≡ f a (m s).1
  bind_returned {A = A} {B = B} m f a s = next (m s)
    where
      next :
          (p : Result A × EconomicSystem (U k))
          → p.0 ≡ returned a
          → elim p.0 as (λ r. Result B × EconomicSystem (U k)) [
            | returned r ↦ f r p.1
            | key_error ↦ (key_error, p.1)
          ]
            ≡ f a p.1
      next (r, t) e = rw e refl

  -- An owner whose balance, matured unbonding and, where it may be touched, stake come to the amount.
  owner_can_pay-balance :
      (owner : String) (x b : ℤ) (allow : Bool) (s : EconomicSystem (U k))
      → ((y : ℤ) → ltb_ℤ (pos 0) y ≡ true → ltb_ℤ (k.dec 1 12) y ≡ true)
      → pos 0 ≤ℤ (split_matured (U k) b (pos 0) (get_or owner [] s.unbonding_queue)).0
      → leb_ℤ x (tail_spendable (U k) owner b allow s) ≡ true
      → (owner_can_pay (U k) owner x b allow s).0 ≡ returned true
  unfolding owner_can_pay
  owner_can_pay-balance owner x b allow s fine due enough =
      elim (Bool-cases (ltb_ℤ (pos 0) x && not (owner == system))) [
        | inr free ↦ rw free refl
        | inl owes ↦
            let (c, returns) = finalize_returns k owner b s in
            let t = (finalize_matured_unstakes (U k) owner b s).1 in
            let (balance, stake) = finalize_balance owner b s due in
            let enough_there : leb_ℤ x
                  (get_balance owner t +ℤ (if allow then get_staked_amount owner t else pos 0))
                ≡ true =
              ap (λ n. leb_ℤ x (n +ℤ (if allow then get_staked_amount owner t else pos 0))) balance
              ∙ ap
                  (λ n.
                    leb_ℤ x
                      (preview_transferable_liquid (U k) owner b s +ℤ (if allow then n else pos 0)))
                  stake
              ∙ enough in
            let (done, covered) = cover_lem owner x allow t fine enough_there in
            let ask : Action (U k) Bool = gets (λ u. not (ltb_ℤ (get_balance owner u) x)) in
            let cover = cover_from_stake (U k) owner x allow in
            rw owes (
              ap (λ (out : Result Bool × EconomicSystem (U k)). out.0)
                (bind_returned (finalize_matured_unstakes (U k) owner b) (λ r. cover >> ask) c s
                    returns
                  ∙ bind_returned cover (λ r. ask) tt t done)
              ∙ ap (λ short. returned (not short)) covered)
      ]

  -- What the payment takes from the owner, past the escrow.
  abbrev pub remainder_of : (escrow cost : ℤ) → ℤ
  remainder_of escrow cost = cost -ℤ min_num (U k) escrow cost

  remainder_none :
      (escrow cost : ℤ)
      → leb_ℤ (max_num (U k) (pos 0) (cost -ℤ escrow)) (pos 0) ≡ true
      → ltb_ℤ (pos 0) (remainder_of escrow cost) ≡ false
  remainder_none escrow cost h = ground (arith, h, -ℤ_parts cost escrow, -ℤ_parts cost cost)

  remainder_same :
      (escrow cost y : ℤ)
      → leb_ℤ (max_num (U k) (pos 0) (cost -ℤ escrow)) y ≡ true
      → leb_ℤ (remainder_of escrow cost) y ≡ true
  remainder_same escrow cost y h = ground (arith, h, -ℤ_parts cost escrow, -ℤ_parts cost cost)

  owner_can_pay-nothing :
      (owner : String) (x b : ℤ) (allow : Bool) (s : EconomicSystem (U k))
      → (ltb_ℤ (pos 0) x && not (owner == system)) ≡ false
      → (owner_can_pay (U k) owner x b allow s).0 ≡ returned true
  unfolding owner_can_pay
  owner_can_pay-nothing owner x b allow s free = rw free refl

  -- Where the check says that the owner can afford a cost at a height, a payment of that cost at that
  -- height and on the state that the check leaves does not stop for want of the owner's funds, in the
  -- bootstrap period, in which the stake may be touched, and after it. What of the unbonding has matured
  -- is not negative, and the smallest amount is more than 1e-12.
  pub owner_can_pay-can_owner_afford :
      (owner model_id : String) (cost b : ℤ) (in_boot : Bool) (s : EconomicSystem (U k))
      → let (r, t) = can_owner_afford (U k) owner model_id cost b in_boot s in
        ((y : ℤ) → ltb_ℤ (pos 0) y ≡ true → ltb_ℤ (k.dec 1 12) y ≡ true)
        → pos 0 ≤ℤ (split_matured (U k) b (pos 0) (get_or owner [] t.unbonding_queue)).0
        → r ≡ returned true
        → (owner_can_pay (U k) owner (remainder_of (escrow_of (U k) model_id s) cost) b in_boot t).0
          ≡ returned true
  unfolding can_owner_afford
  owner_can_pay-can_owner_afford owner model_id cost b in_boot s fine due yes_said =
      let escrow = escrow_of (U k) model_id s in
      let x = remainder_of escrow cost in
      elim (Bool-cases (owner == system)) [
        | inl nobody ↦ owner_can_pay-nothing owner x b in_boot _ (ground (arith, nobody))
        | inr somebody ↦
            elim (Bool-cases (leb_ℤ (max_num (U k) (pos 0) (cost -ℤ escrow)) (pos 0))) [
              | inl paid ↦
                  let none_left = remainder_none escrow cost paid in
                  owner_can_pay-nothing owner x b in_boot _ (ground (arith, none_left))
              | inr owes ↦
                  let (c, returns) = finalize_returns k owner b s in
                  let t = (finalize_matured_unstakes (U k) owner b s).1 in
                  let needed = max_num (U k) (pos 0) (cost -ℤ escrow) in
                  let ask : Action (U k) Bool =
                    gets (λ u. leb_ℤ needed (tail_spendable (U k) owner b in_boot u)) in
                  let whole : can_owner_afford (U k) owner model_id cost b in_boot s
                      ≡ (returned (leb_ℤ needed (tail_spendable (U k) owner b in_boot t)), t) =
                    rw (somebody, owes)
                      (bind_returned (finalize_matured_unstakes (U k) owner b) (λ r. ask) c s
                        returns) in
                  let enough : leb_ℤ needed (tail_spendable (U k) owner b in_boot t) ≡ true =
                    ap answer (
                      ap (λ (out : Result Bool × EconomicSystem (U k)). out.0) (sym whole)
                      ∙ yes_said) in
                  let due_there =
                    subst
                      (λ (out : Result Bool × EconomicSystem (U k)).
                        pos 0
                        ≤ℤ (split_matured (U k) b (pos 0)
                            (get_or owner [] out.1.unbonding_queue)).0)
                      whole due in
                  ap
                    (λ (out : Result Bool × EconomicSystem (U k)).
                      (owner_can_pay (U k) owner x b in_boot out.1).0)
                    whole
                  ∙ owner_can_pay-balance owner x b in_boot t fine due_there
                      (remainder_same escrow cost (tail_spendable (U k) owner b in_boot t) enough)
            ]
      ]
