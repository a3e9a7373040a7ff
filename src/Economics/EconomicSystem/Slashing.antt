-- ===== src/Economics/EconomicSystem/Slashing.antt =====
-- dessin/economics/economic_system.py: `process_slashing_penalty` takes from the stake first, from the
-- balance second, and destroys what it takes.
use dessin.Prelude.{
  ◌≡◌, refl, Bool, true, false, some, [], ◌∷◌, ◌++◌, String, arith, if◌then◌else◌, Option-cases,
  Bool-cases, inl, inr, from_option, ap,
}
use dessin.Prelude.Int.{ℤ, pos, ◌+ℤ◌, ◌-ℤ◌, ◌≤ℤ◌, ltb_ℤ, int_laws, parts_of_eq}
use dessin.Dict.{get-set_self, Dict, get, get_or, set}
use dessin.Num.{min_num}
use dessin.Num.Units.{Scale}
use dessin.Economics.EconomicSystem.{
  EconomicSystem, returned, system, get_balance, get_staked_amount, event, slashing_penalty,
}
use dessin.Economics.EconomicSystem.Accounting.{total, total-set}
use dessin.Economics.EconomicSystem.Holdings.{U, holdings, not_below}
use dessin.Economics.EconomicSystem.Penalties.{slash_balance, process_slashing_penalty}

module _ (k : Scale) where
  -- What is taken in all: the penalty, or what the miner has when that is less.
  unfoldable pub taken : (miner : String) (penalty : ℤ) → EconomicSystem (U k) → ℤ
  taken miner penalty s =
      let own = get_staked_amount miner s +ℤ get_balance miner s in
      if ltb_ℤ own penalty then own else penalty

  -- The part of it that the stake pays.
  unfoldable pub from_stake : (miner : String) (penalty : ℤ) → EconomicSystem (U k) → ℤ
  unfolding taken
  from_stake miner penalty s = min_num (U k) (taken miner penalty s) (get_staked_amount miner s)

  -- The amounts: `own` is what the miner has, `x` what the stake pays.
  amounts :
      (stake balance own penalty : ℤ)
      → pos 0 ≤ℤ stake
      → pos 0 ≤ℤ balance
      → pos 0 ≤ℤ penalty
      → own ≡ stake +ℤ balance
      → let t = if ltb_ℤ own penalty then own else penalty in
        let x = min_num (U k) t stake in
        (t ≤ℤ own) × (pos 0 ≤ℤ x) × (x ≤ℤ stake) × (x ≤ℤ t) × (t ≤ℤ x +ℤ balance)
  amounts stake balance own penalty hs hb hp e = elim (Bool-cases (ltb_ℤ own penalty)) [
    | inl poor ↦ elim (Bool-cases (ltb_ℤ stake own)) [
      | inl more ↦
          rw (poor, more)
            (
              omega (int_laws, parts_of_eq e),
              hs,
              omega arith,
              ground arith,
              omega (int_laws, parts_of_eq e),
            )
      | inr less ↦
          rw (poor, less)
            (
              omega (int_laws, parts_of_eq e),
              omega (int_laws, parts_of_eq e),
              ground arith,
              omega arith,
              omega (int_laws, parts_of_eq e),
            )
    ]
    | inr rich ↦
        let covered : penalty ≤ℤ own = ground arith in
        elim (Bool-cases (ltb_ℤ stake penalty)) [
          | inl more ↦
              rw (rich, more)
                (
                  ground arith,
                  hs,
                  omega arith,
                  ground arith,
                  omega (int_laws, parts_of_eq e, covered),
                )
          | inr less ↦
              rw (rich, less) (ground arith, hp, ground arith, omega arith, omega (int_laws, hb))
        ]
  ]

  abbrev after_balance :
      (miner : String) (y : ℤ) (hash : String) (b : ℤ) → EconomicSystem (U k) → EconomicSystem (U k)
  after_balance miner y hash b s = record s {
    balances =
        if ltb_ℤ (pos 0) y then set miner (get_balance miner s -ℤ y) s.balances else s.balances;
    economic_events =
        s.economic_events ++ (event (U k) slashing_penalty b miner system y (some hash) ∷ []);
  }

  -- It raises no error when the balance holds what is asked.
  slash_balance_runs :
      (miner : String) (y : ℤ) (hash : String) (b : ℤ) (s : EconomicSystem (U k))
      → y ≤ℤ get_balance miner s
      → slash_balance (U k) miner y hash b s ≡ (returned true, after_balance miner y hash b s)
  unfolding slash_balance
  slash_balance_runs miner y hash b s covered = elim (Bool-cases (ltb_ℤ (pos 0) y)) [
    | inr nothing ↦ ground arith
    | inl asked ↦ elim (Option-cases (get miner s.balances)) [
      | inl missing ↦ ground arith
      | inr (v, e) ↦ ground arith
    ]
  ]

  abbrev after_stake : (miner : String) (x : ℤ) → EconomicSystem (U k) → EconomicSystem (U k)
  after_stake miner x s = record s {
    staked_amounts =
        if ltb_ℤ (pos 0) (get_staked_amount miner s)
        then set miner (get_staked_amount miner s -ℤ x) s.staked_amounts
        else s.staked_amounts;
  }

  slash_stages :
      (miner : String) (penalty : ℤ) (hash : String) (b : ℤ) (s : EconomicSystem (U k))
      → let t = taken miner penalty s in
        let x = from_stake miner penalty s in
        process_slashing_penalty (U k) miner penalty hash b s
        ≡ slash_balance
            (U k)
            miner
            (if ltb_ℤ (pos 0) (get_staked_amount miner s) then t -ℤ x else t)
            hash
            b
            (after_stake miner x s)
  unfolding process_slashing_penalty from_stake taken
  slash_stages miner penalty hash b s =
      elim (Bool-cases (ltb_ℤ (pos 0) (get_staked_amount miner s))) [
        | inl staked ↦ rw staked refl
        | inr unstaked ↦ rw unstaked refl
      ]

  -- Debiting a positive amount or skipping one that is not.
  debited :
      (a : String) (x : ℤ) (test : Bool) (d : Dict ℤ)
      → (test ≡ false → x ≡ pos 0)
      → let e = if test then set a (get_or a (pos 0) d -ℤ x) d else d in
        (get_or a (pos 0) e ≡ get_or a (pos 0) d -ℤ x) × (total e ≡ total d -ℤ x)
  debited a x true d skip = (
    ap (from_option (pos 0)) (get-set_self a (get_or a (pos 0) d -ℤ x) d),
    omega (int_laws, parts_of_eq (total-set a (get_or a (pos 0) d -ℤ x) d)),
  )
  debited a x false d skip =
      (omega (int_laws, parts_of_eq (skip refl)), omega (int_laws, parts_of_eq (skip refl)))

  stages_effect :
      (miner : String) (x t : ℤ) (hash : String) (b : ℤ) (s : EconomicSystem (U k))
      → pos 0 ≤ℤ x
      → x ≤ℤ get_staked_amount miner s
      → x ≤ℤ t
      → t ≤ℤ x +ℤ get_balance miner s
      → let staked = ltb_ℤ (pos 0) (get_staked_amount miner s) in
        let out =
          slash_balance (U k) miner (if staked then t -ℤ x else t) hash b (after_stake miner x s) in
        (out.0 ≡ returned true)
        × (get_staked_amount miner out.1 ≡ get_staked_amount miner s -ℤ x)
        × (get_balance miner out.1 ≡ get_balance miner s -ℤ (t -ℤ x))
        × (holdings k out.1 ≡ holdings k s -ℤ t)
  stages_effect miner x t hash b s xpos fits part rest =
      let stake = get_staked_amount miner s in
      let staked = ltb_ℤ (pos 0) stake in
      let y = t -ℤ x in
      let bounded : y ≤ℤ get_balance miner s = omega (int_laws, rest) in
      let none_staked : staked ≡ false → x ≡ pos 0 =
        λ e. omega (int_laws, not_below k stake e, fits, xpos) in
      let none_owed : ltb_ℤ (pos 0) y ≡ false → y ≡ pos 0 =
        λ e. omega (int_laws, not_below k y e, part) in
      let same : (if staked then y else t) ≡ y = elim (Bool-cases staked) [
        | inl e ↦ rw e refl
        | inr e ↦ rw e (omega (int_laws, parts_of_eq (none_staked e)))
      ] in
      let (stake_left, stake_sum) = debited miner x staked s.staked_amounts none_staked in
      let (balance_left, balance_sum) = debited miner y (ltb_ℤ (pos 0) y) s.balances none_owed in
      rw (same, slash_balance_runs miner y hash b (after_stake miner x s) bounded)
        (
          refl,
          stake_left,
          balance_left,
          omega (int_laws, parts_of_eq stake_sum, parts_of_eq balance_sum),
        )

  -- A penalty on a miner whose stake and balance are not negative is paid by the stake as far as it
  -- goes, then by the balance, and the holdings fall by what was taken: the penalty, or all that the
  -- miner has when that is less.
  pub process_slashing_penalty_effect :
      (miner : String) (penalty : ℤ) (hash : String) (b : ℤ) (s : EconomicSystem (U k))
      → pos 0 ≤ℤ get_staked_amount miner s
      → pos 0 ≤ℤ get_balance miner s
      → pos 0 ≤ℤ penalty
      → let (r, t) = process_slashing_penalty (U k) miner penalty hash b s in
        let x = from_stake miner penalty s in
        (r ≡ returned true)
        × (get_staked_amount miner t ≡ get_staked_amount miner s -ℤ x)
        × (get_balance miner t ≡ get_balance miner s -ℤ (taken miner penalty s -ℤ x))
        × (holdings k t ≡ holdings k s -ℤ taken miner penalty s)
  unfolding from_stake taken
  process_slashing_penalty_effect miner penalty hash b s stake balance asked =
      let own = get_staked_amount miner s +ℤ get_balance miner s in
      let (most, nonneg, fits, part, rest) =
        amounts (get_staked_amount miner s) (get_balance miner s) own penalty stake balance asked
          refl in
      rw (slash_stages miner penalty hash b s) (
        stages_effect miner (from_stake miner penalty s) (taken miner penalty s) hash b s nonneg
          fits part rest)
