-- ===== src/Economics/DynamicParameters/History.antt =====
-- dessin/economics/dynamic_parameters.py: the parameters over a history of adjustments.
use mathlib.Core.Path.{subst}
use dessin.Prelude.{
  ◌≡◌, ◌⊎◌, refl, inl, inr, Bool, true, false, List, [], ◌∷◌, ◌++◌, String, Bool-cases, ap, ◌∙◌,
  sym, arith, keep_if, keep_if_yes, keep_if_no, if◌then◌else◌, append_assoc, append-nil,
}
use dessin.Prelude.Int.{ℤ}
use dessin.Num.{Num, IsOrdered, eq_num}
use dessin.Economics.DynamicParameters.{
  ParameterType, same_type, block_reward, storage_price, training_payment, ParameterAdjustment,
  DynamicParameterManager, Bounds, value, write_value, moved, out_of_bounds, adjust, of_type,
}

-- An adjustment by a block leader.
pub record Adjust : Type 0 where
  pub parameter_type : ParameterType
  pub block_index : ℤ
  pub block_leader : String
  pub increase : Bool

same_type→eq : (q p : ParameterType) → same_type q p ≡ true → q ≡ p
same_type→eq block_reward block_reward h = refl
same_type→eq block_reward storage_price h = cc
same_type→eq block_reward training_payment h = cc
same_type→eq storage_price block_reward h = cc
same_type→eq storage_price storage_price h = refl
same_type→eq storage_price training_payment h = cc
same_type→eq training_payment block_reward h = cc
same_type→eq training_payment storage_price h = cc
same_type→eq training_payment training_payment h = refl

same_type_self : (p : ParameterType) → same_type p p ≡ true
same_type_self block_reward = refl
same_type_self storage_price = refl
same_type_self training_payment = refl

module _ {N : Num} where
  open N use {Carrier, nought, le, lt}

  unfoldable pub run : List Adjust → DynamicParameterManager N → DynamicParameterManager N
  run [] m = m
  run (a ∷ more) m = run more (adjust a.parameter_type a.block_index a.block_leader a.increase m).1

  -- The entries lead from one value to another, each from where the one before it ended.
  abbrev pub Leads : Carrier → List (ParameterAdjustment N) → Carrier → Type 0
  Leads x [] y = x ≡ y
  Leads x (adj ∷ history) y = (adj.old_value ≡ x) × Leads adj.new_value history y

  -- From `m` to `t`: what `t` has for a parameter is what `m` has or lies within the bounds, the bounds
  -- are the same, and the history is that of `m` with entries that lead from the one to the other.
  abbrev pub Tracks : (p : ParameterType) (m t : DynamicParameterManager N) → Type 0
  Tracks p m t =
      ((value p t ≡ value p m)
        ⊎ ((le (t.bounds p).min (value p t) ≡ true) × (le (value p t) (t.bounds p).max ≡ true)))
      × (t.bounds ≡ m.bounds)
      × ((added : List (ParameterAdjustment N)) × (t.adjustment_history
            ≡ m.adjustment_history ++ added)
          × Leads (value p m) (of_type p added) (value p t))
      × (lt nought (value p t) ≡ true)

  value-write_value :
      (q p : ParameterType) (x : Carrier) (m : DynamicParameterManager N)
      → value p (write_value q x m) ≡ (if same_type q p then x else value p m)
  value-write_value block_reward block_reward x m = refl
  value-write_value block_reward storage_price x m = refl
  value-write_value block_reward training_payment x m = refl
  value-write_value storage_price block_reward x m = refl
  value-write_value storage_price storage_price x m = refl
  value-write_value storage_price training_payment x m = refl
  value-write_value training_payment block_reward x m = refl
  value-write_value training_payment storage_price x m = refl
  value-write_value training_payment training_payment x m = refl

  write_value-rest :
      (q : ParameterType) (x : Carrier) (m : DynamicParameterManager N)
      → ((write_value q x m).bounds ≡ m.bounds)
        × ((write_value q x m).adjustment_history ≡ m.adjustment_history)
  write_value-rest block_reward x m = (refl, refl)
  write_value-rest storage_price x m = (refl, refl)
  write_value-rest training_payment x m = (refl, refl)

  Tracks-same :
      (p : ParameterType) (m : DynamicParameterManager N)
      → lt nought (value p m) ≡ true
      → Tracks p m m
  Tracks-same p m positive =
      (inl refl, refl, ([], sym (append-nil m.adjustment_history), refl), positive)

  -- Writing another parameter, with or without an entry for it.
  Tracks-other :
      (q p : ParameterType) (x : Carrier) (m t : DynamicParameterManager N)
      (added : List (ParameterAdjustment N))
      → same_type q p ≡ false
      → lt nought (value p m) ≡ true
      → value p t ≡ value p (write_value q x m)
      → t.bounds ≡ (write_value q x m).bounds
      → t.adjustment_history ≡ (write_value q x m).adjustment_history ++ added
      → of_type p added ≡ []
      → Tracks p m t
  Tracks-other q p x m t added other positive same bounds history none_of_p =
      let unmoved : value p t ≡ value p m = same ∙ value-write_value q p x m ∙ rw other refl in
      let (bounds_kept, history_kept) = write_value-rest q x m in
      (
        inl unmoved,
        bounds ∙ bounds_kept,
        (added, history ∙ ap (λ h. h ++ added) history_kept, rw none_of_p (sym unmoved)),
        rw unmoved positive,
      )

  value-history :
      (p : ParameterType) (history : List (ParameterAdjustment N)) (m : DynamicParameterManager N)
      → value p (record m { adjustment_history = history }) ≡ value p m
  value-history block_reward history m = refl
  value-history storage_price history m = refl
  value-history training_payment history m = refl

  -- A value within the bounds, with its entry.
  Tracks-own :
      (o : IsOrdered N) (p : ParameterType) (x : Carrier) (m : DynamicParameterManager N)
      (adj : ParameterAdjustment N)
      → out_of_bounds p x m ≡ false
      → lt nought (m.bounds p).min ≡ true
      → adj.parameter_type ≡ p
      → adj.old_value ≡ value p m
      → adj.new_value ≡ x
      → let t = write_value p x m in
        Tracks p m (record t { adjustment_history = t.adjustment_history ++ (adj ∷ []) })
  Tracks-own o p x m adj inside above its_type old new =
      let t = write_value p x m in
      let (bounds, history) = write_value-rest p x m in
      let u = record t { adjustment_history = t.adjustment_history ++ (adj ∷ []) } in
      let is_x : value p u ≡ x =
        value-history p u.adjustment_history t
        ∙ value-write_value p p x m
        ∙ rw (same_type_self p) refl in
      let low = (m.bounds p).min in
      let high = (m.bounds p).max in
      let over_low : le low x ≡ true = ground (arith, inside, o.lt-eq-not-le x low) in
      let under_high : le x high ≡ true = ground (arith, inside, o.lt-eq-not-le high x) in
      let positive : lt nought x ≡ true = ground (
        arith,
        above,
        over_low,
        o.lt-eq-not-le nought low,
        o.lt-eq-not-le nought x,
        o.le_trans low x nought,
      ) in
      let own : of_type p (adj ∷ []) ≡ adj ∷ [] =
        keep_if_yes (λ (a : ParameterAdjustment N). same_type a.parameter_type p) adj []
          (ap (λ q. same_type q p) its_type ∙ same_type_self p) in
      (
        inr (
          ap (λ (b : ParameterType → Bounds N). le (b p).min (value p u)) bounds
              ∙ ap (le low) is_x
              ∙ over_low,
          ap (λ (b : ParameterType → Bounds N). le (value p u) (b p).max) bounds
              ∙ ap (λ v. le v high) is_x
              ∙ under_high,
        ),
        bounds,
        (adj ∷ [], ap (λ h. h ++ (adj ∷ [])) history, rw own (old, new ∙ sym is_x)),
        ap (lt nought) is_x ∙ positive,
      )

  adjust-other :
      (q p : ParameterType) (b : ℤ) (leader : String) (increase : Bool)
      (m : DynamicParameterManager N)
      → same_type q p ≡ false
      → lt nought (value p m) ≡ true
      → Tracks p m (adjust q b leader increase m).1
  unfolding adjust
  adjust-other q p b leader increase m other positive =
      let x = moved increase (value q m) m in
      elim (Bool-cases (out_of_bounds q x m)) [
        | inl outside ↦ rw (outside, adjust) (Tracks-same p m positive)
        | inr inside ↦ elim (Bool-cases (eq_num N (value q m) nought)) [
          | inl zero ↦
              rw (inside, zero, adjust)
                (Tracks-other q p x m (write_value q x m) [] other positive refl refl
                  (sym (append-nil (write_value q x m).adjustment_history)) refl)
          | inr nonzero ↦
              rw (inside, nonzero, adjust)
                (Tracks-other q p x m _ _ other positive (value-history p _ (write_value q x m))
                  refl refl (rw (other, keep_if) refl))
        ]
      ]

  adjust-own :
      (o : IsOrdered N) (p : ParameterType) (b : ℤ) (leader : String) (increase : Bool)
      (m : DynamicParameterManager N)
      → lt nought (m.bounds p).min ≡ true
      → lt nought (value p m) ≡ true
      → Tracks p m (adjust p b leader increase m).1
  unfolding adjust
  adjust-own o p b leader increase m above positive =
      let x = moved increase (value p m) m in
      elim (Bool-cases (out_of_bounds p x m)) [
        | inl outside ↦ rw (outside, adjust) (Tracks-same p m positive)
        | inr inside ↦ elim (Bool-cases (eq_num N (value p m) nought)) [
          | inl zero ↦ absurd (ground (arith, zero, positive, o.lt-eq-not-le nought (value p m)))
          | inr nonzero ↦
              rw (inside, nonzero, adjust) (Tracks-own o p x m _ inside above refl refl refl)
        ]
      ]

  adjust-Tracks :
      (o : IsOrdered N) (p : ParameterType) (a : Adjust) (m : DynamicParameterManager N)
      → lt nought (m.bounds p).min ≡ true
      → lt nought (value p m) ≡ true
      → Tracks p m (adjust a.parameter_type a.block_index a.block_leader a.increase m).1
  adjust-Tracks o p a m above positive = elim (Bool-cases (same_type a.parameter_type p)) [
    | inl same ↦
        subst (λ q. Tracks p m (adjust q a.block_index a.block_leader a.increase m).1)
          (sym (same_type→eq a.parameter_type p same))
          (adjust-own o p a.block_index a.block_leader a.increase m above positive)
    | inr other ↦
        adjust-other a.parameter_type p a.block_index a.block_leader a.increase m other positive
  ]

  Leads-append :
      (x y z : Carrier) (more history : List (ParameterAdjustment N))
      → Leads x history y
      → Leads y more z
      → Leads x (history ++ more) z
  Leads-append x y z more [] e h = rw e h
  Leads-append x y z more (adj ∷ history) (e, g) h =
      (e, Leads-append adj.new_value y z more history g h)

  of_type-append :
      (p : ParameterType) (history more : List (ParameterAdjustment N))
      → of_type p (history ++ more) ≡ of_type p history ++ of_type p more
  of_type-append p [] more = refl
  of_type-append p (adj ∷ history) more =
      let test = λ (a : ParameterAdjustment N). same_type a.parameter_type p in
      elim (Bool-cases (same_type adj.parameter_type p)) [
        | inl same ↦
            keep_if_yes test adj (history ++ more) same
            ∙ ap (λ h. adj ∷ h) (of_type-append p history more)
            ∙ ap (λ h. h ++ of_type p more) (sym (keep_if_yes test adj history same))
        | inr other ↦
            keep_if_no test adj (history ++ more) other
            ∙ of_type-append p history more
            ∙ ap (λ h. h ++ of_type p more) (sym (keep_if_no test adj history other))
      ]

  Tracks-trans :
      (p : ParameterType) (m t u : DynamicParameterManager N)
      → Tracks p m t
      → Tracks p t u
      → Tracks p m u
  Tracks-trans p m t u (where_t, bounds, (added, history, leads), pos_t)
        (where_u, bounds', (more, history', leads'), pos_u) =
      (
        elim where_u [
          | inl kept ↦ elim where_t [
            | inl kept' ↦ inl (kept ∙ kept')
            | inr (low, high) ↦ inr (rw (kept, bounds') low, rw (kept, bounds') high)
          ]
          | inr within ↦ inr within
        ],
        bounds' ∙ bounds,
        (
          added ++ more,
          history' ∙ ap (λ h. h ++ more) history ∙ append_assoc m.adjustment_history added more,
          rw (of_type-append p added more) (
              Leads-append (value p m) (value p t) (value p u) (of_type p more) (of_type p added)
                leads leads'),
        ),
        pos_u,
      )

  -- Over any history of adjustments by block leaders, where a parameter starts above nothing and its
  -- lower bound is above nothing: it keeps its bounds, it is what it was or lies within them, it stays
  -- above nothing, and the history gets at its end entries of which those of the parameter lead, each
  -- from where the one before it ended, from the value at the start to the value at the end. For an
  -- ordered type of numbers.
  pub run-Tracks :
      (o : IsOrdered N) (p : ParameterType) (calls : List Adjust) (m : DynamicParameterManager N)
      → lt nought (m.bounds p).min ≡ true
      → lt nought (value p m) ≡ true
      → Tracks p m (run calls m)
  unfolding run
  run-Tracks o p [] m above positive = Tracks-same p m positive
  run-Tracks o p (a ∷ more) m above positive =
      let t = (adjust a.parameter_type a.block_index a.block_leader a.increase m).1 in
      let first = adjust-Tracks o p a m above positive in
      let above_t : lt nought (t.bounds p).min ≡ true = rw first.1 above in
      Tracks-trans p m t (run more t) first (run-Tracks o p more t above_t first.3)
