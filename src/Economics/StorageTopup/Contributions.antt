-- ===== src/Economics/StorageTopup/Contributions.antt =====
-- dessin/economics/storage_topup.py: the two books, the history and the contributors, agree.
use mathlib.Core.Path.{subst}
use dessin.Prelude.{
  ◌≡◌, refl, inl, inr, Bool, false, List, [], ◌∷◌, ◌++◌, String, ◌==◌, if◌then◌else◌, keep_if,
  Bool-cases, ap, ◌∙◌, sym, arith, eq_iff,
}
use dessin.Dict.{get, get_or, get_or-set, get_or-set_self}
use dessin.Num.{Num}
use dessin.Economics.StorageTopup.{
  StorageTopUp, StorageTopUpManager, new_topups, TopUpRequest, topup_of, credit, topup_storage,
  required_payment, sum_paid, get_user_contribution,
}

keep_if-append :
    {A : Type 0} (test : A → Bool) (xs : List A) (x : A)
    → keep_if test (xs ++ (x ∷ []))
      ≡ (if test x then keep_if test xs ++ (x ∷ []) else keep_if test xs)
keep_if-append test [] x = ground arith
keep_if-append test (y ∷ xs) x = ground (arith, keep_if-append test xs x)

module _ {N : Num} where
  open N use {Carrier, nought, add}

  -- Requests one after the other, whether they are granted or not.
  abbrev pub run : List (TopUpRequest N) → StorageTopUpManager N → StorageTopUpManager N
  run [] s = s
  run (r ∷ rs) s = run rs (topup_storage r s).1

  sum_paid-append :
      (n : Carrier) (xs : List (StorageTopUp N)) (t : StorageTopUp N)
      → sum_paid n (xs ++ (t ∷ [])) ≡ add (sum_paid n xs) t.amount_paid
  sum_paid-append n [] t = refl
  sum_paid-append n (x ∷ xs) t = sum_paid-append (add n x.amount_paid) xs t

  -- What a payer has paid for a model, by the history.
  abbrev pub paid_by : String → List (StorageTopUp N) → Carrier
  paid_by p history = sum_paid nought (keep_if (λ t. t.payer_address == p) history)

  paid_by-append :
      (p : String) (history : List (StorageTopUp N)) (t : StorageTopUp N)
      → paid_by p (history ++ (t ∷ [])) ≡ (
          if t.payer_address == p then add (paid_by p history) t.amount_paid else paid_by p history)
  paid_by-append p history t = elim (Bool-cases (t.payer_address == p)) [
    | inl own ↦
        rw (keep_if-append (λ (t : StorageTopUp N). t.payer_address == p) history t, own)
          (sum_paid-append nought (keep_if (λ t. t.payer_address == p) history) t)
    | inr other ↦
        rw (keep_if-append (λ (t : StorageTopUp N). t.payer_address == p) history t, other) refl
  ]

  abbrev Agrees : StorageTopUpManager N → Type 0
  Agrees s = (m p : String) → get_user_contribution m p s ≡ paid_by p (get_or m [] s.topup_history)

  credit-history :
      (r : TopUpRequest N) (s : StorageTopUpManager N)
      → get_or r.model_id [] (credit r s).topup_history
        ≡ get_or r.model_id [] s.topup_history ++ (topup_of r ∷ [])
  unfolding credit
  credit-history r s = get_or-set_self r.model_id [] _ s.topup_history

  get_user_contribution-credit :
      (r : TopUpRequest N) (s : StorageTopUpManager N) (p : String)
      → get_user_contribution r.model_id p (credit r s) ≡ (
          if r.payer_address == p
          then add (get_user_contribution r.model_id r.payer_address s) r.payment
          else get_user_contribution r.model_id p s)
  unfolding credit get_user_contribution
  get_user_contribution-credit r s p =
      ap (get_or p nought) (get_or-set_self r.model_id [] _ s.contributors)
      ∙ get_or-set r.payer_address p nought _ (get_or r.model_id [] s.contributors)

  credit_paid :
      (r : TopUpRequest N) (s : StorageTopUpManager N) (p : String)
      → Agrees s
      → get_user_contribution r.model_id p (credit r s)
        ≡ paid_by p (get_or r.model_id [] (credit r s).topup_history)
  credit_paid r s p h =
      let contributed = get_user_contribution-credit r s p in
      let history =
        ap (paid_by p) (credit-history r s)
        ∙ paid_by-append p (get_or r.model_id [] s.topup_history) (topup_of r) in
      contributed
      ∙ elim (Bool-cases (r.payer_address == p)) [
        | inl own ↦
            let payer : r.payer_address ≡ p = ground (arith, eq_iff r.payer_address p, own) in
            rw own (
              ap (λ q. add (get_user_contribution r.model_id q s) r.payment) payer
              ∙ ap (λ x. add x r.payment) (h r.model_id p))
        | inr other ↦ rw other (h r.model_id p)
      ]
      ∙ sym history

  credit_elsewhere :
      (r : TopUpRequest N) (s : StorageTopUpManager N) (m p : String)
      → (r.model_id == m) ≡ false
      → get_user_contribution m p (credit r s) ≡ get_user_contribution m p s
  unfolding credit get_user_contribution
  credit_elsewhere r s m p other =
      ap (get_or p nought) (get_or-set r.model_id m [] _ s.contributors ∙ rw other refl)

  credit-history_elsewhere :
      (r : TopUpRequest N) (s : StorageTopUpManager N) (m : String)
      → (r.model_id == m) ≡ false
      → get_or m [] (credit r s).topup_history ≡ get_or m [] s.topup_history
  unfolding credit
  credit-history_elsewhere r s m other =
      get_or-set r.model_id m [] _ s.topup_history ∙ rw other refl

  credit-Agrees : (r : TopUpRequest N) (s : StorageTopUpManager N) → Agrees s → Agrees (credit r s)
  credit-Agrees r s h m p = elim (Bool-cases (r.model_id == m)) [
    | inl same ↦
        let model : r.model_id ≡ m = ground (arith, eq_iff r.model_id m, same) in
        subst
          (λ m.
            get_user_contribution m p (credit r s)
            ≡ paid_by p (get_or m [] (credit r s).topup_history))
          model (credit_paid r s p h)
    | inr other ↦
        credit_elsewhere r s m p other
        ∙ h m p
        ∙ sym (ap (paid_by p) (credit-history_elsewhere r s m other))
  ]

  topup_storage-Agrees :
      (r : TopUpRequest N) (s : StorageTopUpManager N) → Agrees s → Agrees (topup_storage r s).1
  unfolding topup_storage
  topup_storage-Agrees r s h = elim (Bool-cases (N.lt r.payment (required_payment r))) [
    | inl short ↦ rw (short, topup_storage) h
    | inr enough ↦ rw (enough, topup_storage) (credit-Agrees r s h)
  ]

  run-Agrees :
      (rs : List (TopUpRequest N)) (s : StorageTopUpManager N) → Agrees s → Agrees (run rs s)
  run-Agrees [] s h = h
  run-Agrees (r ∷ rs) s h = run-Agrees rs (topup_storage r s).1 (topup_storage-Agrees r s h)

  -- After any requests on a new manager, whether granted or not, what the contributors' book says that an
  -- address has paid for a model is the sum of its payments in the history of the model, in their order.
  pub get_user_contribution-run :
      (rs : List (TopUpRequest N)) (m p : String)
      → let s = run rs (new_topups N) in
        get_user_contribution m p s ≡ paid_by p (get_or m [] s.topup_history)
  unfolding get_user_contribution get
  get_user_contribution-run rs m p = run-Agrees rs (new_topups N) (λ m p. refl) m p
