-- ===== src/Consensus/TwoPhase/Counts.antt =====
-- dessin/consensus/two_phase_verification.py: what a verdict does to the summary.
use dessin.Prelude.{
  ℕ, zero, suc, ◌+◌, ◌≡◌, ◌≢◌, refl, ap, Bool, true, false, Option, none, some, List, [], ◌∷◌, ◌++◌,
  String, arith, if◌then◌else◌, Bool-cases, inl, inr, length, get_elem?, All,
}
use dessin.Dict.{get_or, get-set_self}
use dessin.Num.{Num}
use dessin.Consensus.TwoPhase.{Phase1VerificationData, TwoPhaseVerificationSystem}
use dessin.Consensus.TwoPhase.Verdicts.{
  change, file, Verdict, verdict, is_kind, count, results, submit_phase1_verification,
  phase1_results,
}
use dessin.Consensus.TwoPhase.Verdicts.Verdict.{positive, negative, pending}

module _ {D : Type 0} (result : D → Option Bool) (f : D → D) where
  change_found :
      (i : ℕ) (x : D) (xs : List D)
      → get_elem? xs i ≡ some x
      → get_elem? (change f i xs) i ≡ some (f x)
  change_found zero x (y ∷ xs) e = cc
  change_found (suc i) x (y ∷ xs) e = change_found i x xs e
  change_found i x [] e = cc

  change_other : (i j : ℕ) (xs : List D) → j ≢ i → get_elem? (change f i xs) j ≡ get_elem? xs j
  change_other i j [] ne = refl
  change_other zero zero (y ∷ xs) ne = ground arith
  change_other zero (suc j) (y ∷ xs) ne = refl
  change_other (suc i) zero (y ∷ xs) ne = refl
  change_other (suc i) (suc j) (y ∷ xs) ne = change_other i j xs (λ e. ne (ap suc e))

  results-change :
      (i : ℕ) (x : D) (xs : List D) (refs : List ℕ)
      → get_elem? xs i ≡ some x
      → All (λ j. j ≢ i) refs
      → results result (change f i xs) (refs ++ (i ∷ []))
        ≡ results result xs refs ++ (result (f x) ∷ [])
  unfolding results
  results-change i x xs [] e fresh = rw (change_found i x xs e) refl
  results-change i x xs (j ∷ refs) e fresh =
      rw (change_other i j xs fresh.0, results-change i x xs refs e fresh.1) refl

count_append :
    (kind : Verdict) (rs : List (Option Bool)) (r : Option Bool)
    → count kind (rs ++ (r ∷ [])) ≡ count kind rs + (if is_kind kind (verdict r) then 1 else 0)
unfolding count
count_append kind [] r = elim (Bool-cases (is_kind kind (verdict r))) [
  | inl same ↦ rw same refl
  | inr other ↦ rw other refl
]
count_append kind (x ∷ rs) r = elim (Bool-cases (is_kind kind (verdict x))) [
  | inl same ↦ rw (same, count_append kind rs r) (omega arith)
  | inr other ↦ rw (other, count_append kind rs r) (omega arith)
]

-- The three counts of a summary add up to the number of verdicts.
pub count_partition :
    (rs : List (Option Bool)) → count positive rs + count negative rs + count pending rs ≡ length rs
unfolding count
count_partition [] = refl
count_partition (none ∷ rs) = omega (arith, count_partition rs)
count_partition (some true ∷ rs) = omega (arith, count_partition rs)
count_partition (some false ∷ rs) = omega (arith, count_partition rs)

module _ {N : Num} where
  abbrev filed :
      (r : ℕ) (v : Bool) (actual : Option N.Carrier) (evidence : Option String) (h : String)
      → TwoPhaseVerificationSystem N
      → TwoPhaseVerificationSystem N
  filed r v actual evidence h s = record s {
    phase1_data =
        change
          (λ d. record d {
            verification_result = some v;
            actual_loss_improvement = actual;
            evidence = evidence;
          })
          r s.phase1_data;
    phase1_verifications = file r h s.phase1_verifications;
  }

  submit_files :
      (r : ℕ) (v : Bool) (actual : Option N.Carrier) (evidence : Option String)
      (d : Phase1VerificationData N) (s : TwoPhaseVerificationSystem N)
      → get_elem? s.phase1_data r ≡ some d
      → submit_phase1_verification r v actual evidence s ≡ filed r v actual evidence d.block_hash s
  unfolding submit_phase1_verification
  submit_files r v actual evidence d s e = rw (e, submit_phase1_verification) refl

  phase1_filed :
      (r : ℕ) (v : Bool) (actual : Option N.Carrier) (evidence : Option String)
      (d : Phase1VerificationData N) (s : TwoPhaseVerificationSystem N)
      → get_elem? s.phase1_data r ≡ some d
      → All (λ j. j ≢ r) (get_or d.block_hash [] s.phase1_verifications)
      → phase1_results d.block_hash (submit_phase1_verification r v actual evidence s)
        ≡ phase1_results d.block_hash s ++ (some v ∷ [])
  phase1_filed r v actual evidence d s e fresh =
      let refs = get_or d.block_hash [] s.phase1_verifications in
      rw
        (
          submit_files r v actual evidence d s e,
          get-set_self d.block_hash (refs ++ (r ∷ [])) s.phase1_verifications,
        )
        (results-change (λ x. x.verification_result)
          (λ x. record x {
            verification_result = some v;
            actual_loss_improvement = actual;
            evidence = evidence;
          })
          r d s.phase1_data refs e fresh)

  -- A verdict submitted with an object that its block does not list yet adds one to the count of its
  -- kind in phase 1 of that block, and leaves the other counts alone.
  pub count-submit_phase1_verification :
      (kind : Verdict) (r : ℕ) (v : Bool) (actual : Option N.Carrier) (evidence : Option String)
      (d : Phase1VerificationData N) (s : TwoPhaseVerificationSystem N)
      → get_elem? s.phase1_data r ≡ some d
      → All (λ j. j ≢ r) (get_or d.block_hash [] s.phase1_verifications)
      → count kind (phase1_results d.block_hash (submit_phase1_verification r v actual evidence s))
        ≡ count kind (phase1_results d.block_hash s)
          + (if is_kind kind (verdict (some v)) then 1 else 0)
  count-submit_phase1_verification kind r v actual evidence d s e fresh =
      rw (phase1_filed r v actual evidence d s e fresh)
        (count_append kind (phase1_results d.block_hash s) (some v))
