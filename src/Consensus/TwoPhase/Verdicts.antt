-- ===== src/Consensus/TwoPhase/Verdicts.antt =====
-- dessin/consensus/two_phase_verification.py: the verdicts of the verifiers, their summary, and whether
-- to go on to the next phase.
use dessin.Prelude.{
  ℕ, zero, suc, Bool, true, false, ◌||◌, Option, none, some, List, [], ◌∷◌, ◌++◌, String,
  if◌then◌else◌, length, get_elem?,
}
use dessin.Prelude.Int.{ℤ, pos}
use dessin.Dict.{Dict, get_or, set}
use dessin.Num.{Num}
use dessin.Consensus.TwoPhase.{VerificationPhase, TwoPhaseVerificationSystem}
use dessin.Consensus.TwoPhase.VerificationPhase.{training, phase1, phase2, finalization}
use dessin.Consensus.TwoPhase.Timing.{is_phase_complete, get_phase_progress}

-- `objects[i] = f(objects[i])`
abbrev pub change : {D : Type 0} → (D → D) → ℕ → List D → List D
change f i [] = []
change f zero (x ∷ xs) = f x ∷ xs
change f (suc i) (x ∷ xs) = x ∷ change f i xs

-- The verdicts of three kinds.
pub data Verdict : Type 0 where
  positive negative pending : Verdict

abbrev pub verdict : Option Bool → Verdict
verdict none = pending
verdict (some true) = positive
verdict (some false) = negative

-- `sum(1 for v in verifications if v.verification_result is kind)`
abbrev pub is_kind : Verdict → Verdict → Bool
is_kind positive positive = true
is_kind negative negative = true
is_kind pending pending = true
is_kind _ _ = false

unfoldable pub count : Verdict → List (Option Bool) → ℕ
count kind [] = 0
count kind (r ∷ rs) =
    let rest = count kind rs in if is_kind kind (verdict r) then suc rest else rest

-- The results that a list of references stands for.
unfoldable pub results : {D : Type 0} → (D → Option Bool) → List D → List ℕ → List (Option Bool)
results result objects [] = []
results result objects (i ∷ is) =
    (elim (get_elem? objects i) [ none ↦ none | some x ↦ result x ]) ∷ results result objects is

pub record Summary (N : Num) : Type 0 where
  pub total_verifications : ℕ
  pub positive_count : ℕ
  pub negative_count : ℕ
  pub pending_count : ℕ
  pub positive_ratio : N.Carrier
  pub phase_complete : Bool
  pub phase_progress : N.Carrier

-- The object stands in the list of its block.
abbrev pub file : ℕ → String → Dict (List ℕ) → Dict (List ℕ)
file data_ref block_hash d = set block_hash (get_or block_hash [] d ++ (data_ref ∷ [])) d

module _ {N : Num} where
  open N use {Carrier, nought, div, le, of_int, dec}

  -- The caller's object is at `data_ref`.
  unfoldable pub submit_phase1_verification :
      (data_ref : ℕ) (verification_result : Bool) (actual_loss_improvement : Option Carrier)
      (evidence : Option String)
      → TwoPhaseVerificationSystem N
      → TwoPhaseVerificationSystem N
  submit_phase1_verification data_ref result actual evidence s =
      elim (get_elem? s.phase1_data data_ref) [
        | none ↦ s
        | some verification_data ↦ record s {
          phase1_data =
              change
                (λ d. record d {
                  verification_result = some result;
                  actual_loss_improvement = actual;
                  evidence = evidence;
                })
                data_ref s.phase1_data;
          phase1_verifications = file data_ref verification_data.block_hash s.phase1_verifications;
        }
      ]

  unfoldable pub submit_phase2_verification :
      (data_ref : ℕ) (verification_result : Bool) (evidence : Option String)
      → TwoPhaseVerificationSystem N
      → TwoPhaseVerificationSystem N
  submit_phase2_verification data_ref result evidence s = elim (get_elem? s.phase2_data data_ref) [
    | none ↦ s
    | some verification_data ↦ record s {
      phase2_data =
          change (λ d. record d { verification_result = some result; evidence = evidence }) data_ref
            s.phase2_data;
      phase2_verifications = file data_ref verification_data.block_hash s.phase2_verifications;
    }
  ]

  -- The body of the summaries: `none` is `{"status": "no_verifications"}`.
  unfoldable pub summary :
      (now : Carrier) (block_hash : String) (chain_tip_index : Option ℤ)
      → TwoPhaseVerificationSystem N
      → List (Option Bool)
      → Option (Summary N)
  summary now h tip s [] = none
  summary now h tip s (r ∷ rs) =
      let verifications : List (Option Bool) = r ∷ rs in
      some (record {
        total_verifications = length verifications;
        positive_count = count positive verifications;
        negative_count = count negative verifications;
        pending_count = count pending verifications;
        positive_ratio =
            div (of_int (pos (count positive verifications))) (of_int (pos (length verifications)));
        phase_complete = is_phase_complete now h tip s;
        phase_progress = get_phase_progress now h tip s;
      })

  abbrev pub phase1_results : String → TwoPhaseVerificationSystem N → List (Option Bool)
  phase1_results h s =
      results (λ d. d.verification_result) s.phase1_data (get_or h [] s.phase1_verifications)

  abbrev pub phase2_results : String → TwoPhaseVerificationSystem N → List (Option Bool)
  phase2_results h s =
      results (λ d. d.verification_result) s.phase2_data (get_or h [] s.phase2_verifications)

  abbrev pub get_phase1_verification_summary :
      Carrier → String → Option ℤ → TwoPhaseVerificationSystem N → Option (Summary N)
  get_phase1_verification_summary now h tip s = summary now h tip s (phase1_results h s)

  abbrev pub get_phase2_verification_summary :
      Carrier → String → Option ℤ → TwoPhaseVerificationSystem N → Option (Summary N)
  get_phase2_verification_summary now h tip s = summary now h tip s (phase2_results h s)

  -- `summary.get("positive_ratio", 0.0) >= 0.5 or summary.get("phase_complete", False)`
  abbrev pub may_proceed : Option (Summary N) → Bool
  may_proceed none = le (dec 5 1) nought || false
  may_proceed (some r) = le (dec 5 1) r.positive_ratio || r.phase_complete

  unfoldable pub should_proceed_to_next_phase :
      Carrier → String → VerificationPhase → Option ℤ → TwoPhaseVerificationSystem N → Bool
  should_proceed_to_next_phase now h phase tip s = elim phase [
    | training ↦ true
    | phase1 ↦ may_proceed (get_phase1_verification_summary now h tip s)
    | phase2 ↦ may_proceed (get_phase2_verification_summary now h tip s)
    | finalization ↦ true
  ]
