-- ===== src/Consensus/TwoPhase/Timing.antt =====
-- dessin/consensus/two_phase_verification.py: the timing of a phase, its completion and progress, and
-- the cleanup of old timings.
use dessin.Prelude.{
  ◌≡◌, ◌↔◌, refl, Bool, true, false, not, Option, none, some, String, arith, if◌then◌else◌,
}
use dessin.Prelude.Int.{ℤ, pos, ◌-ℤ◌, ◌≤ℤ◌, leb_ℤ, ltb_ℤ}
use dessin.Dict.{keep_values, get-keep_values, get, set, get-set_self, IsDistinct}
use dessin.Num.{Num, min_num, max_num}
use dessin.Consensus.TwoPhase.{
  VerificationPhase, PhaseTiming, TwoPhaseVerificationSystem, get_block_time_for_phase,
  completion_block_exclusive_of, phase_start_block_inclusive_of,
}

abbrev pub block_progress : (N : Num) (completion start tip : ℤ) → N.Carrier
block_progress N completion start tip =
    let span = completion -ℤ start in
    if leb_ℤ span (pos 0)
    then N.dec 1 0
    else max_num N N.nought
        (min_num N (N.dec 1 0) (N.div (N.of_int (tip -ℤ start)) (N.of_int span)))

reached : (x y : ℤ) → (leb_ℤ x y ≡ true) ↔ (x ≤ℤ y)
reached x y = (λ h. ground arith, λ h. ground arith)

if_true : {A : Type 0} {b : Bool} (x y : A) → b ≡ true → (if b then x else y) ≡ x
if_true x y e = rw e refl

if_false : {A : Type 0} {b : Bool} (x y : A) → b ≡ false → (if b then x else y) ≡ y
if_false x y e = rw e refl

module _ {N : Num} where
  open N use {Carrier, nought, sub, add, div, le, of_int, dec}

  abbrev pub timing_of :
      (ceil : Carrier → Carrier) (now : Carrier) (phase : VerificationPhase)
      (training_block_index current_block_index : ℤ)
      → TwoPhaseVerificationSystem N
      → PhaseTiming N
  timing_of ceil now phase training_block_index current_block_index s =
      let c = s.config in
      let block_time = get_block_time_for_phase ceil phase c in
      let use_blocks = c.verification_phase_completion_in_blocks in
      record {
        block_index = current_block_index;
        phase = phase;
        start_time = now;
        end_time = add now block_time;
        block_time_seconds = block_time;
        is_active = true;
        training_block_index = some training_block_index;
        completion_block_exclusive =
            if use_blocks
            then some (completion_block_exclusive_of phase training_block_index c)
            else none;
        phase_start_block_inclusive =
            if use_blocks
            then some (phase_start_block_inclusive_of phase training_block_index c)
            else none;
      }

  -- The new timing stands under the block's hash.
  unfoldable pub start_phase_timing :
      (ceil : Carrier → Carrier) (now : Carrier) (block_hash : String) (phase : VerificationPhase)
      (training_block_index current_block_index : ℤ)
      → TwoPhaseVerificationSystem N
      → PhaseTiming N × TwoPhaseVerificationSystem N
  start_phase_timing ceil now block_hash phase t b s =
      let timing = timing_of ceil now phase t b s in
      (timing, record s { phase_timings = set block_hash timing s.phase_timings })

  abbrev pub timing_complete :
      (now : Carrier) (tip : Option ℤ) (use_blocks : Bool) → PhaseTiming N → Bool
  timing_complete now none use_blocks timing = le timing.end_time now
  timing_complete now (some tip) use_blocks timing = elim timing.completion_block_exclusive [
    | none ↦ le timing.end_time now
    | some completion ↦ if use_blocks then leb_ℤ completion tip else le timing.end_time now
  ]

  unfoldable pub is_phase_complete :
      (now : Carrier) (block_hash : String) (chain_tip_index : Option ℤ)
      → TwoPhaseVerificationSystem N
      → Bool
  is_phase_complete now block_hash tip s = elim (get block_hash s.phase_timings) [
    | none ↦ false
    | some timing ↦ timing_complete now tip s.config.verification_phase_completion_in_blocks timing
  ]

  abbrev pub wall_progress : (now : Carrier) → PhaseTiming N → Carrier
  wall_progress now timing =
      min_num N (dec 1 0) (div (sub now timing.start_time) timing.block_time_seconds)

  abbrev pub timing_progress :
      (now : Carrier) (tip completion start : Option ℤ) (use_blocks : Bool)
      → PhaseTiming N
      → Carrier
  timing_progress now (some tip) (some completion) (some start) true timing =
      block_progress N completion start tip
  timing_progress now _ _ _ _ timing = wall_progress now timing

  unfoldable pub get_phase_progress :
      (now : Carrier) (block_hash : String) (chain_tip_index : Option ℤ)
      → TwoPhaseVerificationSystem N
      → Carrier
  get_phase_progress now block_hash tip s = elim (get block_hash s.phase_timings) [
    | none ↦ nought
    | some timing ↦
        if not timing.is_active
        then dec 1 0
        else timing_progress now tip timing.completion_block_exclusive
            timing.phase_start_block_inclusive s.config.verification_phase_completion_in_blocks
            timing
  ]

  unfoldable pub cleanup_old_verifications :
      (current_block_index retention_blocks : ℤ)
      → TwoPhaseVerificationSystem N
      → TwoPhaseVerificationSystem N
  cleanup_old_verifications current retention s = record s {
    phase_timings =
        keep_values (λ timing. not (ltb_ℤ timing.block_index (current -ℤ retention)))
          s.phase_timings;
  }

  is_phase_complete_found :
      (now : Carrier) (h : String) (tip : Option ℤ) (timing : PhaseTiming N)
      (s : TwoPhaseVerificationSystem N)
      → get h s.phase_timings ≡ some timing
      → is_phase_complete now h tip s
        ≡ timing_complete now tip s.config.verification_phase_completion_in_blocks timing
  unfolding is_phase_complete
  is_phase_complete_found now h tip timing s e = rw (e, is_phase_complete) refl

  timing_complete_blocks :
      (now : Carrier) (tip x : ℤ) (use_blocks : Bool) (timing : PhaseTiming N)
      → use_blocks ≡ true
      → timing.completion_block_exclusive ≡ some x
      → timing_complete now (some tip) use_blocks timing ≡ leb_ℤ x tip
  timing_complete_blocks now tip x use_blocks timing yes_blocks e = rw (yes_blocks, e) refl

  -- In block mode, a phase that was started is complete exactly from its completion block on, and the
  -- clock has no part in it.
  pub is_phase_complete-start_phase_timing :
      (ceil : Carrier → Carrier) (now later : Carrier) (h : String) (p : VerificationPhase)
      (t b tip : ℤ) (s : TwoPhaseVerificationSystem N)
      → s.config.verification_phase_completion_in_blocks ≡ true
      → let u = (start_phase_timing ceil now h p t b s).1 in
        (is_phase_complete later h (some tip) u ≡ true)
        ↔ (completion_block_exclusive_of p t s.config ≤ℤ tip)
  unfolding start_phase_timing
  is_phase_complete-start_phase_timing ceil now later h p t b tip s blocks =
      let timing = timing_of ceil now p t b s in
      let u = (start_phase_timing ceil now h p t b s).1 in
      let x = completion_block_exclusive_of p t s.config in
      let ends = if_true (some x) none blocks in
      rw
        (
          is_phase_complete_found later h (some tip) timing u
              (get-set_self h timing s.phase_timings),
          timing_complete_blocks later tip x s.config.verification_phase_completion_in_blocks timing
              blocks ends,
        )
        (reached x tip)

  -- A cleanup keeps a timing exactly when its block is among the blocks to retain. The timings are a
  -- proper dict.
  pub get-cleanup_old_verifications :
      (h : String) (current retention : ℤ) (s : TwoPhaseVerificationSystem N)
      → IsDistinct s.phase_timings
      → get h (cleanup_old_verifications current retention s).phase_timings
        ≡ (elim (get h s.phase_timings) [
          | none ↦ none
          | some timing ↦
              if ltb_ℤ timing.block_index (current -ℤ retention) then none else some timing
        ])
  unfolding cleanup_old_verifications
  get-cleanup_old_verifications h current retention s distinct = ground (
    arith,
    get-keep_values (λ (x : PhaseTiming N). not (ltb_ℤ x.block_index (current -ℤ retention))) h
        s.phase_timings distinct,
  )
