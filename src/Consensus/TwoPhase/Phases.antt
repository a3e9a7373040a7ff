-- ===== src/Consensus/TwoPhase/Phases.antt =====
-- dessin/consensus/two_phase_verification.py: the phase of a block against the windows.
use dessin.Prelude.{
  ℕ, ◌≡◌, ◌≢◌, ◌↔◌, ◌≤◌, ◌⊎◌, inl, inr, refl, true, false, arith, Bool-cases, if◌then◌else◌,
}
use dessin.Prelude.Int.{ℤ, pos, ◌+ℤ◌, ◌-ℤ◌, ◌≤ℤ◌, ◌<ℤ◌, leb_ℤ, eq_ℤ, int_laws, parts_of_eq, eq_ℤ→eq}
use dessin.Num.{Num}
use dessin.Consensus.TwoPhase.{
  VerificationPhase, ConsensusConfig, get_current_phase, completion_block_exclusive_of,
  phase_start_block_inclusive_of, should_start_phase,
}
use dessin.Consensus.TwoPhase.VerificationPhase.{training, phase1, phase2, finalization}

leb_lem : (x y : ℤ) → leb_ℤ x y ≡ true → x ≤ℤ y
leb_lem x y h = ground arith

gtb_lem : (x y : ℤ) → leb_ℤ x y ≡ false → y <ℤ x
gtb_lem x y h = ground arith

ne_lem : (x y : ℤ) → eq_ℤ x y ≡ false → (x <ℤ y) ⊎ (y <ℤ x)
ne_lem x y h = ground arith

-- The phases in their order.
pub rank : VerificationPhase → ℕ
rank training = 0
rank phase1 = 1
rank phase2 = 2
rank finalization = 3

-- The phase by the blocks since training.
abbrev phase_at : (since first second last : ℤ) → VerificationPhase
phase_at since first second last =
    if eq_ℤ since (pos 0)
    then training
    else if leb_ℤ since first
    then phase1
    else if leb_ℤ since second
    then phase2
    else if leb_ℤ since last
    then finalization
    else finalization

rank_lem :
    (x y first second last : ℤ)
    → pos 0 ≤ℤ x
    → x ≤ℤ y
    → first ≤ℤ second
    → rank (phase_at x first second last) ≤ rank (phase_at y first second last)
unfolding rank
rank_lem x y first second last nonneg order widens = elim (Bool-cases (eq_ℤ y (pos 0))) [
  | inl still ↦
      let y_zero = eq_ℤ→eq y (pos 0) still in
      let x_zero : x ≡ pos 0 = omega (int_laws, parts_of_eq y_zero, order, nonneg) in
      rw (still, x_zero) (omega arith)
  | inr moved ↦ ground arith
]

eq→eq_ℤ : (x y : ℤ) → x ≡ y → eq_ℤ x y ≡ true
eq→eq_ℤ x y e = rw e (ground arith)

start_lem : (b t w s : ℤ) → s ≡ t +ℤ w → (eq_ℤ (b -ℤ t) w ≡ true) ↔ (b ≡ s)
start_lem b t w s e = (
  λ h. omega (int_laws, parts_of_eq (eq_ℤ→eq (b -ℤ t) w h), parts_of_eq e),
  λ h. eq→eq_ℤ (b -ℤ t) w (omega (int_laws, parts_of_eq h, parts_of_eq e)),
)

module _ {N : Num} where
  -- A block after its training block is inside the blocks of its phase: the phase has started, and
  -- it is not complete unless it is the last, which goes on for good.
  pub get_current_phase_window :
      (b t : ℤ) (c : ConsensusConfig N)
      → t ≤ℤ b
      → let p = get_current_phase b t c in
        (phase_start_block_inclusive_of p t c ≤ℤ b)
        × ((b <ℤ completion_block_exclusive_of p t c) ⊎ (p ≡ finalization))
  unfolding get_current_phase phase_start_block_inclusive_of completion_block_exclusive_of
  get_current_phase_window b t c after =
      let since = b -ℤ t in
      let p1 = c.phase1_window_blocks in
      let p2 = p1 +ℤ c.phase2_window_blocks in
      elim (Bool-cases (eq_ℤ since (pos 0))) [
        | inl same ↦
            let e = eq_ℤ→eq since (pos 0) same in
            rw same (after, inl (omega (int_laws, parts_of_eq e)))
        | inr later ↦
            let apart = ne_lem since (pos 0) later in
            let started : pos 1 ≤ℤ since = elim apart [
              | inl before ↦ omega (int_laws, before, after)
              | inr behind ↦ omega (int_laws, behind)
            ] in
            elim (Bool-cases (leb_ℤ since p1)) [
              | inl first ↦
                  rw (later, first)
                    (omega (int_laws, started), inl (omega (int_laws, leb_lem since p1 first)))
              | inr past1 ↦ elim (Bool-cases (leb_ℤ since p2)) [
                | inl second ↦
                    rw (later, past1, second)
                      (
                        omega (int_laws, gtb_lem since p1 past1),
                        inl (omega (int_laws, leb_lem since p2 second)),
                      )
                | inr past2 ↦ elim (Bool-cases (leb_ℤ since c.finalization_window)) [
                  | inl last ↦
                      rw (later, past1, past2, last)
                        (omega (int_laws, gtb_lem since p2 past2), inr refl)
                  | inr over ↦
                      rw (later, past1, past2, over)
                        (omega (int_laws, gtb_lem since p2 past2), inr refl)
                ]
              ]
            ]
      ]

  -- The phase of a training block never goes back as the chain grows past it, when no window is
  -- negative.
  pub get_current_phase_monotone :
      (b d t : ℤ) (c : ConsensusConfig N)
      → t ≤ℤ b
      → b ≤ℤ d
      → pos 0 ≤ℤ c.phase1_window_blocks
      → pos 0 ≤ℤ c.phase2_window_blocks
      → rank (get_current_phase b t c) ≤ rank (get_current_phase d t c)
  unfolding get_current_phase rank
  get_current_phase_monotone b d t c after later w1 w2 =
      let x = b -ℤ t in
      let y = d -ℤ t in
      let x_nonneg : pos 0 ≤ℤ x = omega (int_laws, after) in
      let order : x ≤ℤ y = omega (int_laws, later) in
      let p2 = c.phase1_window_blocks +ℤ c.phase2_window_blocks in
      let widens : c.phase1_window_blocks ≤ℤ p2 = omega (int_laws, w2) in
      rank_lem x y c.phase1_window_blocks p2 c.finalization_window x_nonneg order widens

  -- A phase starts at its first block and at no other: a block starts its phase exactly when it is the
  -- first block of that phase, and a training phase is not started.
  pub should_start_phase_iff :
      (b t : ℤ) (c : ConsensusConfig N)
      → (should_start_phase b t c ≡ true) ↔ (
          (get_current_phase b t c ≢ training)
          × (b ≡ phase_start_block_inclusive_of (get_current_phase b t c) t c))
  unfolding should_start_phase phase_start_block_inclusive_of
  should_start_phase_iff b t c = phases (get_current_phase b t c)
    where
      started :
          (p : VerificationPhase) {A B : Type 0} → p ≢ training → (A ↔ B) → A ↔ ((p ≢ training) × B)
      started p ne h = (λ a. (ne, h.0 a), λ b. h.1 b.1)

      phases :
          (p : VerificationPhase)
          → ((elim p [
            | training ↦ false
            | phase1 ↦ eq_ℤ (b -ℤ t) (pos 1)
            | phase2 ↦ eq_ℤ (b -ℤ t) (c.phase1_window_blocks +ℤ pos 1)
            | finalization ↦
                eq_ℤ (b -ℤ t) (c.phase1_window_blocks +ℤ c.phase2_window_blocks +ℤ pos 1)
          ])
              ≡ true)
            ↔ ((p ≢ training) × (b ≡ phase_start_block_inclusive_of p t c))
      phases training = (λ e. ground arith, λ h. ground arith)
      phases phase1 =
          started phase1 (λ e. ground arith) (start_lem b t (pos 1) (t +ℤ pos 1) (omega int_laws))
      phases phase2 =
          started phase2 (λ e. ground arith)
            (start_lem b t (c.phase1_window_blocks +ℤ pos 1) (t +ℤ c.phase1_window_blocks +ℤ pos 1)
              (omega int_laws))
      phases finalization =
          started finalization (λ e. ground arith)
            (start_lem b t (c.phase1_window_blocks +ℤ c.phase2_window_blocks +ℤ pos 1)
              (t +ℤ c.phase1_window_blocks +ℤ c.phase2_window_blocks +ℤ pos 1) (omega int_laws))
