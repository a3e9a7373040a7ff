-- ===== src/Consensus/SpotCheck/Replay/Runs.antt =====
-- dessin/consensus/spot_check_verification.py: the steps of a run as `replay_fn` computes them, and what a
-- miner who ran them publishes and keeps.
use dessin.Prelude.{
  ℕ, zero, suc, ◌+◌, ◌≡◌, refl, ◌<◌, some, List, [], ◌∷◌, String, length, get_elem?, arith, ap, ◌∙◌,
  map,
}
use dessin.Prelude.Int.{pos}
use dessin.Num.{Num}
use dessin.Consensus.SpotCheck.{TrainingTrace, TrainingTracePrivate, ReplayOutcome}
use dessin.Consensus.SpotCheck.GradChain.{compute_grad_hash_chain}
use dessin.Consensus.SpotCheck.Replay.{Verifier}

module _ {N : Num} (v : Verifier N) where
  -- The outcomes of `n` steps of training from the state before step `i + 1`.
  abbrev pub trained : (n i : ℕ) → String → List (ReplayOutcome N)
  trained zero i state = []
  trained (suc n) i state =
      let o = v.replay_fn (pos (suc i)) state in o ∷ trained n (suc i) o.state_hex_after

  -- The states before these steps, and the one after them.
  abbrev pub states_before : String → List (ReplayOutcome N) → List String
  states_before state [] = []
  states_before state (o ∷ os) = state ∷ states_before o.state_hex_after os

  abbrev pub last_state : String → List (ReplayOutcome N) → String
  last_state state [] = state
  last_state state (o ∷ os) = last_state o.state_hex_after os

  -- What a miner who trained `n` steps from `state` publishes and keeps.
  abbrev pub published :
      (model_id : String) (n : ℕ) (state first last : String) (losses : List N.Carrier)
      → TrainingTrace N
  published model_id n state first last losses =
      let os = trained n 0 state in
      record {
        model_id = model_id;
        num_steps = pos n;
        state_0_hash = first;
        state_N_hash = last;
        loss_curve = losses;
        gradient_hash_chain =
            compute_grad_hash_chain v.sha256 v.hex v.fromhex v.grad_chain_domain
              (map (λ o. o.grad_bytes) os);
        gradient_norms = map (λ o. o.grad_norm) os;
      }

  abbrev pub witnessed : (n : ℕ) (state : String) → TrainingTracePrivate
  witnessed n state =
      let os = trained n 0 state in
      record {
        state_hex_before = states_before state os;
        grad_hex = map (λ o. v.hex o.grad_bytes) os;
      }

  -- Position `idx` of such a run: the state there, its outcome, and the state that follows.
  pub record At (os : List (ReplayOutcome N)) (start : String) (i n idx : ℕ) : Type 0 where
    pub pre : String
    pub outcome : ReplayOutcome N
    pub state_there : get_elem? (states_before start os) idx ≡ some pre
    pub outcome_there : get_elem? os idx ≡ some outcome
    pub replayed : outcome ≡ v.replay_fn (pos (suc (i + idx))) pre
    pub starts : idx ≡ 0 → pre ≡ start
    pub next_there :
        (suc idx < n → get_elem? (states_before start os) (suc idx) ≡ some outcome.state_hex_after)
    pub last_there : (suc idx ≡ n → last_state start os ≡ outcome.state_hex_after)

  pub first_state :
      (n i : ℕ) (start : String)
      → 0 < n
      → get_elem? (states_before start (trained n i start)) 0 ≡ some start
  first_state zero i start h = absurd (omega (arith, h))
  first_state (suc n) i start h = refl

  pub no_step : (n i : ℕ) (start : String) → 0 ≡ n → last_state start (trained n i start) ≡ start
  no_step zero i start h = refl
  no_step (suc n) i start h = absurd (omega (arith, h))

  unfoldable pub at :
      (n i idx : ℕ) (start : String) → idx < n → At (trained n i start) start i n idx
  at zero i idx start h = absurd (omega (arith, h))
  at (suc n) i zero start h =
      let o = v.replay_fn (pos (suc i)) start in
      record {
        pre = start;
        outcome = o;
        state_there = refl;
        outcome_there = refl;
        replayed = ap (λ m. v.replay_fn (pos m) start) (omega arith);
        starts = λ first. refl;
        next_there = λ more. first_state n (suc i) o.state_hex_after (omega (arith, more));
        last_there = λ done. no_step n (suc i) o.state_hex_after (omega (arith, done));
      }
  at (suc n) i (suc idx) start h =
      let o = v.replay_fn (pos (suc i)) start in
      let a = at n (suc i) idx o.state_hex_after (omega (arith, h)) in
      record {
        pre = a.pre;
        outcome = a.outcome;
        state_there = a.state_there;
        outcome_there = a.outcome_there;
        replayed = a.replayed ∙ ap (λ m. v.replay_fn (pos m) a.pre) (omega arith);
        starts = λ first. absurd (omega (arith, first));
        next_there = λ more. a.next_there (omega (arith, more));
        last_there = λ done. a.last_there (omega (arith, done));
      }

  pub get_elem?-map :
      {A B : Type 0} (f : A → B) (xs : List A) (idx : ℕ) (x : A)
      → get_elem? xs idx ≡ some x
      → get_elem? (map f xs) idx ≡ some (f x)
  get_elem?-map f [] idx x h = cc
  get_elem?-map f (y ∷ xs) zero x h = let same : y ≡ x = cc in ap some (ap f same)
  get_elem?-map f (y ∷ xs) (suc idx) x h = get_elem?-map f xs idx x h

  pub length-trained : (n i : ℕ) (start : String) → length (trained n i start) ≡ n
  length-trained zero i start = refl
  length-trained (suc n) i start = ap suc (length-trained n (suc i) _)

  pub length-states_before :
      (start : String) (os : List (ReplayOutcome N)) → length (states_before start os) ≡ length os
  length-states_before start [] = refl
  length-states_before start (o ∷ os) = ap suc (length-states_before o.state_hex_after os)

  pub length-map : {A B : Type 0} (f : A → B) (xs : List A) → length (map f xs) ≡ length xs
  length-map f [] = refl
  length-map f (x ∷ xs) = ap suc (length-map f xs)
