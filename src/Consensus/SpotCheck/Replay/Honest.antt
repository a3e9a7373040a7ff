-- ===== src/Consensus/SpotCheck/Replay/Honest.antt =====
-- dessin/consensus/spot_check_verification.py: a run that is published as it was trained passes every
-- replay.
use mathlib.Core.Path.{subst}
use dessin.Prelude.{
  ℕ, zero, suc, ◌+◌, ◌-◌, ◌≡◌, ◌≢◌, refl, ◌<◌, true, false, some, List, [], String, get_elem?,
  arith, All, All-map, ap, ◌∙◌, sym, map, Bool-cases, inl, inr,
}
use dessin.Prelude.Int.{ℤ, pos, negsuc, ltb_ℤ, pos_part, ◌≤ℤ◌}
use dessin.Num.{Num, max_num, abs_num}
use dessin.Consensus.SpotCheck.{Bytes, TrainingTrace, TrainingTracePrivate, ReplayOutcome}
use dessin.Consensus.SpotCheck.GradChain.{grad_chain_step-compute_grad_hash_chain}
use dessin.Consensus.SpotCheck.Replay.{Verifier, verify_spot_replay, next_state_hash}
use dessin.Consensus.SpotCheck.Replay.Runs.{
  trained, states_before, last_state, published, witnessed, At, at, get_elem?-map, length-trained,
  length-states_before, length-map,
}
use dessin.Consensus.SpotCheck.Replay.Acceptance.{
  Anchored, GradientMatches, Chained, NormMatches, Leads, Passes, verify_spot_replay_iff,
}

module _ {N : Num} (v : Verifier N) where
  Passes-of :
      (trace : TrainingTrace N) (private : TrainingTracePrivate) (j : ℤ) (idx : ℕ) (pre : String)
      (o : ReplayOutcome N)
      → idx ≡ pos_part j - 1
      → o ≡ v.replay_fn j pre
      → pos 1 ≤ℤ j
      → j ≤ℤ trace.num_steps
      → get_elem? private.state_hex_before idx ≡ some pre
      → Anchored v trace private idx pre
      → GradientMatches v trace private idx o
      → Chained v trace private idx o
      → NormMatches v trace private idx o
      → Leads v trace private idx o
      → Passes v trace private j
  Passes-of trace private j idx pre o position replayed low high stands a g c m l =
      let move : (X : ℕ → ReplayOutcome N → Type 0)
          → X idx o
          → X (pos_part j - 1) (v.replay_fn j pre) =
        λ X x. subst (λ o. X (pos_part j - 1) o) replayed (subst (λ k. X k o) position x) in
      record {
        low = low;
        high = high;
        pre = pre;
        stands = subst (λ k. get_elem? private.state_hex_before k ≡ some pre) position stands;
        anchored = subst (λ k. Anchored v trace private k pre) position a;
        gradient = move (GradientMatches v trace private) g;
        chained = λ on. move (Chained v trace private) c;
        norm = move (NormMatches v trace private) m;
        leads = move (Leads v trace private) l;
      }

  module _ (round_trip : (b : Bytes) → v.fromhex (v.hex b) ≡ some b)
      (digest_hex : (b : Bytes) → v.hex (v.sha256 b) ≢ "")
      (close : (x : N.Carrier)
        → N.lt (N.mul v.grad_norm_tolerance (max_num N x (N.dec 1 0))) (abs_num N (N.sub x x))
          ≡ false)
      (IsState : String → Type 0)
      (steps : (j : ℤ) (s : String) → IsState s → IsState (v.replay_fn j s).state_hex_after)
      (hash : String → String)
      (hashes : (s : String) → IsState s → v.state_hash_fn s ≡ some (hash s)) where
    pre-IsState :
        (n i idx : ℕ) (start : String) (h : idx < n)
        → IsState start
        → IsState (at v n i idx start h).pre
    unfolding at
    pre-IsState zero i idx start h valid = absurd (omega (arith, h))
    pre-IsState (suc n) i zero start h valid = valid
    pre-IsState (suc n) i (suc idx) start h valid =
        pre-IsState n (suc i) idx _ (omega (arith, h)) (steps (pos (suc i)) start valid)

    -- The trace of an honest run.
    abbrev pub honest :
        (model_id : String) (n : ℕ) (start : String) (losses : List N.Carrier) → TrainingTrace N
    honest model_id n start losses =
        published v model_id n start (hash start) (hash (last_state v start (trained v n 0 start)))
          losses

    module _ (model_id : String) (n : ℕ) (start : String) (losses : List N.Carrier)
        (begins : IsState start) (idx : ℕ) (h : idx < n) where
      abbrev here : At v (trained v n 0 start) start 0 n idx
      here = at v n 0 idx start h

      anchors : Anchored v (honest model_id n start losses) (witnessed v n start) idx here.pre
      anchors = record {
        hash = hash here.pre;
        hashed = hashes here.pre (pre-IsState n 0 idx start h begins);
        anchor = λ first. ap hash (here.starts first);
      }

      gradients :
          GradientMatches v (honest model_id n start losses) (witnessed v n start) idx here.outcome
      gradients = record {
        witnessed = v.hex here.outcome.grad_bytes;
        bytes = here.outcome.grad_bytes;
        stands =
            get_elem?-map v (λ o. v.hex o.grad_bytes) (trained v n 0 start) idx here.outcome
              here.outcome_there;
        reads = round_trip here.outcome.grad_bytes;
        digest = refl;
      }

      chains : Chained v (honest model_id n start losses) (witnessed v n start) idx here.outcome
      chains =
          let grads = map (λ (o : ReplayOutcome N). o.grad_bytes) (trained v n 0 start) in
          let (prev, entry, before, stands, step) =
            grad_chain_step-compute_grad_hash_chain v.sha256 v.hex v.fromhex v.grad_chain_domain
              round_trip digest_hex grads idx here.outcome.grad_bytes
              (get_elem?-map v (λ o. o.grad_bytes) (trained v n 0 start) idx here.outcome
                here.outcome_there) in
          record { prev = prev; entry = entry; before = before; stands = stands; step = step }

      norms : NormMatches v (honest model_id n start losses) (witnessed v n start) idx here.outcome
      norms = record {
        claimed = here.outcome.grad_norm;
        stands =
            get_elem?-map v (λ o. o.grad_norm) (trained v n 0 start) idx here.outcome
              here.outcome_there;
        close = close here.outcome.grad_norm;
      }

      after_valid : IsState here.outcome.state_hex_after
      after_valid =
          subst (λ (o : ReplayOutcome N). IsState o.state_hex_after) (sym here.replayed)
            (steps (pos (suc (0 + idx))) here.pre (pre-IsState n 0 idx start h begins))

      next_hash :
          suc idx < n
          → next_state_hash v (honest model_id n start losses) (witnessed v n start) idx
            ≡ some (hash here.outcome.state_hex_after)
      unfolding next_state_hash
      next_hash more =
          let position : suc idx ≡ idx + 1 = omega arith in
          let there =
            subst
              (λ k.
                get_elem? (states_before v start (trained v n 0 start)) k
                ≡ some here.outcome.state_hex_after)
              position (here.next_there more) in
          rw there (hashes here.outcome.state_hex_after after_valid)

      leads : Leads v (honest model_id n start losses) (witnessed v n start) idx here.outcome
      leads = record {
        hash = hash here.outcome.state_hex_after;
        hashed = hashes here.outcome.state_hex_after after_valid;
        expected = elim (Bool-cases (ltb_ℤ (pos (idx + 1)) (pos n))) [
          | inl more ↦ rw more (next_hash (ground (arith, more)))
          | inr done ↦ rw done (ap some (ap hash (here.last_there (ground (arith, done, h)))))
        ];
      }

      passes : Passes v (honest model_id n start losses) (witnessed v n start) (pos (suc idx))
      passes =
          Passes-of (honest model_id n start losses) (witnessed v n start) (pos (suc idx)) idx
            here.pre here.outcome (omega arith)
            (here.replayed ∙ ap (λ m. v.replay_fn (pos (suc m)) here.pre) (omega arith))
            (omega arith) (omega (arith, h)) here.state_there anchors gradients chains norms leads

    Passes-All :
        (model_id : String) (n : ℕ) (start : String) (losses : List N.Carrier) (js : List ℤ)
        → IsState start
        → All (λ j. (pos 1 ≤ℤ j) × (j ≤ℤ pos n)) js
        → All (Passes v (honest model_id n start losses) (witnessed v n start)) js
    Passes-All model_id n start losses js begins ranged = All-map js one ranged
      where
        one :
            (j : ℤ)
            → (pos 1 ≤ℤ j) × (j ≤ℤ pos n)
            → Passes v (honest model_id n start losses) (witnessed v n start) j
        one (negsuc m) (low, high) = absurd (omega (arith, low))
        one (pos zero) (low, high) = absurd (omega (arith, low))
        one (pos (suc idx)) (low, high) =
            passes model_id n start losses begins idx (omega (arith, high))

    -- A miner who publishes and reveals the steps as the replay computes them, from one state on, is
    -- accepted, whichever steps are challenged. The hexadecimal form of bytes reads back and that of a
    -- digest is not empty, the tolerance allows for no difference, and the states of the run have hashes.
    pub verify_spot_replay-honest :
        (model_id : String) (n : ℕ) (start : String) (losses : List N.Carrier) (js : List ℤ)
        → IsState start
        → All (λ j. (pos 1 ≤ℤ j) × (j ≤ℤ pos n)) js
        → verify_spot_replay v (honest model_id n start losses) (witnessed v n start) js
          ≡ some (true, [])
    verify_spot_replay-honest model_id n start losses js begins ranged =
        let os = trained v n 0 start in
        (verify_spot_replay_iff v (honest model_id n start losses) (witnessed v n start) js).1 (
          ap pos (length-states_before v start os ∙ length-trained v n 0 start),
          ap pos (length-map v (λ o. v.hex o.grad_bytes) os ∙ length-trained v n 0 start),
          Passes-All model_id n start losses js begins ranged,
        )
