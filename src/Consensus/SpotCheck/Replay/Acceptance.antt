-- ===== src/Consensus/SpotCheck/Replay/Acceptance.antt =====
-- dessin/consensus/spot_check_verification.py: what an accepted replay means, step by step.
use dessin.Prelude.{
  ℕ, ◌-◌, ◌≡◌, ◌↔◌, refl, true, false, ◌||◌, some, List, [], ◌∷◌, String, length, get_elem?, arith,
  Bool-cases, inl, inr, All, ap, ◌∙◌, sym,
}
use dessin.Prelude.Int.{ℤ, pos, ltb_ℤ, pos_part, ◌≤ℤ◌}
use dessin.Consensus.SpotCheck.Replay.Options.{
  bind_iff, require_iff, same_iff, anchor_iff, optional_iff, append_nil, concluded_iff, lengths_iff,
}
use dessin.Num.{Num, max_num, abs_num}
use dessin.Consensus.SpotCheck.{Bytes, TrainingTrace, TrainingTracePrivate, ReplayOutcome}
use dessin.Consensus.SpotCheck.GradChain.{grad_chain_step, entry_before}
use dessin.Consensus.SpotCheck.Replay.{
  Verifier, pre_state_ok, gradient_ok, chain_entry_ok, chain_ok, norm_ok, expected_post_hash,
  post_state_ok, replay_step, check_index, check_indices, verify_spot_replay,
}

module _ {N : Num} (v : Verifier N) (trace : TrainingTrace N) (private : TrainingTracePrivate) where
  open v use {
    sha256, hex, fromhex, grad_chain_domain, replay_fn, state_hash_fn, grad_hash_chain_recompute,
    grad_norm_tolerance,
  }

  -- The witnessed state before a step, which the anchor fixes for the first.
  pub record Anchored (idx : ℕ) (pre : String) : Type 0 where
    pub hash : String
    pub hashed : state_hash_fn pre ≡ some hash
    pub anchor : idx ≡ 0 → hash ≡ trace.state_0_hash

  pub record GradientMatches (idx : ℕ) (o : ReplayOutcome N) : Type 0 where
    pub witnessed : String
    pub bytes : Bytes
    pub stands : get_elem? private.grad_hex idx ≡ some witnessed
    pub reads : fromhex witnessed ≡ some bytes
    pub digest : hex (sha256 o.grad_bytes) ≡ hex (sha256 bytes)

  -- The published chain entry is the step from the entry before by the replayed gradient.
  pub record Chained (idx : ℕ) (o : ReplayOutcome N) : Type 0 where
    pub prev : String
    pub entry : String
    pub before : entry_before trace.gradient_hash_chain idx ≡ some prev
    pub stands : get_elem? trace.gradient_hash_chain idx ≡ some entry
    pub step : grad_chain_step sha256 hex fromhex grad_chain_domain prev o.grad_bytes ≡ some entry

  pub record NormMatches (idx : ℕ) (o : ReplayOutcome N) : Type 0 where
    pub claimed : N.Carrier
    pub stands : get_elem? trace.gradient_norms idx ≡ some claimed
    pub close :
        N.lt
          (N.mul grad_norm_tolerance (max_num N claimed (N.dec 1 0)))
          (abs_num N (N.sub o.grad_norm claimed))
        ≡ false

  -- The replayed state has the hash of the next witnessed state, or after the last step the published
  -- one.
  pub record Leads (idx : ℕ) (o : ReplayOutcome N) : Type 0 where
    pub hash : String
    pub hashed : state_hash_fn o.state_hex_after ≡ some hash
    pub expected : expected_post_hash v trace private idx ≡ some hash

  pub record Passes (j : ℤ) : Type 0 where
    pub low : pos 1 ≤ℤ j
    pub high : j ≤ℤ trace.num_steps
    pub pre : String
    pub stands : get_elem? private.state_hex_before (pos_part j - 1) ≡ some pre
    pub anchored : Anchored (pos_part j - 1) pre
    pub gradient : GradientMatches (pos_part j - 1) (replay_fn j pre)
    pub chained : grad_hash_chain_recompute ≡ true → Chained (pos_part j - 1) (replay_fn j pre)
    pub norm : NormMatches (pos_part j - 1) (replay_fn j pre)
    pub leads : Leads (pos_part j - 1) (replay_fn j pre)

  pre_state_ok_iff :
      (idx : ℕ) (pre : String)
      → (pre_state_ok v trace private idx pre ≡ some true) ↔ Anchored idx pre
  unfolding pre_state_ok
  pre_state_ok_iff idx pre = (
    λ e.
        let (hash, hashed, ok) = (bind_iff (state_hash_fn pre) _ true).0 e in
        record {
          hash = hash;
          hashed = hashed;
          anchor = (anchor_iff idx hash trace.state_0_hash).0 ok;
        },
    λ a.
        (bind_iff (state_hash_fn pre) _ true).1
          (a.hash, a.hashed, (anchor_iff idx a.hash trace.state_0_hash).1 a.anchor),
  )

  gradient_ok_iff :
      (idx : ℕ) (o : ReplayOutcome N)
      → (gradient_ok v trace private idx o ≡ some true) ↔ GradientMatches idx o
  unfolding gradient_ok
  gradient_ok_iff idx o = (
    λ e.
        let (witnessed, stands, e1) = (bind_iff (get_elem? private.grad_hex idx) _ true).0 e in
        let (bytes, reads, same) = (bind_iff (fromhex witnessed) _ true).0 e1 in
        record {
          witnessed = witnessed;
          bytes = bytes;
          stands = stands;
          reads = reads;
          digest = (same_iff _ _).0 same;
        },
    λ g. rw (g.stands, g.reads) ((same_iff _ _).1 g.digest),
  )

  chain_entry_ok_iff :
      (idx : ℕ) (o : ReplayOutcome N)
      → (chain_entry_ok v trace private idx o ≡ some true) ↔ Chained idx o
  unfolding chain_entry_ok
  chain_entry_ok_iff idx o = (
    λ e.
        let (prev, before, e1) =
          (bind_iff (entry_before trace.gradient_hash_chain idx) _ true).0 e in
        let (entry, step, e2) =
          (bind_iff (grad_chain_step sha256 hex fromhex grad_chain_domain prev o.grad_bytes) _
              true).0
            e1 in
        let (claimed, stands, same) =
          (bind_iff (get_elem? trace.gradient_hash_chain idx) _ true).0 e2 in
        record {
          prev = prev;
          entry = entry;
          before = before;
          stands = stands ∙ ap some (sym ((same_iff entry claimed).0 same));
          step = step;
        },
    λ c. rw (c.before, c.step, c.stands) ((same_iff _ _).1 refl),
  )

  norm_ok_iff :
      (idx : ℕ) (o : ReplayOutcome N)
      → (norm_ok v trace private idx o ≡ some true) ↔ NormMatches idx o
  unfolding norm_ok
  norm_ok_iff idx o = (
    λ e.
        let (claimed, stands, close) = (bind_iff (get_elem? trace.gradient_norms idx) _ true).0 e in
        record { claimed = claimed; stands = stands; close = ground (arith, close) },
    λ n. rw (n.stands, n.close) refl,
  )

  post_state_ok_iff :
      (idx : ℕ) (o : ReplayOutcome N)
      → (post_state_ok v trace private idx o ≡ some true) ↔ Leads idx o
  unfolding post_state_ok
  post_state_ok_iff idx o = (
    λ e.
        let (hash, hashed, e1) = (bind_iff (state_hash_fn o.state_hex_after) _ true).0 e in
        let (expected, there, same) =
          (bind_iff (expected_post_hash v trace private idx) _ true).0 e1 in
        record {
          hash = hash;
          hashed = hashed;
          expected = there ∙ ap some (sym ((same_iff hash expected).0 same));
        },
    λ l. rw (l.hashed, l.expected) ((same_iff _ _).1 refl),
  )

  chain_ok_iff :
      (idx : ℕ) (o : ReplayOutcome N)
      → (chain_ok v trace private idx o ≡ some true)
        ↔ (grad_hash_chain_recompute ≡ true → Chained idx o)
  chain_ok_iff idx o = optional_iff grad_hash_chain_recompute (chain_entry_ok_iff idx o)

  replay_step_iff :
      (j : ℤ)
      → pos 1 ≤ℤ j
      → j ≤ℤ trace.num_steps
      → (replay_step v trace private j (pos_part j - 1) ≡ some []) ↔ Passes j
  unfolding replay_step
  replay_step_iff j low high = (
    λ e.
        let idx = pos_part j - 1 in
        let (pre, stands, e1) = (bind_iff (get_elem? private.state_hex_before idx) _ []).0 e in
        let o = replay_fn j pre in
        let (anchored, e2) = (require_iff (pre_state_ok v trace private idx pre) _ _).0 e1 in
        let (gradient, e3) = (require_iff (gradient_ok v trace private idx o) _ _).0 e2 in
        let (chained, e4) = (require_iff (chain_ok v trace private idx o) _ _).0 e3 in
        let (norm, e5) = (require_iff (norm_ok v trace private idx o) _ _).0 e4 in
        let (leads, e6) = (require_iff (post_state_ok v trace private idx o) _ _).0 e5 in
        record {
          low = low;
          high = high;
          pre = pre;
          stands = stands;
          anchored = (pre_state_ok_iff idx pre).0 anchored;
          gradient = (gradient_ok_iff idx o).0 gradient;
          chained = (chain_ok_iff idx o).0 chained;
          norm = (norm_ok_iff idx o).0 norm;
          leads = (post_state_ok_iff idx o).0 leads;
        },
    λ p.
        let idx = pos_part j - 1 in
        let o = replay_fn j p.pre in
        (bind_iff (get_elem? private.state_hex_before idx) _ []).1 (
          p.pre,
          p.stands,
          (require_iff (pre_state_ok v trace private idx p.pre) _ _).1 (
            (pre_state_ok_iff idx p.pre).1 p.anchored,
            (require_iff (gradient_ok v trace private idx o) _ _).1 (
              (gradient_ok_iff idx o).1 p.gradient,
              (require_iff (chain_ok v trace private idx o) _ _).1 (
                (chain_ok_iff idx o).1 p.chained,
                (require_iff (norm_ok v trace private idx o) _ _).1 (
                  (norm_ok_iff idx o).1 p.norm,
                  (require_iff (post_state_ok v trace private idx o) _ _).1
                      ((post_state_ok_iff idx o).1 p.leads, refl),
                ),
              ),
            ),
          ),
        ),
  )

  check_index_iff : (j : ℤ) → (check_index v trace private j ≡ some []) ↔ Passes j
  unfolding check_index
  check_index_iff j = elim (Bool-cases (ltb_ℤ j (pos 1) || ltb_ℤ trace.num_steps j)) [
    | inl out ↦ rw out (λ e. cc, λ p. absurd (ground (arith, p.low, p.high, out)))
    | inr fine ↦ rw fine (replay_step_iff j (ground (arith, fine)) (ground (arith, fine)))
  ]

  check_indices_iff : (js : List ℤ) → (check_indices v trace private js ≡ some []) ↔ All Passes js
  unfolding check_indices
  check_indices_iff [] = (λ e. tt, λ p. refl)
  check_indices_iff (j ∷ js) = (
    λ e.
        let (failures, here, e1) = (bind_iff (check_index v trace private j) _ []).0 e in
        let (rest, there, joined) = (bind_iff (check_indices v trace private js) _ []).0 e1 in
        let (none_here, none_there) = append_nil failures rest joined in
        (
          (check_index_iff j).0 (here ∙ ap some none_here),
          (check_indices_iff js).0 (there ∙ ap some none_there),
        ),
    λ (p, ps). rw ((check_index_iff j).1 p, (check_indices_iff js).1 ps) refl,
  )

  -- The replay returns and accepts exactly when the witness has one state and one gradient for each
  -- step, and every challenged index is the number of a step that passes: its state is anchored if it
  -- is the first, and replaying it gives the witnessed gradient, the published chain entry (where that
  -- is asked for), the published norm up to the tolerance, and the state that follows.
  pub verify_spot_replay_iff :
      (js : List ℤ)
      → (verify_spot_replay v trace private js ≡ some (true, [])) ↔ (
          (pos (length private.state_hex_before) ≡ trace.num_steps)
          × (pos (length private.grad_hex) ≡ trace.num_steps)
          × All Passes js)
  unfolding verify_spot_replay
  verify_spot_replay_iff js =
      let states = pos (length private.state_hex_before) in
      let grads = pos (length private.grad_hex) in
      (
        λ e.
            let (state_each, grad_each, checked) =
              (lengths_iff states grads trace.num_steps _).0 e in
            (state_each, grad_each, (check_indices_iff js).0 ((concluded_iff _).0 checked)),
        λ (state_each, grad_each, ps).
            (lengths_iff states grads trace.num_steps _).1
              (state_each, grad_each, (concluded_iff _).1 ((check_indices_iff js).1 ps)),
      )
