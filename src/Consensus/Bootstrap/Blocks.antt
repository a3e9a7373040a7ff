-- ===== src/Consensus/Bootstrap/Blocks.antt =====
-- dessin/consensus/enhanced_pogo_consensus.py, `_process_block_economics`: over any blocks, the holdings do
-- not grow.
use dessin.Prelude.{
  ◌≡◌, ◌≢◌, refl, inl, inr, Bool, true, false, not, List, [], ◌∷◌, String, ◌==◌, Bool-cases, arith,
  eq_iff,
}
use dessin.Prelude.Int.{ℤ, pos, int_laws, parts_of_eq}
use dessin.Dict.{get_or}
use dessin.Num.Units.{Scale}
use dessin.Economics.EconomicSystem.{EconomicSystem, PogoBlock, Result, returned, key_error, system}
use dessin.Economics.EconomicSystem.Holdings.{U, IsQueued, Issues}
use dessin.Economics.EconomicSystem.Supply.{mint_lem}
use dessin.Economics.EconomicSystem.Rewards.{distribute_block_reward}
use dessin.Economics.EconomicSystem.Training.{process_training_payment}
use dessin.Economics.EconomicSystem.PaymentConservation.{process_training_payment_lem}
use dessin.Economics.EconomicSystem.Staking.{
  slash_bootstrap_participant, materialize_bootstrap_survivor,
}
use dessin.Consensus.Leader.{member}
use dessin.Consensus.Bootstrap.{
  materialize_all, finalize_bootstrap_materialization, slash_inactive, bootstrap_ranking_slash,
  end_bootstrap, reward_miner, pay_for_training, block_economics, process_block_economics,
}
use dessin.Consensus.Bootstrap.State.{
  Node, NodeAction, pure, modify, ◌>>=◌, ◌>>◌, when, call_system, is_bootstrap_period_at_height,
}
use dessin.Consensus.Bootstrap.Ranking.{keys, participants, active_miners}
use dessin.Consensus.Bootstrap.Stakes.{
  IsStaked, process_training_payment-IsStaked, mint_from_genesis-IsStaked,
}
use dessin.Consensus.Bootstrap.Shrinking.{Shrinks, slash_Shrinks, materialize_Shrinks}

module _ (k : Scale) where
  -- A step of the node in which the holdings do not grow.
  abbrev Step : (s t : Node (U k)) → Type 0
  Step s t = IsQueued k s.system → IsStaked k s.system → Shrinks k s.system t.system

  idle : (s t : Node (U k)) → t.system ≡ s.system → Step s t
  idle s t e q h = rw e (record { queued = q; staked = h; holds = omega arith })

  after : (s t u : Node (U k)) → Step s t → Step t u → Step s u
  after s t u p r q h =
      let first = p q h in
      let rest = r first.queued first.staked in
      record {
        queued = rest.queued;
        staked = rest.staked;
        holds = omega (arith, first.holds, rest.holds);
      }

  bind_Step :
      {A B : Type 0} (m : NodeAction (U k) A) (f : A → NodeAction (U k) B)
      → ((s : Node (U k)) → Step s (m s).1)
      → ((a : A) (s : Node (U k)) → Step s (f a s).1)
      → (s : Node (U k)) → Step s (◌>>=◌ {N = U k} m f s).1
  bind_Step {A = A} {B = B} m f first rest s = next (m s) (first s)
    where
      next :
          (p : Result A × Node (U k))
          → Step s p.1
          → Step s
              (elim p.0 as (λ r. Result B × Node (U k)) [
                | returned r ↦ f r p.1
                | key_error ↦ (key_error, p.1)
              ]).1
      next (returned r, t) h = after s t (f r t).1 h (rest r t)
      next (key_error, t) h = h

  when_Step :
      (test : Bool) (body : NodeAction (U k) (Unit {0}))
      → ((s : Node (U k)) → Step s (body s).1)
      → (s : Node (U k)) → Step s (when {N = U k} test body s).1
  when_Step true body h s = h s
  when_Step false body h s = idle s s refl

  of_Issues :
      {A : Type 0} (s : EconomicSystem (U k)) (out : Result A × EconomicSystem (U k))
      → Issues k (pos 0) s out
      → IsStaked k out.1
      → Shrinks k s out.1
  of_Issues s out i h = record {
    queued = i.queued;
    staked = h;
    holds = omega (int_laws, parts_of_eq i.holds);
  }

  materialize_all-Step :
      (addrs : List String) (grant b : ℤ) (s : Node (U k))
      → Step s (materialize_all (U k) addrs grant b s).1
  unfolding materialize_all
  materialize_all-Step [] grant b s = idle s s refl
  materialize_all-Step (a ∷ addrs) grant b s =
      bind_Step
        (when {N = U k} (not (member a s.roster.bootstrap_slashed))
          (call_system (materialize_bootstrap_survivor (U k) a grant b)))
        (λ u. materialize_all (U k) addrs grant b)
        (when_Step _ _ (λ t q h. materialize_Shrinks k a grant b t.system q h))
        (λ u t. materialize_all-Step addrs grant b t) s

  slash_inactive-Step :
      (active addrs : List String) (s : Node (U k)) → Step s (slash_inactive (U k) active addrs s).1
  unfolding slash_inactive
  slash_inactive-Step active [] s = idle s s refl
  slash_inactive-Step active (a ∷ addrs) s =
      let note : NodeAction (U k) (Unit {0}) = modify (λ t. record t {
        roster = record t.roster { bootstrap_slashed = a ∷ t.roster.bootstrap_slashed };
      }) in
      let slash : NodeAction (U k) (Unit {0}) =
        call_system (slash_bootstrap_participant (U k) a) >> note in
      bind_Step (when {N = U k} (not (member a active)) slash)
        (λ u. slash_inactive (U k) active addrs)
        (when_Step _ slash (
          bind_Step (call_system (slash_bootstrap_participant (U k) a)) (λ u. note)
            (λ t q h. slash_Shrinks k a t.system q h) (λ u t. idle t (note t).1 refl)))
        (λ u t. slash_inactive-Step active addrs t) s

  bootstrap_ranking_slash-Step :
      (b : ℤ) (s : Node (U k)) → Step s (bootstrap_ranking_slash (U k) b s).1
  unfolding bootstrap_ranking_slash
  bootstrap_ranking_slash-Step b s = elim (Bool-cases (is_bootstrap_period_at_height b s)) [
    | inl inside ↦ rw inside (slash_inactive-Step (active_miners s) (participants s) s)
    | inr outside ↦ rw outside (idle s s refl)
  ]

  finalize_bootstrap_materialization-Step :
      (b : ℤ) (s : Node (U k)) → Step s (finalize_bootstrap_materialization (U k) b s).1
  unfolding finalize_bootstrap_materialization
  finalize_bootstrap_materialization-Step b s =
      let note : NodeAction (U k) (Unit {0}) =
        modify (λ t. record t { bootstrap_materialization_done = true }) in
      let all =
        materialize_all (U k) (keys s.roster.bootstrap_registry) s.bootstrap_materialization_grant
          b in
      elim (Bool-cases s.bootstrap_materialization_done) [
        | inl done ↦ idle s (finalize_bootstrap_materialization (U k) b s).1 (ground (arith, done))
        | inr open_still ↦
            let runs : finalize_bootstrap_materialization (U k) b s ≡ (all >> note) s =
              ground (arith, open_still) in
            rw runs (
              bind_Step all (λ u. note)
                (materialize_all-Step (keys s.roster.bootstrap_registry)
                  s.bootstrap_materialization_grant b)
                (λ u t. idle t (note t).1 refl) s)
      ]

  end_bootstrap-Step : (block : PogoBlock) (s : Node (U k)) → Step s (end_bootstrap (U k) block s).1
  unfolding end_bootstrap
  end_bootstrap-Step block s =
      when_Step _ (finalize_bootstrap_materialization (U k) block.index)
        (finalize_bootstrap_materialization-Step block.index) s

  reward_miner-Step :
      (miner : String) (block : PogoBlock) (in_boot : Bool) (s : Node (U k))
      → Step s (reward_miner (U k) miner block in_boot s).1
  unfolding reward_miner distribute_block_reward
  reward_miner-Step miner block in_boot s q h =
      of_Issues s.system _ (mint_lem k miner _ block _ s.system q)
        (mint_from_genesis-IsStaked k miner _ block _ s.system h)

  pay_for_training-Step :
      (miner : String) (block : PogoBlock) (in_boot : Bool) (s : Node (U k))
      → Step s (pay_for_training (U k) miner block in_boot s).1
  unfolding pay_for_training
  pay_for_training-Step miner block in_boot s =
      let owner = get_or block.model_id system s.model_owners in
      let pay = process_training_payment (U k) owner miner block in_boot in
      elim (Bool-cases (owner == system)) [
        | inl nobody ↦ rw nobody (idle s s refl)
        | inr somebody ↦
            let other : owner ≢ system = λ e. ground (arith, e, somebody, eq_iff owner system) in
            rw somebody (
              bind_Step (call_system pay) (λ r. pure tt)
                (λ t q h.
                  of_Issues t.system (pay t.system)
                    (process_training_payment_lem k owner miner block in_boot t.system other q)
                    (process_training_payment-IsStaked k owner miner block in_boot t.system somebody
                      h))
                (λ r t. idle t t refl) s)
      ]

  process_block_economics-Step :
      (miner : String) (block : PogoBlock) (s : Node (U k))
      → Step s (process_block_economics (U k) miner block s)
  unfolding process_block_economics block_economics
  process_block_economics-Step miner block =
      let cull : NodeAction (U k) (Unit {0}) = bootstrap_ranking_slash (U k) block.index in
      let paid : Bool → NodeAction (U k) (Unit {0}) =
        λ in_boot. pay_for_training (U k) miner block in_boot >> cull in
      let rewarded : Bool → NodeAction (U k) (Unit {0}) =
        λ in_boot. reward_miner (U k) miner block in_boot >> paid in_boot in
      bind_Step (end_bootstrap (U k) block)
        (λ u s. rewarded (is_bootstrap_period_at_height block.index s) s) (end_bootstrap-Step block)
        (λ u s.
          let in_boot = is_bootstrap_period_at_height block.index s in
          bind_Step (reward_miner (U k) miner block in_boot) (λ r. paid in_boot)
            (reward_miner-Step miner block in_boot)
            (λ r.
              bind_Step (pay_for_training (U k) miner block in_boot) (λ r. cull)
                (pay_for_training-Step miner block in_boot)
                (λ r. bootstrap_ranking_slash-Step block.index))
            s)

  -- The economics of one block after the other, each with its miner.
  unfoldable pub process_blocks : List (String × PogoBlock) → Node (U k) → Node (U k)
  process_blocks [] s = s
  process_blocks ((miner, block) ∷ blocks) s =
      process_blocks blocks (process_block_economics (U k) miner block s)

  -- Over the economics of any blocks, in any order and at any heights, in and after the bootstrap period
  -- and at its end, the holdings do not grow: rewards, the grants at the end and the payments for training
  -- come from accounts, and the ranking only takes away. No stake and no entry of a queue becomes
  -- negative. At the start none is, and the stakes and the queues are proper dicts.
  pub process_blocks-Shrinks :
      (blocks : List (String × PogoBlock)) (s : Node (U k))
      → IsQueued k s.system
      → IsStaked k s.system
      → Shrinks k s.system (process_blocks blocks s).system
  unfolding process_blocks
  process_blocks-Shrinks [] s q h = record { queued = q; staked = h; holds = omega arith }
  process_blocks-Shrinks ((miner, block) ∷ blocks) s q h =
      let t = process_block_economics (U k) miner block s in
      let first = process_block_economics-Step miner block s q h in
      let rest = process_blocks-Shrinks blocks t first.queued first.staked in
      record {
        queued = rest.queued;
        staked = rest.staked;
        holds = omega (arith, first.holds, rest.holds);
      }
