-- ===== src/Economics/EconomicSystem/Histories.antt =====
-- dessin/economics/economic_system.py: histories of calls, in any order. A call returns, is refused or
-- raises; the next call starts from the state it left.
use dessin.Prelude.{
  All, ◌≡◌, ◌≢◌, refl, Bool, ◌&&◌, Option, none, List, [], ◌∷◌, String, Bool-cases, inl, inr,
}
use dessin.Prelude.Int.{ℤ, pos, ◌+ℤ◌, leb_ℤ, ltb_ℤ, int_laws, parts_of_eq}
use dessin.Num.Units.{Scale}
use dessin.Economics.EconomicSystem.{
  EconomicSystem, EconomicEventType, PogoBlock, Result, returned, system, Action, ◌>>=◌, ◌>>◌, pure,
  when, query_payment, storage_rental, storage_extension, training_iteration_payment,
  transaction_fee,
}
use dessin.Economics.EconomicSystem.Transfers.{transfer, track_training}
use dessin.Economics.EconomicSystem.Holdings.{
  U, holdings, IsQueued, Issues, same_Issues, not_system,
}
use dessin.Economics.EconomicSystem.Conservation.{transfer_lem}
use dessin.Economics.EconomicSystem.Training.{
  deposit_model_training_escrow, process_training_payment,
}
use dessin.Economics.EconomicSystem.Supply.{mint_lem, attested, attestation_lem}
use dessin.Economics.EconomicSystem.Rewards.{
  distribute_attestation_rewards, distribute_block_reward,
}
use dessin.Economics.EconomicSystem.Staking.{stake_tokens, request_unstake}
use dessin.Economics.EconomicSystem.StakeConservation.{stake_tokens_lem, request_unstake_lem}
use dessin.Economics.EconomicSystem.TrainingConservation.{deposit_lem}
use dessin.Economics.EconomicSystem.PaymentConservation.{bind_Issues, process_training_payment_lem}
use dessin.Economics.EconomicSystem.Transfers.{
  collect_transaction_fee, process_query_payment, process_storage_rental, process_storage_extension,
  process_training_iteration_payment, adjust_storage_price, track_storage, storage_cost,
}

module _ (k : Scale) where
  -- The calls that pay, deposit, stake or reward, with their arguments. Not among them are the calls
  -- that destroy tokens, `process_slashing_penalty` and `slash_bootstrap_participant`, nor the grants
  -- when bootstrap ends.
  pub data Call : Type 0 where
    fee : (payer : String) (amount block_index : ℤ) → Call
    query : (user owner : String) (tokens_used block_index : ℤ) → Call
    rental : (owner model_id : String) (size_gb storage_blocks block_index : ℤ) → Call
    extension : (owner model_id : String) (size_gb blocks block_index : ℤ) → Call
    iterations : (owner miner model_id : String) (n block_index : ℤ) (hash : Option String) → Call
    training : (owner miner : String) (block : PogoBlock) (allow : Bool) → Call
    deposit : (payer model_id : String) (amount block_index : ℤ) → Call
    stake : (address : String) (amount block_index : ℤ) → Call
    unstake : (address : String) (amount block_index cooldown : ℤ) → Call
    reward :
        (miner : String) (block : PogoBlock) (rate : Option ℤ) (auto_stake : Bool)
        (blocks_per_year : ℤ)
        → Call
    attest : (verifiers : List String) (block : PogoBlock) (auto_stake : Bool) → Call
    price : (multiplier : ℤ) → Call

  -- The state that the call leaves.
  unfoldable pub call : Call → EconomicSystem (U k) → EconomicSystem (U k)
  call (fee p x b) s = (collect_transaction_fee (U k) p x b s).1
  call (query u o n b) s = (process_query_payment (U k) u o n b s).1
  call (rental o m g n b) s = (process_storage_rental (U k) o m g n b s).1
  call (extension o m g n b) s = (process_storage_extension (U k) o m g n b s).1
  call (iterations o m i n b h) s = (process_training_iteration_payment (U k) o m i n b h s).1
  call (training o m b a) s = (process_training_payment (U k) o m b a s).1
  call (deposit p m x b) s = (deposit_model_training_escrow (U k) p m x b s).1
  call (stake a x b) s = (stake_tokens (U k) a x b s).1
  call (unstake a x b c) s = (request_unstake (U k) a x b c s).1
  call (reward m b r a y) s = (distribute_block_reward (U k) m b r a y s).1
  call (attest vs b a) s = (distribute_attestation_rewards (U k) vs b a s).1
  call (price x) s = (adjust_storage_price (U k) x s).1

  unfoldable pub run : List Call → EconomicSystem (U k) → EconomicSystem (U k)
  unfolding call
  run [] s = s
  run (c ∷ cs) s = run cs (call c s)

  -- The account that pays is not the system's.
  abbrev pub IsPrivate : Call → Type 0
  IsPrivate (fee p x b) = p ≢ system
  IsPrivate (query u o n b) = u ≢ system
  IsPrivate (rental o m g n b) = o ≢ system
  IsPrivate (extension o m g n b) = o ≢ system
  IsPrivate (iterations o m i n b h) = o ≢ system
  IsPrivate (training o m b a) = o ≢ system
  IsPrivate (deposit p m x b) = Unit
  IsPrivate (stake a x b) = Unit
  IsPrivate (unstake a x b c) = Unit
  IsPrivate (reward m b r a y) = Unit
  IsPrivate (attest vs b a) = Unit
  IsPrivate (price x) = Unit

  -- What a call creates.
  abbrev pub creates : Call → EconomicSystem (U k) → ℤ
  creates (fee p x b) s = pos 0
  creates (query u o n b) s = pos 0
  creates (rental o m g n b) s = pos 0
  creates (extension o m g n b) s = pos 0
  creates (iterations o m i n b h) s = pos 0
  creates (training o m b a) s = pos 0
  creates (deposit p m x b) s = pos 0
  creates (stake a x b) s = pos 0
  creates (unstake a x b c) s = pos 0
  creates (reward m b r a y) s = pos 0
  creates (attest vs b a) s = attested k vs a s
  creates (price x) s = pos 0

  -- A payment, and the total per model that follows it when it is made.
  tracked_lem :
      (from to : String) (x : ℤ) (ty : EconomicEventType) (b : ℤ) (hash : Option String)
      (track : Action (U k) (Unit {0})) (s : EconomicSystem (U k))
      → from ≢ system
      → ((t : EconomicSystem (U k)) → IsQueued k t → Issues k (pos 0) t (track t))
      → IsQueued k s
      → Issues k
          (pos 0)
          s
          ((transfer (U k) from to x ty b hash >>= λ paid. when paid track >> pure paid) s)
  tracked_lem from to x ty b hash track s ne quiet h =
      bind_Issues k (transfer (U k) from to x ty b hash) (λ paid. when paid track >> pure paid) s
        (transfer_lem k from to x ty b hash s (not_system from ne) h)
        (λ paid q.
          bind_Issues k (when paid track) (λ u. pure paid) _
            (elim (Bool-cases paid) [
              | inl done ↦ rw done (quiet _ q)
              | inr refused ↦ rw refused (same_Issues k _ _ _ q refl)
            ])
            (λ u w. same_Issues k _ (returned paid) _ w refl))

  storage_Issues :
      (m : String) (x : ℤ) (t : EconomicSystem (U k))
      → IsQueued k t
      → Issues k (pos 0) t (track_storage (U k) m x t)
  storage_Issues m x t h = record {
    queued = record { distinct = h.distinct; nonneg = h.nonneg };
    holds = omega int_laws;
  }

  training_Issues :
      (m : String) (x : ℤ) (t : EconomicSystem (U k))
      → IsQueued k t
      → Issues k (pos 0) t (track_training (U k) m x t)
  training_Issues m x t h = record {
    queued = record { distinct = h.distinct; nonneg = h.nonneg };
    holds = omega int_laws;
  }

  fee_lem :
      (payer : String) (x b : ℤ) (s : EconomicSystem (U k))
      → payer ≢ system
      → IsQueued k s
      → Issues k (pos 0) s (collect_transaction_fee (U k) payer x b s)
  unfolding collect_transaction_fee
  fee_lem payer x b s ne h = elim (Bool-cases (ltb_ℤ x (pos 0))) [
    | inl negative ↦ rw negative (same_Issues k s _ _ h refl)
    | inr nonneg ↦ rw nonneg (elim (Bool-cases (leb_ℤ x (pos 0) && leb_ℤ (pos 0) x)) [
      | inl free ↦ rw free (same_Issues k s _ _ h refl)
      | inr due ↦
          rw due (transfer_lem k payer system x transaction_fee b none s (not_system payer ne) h)
    ])
  ]

  price_lem :
      (x : ℤ) (s : EconomicSystem (U k))
      → IsQueued k s
      → Issues k (pos 0) s (adjust_storage_price (U k) x s)
  unfolding adjust_storage_price
  price_lem x s h =
      elim (Bool-cases
        (leb_ℤ s.min_storage_price_multiplier x && leb_ℤ x s.max_storage_price_multiplier)) [
          | inl valid ↦ rw valid (record {
            queued = record { distinct = h.distinct; nonneg = h.nonneg };
            holds = omega int_laws;
          })
          | inr refused ↦ rw refused (same_Issues k s _ _ h refl)
        ]

  -- The queues stay in order, and the holdings grow by what is created.
  abbrev Adds : ℤ → EconomicSystem (U k) → EconomicSystem (U k) → Type 0
  Adds j s t = IsQueued k t × (holdings k t ≡ holdings k s +ℤ j)

  left :
      {A : Type 0} {j : ℤ} {s : EconomicSystem (U k)} {out : Result A × EconomicSystem (U k)}
      → Issues k j s out
      → Adds j s out.1
  left i = (i.queued, i.holds)

  call-Adds :
      (c : Call) (s : EconomicSystem (U k))
      → IsPrivate c
      → IsQueued k s
      → Adds (creates c s) s (call c s)
  unfolding call process_query_payment process_storage_rental process_storage_extension
      process_training_iteration_payment distribute_block_reward
  call-Adds (fee p x b) s ne h = left (fee_lem p x b s ne h)
  call-Adds (query u o n b) s ne h =
      left (transfer_lem k u o _ query_payment b none s (not_system u ne) h)
  call-Adds (rental o m g n b) s ne h =
      let x = storage_cost (U k) g n s in
      left (
        tracked_lem o system x storage_rental b none (track_storage (U k) m x) s ne
          (storage_Issues m x) h)
  call-Adds (extension o m g n b) s ne h =
      let x = storage_cost (U k) g n s in
      left (
        tracked_lem o system x storage_extension b none (track_storage (U k) m x) s ne
          (storage_Issues m x) h)
  call-Adds (iterations o m i n b hash) s ne h =
      let x = k.mul (k.of_int n) s.training_iteration_payment in
      left (
        tracked_lem o m x training_iteration_payment b hash (track_training (U k) i x) s ne
          (training_Issues i x) h)
  call-Adds (training o m b a) s ne h = left (process_training_payment_lem k o m b a s ne h)
  call-Adds (deposit p m x b) s ne h = left (deposit_lem k p m x b s h)
  call-Adds (stake a x b) s ne h = left (stake_tokens_lem k a x b s h)
  call-Adds (unstake a x b c) s ne h = left (request_unstake_lem k a x b c s h)
  call-Adds (reward m b r a y) s ne h = left (mint_lem k m _ b a s h)
  call-Adds (attest vs b a) s ne h = left (attestation_lem k vs b a s h)
  call-Adds (price x) s ne h = left (price_lem x s h)

  -- What a history creates.
  unfoldable pub created : List Call → EconomicSystem (U k) → ℤ
  created [] s = pos 0
  created (c ∷ cs) s = creates c s +ℤ created cs (call c s)

  -- After any history of fees, query payments, storage rentals and extensions, payments for
  -- iterations and for training, escrow deposits, staking, unstaking, block rewards, attestation
  -- rewards and price changes, without penalties and the grants of bootstrap, in which the system
  -- account is never the payer, the holdings are what they were and the liquid rewards of attestation,
  -- nothing else, if the queues of unbonding are a proper dict without negative entries at the start.
  pub run-holdings :
      (cs : List Call) (s : EconomicSystem (U k))
      → All IsPrivate cs
      → IsQueued k s
      → holdings k (run cs s) ≡ holdings k s +ℤ created cs s
  unfolding run created
  run-holdings [] s ne h = omega int_laws
  run-holdings (c ∷ cs) s ne h =
      let (q, step) = call-Adds c s ne.0 h in
      omega (int_laws, parts_of_eq step, parts_of_eq (run-holdings cs (call c s) ne.1 q))
