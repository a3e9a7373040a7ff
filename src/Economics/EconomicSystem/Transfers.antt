-- ===== src/Economics/EconomicSystem/Transfers.antt =====
-- dessin/economics/economic_system.py: matured unbonding, `_transfer`, and the payments that are a
-- transfer with a price.
use dessin.Prelude.{
  Bool, true, false, not, ◌&&◌, Option, none, List, [], ◌∷◌, String, ◌==◌, if◌then◌else◌,
}
use dessin.Prelude.Int.{ℤ, leb_ℤ}
use dessin.Dict.{Dict, get_or, set, del}
use dessin.Num.{Num, eq_num}
use dessin.Economics.EconomicSystem.{
  EconomicEventType, EconomicSystem, returned, Action, pure, gets, modify, ◌>>=◌, ◌>>◌, when,
  record_event, event, system, get_balance, debit_balance, credit_balance, transaction_fee,
  query_payment, storage_rental, storage_extension, training_iteration_payment,
}

module _ (N : Num) where
  open N use {Carrier, nought, add, sub, mul, lt, le, of_int}

  -- The loop of `finalize_matured_unstakes`: the sum credited so far, and the entries still pending.
  unfoldable pub split_matured : ℤ → Carrier → List (Carrier × ℤ) → Carrier × List (Carrier × ℤ)
  split_matured tip credited [] = (credited, [])
  split_matured tip credited ((amt, unlock) ∷ q) =
      let (c, pending) =
        split_matured tip (if leb_ℤ unlock tip then add credited amt else credited) q in
      (c, if leb_ℤ unlock tip then pending else (amt, unlock) ∷ pending)

  abbrev pub keep_pending :
      String → List (Carrier × ℤ) → Dict (List (Carrier × ℤ)) → Dict (List (Carrier × ℤ))
  keep_pending a [] q = del a q
  keep_pending a (e ∷ es) q = set a (e ∷ es) q

  -- The body behind `if not q`.
  unfoldable pub settle : String → ℤ → List (Carrier × ℤ) → Action N Carrier
  settle a tip q =
      let (credited, pending) = split_matured tip nought q in
      do
        when (lt nought credited) (credit_balance a credited)
        modify (λ s. record s { unbonding_queue = keep_pending a pending s.unbonding_queue })
        pure credited

  -- `if not q: return 0.0`
  abbrev pub finalize_entries : String → ℤ → List (Carrier × ℤ) → Action N Carrier
  finalize_entries a current_block_index [] s = (returned nought, s)
  finalize_entries a current_block_index (e ∷ es) s = settle a current_block_index (e ∷ es) s

  unfoldable pub finalize_matured_unstakes : String → ℤ → Action N Carrier
  unfolding settle
  finalize_matured_unstakes a current_block_index s =
      finalize_entries a current_block_index (get_or a [] s.unbonding_queue) s

  -- `_transfer` once matured unbonding is credited.
  unfoldable pub transfer_settled :
      (from_address to_address : String) (amount : Carrier) (event_type : EconomicEventType)
      (block_index : ℤ) (block_hash : Option String)
      → Action N Bool
  transfer_settled from_address to_address amount event_type block_index block_hash = do
    short ← gets (λ s. not (from_address == system) && lt (get_balance from_address s) amount)
    if short then pure false else do
      when (not (from_address == system)) (debit_balance from_address amount)
      credit_balance to_address amount
      record_event (event N event_type block_index from_address to_address amount block_hash)
      pure true

  -- `_transfer`
  unfoldable pub transfer :
      (from_address to_address : String) (amount : Carrier) (event_type : EconomicEventType)
      (block_index : ℤ) (block_hash : Option String)
      → Action N Bool
  transfer from_address to_address amount event_type block_index block_hash = do
    when (not (from_address == system))
        (finalize_matured_unstakes from_address block_index >> pure tt)
    transfer_settled from_address to_address amount event_type block_index block_hash

  unfoldable pub collect_transaction_fee : String → Carrier → ℤ → Action N Bool
  collect_transaction_fee payer fee block_index =
      if lt fee nought
      then pure false
      else if eq_num N fee nought
      then pure true
      else transfer payer system fee transaction_fee block_index none

  unfoldable pub process_query_payment :
      (user owner : String) (tokens_used block_index : ℤ) → Action N Bool
  process_query_payment user owner tokens_used block_index = do
    cost ← gets (λ s. mul (of_int tokens_used) s.query_fee_per_token)
    transfer user owner cost query_payment block_index none

  -- `self.model_storage_payments[model_id] = self.model_storage_payments.get(model_id, 0.0) + x`
  abbrev pub track_storage : String → Carrier → Action N (Unit {0})
  track_storage model_id x = modify (λ s. record s {
    model_storage_payments =
        set model_id (add (get_or model_id nought s.model_storage_payments) x)
          s.model_storage_payments;
  })

  abbrev pub track_training : String → Carrier → Action N (Unit {0})
  track_training model_id x = modify (λ s. record s {
    model_training_payments =
        set model_id (add (get_or model_id nought s.model_training_payments) x)
          s.model_training_payments;
  })

  abbrev pub storage_cost : Carrier → ℤ → EconomicSystem N → Carrier
  storage_cost size_gb blocks s =
      mul (mul (mul size_gb (of_int blocks)) s.storage_fee_per_gb_per_block)
        s.storage_price_multiplier

  unfoldable pub process_storage_rental :
      (owner model_id : String) (size_gb : Carrier) (storage_blocks block_index : ℤ) → Action N Bool
  process_storage_rental owner model_id size_gb storage_blocks block_index = do
    cost ← gets (storage_cost size_gb storage_blocks)
    success ← transfer owner system cost storage_rental block_index none
    when success (track_storage model_id cost)
    pure success

  unfoldable pub process_storage_extension :
      (owner model_id : String) (size_gb : Carrier) (additional_blocks block_index : ℤ)
      → Action N Bool
  process_storage_extension owner model_id size_gb additional_blocks block_index = do
    cost ← gets (storage_cost size_gb additional_blocks)
    success ← transfer owner system cost storage_extension block_index none
    when success (track_storage model_id cost)
    pure success

  unfoldable pub process_training_iteration_payment :
      (owner miner model_id : String) (iterations block_index : ℤ) (block_hash : Option String)
      → Action N Bool
  process_training_iteration_payment owner miner model_id iterations block_index block_hash = do
    cost ← gets (λ s. mul (of_int iterations) s.training_iteration_payment)
    success ← transfer owner miner cost training_iteration_payment block_index block_hash
    when success (track_training model_id cost)
    pure success

  unfoldable pub adjust_storage_price : Carrier → Action N Bool
  adjust_storage_price new_multiplier = do
    valid ← gets (λ s.
        le s.min_storage_price_multiplier new_multiplier
        && le new_multiplier s.max_storage_price_multiplier)
    if not valid
        then pure false
        else do modify (λ s. record s { storage_price_multiplier = new_multiplier }); pure true
