-- ===== src/Economics/StorageTopup.antt =====
-- dessin/economics/storage_topup.py: anyone may pay for more storage of a model. The time, the log lines
-- and the statistics are left out. A raise is not possible here.
pub mod Contributions
mod Tests
use dessin.Prelude.{
  ℕ, Bool, true, false, Option, none, some, List, [], ◌∷◌, ◌++◌, String, ◌==◌, if◌then◌else◌, take,
}
use dessin.Prelude.Int.{ℤ, ◌+ℤ◌}
use dessin.Dict.{Dict, get, get_or, set}
use dessin.Num.{Num}

-- `xs[::-1]`, before `ys`
abbrev pub reversed : {A : Type 0} → List A → List A → List A
reversed [] ys = ys
reversed (x ∷ xs) ys = reversed xs (x ∷ ys)

module _ (N : Num) where
  pub record StorageTopUp : Type 0 where
    pub model_id : String
    pub payer_address : String
    pub amount_paid : N.Carrier
    pub blocks_added : ℤ
    pub new_expiration_block : ℤ
    pub tx_hash : String

  pub record StorageTopUpManager : Type 0 where
    pub topup_history : Dict (List StorageTopUp)
    pub contributors : Dict (Dict N.Carrier)

  abbrev pub new_topups : StorageTopUpManager
  new_topups = record { topup_history = []; contributors = [] }

  -- The arguments of `topup_storage` but for the owner, which only the log reads.
  pub record TopUpRequest : Type 0 where
    pub model_id : String
    pub payer_address : String
    pub model_size_gb : N.Carrier
    pub additional_blocks : ℤ
    pub payment : N.Carrier
    pub current_expiration : ℤ
    pub storage_price_per_gb_per_block : N.Carrier
    pub tx_hash : String

module _ {N : Num} where
  open N use {Carrier, nought, add, mul, lt, of_int}

  abbrev pub required_payment : TopUpRequest N → Carrier
  required_payment r =
      mul (mul r.model_size_gb (of_int r.additional_blocks)) r.storage_price_per_gb_per_block

  abbrev pub topup_of : TopUpRequest N → StorageTopUp N
  topup_of r = record {
    model_id = r.model_id;
    payer_address = r.payer_address;
    amount_paid = r.payment;
    blocks_added = r.additional_blocks;
    new_expiration_block = r.current_expiration +ℤ r.additional_blocks;
    tx_hash = r.tx_hash;
  }

  -- The history and the contributors take the payment.
  unfoldable pub credit : TopUpRequest N → StorageTopUpManager N → StorageTopUpManager N
  credit r s =
      let paid = get_or r.model_id [] s.contributors in
      record {
        topup_history =
            set r.model_id (get_or r.model_id [] s.topup_history ++ (topup_of r ∷ []))
              s.topup_history;
        contributors =
            set r.model_id
              (set r.payer_address (add (get_or r.payer_address nought paid) r.payment) paid)
              s.contributors;
      }

  unfoldable pub topup_storage :
      TopUpRequest N → StorageTopUpManager N → Option (StorageTopUp N) × StorageTopUpManager N
  topup_storage r s =
      if lt r.payment (required_payment r) then (none, s) else (some (topup_of r), credit r s)

  unfoldable pub get_topup_history :
      String → (limit : ℕ) → StorageTopUpManager N → List (StorageTopUp N)
  get_topup_history model_id limit s = take limit (reversed (get_or model_id [] s.topup_history) [])

  -- `sum(topup.amount_paid for topup in ...)`, on top of what was summed before.
  abbrev pub sum_paid : Carrier → List (StorageTopUp N) → Carrier
  sum_paid n [] = n
  sum_paid n (t ∷ ts) = sum_paid (add n t.amount_paid) ts

  unfoldable pub get_total_topup_amount : String → StorageTopUpManager N → Carrier
  get_total_topup_amount model_id s = sum_paid nought (get_or model_id [] s.topup_history)

  unfoldable pub get_user_contribution :
      (model_id user_address : String) → StorageTopUpManager N → Carrier
  get_user_contribution model_id user_address s =
      get_or user_address nought (get_or model_id [] s.contributors)
