-- ===== src/Economics/StorageTopup/Tests.antt =====
-- Runs and instances for dessin/economics/storage_topup.py.
use dessin.Prelude.{◌≡◌, refl, [], ◌∷◌, List, String}
use dessin.Prelude.Int.{ℤ, pos, ◌+ℤ◌}
use dessin.Num.Micro.{micro}
use dessin.Dict.{get, get_or, set}
use dessin.Economics.StorageTopup.{
  TopUpRequest, new_topups, topup_storage, credit, get_user_contribution, get_total_topup_amount,
}
use dessin.Economics.StorageTopup.Contributions.{run, paid_by, get_user_contribution-run}

-- Ten blocks of a gigabyte cost a token.
abbrev request : String → ℤ → TopUpRequest micro
request payer payment = record {
  model_id = "m";
  payer_address = payer;
  model_size_gb = pos 1_000_000;
  additional_blocks = pos 10;
  payment = payment;
  current_expiration = pos 100;
  storage_price_per_gb_per_block = pos 100_000;
  tx_hash = "";
}

-- The second request pays too little.
abbrev requests : List (TopUpRequest micro)
requests =
    request "alice" (pos 1_000_000)
    ∷ request "bob" (pos 999_999)
    ∷ request "bob" (pos 1_500_000)
    ∷ request "alice" (pos 2_000_000)
    ∷ []

get_user_contribution-run_example :
    let s = run requests (new_topups micro) in
    get_user_contribution "m" "alice" s ≡ paid_by "alice" (get_or "m" [] s.topup_history)
get_user_contribution-run_example = get_user_contribution-run requests "m" "alice"

alice_paid :
    let s = run requests (new_topups micro) in
    (get_user_contribution "m" "alice" s ≡ pos 3_000_000)
    × (get_user_contribution "m" "bob" s ≡ pos 1_500_000)
    × (get_total_topup_amount "m" s ≡ pos 4_500_000)
unfolding get_user_contribution get topup_storage credit set ◌+ℤ◌ get_total_topup_amount
alice_paid = (refl, refl, refl)
