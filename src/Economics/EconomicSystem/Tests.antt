-- ===== src/Economics/EconomicSystem/Tests.antt =====
-- Runs and instances for dessin/economics/economic_system.py.
use dessin.Economics.EconomicSystem.Supply.{times}
use dessin.Prelude.{◌*◌, ◌/◌, ◌^◌, ◌≡◌, ◌≢◌, refl, true, false, none, List, [], ◌∷◌, arith, eq_iff}
use dessin.Prelude.Int.{pos, ◌+ℤ◌, ◌-ℤ◌, ◌<ℤ◌}
use dessin.Num.Micro.{millionths, micro}
use dessin.Num.Units.{Scale, units}
use dessin.Dict.{get, set, del}
use dessin.Economics.EconomicSystem.{
  EconomicSystem, PogoBlock, new_system, genesis_address, system, get_balance, get_staked_amount,
  returned, transaction_fee,
}
use dessin.Economics.EconomicSystem.Holdings.{holdings, IsQueued}
use dessin.Economics.EconomicSystem.Transfers.{
  transfer, finalize_matured_unstakes, split_matured, transfer_settled,
}
use dessin.Economics.EconomicSystem.Staking.{request_unstake}
use dessin.Economics.EconomicSystem.Training.{
  process_training_payment, owner_can_pay, pay_from_escrow, pay_from_owner,
}
use dessin.Economics.EconomicSystem.Penalties.{process_slashing_penalty}
use dessin.Economics.EconomicSystem.Conservation.{transfer-holdings}
use dessin.Economics.EconomicSystem.StakeConservation.{request_unstake_overdraws}
use dessin.Economics.EconomicSystem.PaymentConservation.{process_training_payment-holdings}
use dessin.Economics.EconomicSystem.Slashing.{taken, from_stake, process_slashing_penalty_effect}
use dessin.Economics.EconomicSystem.Histories.{
  Call, fee, training, deposit, unstake, reward, attest, run, created, run-holdings,
}

-- Alice has 5 tokens, 3 staked and 1 that unbonds until block 5; the escrow of model "m" has half a
-- token.
abbrev wallet : EconomicSystem micro
wallet = record (new_system micro (pos 1_000_000_000_000) (pos 10_000_000)) {
  balances =
      (genesis_address, pos 1_000_000_000_000) ∷ ("alice", pos 5_000_000) ∷ ("bob", pos 0) ∷ [];
  staked_amounts = ("alice", pos 3_000_000) ∷ [];
  unbonding_queue = ("alice", (pos 1_000_000, pos 5) ∷ []) ∷ [];
  model_training_escrow = ("m", pos 500_000) ∷ [];
}

wallet-IsQueued : IsQueued millionths wallet
unfolding get
wallet-IsQueued = record { distinct = (refl, tt); nonneg = ((omega arith, tt), tt) }

alice_private : "alice" ≢ system
alice_private = ground (arith, eq_iff "alice" system)

transfer-holdings_example :
    holdings millionths
      (transfer micro "alice" "bob" (pos 5_500_000) transaction_fee (pos 5) none wallet).1
    ≡ holdings millionths wallet
transfer-holdings_example =
    transfer-holdings millionths "alice" "bob" (pos 5_500_000) transaction_fee (pos 5) none wallet
      alice_private wallet-IsQueued

-- The transfer above is paid, from the matured unbonding as well.
transfer_paid :
    let (r, t) = transfer micro "alice" "bob" (pos 5_500_000) transaction_fee (pos 5) none wallet in
    (r ≡ returned true)
    × (get_balance "alice" t ≡ pos 500_000)
    × (get_balance "bob" t ≡ pos 5_500_000)
unfolding transfer finalize_matured_unstakes get split_matured ◌+ℤ◌ transfer_settled set ◌-ℤ◌
transfer_paid = (refl, refl, refl)

abbrev block : PogoBlock
block = record {
  index = pos 7;
  hash = "b7";
  model_id = "m";
  training_steps = pos 20;
  model_size_full = pos 0;
}

-- Twenty steps cost two tokens: half a token of the escrow, the rest of Alice's balance.
process_training_payment-holdings_example :
    holdings millionths (process_training_payment micro "alice" "bob" block true wallet).1
    ≡ holdings millionths wallet
process_training_payment-holdings_example =
    process_training_payment-holdings millionths "alice" "bob" block true wallet alice_private
      wallet-IsQueued

training_paid :
    let (r, t) = process_training_payment micro "alice" "bob" block true wallet in
    (r ≡ returned true)
    × (get_balance "bob" t ≡ pos 2_000_000)
    × (get_balance "alice" t ≡ pos 4_500_000)
unfolding process_training_payment owner_can_pay ◌-ℤ◌ ◌+ℤ◌ get finalize_matured_unstakes
    split_matured set pay_from_escrow pay_from_owner transfer del transfer_settled
training_paid = (refl, refl, refl)

process_slashing_penalty_effect_example :
    let (r, t) = process_slashing_penalty micro "alice" (pos 7_000_000) "b7" (pos 7) wallet in
    let x = from_stake millionths "alice" (pos 7_000_000) wallet in
    (r ≡ returned true)
    × (get_staked_amount "alice" t ≡ get_staked_amount "alice" wallet -ℤ x)
    × (get_balance "alice" t
        ≡ get_balance "alice" wallet -ℤ (taken millionths "alice" (pos 7_000_000) wallet -ℤ x))
    × (holdings millionths t
        ≡ holdings millionths wallet -ℤ taken millionths "alice" (pos 7_000_000) wallet)
unfolding get
process_slashing_penalty_effect_example =
    process_slashing_penalty_effect millionths "alice" (pos 7_000_000) "b7" (pos 7) wallet
      (omega arith) (omega arith) (omega arith)

slash_split :
    (taken millionths "alice" (pos 7_000_000) wallet ≡ pos 7_000_000)
    × (from_stake millionths "alice" (pos 7_000_000) wallet ≡ pos 3_000_000)
unfolding taken from_stake ◌+ℤ◌ get
slash_split = (refl, refl)

-- Amounts in trillionths, where the tolerance of `request_unstake` is one unit.
abbrev trillionths : Scale
trillionths = record millionths { dec = λ m n. pos (m * 10 ^ 12 / 10 ^ n) }

abbrev fine_wallet : EconomicSystem (units trillionths)
fine_wallet = record (new_system (units trillionths) (pos 1_000_000) (pos 10)) {
  staked_amounts = ("alice", pos 3_000_000) ∷ [];
}

request_unstake_overdraws_example :
    let (r, t) =
      request_unstake (units trillionths) "alice" (pos 3_000_001) (pos 7) (pos 10) fine_wallet in
    (r ≡ returned true) × (get_staked_amount "alice" t <ℤ pos 0)
unfolding get ◌+ℤ◌
request_unstake_overdraws_example =
    request_unstake_overdraws trillionths "alice" (pos 3_000_001) (pos 7) (pos 10) (pos 3_000_000)
      fine_wallet refl (omega arith) (omega arith) (omega arith) (omega arith)

abbrev history : List (Call millionths)
history =
    fee "alice" (pos 100_000) (pos 5)
    ∷ deposit "alice" "m" (pos 1_000_000) (pos 6)
    ∷ training "alice" "bob" block true
    ∷ unstake "alice" (pos 1_000_000) (pos 8) (pos 10)
    ∷ reward "bob" block none false (pos 1)
    ∷ attest ("carol" ∷ "dave" ∷ []) block false
    ∷ []

run-holdings_example :
    holdings millionths (run millionths history wallet)
    ≡ holdings millionths wallet +ℤ created millionths history wallet
run-holdings_example =
    run-holdings millionths history wallet
      (alice_private, (tt, (alice_private, (tt, (tt, (tt, tt)))))) wallet-IsQueued

attestation_created :
    created millionths (attest ("carol" ∷ "dave" ∷ []) block false ∷ []) wallet ≡ pos 1_000_000
unfolding created ◌+ℤ◌ times
attestation_created = refl
