-- ===== src/Lib.antt =====
-- A verification library for DeSSIN, a blockchain whose proof of work is the training of models.
--
-- Amounts are `float` in the source, which is duck-typed: a model takes an interface `Num` of the
-- operations (Num.antt). Theorems on sums are stated for exact amounts, whole multiples of a unit
-- (Num/Units.antt); the others hold for any `Num`, or for an ordered one. A Python `int` that may be
-- negative is `ℤ` (Prelude/Int.antt), and a `dict` with string keys is an association list in insertion
-- order (Dict.antt).
--
-- Parts modelled:
-- - Economics/StorageLease*: dessin/economics/storage_lease.py. A `StorageLeaseManager` is the record of
--   its config, its leases by file id and its audit events; each method is a function of the same name
--   from the manager to the result and the new manager.
-- - Economics/StorageTopup*: dessin/economics/storage_topup.py. A call is a `TopUpRequest`.
-- - Economics/DynamicParameters*: dessin/economics/dynamic_parameters.py. `adjust` is the body that the
--   three methods `adjust_block_reward`, `adjust_storage_price` and `adjust_training_payment` share.
-- - Economics/ComputeFeeSchedule*: dessin/economics/compute_fee_schedule.py. An error that the source raises,
--   for a missing rate or for a number of steps beyond the floats, is `none`. `str.lower` and the division
--   of two integers are parameters.
-- - Economics/EconomicSystem*: dessin/economics/economic_system.py. The record has the fields that
--   `__init__` sets. A method is an action: it takes the state and gives a result, or `KeyError` where
--   the source reads a missing key, and the state it leaves. Transfers, Rewards, Staking, Training and
--   Penalties hold the methods (`_transfer` is `transfer`, `_mint_from_genesis` is `mint_from_genesis`,
--   `_unstake_immediate_to_liquid` is `unstake_immediate_to_liquid`); the other files hold proofs.
-- - Protocol/MerkleTree* and Protocol/Commitments*: dessin/protocol/pogo_protocol.py. The hash
--   (`hashlib.sha256`, in hexadecimal) is a parameter, and so is what numpy does in a commitment: to
--   quantize, to give the bytes of an array, and to count them. `levels_above` has as much fuel as the
--   tree has leaves, and a level is at most half of the one below, rounded up.
-- - Consensus/TwoPhase*: dessin/consensus/two_phase_verification.py. The time is an argument. A verdict
--   object is shared between the caller and the system, so the state holds the objects, and the lists
--   hold references to them.
-- - Consensus/TrainingMarket*: dessin/consensus/training_market.py. The tie-break hash is a parameter.
--   The sort of Python is an insertion sort, which puts equal tasks in the same order.
-- - Consensus/DynamicBlockTime*: dessin/consensus/dynamic_block_time.py, and how the consensus applies the
--   timer of a block. `math.ceil` is a parameter.
-- - Consensus/SlashingMechanism*: dessin/consensus/slashing_mechanism.py, with the fields of an
--   `AttestationTransaction` and of a `PogoBlock` that it reads. Event objects stand in the state, and
--   an event is referred to by its position there. Penalties go through the economic system. Rounds is
--   `_check_and_apply_slashing` of dessin/consensus/enhanced_pogo_consensus.py.
-- - Consensus/SpotCheck*: dessin/consensus/spot_check_verification.py. The hashes, the hexadecimal form
--   and the replay of a step are parameters (`Verifier`); an exception is `none`. The stream of the
--   challenge has as much fuel as numbers are asked for, and each round gives four; its counter has four bytes.
-- - Consensus/PogoConsensus*: dessin/consensus/consensus.py, the chain of a node. A `SharedMessage` is the
--   `Message` that its `data` is; `add_block` is the part of `add_message` that follows the making of
--   the block. What json, hashlib and `bytes.fromhex` do is a parameter (`Codec`), and so are the hooks
--   of the subclass (`Hooks`). The fields of a block that are only stored are two types (`Fields`): those
--   that gossip carries, and those of the block time, which it loses.
-- - Consensus/Equivocation*: the hook of dessin/consensus/enhanced_pogo_consensus.py for two blocks at
--   one height, which proposes and applies a penalty of the slashing mechanism.
-- - Consensus/Leader*: dessin/consensus/enhanced_pogo_consensus.py, the lottery for the next proposer. A
--   Python `str` is compared as in Prelude/Strings.antt, and a `set` is a list.
-- - Consensus/Affordability*: dessin/consensus/enhanced_pogo_consensus.py, the check before a block is
--   trained that its owner can pay for it, and the payment that follows.
-- - Consensus/Bootstrap*: dessin/consensus/enhanced_pogo_consensus.py, the bootstrap period and the
--   economics of a block, as actions on what they touch of the consensus (`Node`), the roster of the
--   lottery and the economic system among it. `block_economics` is the body of the `try` of
--   `_process_block_economics`, cut into the parts that it runs in order.
-- - Consensus/EnhancedPogo*: dessin/consensus/enhanced_pogo_consensus.py, the attestations of a block
--   and its finalization. Block objects stand in the state, since finalizing writes to the object that
--   `pending_blocks` and the chain share.
--
-- Not modelled: the statistical heuristics of the spot checks; the making and verification of a block,
-- model versions and the wrapper `finalize_block_with_economics`; dessin/consensus/transactions.py, which
-- is records, JSON and signatures; printed and logged lines, timestamps, descriptions, conversions to and
-- from JSON, read-only statistics, networking, and everything that torch or numpy does.
pub mod Consensus
pub mod Dict
pub mod Economics
pub mod Num
pub mod Prelude
pub mod Protocol
