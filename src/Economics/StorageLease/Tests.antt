-- ===== src/Economics/StorageLease/Tests.antt =====
-- Runs and instances for dessin/economics/storage_lease.py.
use dessin.Prelude.{◌≡◌, ◌≢◌, ◌↔◌, refl, true, false, none, some, List, [], ◌∷◌, arith}
use dessin.Prelude.Int.{pos, ◌+ℤ◌, ◌-ℤ◌, ◌≤ℤ◌}
use dessin.Num.Micro.{micro}
use dessin.Dict.{get, set, IsDistinct}
use dessin.Economics.StorageLease.{
  LeaseStatus, StorageLease, StorageLeaseConfig, StorageLeaseManager, new_manager, is_closed,
  deletion_eligible_at, create_lease, renew_lease, is_deletable, is_expired, is_in_warning,
}
use dessin.Economics.StorageLease.Tick.{check_block, check_leases, tick}
use dessin.Economics.StorageLease.Schedule.{deletion_ready_iff, member}
use dessin.Economics.StorageLease.Calls.{Call, create, renew, check, call, run}
use dessin.Economics.StorageLease.Audit.{view, replay}
use dessin.Economics.StorageLease.Histories.{run_audit}
use dessin.Economics.StorageLease.Timeliness.{run_timely}
use mathlib.Core.Option

-- The defaults of `StorageLeaseConfig`.
abbrev defaults : StorageLeaseConfig
defaults = record {
  grace_period_blocks = pos 50;
  warning_blocks = pos 10;
  min_renewal_blocks = pos 1;
  max_renewal_blocks = pos 100_000;
}

-- One file, stored at block 0 for 100 blocks, and expired by block 120.
abbrev history : List (Call micro)
history =
    create "f" "alice" (pos 5) (pos 100) (pos 7) (pos 0)
    ∷ check (pos 95)
    ∷ renew "f" "bob" (pos 10) (pos 3) (pos 96)
    ∷ check (pos 120)
    ∷ []

abbrev stored : StorageLeaseManager micro
stored = run micro history (new_manager micro defaults)

abbrev lease_of_f : StorageLease micro
lease_of_f = record {
  file_id = "f";
  owner = "alice";
  size_mb = pos 5;
  paid_through_block = pos 110;
  grace_period_blocks = pos 50;
  warning_blocks = pos 10;
  status = LeaseStatus.expired;
  total_paid = pos 10;
  renewal_count = pos 1;
}

expired_at_120 : get "f" stored.leases ≡ some lease_of_f
unfolding run call create_lease renew_lease check_block check_leases tick is_deletable is_expired
    is_in_warning get set ◌+ℤ◌ ◌-ℤ◌
expired_at_120 = refl

-- The same file, before any pass.
abbrev fresh : StorageLeaseManager micro
fresh =
    run micro (create "f" "alice" (pos 5) (pos 100) (pos 7) (pos 0) ∷ [])
      (new_manager micro defaults)

abbrev lease_at_0 : StorageLease micro
lease_at_0 = record lease_of_f {
  paid_through_block = pos 100;
  status = LeaseStatus.active;
  total_paid = pos 7;
  renewal_count = pos 0;
}

fresh_lease : get "f" fresh.leases ≡ some lease_at_0
unfolding run call create_lease get set ◌+ℤ◌ ◌-ℤ◌
fresh_lease = refl

stored-IsDistinct : IsDistinct stored.leases
unfolding run call create_lease renew_lease check_block check_leases tick is_deletable is_expired
    is_in_warning get set ◌+ℤ◌ ◌-ℤ◌
stored-IsDistinct = (refl, tt)

deletion_ready_iff_example : (member "f" (check_block micro (pos 160) stored).0.1 ≡ true) ↔ (
    (is_closed LeaseStatus.expired ≡ false)
    × (LeaseStatus.expired ≢ LeaseStatus.deletion_eligible)
    × (deletion_eligible_at micro lease_of_f ≤ℤ pos 160))
deletion_ready_iff_example =
    deletion_ready_iff micro (pos 160) stored "f" lease_of_f stored-IsDistinct expired_at_120
      (omega arith)

run_audit_example :
    Option.map (view micro) (get "f" stored.leases) ≡ replay micro "f" stored.events none
run_audit_example = run_audit micro defaults history "f"

run_timely_example : pos 110 ≤ℤ pos 120
run_timely_example =
    run_timely micro defaults (pos 0) history "f" lease_of_f (omega arith) expired_at_120
