-- ===== src/Economics/StorageLease/Schedule.antt =====
-- dessin/economics/storage_lease.py, `check_block`: what one pass does to a lease, against the
-- lifecycle that the module's documentation describes.
use dessin.Prelude.{
  ◌≡◌, ◌≢◌, refl, Bool, true, false, none, some, List, [], ◌∷◌, String, arith, ◌==◌, ◌||◌, eq_iff,
  if◌then◌else◌, ap, append-nil, ◌↔◌,
}
use dessin.Prelude.Int.{ℤ, pos, ◌+ℤ◌, ◌-ℤ◌, ◌≤ℤ◌, leb_ℤ, +ℤ_parts}
use mathlib.Core.Option
use dessin.Dict.{Dict, get, IsDistinct}
use dessin.Num.{Num}
use dessin.Economics.StorageLease.{
  LeaseStatus, StorageLease, StorageLeaseManager, is_paid, is_closed, deletion_eligible_at,
  is_deletable, is_expired, is_in_warning,
}
use dessin.Economics.StorageLease.Tick.{Tick, tick, check_leases, check_block}

-- The status that the schedule of a paid lease prescribes at a block.
abbrev pub due_status : ℤ → (paid_through grace warning_blocks : ℤ) → LeaseStatus → LeaseStatus
due_status b paid_through grace warning_blocks old =
    if leb_ℤ (paid_through +ℤ grace) b
    then LeaseStatus.deletion_eligible
    else if leb_ℤ paid_through b
    then LeaseStatus.expired
    else if leb_ℤ (paid_through -ℤ warning_blocks) b
    then LeaseStatus.warning
    else old

-- `f in fs`
abbrev pub member : String → List String → Bool
member f [] = false
member f (g ∷ gs) = g == f || member f gs

module _ (N : Num) where
  abbrev quiet : StorageLease N → Tick N
  quiet l = record { lease = l; events = []; just_expired = false; just_deletable = false }

  tick-tick :
      (f : String) (b : ℤ) (l : StorageLease N)
      → tick N f b (tick N f b l).lease ≡ quiet (tick N f b l).lease
  unfolding tick is_deletable is_expired is_in_warning
  tick-tick f b l = ground arith

  check_leases-check_leases :
      (b : ℤ) (d : Dict (StorageLease N))
      → let after = (check_leases N b d).leases in
        check_leases N b after
        ≡ record { leases = after; events = []; just_expired = []; deletion_ready = [] }
  unfolding check_leases
  check_leases-check_leases b [] = refl
  check_leases-check_leases b ((f, l) ∷ d) =
      rw (tick-tick f b l, check_leases-check_leases b d) refl

  -- A second `check_block` within the same block reports nothing and changes nothing.
  pub check_block-check_block :
      (b : ℤ) (m : StorageLeaseManager N)
      → let after = (check_block N b m).1 in check_block N b after ≡ (([], []), after)
  unfolding check_block
  check_block-check_block b m = rw (check_leases-check_leases b m.leases, append-nil) refl

  pub get-check_leases :
      (b : ℤ) (d : Dict (StorageLease N)) (f : String)
      → get f (check_leases N b d).leases ≡ Option.map (λ l. (tick N f b l).lease) (get f d)
  unfolding check_leases get
  get-check_leases b [] f = refl
  get-check_leases b ((g, l) ∷ d) f = ground (arith, eq_iff g f, get-check_leases b d f)

  tick-eq-due_status :
      (f : String) (b : ℤ) (l : StorageLease N)
      → is_paid l.status ≡ true
      → pos 0 ≤ℤ l.grace_period_blocks
      → (tick N f b l).lease.status
        ≡ due_status b l.paid_through_block l.grace_period_blocks l.warning_blocks l.status
  unfolding tick is_deletable is_expired is_in_warning
  tick-eq-due_status f b l p g = ground (arith, +ℤ_parts l.paid_through_block l.grace_period_blocks)

  -- After a pass, a paid lease with a grace period of zero or more has the status that its
  -- schedule prescribes: deletable from the end of the grace period, else expired from
  -- `paid_through_block` on, else in the warning window, else as it was.
  pub check_block-due_status :
      (f : String) (b : ℤ) (m : StorageLeaseManager N) (l : StorageLease N)
      → get f m.leases ≡ some l
      → is_paid l.status ≡ true
      → pos 0 ≤ℤ l.grace_period_blocks
      → Option.map (λ (k : StorageLease N). k.status) (get f (check_block N b m).1.leases)
        ≡ some (due_status b l.paid_through_block l.grace_period_blocks l.warning_blocks l.status)
  unfolding check_block
  check_block-due_status f b m l e p g =
      rw (get-check_leases b m.leases f, e) (ap some (tick-eq-due_status f b l p g))

  -- The lists that a pass returns, key by key.
  member-deletion_ready :
      (b : ℤ) (d : Dict (StorageLease N)) (f : String)
      → IsDistinct d
      → member f (check_leases N b d).deletion_ready
        ≡ elim (get f d) [ none ↦ false | some l ↦ (tick N f b l).just_deletable ]
  unfolding check_leases get
  member-deletion_ready b [] f h = refl
  member-deletion_ready b ((g, l) ∷ d) f h =
      ground (arith, eq_iff g f, member-deletion_ready b d f h.1)

  just_deletable_iff :
      (f : String) (b : ℤ) (l : StorageLease N)
      → pos 0 ≤ℤ l.grace_period_blocks
      → ((tick N f b l).just_deletable ≡ true) ↔ (
          (is_closed l.status ≡ false)
          × (l.status ≢ LeaseStatus.deletion_eligible)
          × (deletion_eligible_at N l ≤ℤ b))
  unfolding tick is_deletable is_expired is_in_warning
  just_deletable_iff f b l g = (
    ground (arith, +ℤ_parts l.paid_through_block l.grace_period_blocks),
    ground (arith, +ℤ_parts l.paid_through_block l.grace_period_blocks),
  )

  -- With a grace period of zero or more, a pass reports a file as ready for deletion exactly if its
  -- lease is open (neither deleted nor cancelled), is not marked `DELETION_ELIGIBLE`, and has reached
  -- the end of its grace period.
  pub deletion_ready_iff :
      (b : ℤ) (m : StorageLeaseManager N) (f : String) (l : StorageLease N)
      → IsDistinct m.leases
      → get f m.leases ≡ some l
      → pos 0 ≤ℤ l.grace_period_blocks
      → (member f (check_block N b m).0.1 ≡ true) ↔ (
          (is_closed l.status ≡ false)
          × (l.status ≢ LeaseStatus.deletion_eligible)
          × (deletion_eligible_at N l ≤ℤ b))
  unfolding check_block
  deletion_ready_iff b m f l h e g =
      rw (member-deletion_ready b m.leases f h, e) (just_deletable_iff f b l g)
