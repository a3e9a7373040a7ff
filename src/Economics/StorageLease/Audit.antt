-- ===== src/Economics/StorageLease/Audit.antt =====
-- dessin/economics/storage_lease.py: the audit log (`_events`) as an abstract account of the leases.
-- Replaying the events of a file gives the state of its lease, for every history of calls.
pub mod Operations
pub mod Passes
use dessin.Prelude.{
  ◌≡◌, refl, ◌∙◌, Bool, true, false, Option, none, some, List, [], ◌∷◌, ◌++◌, String, arith, ◌==◌,
  eq_iff, if◌then◌else◌, Option-cases, inl, inr, Bool-cases, not, ◌≢◌, sym, ap,
}
use dessin.Prelude.Int.{ℤ, pos, ◌+ℤ◌, ltb_ℤ}
use mathlib.Core.Option
use dessin.Dict.{Dict, get, set, IsDistinct, get-set, set-IsDistinct}
use dessin.Num.{Num}
use dessin.Economics.StorageLease.{
  LeaseStatus, Kind, StorageLease, LeaseEvent, StorageLeaseManager, StorageLeaseConfig, is_closed,
  create_lease, renew_lease, renew_found, cancel_lease, mark_deleted, new_manager, is_taken,
}
use dessin.Economics.StorageLease.Tick.{tick, check_leases, check_block}
use dessin.Economics.StorageLease.Schedule.{get-check_leases}

module _ (N : Num) where
  -- What the log knows of a lease.
  pub record View : Type 0 where
    pub owner : String
    pub paid_through : ℤ
    pub total_paid : N.Carrier
    pub renewals : ℤ
    pub status : LeaseStatus

  abbrev pub view : StorageLease N → View
  view l = record {
    owner = l.owner;
    paid_through = l.paid_through_block;
    total_paid = l.total_paid;
    renewals = l.renewal_count;
    status = l.status;
  }

  abbrev pub with_status : LeaseStatus → Option View → Option View
  with_status s none = none
  with_status s (some v) = some (record v { status = s })

  abbrev pub with_renewal : ℤ → N.Carrier → Option View → Option View
  with_renewal b amount none = none
  with_renewal b amount (some v) = some (record v {
    paid_through = b;
    total_paid = N.add v.total_paid amount;
    renewals = v.renewals +ℤ pos 1;
    status = LeaseStatus.active;
  })

  abbrev pub apply_kind : Kind → LeaseEvent N → Option View → Option View
  apply_kind Kind.created e v = some (record {
    owner = e.payer;
    paid_through = e.new_paid_through;
    total_paid = e.amount;
    renewals = pos 0;
    status = LeaseStatus.active;
  })
  apply_kind Kind.renewed e v = with_renewal e.new_paid_through e.amount v
  apply_kind Kind.warning e v = with_status LeaseStatus.warning v
  apply_kind Kind.expired e v = with_status LeaseStatus.expired v
  apply_kind Kind.deletion_eligible e v = with_status LeaseStatus.deletion_eligible v
  apply_kind Kind.deleted e v = with_status LeaseStatus.deleted v
  apply_kind Kind.cancelled e v = with_status LeaseStatus.cancelled v

  -- The log, read from the oldest event on, for one file.
  unfoldable pub replay : String → List (LeaseEvent N) → Option View → Option View
  replay f [] v = v
  replay f (e ∷ es) v = replay f es (if e.file_id == f then apply_kind e.kind e v else v)

  pub replay-append :
      (f : String) (es fs : List (LeaseEvent N)) (v : Option View)
      → replay f (es ++ fs) v ≡ replay f fs (replay f es v)
  unfolding replay
  replay-append f [] fs v = refl
  replay-append f (e ∷ es) fs v =
      replay-append f es fs (if e.file_id == f then apply_kind e.kind e v else v)

  -- The log accounts for every lease, and no file has two.
  pub record IsAudited (m : StorageLeaseManager N) : Type 0 where
    pub distinct : IsDistinct m.leases
    pub accounts : (f : String) → Option.map view (get f m.leases) ≡ replay f m.events none

  -- Writing one lease with one event that tells of it.
  pub write-IsAudited :
      (f : String) (l : StorageLease N) (e : LeaseEvent N) (m : StorageLeaseManager N)
      → IsAudited m
      → e.file_id ≡ f
      → some (view l) ≡ apply_kind e.kind e (Option.map view (get f m.leases))
      → IsAudited (record m { leases = set f l m.leases; events = m.events ++ (e ∷ []) })
  unfolding replay
  write-IsAudited f l e m h named told = record {
    distinct = set-IsDistinct f l m.leases h.distinct;
    accounts = λ g.
        rw (get-set f g l m.leases, replay-append g m.events (e ∷ []) none, ← h.accounts g)
          (ground (arith, eq_iff f g, eq_iff e.file_id g));
  }
