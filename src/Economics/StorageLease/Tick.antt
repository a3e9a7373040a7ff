-- ===== src/Economics/StorageLease/Tick.antt =====
-- dessin/economics/storage_lease.py: `check_block`, which advances every lease once for each block.
-- The three tests of the loop body run in sequence on the lease that the one before has left.
use dessin.Prelude.{Bool, true, false, ◌&&◌, List, [], ◌∷◌, ◌++◌, String, if◌then◌else◌}
use dessin.Prelude.Int.{ℤ}
use dessin.Dict.{Dict}
use dessin.Num.{Num}
use dessin.Economics.StorageLease.{
  LeaseStatus, Kind, Note, StorageLease, LeaseEvent, StorageLeaseManager, is_closed, is_paid,
  is_active, is_lapsed, is_deletable, is_expired, is_in_warning, plain_event, deletion_eligible_at,
}

module _ (N : Num) where
  -- What one lease of the loop yields: the lease, the events in order, and whether it entered
  -- `EXPIRED` and `DELETION_ELIGIBLE`.
  pub record Tick : Type 0 where
    pub lease : StorageLease N
    pub events : List (LeaseEvent N)
    pub just_expired : Bool
    pub just_deletable : Bool

  -- `# Warning window`
  tick_warning : String → ℤ → StorageLease N → Tick
  tick_warning file_id current_block l =
      if is_active l.status && is_in_warning N l current_block
      then record {
        lease = record l { status = LeaseStatus.warning };
        events =
            record (plain_event N file_id current_block Kind.warning) {
              note = Note.expires_at l.paid_through_block;
            }
            ∷ [];
        just_expired = false;
        just_deletable = false;
      }
      else record { lease = l; events = []; just_expired = false; just_deletable = false }

  -- `# Expiry`
  tick_expiry : String → ℤ → Tick → Tick
  tick_expiry file_id current_block t =
      if is_paid t.lease.status && is_expired N t.lease current_block
      then record t {
        lease = record (t.lease) { status = LeaseStatus.expired };
        events =
            t.events
            ++ (record (plain_event N file_id current_block Kind.expired) {
              note = Note.grace_ends_at (deletion_eligible_at N t.lease);
            }
                ∷ []);
        just_expired = true;
      }
      else t

  -- `# Deletion eligible`
  tick_deletion : String → ℤ → Tick → Tick
  tick_deletion file_id current_block t =
      if is_lapsed t.lease.status && is_deletable N t.lease current_block
      then record t {
        lease = record (t.lease) { status = LeaseStatus.deletion_eligible };
        events = t.events ++ (plain_event N file_id current_block Kind.deletion_eligible ∷ []);
        just_deletable = true;
      }
      else t

  -- The body of the loop.
  unfoldable pub tick : String → ℤ → StorageLease N → Tick
  unfolding tick_warning tick_expiry tick_deletion
  tick file_id current_block l =
      if is_closed l.status
      then record { lease = l; events = []; just_expired = false; just_deletable = false }
      else tick_deletion file_id current_block
          (tick_expiry file_id current_block (tick_warning file_id current_block l))

  -- What the loop leaves: the leases, the events in order, and the two lists that it returns.
  pub record Pass : Type 0 where
    pub leases : Dict (StorageLease N)
    pub events : List (LeaseEvent N)
    pub just_expired : List String
    pub deletion_ready : List String

  abbrev pub put_if : Bool → String → List String → List String
  put_if true f fs = f ∷ fs
  put_if false f fs = fs

  unfoldable pub check_leases : ℤ → Dict (StorageLease N) → Pass
  check_leases current_block [] = record {
    leases = [];
    events = [];
    just_expired = [];
    deletion_ready = [];
  }
  check_leases current_block ((file_id, l) ∷ rest) =
      let t = tick file_id current_block l in
      let p = check_leases current_block rest in
      record {
        leases = (file_id, t.lease) ∷ p.leases;
        events = t.events ++ p.events;
        just_expired = put_if t.just_expired file_id p.just_expired;
        deletion_ready = put_if t.just_deletable file_id p.deletion_ready;
      }

  unfoldable pub check_block :
      ℤ → StorageLeaseManager N → (List String × List String) × StorageLeaseManager N
  check_block current_block m =
      let p = check_leases current_block m.leases in
      (
        (p.just_expired, p.deletion_ready),
        record m { leases = p.leases; events = m.events ++ p.events },
      )
