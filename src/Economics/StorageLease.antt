-- ===== src/Economics/StorageLease.antt =====
-- dessin/economics/storage_lease.py: the leases, their audit events, and the manager's operations.
-- A lease object is held by the manager's dict alone, so a method that mutates it writes the dict.
-- Log lines are left out; a message string is a constructor of `Message`, and the free text of an
-- event a constructor of `Note`.
pub mod Tick
pub mod Schedule
pub mod Audit
pub mod Calls
pub mod Histories
pub mod Renewal
pub mod Timeliness
mod Tests
use dessin.Prelude.{
  Bool, true, false, not, ◌&&◌, Option, none, some, List, [], ◌∷◌, ◌++◌, ◌==◌, String,
  if◌then◌else◌,
}
use dessin.Prelude.Int.{ℤ, pos, ◌+ℤ◌, ◌-ℤ◌, ltb_ℤ, leb_ℤ}
use dessin.Dict.{Dict, get, set}
use dessin.Num.{Num}

pub data LeaseStatus : Type 0 where
  active warning expired deletion_eligible deleted cancelled : LeaseStatus

-- `status in (LeaseStatus.DELETED, LeaseStatus.CANCELLED)`
abbrev pub is_closed : LeaseStatus → Bool
is_closed deleted = true
is_closed cancelled = true
is_closed _ = false

-- `status in (LeaseStatus.ACTIVE, LeaseStatus.WARNING)`
abbrev pub is_paid : LeaseStatus → Bool
is_paid active = true
is_paid warning = true
is_paid _ = false

-- `status == LeaseStatus.ACTIVE`
abbrev pub is_active : LeaseStatus → Bool
is_active active = true
is_active _ = false

-- `status == LeaseStatus.EXPIRED`
abbrev pub is_lapsed : LeaseStatus → Bool
is_lapsed expired = true
is_lapsed _ = false

-- `status in (WARNING, EXPIRED, DELETION_ELIGIBLE)`
abbrev pub is_reactivated : LeaseStatus → Bool
is_reactivated warning = true
is_reactivated expired = true
is_reactivated deletion_eligible = true
is_reactivated _ = false

pub data Kind : Type 0 where
  created renewed warning expired deletion_eligible deleted cancelled : Kind

pub data Note : Type 0 where
  no_note : Note
  expires_at grace_ends_at : ℤ → Note

pub data Message : Type 0 where
  lease_created lease_renewed lease_cancelled : Message
  already_active too_few_blocks too_many_blocks not_found not_owner already_closed : Message
  cannot_renew : LeaseStatus → Message

pub record StorageLeaseConfig : Type 0 where
  pub grace_period_blocks : ℤ
  pub warning_blocks : ℤ
  pub min_renewal_blocks : ℤ
  pub max_renewal_blocks : ℤ

module _ (N : Num) where
  open N use {Carrier, nought, add}

  pub record StorageLease : Type 0 where
    pub file_id : String
    pub owner : String
    pub size_mb : Carrier
    pub paid_through_block : ℤ
    pub grace_period_blocks : ℤ
    pub warning_blocks : ℤ
    pub status : LeaseStatus
    pub total_paid : Carrier
    pub renewal_count : ℤ

  pub record LeaseEvent : Type 0 where
    pub file_id : String
    pub block : ℤ
    pub kind : Kind
    pub payer : String
    pub amount : Carrier
    pub new_paid_through : ℤ
    pub note : Note

  pub record StorageLeaseManager : Type 0 where
    pub config : StorageLeaseConfig
    pub leases : Dict StorageLease
    pub events : List LeaseEvent

  unfoldable pub deletion_eligible_at : StorageLease → ℤ
  deletion_eligible_at l = l.paid_through_block +ℤ l.grace_period_blocks

  unfoldable pub warning_at : StorageLease → ℤ
  warning_at l = l.paid_through_block -ℤ l.warning_blocks

  unfoldable pub is_deletable : StorageLease → ℤ → Bool
  unfolding deletion_eligible_at
  is_deletable l current_block = leb_ℤ (deletion_eligible_at l) current_block

  unfoldable pub is_expired : StorageLease → ℤ → Bool
  is_expired l current_block = leb_ℤ l.paid_through_block current_block

  unfoldable pub is_in_warning : StorageLease → ℤ → Bool
  unfolding warning_at
  is_in_warning l current_block =
      leb_ℤ (warning_at l) current_block && ltb_ℤ current_block l.paid_through_block

  -- `LeaseEvent` with the defaults of its last four fields.
  abbrev pub plain_event : String → ℤ → Kind → LeaseEvent
  plain_event f b k = record {
    file_id = f;
    block = b;
    kind = k;
    payer = "";
    amount = nought;
    new_paid_through = pos 0;
    note = no_note;
  }

  -- `StorageLeaseManager.__init__`
  abbrev pub new_manager : StorageLeaseConfig → StorageLeaseManager
  new_manager c = record { config = c; leases = []; events = [] }

  -- `_emit`
  abbrev pub emit : LeaseEvent → StorageLeaseManager → StorageLeaseManager
  emit e m = record m { events = m.events ++ (e ∷ []) }

  -- A lease that is neither deleted nor cancelled stands under the id.
  abbrev pub is_taken : Option StorageLease → Bool
  is_taken none = false
  is_taken (some l) = not (is_closed l.status)

  unfoldable pub create_lease :
      (file_id owner : String) (size_mb : Carrier) (initial_blocks : ℤ) (payment : Carrier)
      (current_block : ℤ)
      → StorageLeaseManager
      → (Bool × Message) × StorageLeaseManager
  create_lease file_id owner size_mb initial_blocks payment current_block m =
      let paid_through : ℤ = current_block +ℤ initial_blocks in
      let lease : StorageLease = record {
        file_id = file_id;
        owner = owner;
        size_mb = size_mb;
        paid_through_block = paid_through;
        grace_period_blocks = m.config.grace_period_blocks;
        warning_blocks = m.config.warning_blocks;
        status = LeaseStatus.active;
        total_paid = payment;
        renewal_count = pos 0;
      } in
      let event : LeaseEvent = record {
        file_id = file_id;
        block = current_block;
        kind = Kind.created;
        payer = owner;
        amount = payment;
        new_paid_through = paid_through;
        note = no_note;
      } in
      if is_taken (get file_id m.leases)
      then ((false, already_active), m)
      else if ltb_ℤ initial_blocks m.config.min_renewal_blocks
      then ((false, too_few_blocks), m)
      else ((true, lease_created), emit event (record m { leases = set file_id lease m.leases }))

  -- The lease after `renew_lease` has accepted.
  abbrev pub extended : StorageLease → ℤ → Carrier → StorageLease
  extended l additional_blocks payment = record l {
    paid_through_block = l.paid_through_block +ℤ additional_blocks;
    total_paid = add l.total_paid payment;
    renewal_count = l.renewal_count +ℤ pos 1;
    status = if is_reactivated l.status then LeaseStatus.active else l.status;
  }

  -- The event of an accepted renewal.
  abbrev pub renewal_event :
      (file_id payer : String) (additional_blocks : ℤ) (payment : Carrier) (current_block : ℤ)
      → StorageLease
      → LeaseEvent
  renewal_event file_id payer additional_blocks payment current_block l = record {
    file_id = file_id;
    block = current_block;
    kind = Kind.renewed;
    payer = payer;
    amount = payment;
    new_paid_through = l.paid_through_block +ℤ additional_blocks;
    note = no_note;
  }

  -- `renew_lease` once the lease is found.
  unfoldable pub renew_found :
      (file_id payer : String) (additional_blocks : ℤ) (payment : Carrier) (current_block : ℤ)
      → StorageLeaseManager
      → StorageLease
      → (Bool × Message) × StorageLeaseManager
  renew_found file_id payer additional_blocks payment current_block m l =
      let renewed_lease : StorageLease = extended l additional_blocks payment in
      let event : LeaseEvent =
        renewal_event file_id payer additional_blocks payment current_block l in
      if is_closed l.status
      then ((false, cannot_renew l.status), m)
      else if ltb_ℤ additional_blocks m.config.min_renewal_blocks
      then ((false, too_few_blocks), m)
      else if ltb_ℤ m.config.max_renewal_blocks additional_blocks
      then ((false, too_many_blocks), m)
      else (
        (true, lease_renewed),
        emit event (record m { leases = set file_id renewed_lease m.leases }),
      )

  unfoldable pub renew_lease :
      (file_id payer : String) (additional_blocks : ℤ) (payment : Carrier) (current_block : ℤ)
      → StorageLeaseManager
      → (Bool × Message) × StorageLeaseManager
  unfolding renew_found
  renew_lease file_id payer additional_blocks payment current_block m =
      elim (get file_id m.leases) [
        | none ↦ ((false, not_found), m)
        | some l ↦ renew_found file_id payer additional_blocks payment current_block m l
      ]

  unfoldable pub cancel_lease :
      (file_id owner : String) (current_block : ℤ)
      → StorageLeaseManager
      → (Bool × Message) × StorageLeaseManager
  cancel_lease file_id owner current_block m = elim (get file_id m.leases) [
    | none ↦ ((false, not_found), m)
    | some l ↦
        if not (l.owner == owner)
        then ((false, not_owner), m)
        else if is_closed l.status
        then ((false, already_closed), m)
        else (
          (true, lease_cancelled),
          emit (record (plain_event file_id current_block Kind.cancelled) { payer = owner })
              (record m {
                leases = set file_id (record l { status = LeaseStatus.cancelled }) m.leases;
              }),
        )
  ]

  unfoldable pub mark_deleted : String → ℤ → StorageLeaseManager → StorageLeaseManager
  mark_deleted file_id current_block m = elim (get file_id m.leases) [
    | none ↦ m
    | some l ↦
        emit (plain_event file_id current_block Kind.deleted)
          (record m { leases = set file_id (record l { status = LeaseStatus.deleted }) m.leases })
  ]
