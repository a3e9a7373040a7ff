-- ===== src/Economics/StorageLease/Timeliness.antt =====
-- dessin/economics/storage_lease.py: over histories in which the block number does not fall, no
-- lease is expired or deletable before its time.
use dessin.Prelude.{
  ◌≡◌, refl, false, some, List, [], ◌∷◌, String, arith, Option-cases, Bool-cases, inl, inr, ◌==◌,
}
use dessin.Prelude.Int.{ℤ, ◌≤ℤ◌, ltb_ℤ}
use dessin.Dict.{get, set, get-set}
use dessin.Num.{Num}
use dessin.Economics.StorageLease.{
  LeaseStatus, StorageLease, StorageLeaseManager, StorageLeaseConfig, is_closed, is_taken,
  create_lease, renew_lease, renew_found, cancel_lease, mark_deleted, new_manager, is_deletable,
  is_expired, is_in_warning, deletion_eligible_at, extended,
}
use dessin.Economics.StorageLease.Tick.{tick, check_block}
use dessin.Economics.StorageLease.Schedule.{get-check_leases}
use dessin.Economics.StorageLease.Calls.{Call, create, renew, cancel, delete, check, call, run}

module _ (N : Num) where
  -- The block from which a lease may have the status.
  abbrev pub Due : ℤ → LeaseStatus → StorageLease N → Type 0
  Due b LeaseStatus.expired l = l.paid_through_block ≤ℤ b
  Due b LeaseStatus.deletion_eligible l = deletion_eligible_at N l ≤ℤ b
  Due b _ l = Unit

  -- The status runs ahead of the clock in no lease.
  pub record IsTimely (b : ℤ) (m : StorageLeaseManager N) : Type 0 where
    pub at : (f : String) (l : StorageLease N) → get f m.leases ≡ some l → Due b l.status l

  Due-later : (b c : ℤ) (s : LeaseStatus) (l : StorageLease N) → b ≤ℤ c → Due b s l → Due c s l
  Due-later b c LeaseStatus.expired l le d = omega arith
  Due-later b c LeaseStatus.deletion_eligible l le d = omega arith
  Due-later b c _ l le d = tt

  tick-Due :
      (f : String) (b : ℤ) (l : StorageLease N)
      → Due b l.status l
      → Due b (tick N f b l).lease.status (tick N f b l).lease
  unfolding tick is_deletable is_expired is_in_warning
  tick-Due f b l d = ground arith

  later-IsTimely : (b c : ℤ) (m : StorageLeaseManager N) → b ≤ℤ c → IsTimely b m → IsTimely c m
  later-IsTimely b c m le t = record { at = λ f l e. Due-later b c l.status l le (t.at f l e) }

  -- Writing a lease that is due keeps the others so.
  write-IsTimely :
      (b : ℤ) (f : String) (l : StorageLease N) (m m' : StorageLeaseManager N)
      → m'.leases ≡ set f l m.leases
      → Due b l.status l
      → IsTimely b m
      → IsTimely b m'
  write-IsTimely b f l m m' e due t = record {
    at = λ g k h. elim (Bool-cases (f == g)) [
      | inl same ↦
          let same_lease : l ≡ k = cc (rw (e, get-set f g l m.leases, same) at h) in
          rw (← same_lease) due
      | inr other ↦ t.at g k (rw (e, get-set f g l m.leases, other) at h)
    ];
  }

  create_lease-IsTimely :
      (f o : String) (size : N.Carrier) (n : ℤ) (pay : N.Carrier) (b : ℤ)
      (m : StorageLeaseManager N)
      → IsTimely b m
      → IsTimely b (create_lease N f o size n pay b m).1
  unfolding create_lease
  create_lease-IsTimely f o size n pay b m t = elim (Bool-cases (is_taken N (get f m.leases))) [
    | inl taken ↦ rw taken t
    | inr free ↦ elim (Bool-cases (ltb_ℤ n m.config.min_renewal_blocks)) [
      | inl few ↦ rw (free, few) t
      | inr enough ↦ rw (free, enough) (write-IsTimely b f _ m _ refl tt t)
    ]
  ]

  extended-Due :
      (b n : ℤ) (pay : N.Carrier) (l : StorageLease N)
      → is_closed l.status ≡ false
      → Due b (extended N l n pay).status (extended N l n pay)
  extended-Due b n pay l h = ground arith

  renew_lease-IsTimely :
      (f p : String) (n : ℤ) (pay : N.Carrier) (b : ℤ) (m : StorageLeaseManager N)
      → IsTimely b m
      → IsTimely b (renew_lease N f p n pay b m).1
  unfolding renew_lease renew_found
  renew_lease-IsTimely f p n pay b m t = elim (Option-cases (get f m.leases)) [
    | inl missing ↦ rw (missing, renew_lease) t
    | inr (l, e) ↦ elim (Bool-cases (is_closed l.status)) [
      | inl closed ↦ rw (e, renew_lease, closed) t
      | inr unclosed ↦ elim (Bool-cases (ltb_ℤ n m.config.min_renewal_blocks)) [
        | inl few ↦ rw (e, renew_lease, unclosed, few) t
        | inr enough ↦ elim (Bool-cases (ltb_ℤ m.config.max_renewal_blocks n)) [
          | inl many ↦ rw (e, renew_lease, unclosed, enough, many) t
          | inr fits ↦
              rw (e, renew_lease, unclosed, enough, fits)
                (write-IsTimely b f (extended N l n pay) m _ refl (extended-Due b n pay l unclosed)
                  t)
        ]
      ]
    ]
  ]

  cancel_lease-IsTimely :
      (f o : String) (b : ℤ) (m : StorageLeaseManager N)
      → IsTimely b m
      → IsTimely b (cancel_lease N f o b m).1
  unfolding cancel_lease
  cancel_lease-IsTimely f o b m t = elim (Option-cases (get f m.leases)) [
    | inl missing ↦ rw (missing, cancel_lease) t
    | inr (l, e) ↦ elim (Bool-cases (l.owner == o)) [
      | inl owned ↦ elim (Bool-cases (is_closed l.status)) [
        | inl closed ↦ rw (e, cancel_lease, owned, closed) t
        | inr unclosed ↦ rw (e, cancel_lease, owned, unclosed) (write-IsTimely b f _ m _ refl tt t)
      ]
      | inr foreign ↦ rw (e, cancel_lease, foreign) t
    ]
  ]

  mark_deleted-IsTimely :
      (f : String) (b : ℤ) (m : StorageLeaseManager N)
      → IsTimely b m
      → IsTimely b (mark_deleted N f b m)
  unfolding mark_deleted
  mark_deleted-IsTimely f b m t = elim (Option-cases (get f m.leases)) [
    | inl missing ↦ rw (missing, mark_deleted) t
    | inr (l, e) ↦ rw (e, mark_deleted) (write-IsTimely b f _ m _ refl tt t)
  ]

  check_block-IsTimely :
      (b : ℤ) (m : StorageLeaseManager N) → IsTimely b m → IsTimely b (check_block N b m).1
  unfolding check_block
  check_block-IsTimely b m t = record {
    at = λ f l e. elim (Option-cases (get f m.leases)) [
      | inl missing ↦ cc (rw (get-check_leases N b m.leases f, missing) at e)
      | inr (k, found) ↦
          let ticked : (tick N f b k).lease ≡ l =
            cc (rw (get-check_leases N b m.leases f, found) at e) in
          rw (← ticked) (tick-Due f b k (t.at f k found))
    ];
  }

  -- The block of a call.
  abbrev pub block_of : Call N → ℤ
  block_of (create f o size n pay b) = b
  block_of (renew f p n pay b) = b
  block_of (cancel f o b) = b
  block_of (delete f b) = b
  block_of (check b) = b

  -- From block `b` on, the block number never falls; the last one is `last_block b`.
  abbrev pub IsChronological : ℤ → List (Call N) → Type 0
  IsChronological b [] = Unit
  IsChronological b (c ∷ cs) = (b ≤ℤ block_of c) × IsChronological (block_of c) cs

  abbrev pub last_block : ℤ → List (Call N) → ℤ
  last_block b [] = b
  last_block b (c ∷ cs) = last_block (block_of c) cs

  call-IsTimely :
      (c : Call N) (m : StorageLeaseManager N)
      → IsTimely (block_of c) m
      → IsTimely (block_of c) (call N c m)
  unfolding call
  call-IsTimely (create f o size n pay b) m t = create_lease-IsTimely f o size n pay b m t
  call-IsTimely (renew f p n pay b) m t = renew_lease-IsTimely f p n pay b m t
  call-IsTimely (cancel f o b) m t = cancel_lease-IsTimely f o b m t
  call-IsTimely (delete f b) m t = mark_deleted-IsTimely f b m t
  call-IsTimely (check b) m t = check_block-IsTimely b m t

  run-IsTimely :
      (b : ℤ) (cs : List (Call N)) (m : StorageLeaseManager N)
      → IsChronological b cs
      → IsTimely b m
      → IsTimely (last_block b cs) (run N cs m)
  unfolding run
  run-IsTimely b [] m ord t = t
  run-IsTimely b (c ∷ cs) m (le, ord) t =
      run-IsTimely (block_of c) cs (call N c m) ord
        (call-IsTimely c m (later-IsTimely b (block_of c) m le t))

  new_manager-IsTimely : (b : ℤ) (c : StorageLeaseConfig) → IsTimely b (new_manager N c)
  unfolding get
  new_manager-IsTimely b c = record { at = λ f l e. cc e }

  -- After any calls on a new manager whose block numbers do not fall, a lease with the status
  -- `EXPIRED` has reached the end of its paid time, and one with the status `DELETION_ELIGIBLE` the
  -- end of its grace period, by the block of the last call, whatever renewals came between.
  pub run_timely :
      (c : StorageLeaseConfig) (b : ℤ) (cs : List (Call N)) (f : String) (l : StorageLease N)
      → IsChronological b cs
      → get f (run N cs (new_manager N c)).leases ≡ some l
      → Due (last_block b cs) l.status l
  run_timely c b cs f l ord e =
      (run-IsTimely b cs (new_manager N c) ord (new_manager-IsTimely b c)).at f l e
