-- ===== src/Economics/StorageLease/Audit/Operations.antt =====
-- dessin/economics/storage_lease.py: every call but `check_block` keeps the audit log in step.
use dessin.Prelude.{◌≡◌, refl, some, String, arith, ◌==◌, Option-cases, inl, inr, Bool-cases}
use dessin.Prelude.Int.{ℤ, ltb_ℤ}
use dessin.Dict.{get}
use dessin.Num.{Num}
use dessin.Economics.StorageLease.{
  StorageLease, StorageLeaseManager, is_closed, create_lease, renew_lease, renew_found,
  cancel_lease, mark_deleted, is_taken,
}
use dessin.Economics.StorageLease.Audit.{IsAudited, write-IsAudited}

module _ (N : Num) where
  pub create_lease-IsAudited :
      (f o : String) (size : N.Carrier) (n : ℤ) (pay : N.Carrier) (b : ℤ)
      (m : StorageLeaseManager N)
      → IsAudited N m
      → IsAudited N (create_lease N f o size n pay b m).1
  unfolding create_lease
  create_lease-IsAudited f o size n pay b m h = elim (Bool-cases (is_taken N (get f m.leases))) [
    | inl taken ↦ rw taken h
    | inr free ↦ elim (Bool-cases (ltb_ℤ n m.config.min_renewal_blocks)) [
      | inl few ↦ rw (free, few) h
      | inr enough ↦ rw (free, enough) (write-IsAudited N f _ _ m h refl refl)
    ]
  ]

  renew_found-IsAudited :
      (f p : String) (n : ℤ) (pay : N.Carrier) (b : ℤ) (m : StorageLeaseManager N)
      (l : StorageLease N)
      → get f m.leases ≡ some l
      → IsAudited N m
      → IsAudited N (renew_found N f p n pay b m l).1
  unfolding renew_found
  renew_found-IsAudited f p n pay b m l e h = elim (Bool-cases (is_closed l.status)) [
    | inl closed ↦ rw closed h
    | inr open_lease ↦ elim (Bool-cases (ltb_ℤ n m.config.min_renewal_blocks)) [
      | inl few ↦ rw (open_lease, few) h
      | inr enough ↦ elim (Bool-cases (ltb_ℤ m.config.max_renewal_blocks n)) [
        | inl many ↦ rw (open_lease, enough, many) h
        | inr fits ↦
            rw (open_lease, enough, fits) (write-IsAudited N f _ _ m h refl (rw e (ground arith)))
      ]
    ]
  ]

  pub renew_lease-IsAudited :
      (f p : String) (n : ℤ) (pay : N.Carrier) (b : ℤ) (m : StorageLeaseManager N)
      → IsAudited N m
      → IsAudited N (renew_lease N f p n pay b m).1
  unfolding renew_lease
  renew_lease-IsAudited f p n pay b m h = elim (Option-cases (get f m.leases)) [
    | inl missing ↦ rw (missing, renew_lease) h
    | inr (l, e) ↦ rw (e, renew_lease) (renew_found-IsAudited f p n pay b m l e h)
  ]

  pub cancel_lease-IsAudited :
      (f o : String) (b : ℤ) (m : StorageLeaseManager N)
      → IsAudited N m
      → IsAudited N (cancel_lease N f o b m).1
  unfolding cancel_lease
  cancel_lease-IsAudited f o b m h = elim (Option-cases (get f m.leases)) [
    | inl missing ↦ rw (missing, cancel_lease) h
    | inr (l, e) ↦ elim (Bool-cases (l.owner == o)) [
      | inl owned ↦ elim (Bool-cases (is_closed l.status)) [
        | inl closed ↦ rw (e, cancel_lease, owned, closed) h
        | inr open_lease ↦
            rw (e, cancel_lease, owned, open_lease) (write-IsAudited N f _ _ m h refl (rw e refl))
      ]
      | inr foreign ↦ rw (e, cancel_lease, foreign) h
    ]
  ]

  pub mark_deleted-IsAudited :
      (f : String) (b : ℤ) (m : StorageLeaseManager N)
      → IsAudited N m
      → IsAudited N (mark_deleted N f b m)
  unfolding mark_deleted
  mark_deleted-IsAudited f b m h = elim (Option-cases (get f m.leases)) [
    | inl missing ↦ rw (missing, mark_deleted) h
    | inr (l, e) ↦ rw (e, mark_deleted) (write-IsAudited N f _ _ m h refl (rw e refl))
  ]
