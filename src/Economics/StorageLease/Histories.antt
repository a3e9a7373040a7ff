-- ===== src/Economics/StorageLease/Histories.antt =====
-- dessin/economics/storage_lease.py: what holds after every history of calls.
use dessin.Prelude.{◌≡◌, refl, none, List, [], ◌∷◌, String}
use mathlib.Core.Option
use dessin.Dict.{get}
use dessin.Num.{Num}
use dessin.Economics.StorageLease.{StorageLeaseManager, StorageLeaseConfig, new_manager}
use dessin.Economics.StorageLease.Audit.{IsAudited, view, replay}
use dessin.Economics.StorageLease.Audit.Operations.{
  create_lease-IsAudited, renew_lease-IsAudited, cancel_lease-IsAudited, mark_deleted-IsAudited,
}
use dessin.Economics.StorageLease.Audit.Passes.{check_block-IsAudited}
use dessin.Economics.StorageLease.Calls.{Call, create, renew, cancel, delete, check, call, run}

module _ (N : Num) where
  call-IsAudited :
      (c : Call N) (m : StorageLeaseManager N) → IsAudited N m → IsAudited N (call N c m)
  unfolding call
  call-IsAudited (create f o size n pay b) m h = create_lease-IsAudited N f o size n pay b m h
  call-IsAudited (renew f p n pay b) m h = renew_lease-IsAudited N f p n pay b m h
  call-IsAudited (cancel f o b) m h = cancel_lease-IsAudited N f o b m h
  call-IsAudited (delete f b) m h = mark_deleted-IsAudited N f b m h
  call-IsAudited (check b) m h = check_block-IsAudited N b m h

  run-IsAudited :
      (cs : List (Call N)) (m : StorageLeaseManager N) → IsAudited N m → IsAudited N (run N cs m)
  unfolding run
  run-IsAudited [] m h = h
  run-IsAudited (c ∷ cs) m h = run-IsAudited cs (call N c m) (call-IsAudited c m h)

  new_manager-IsAudited : (c : StorageLeaseConfig) → IsAudited N (new_manager N c)
  unfolding replay get
  new_manager-IsAudited c = record { distinct = tt; accounts = λ f. refl }

  -- After any calls on a new manager, replaying the audit events of a file gives the owner, the paid
  -- time, the sum paid, the number of renewals and the status of its lease, or that it has none.
  pub run_audit :
      (c : StorageLeaseConfig) (cs : List (Call N)) (f : String)
      → Option.map (view N) (get f (run N cs (new_manager N c)).leases)
        ≡ replay N f (run N cs (new_manager N c)).events none
  run_audit c cs f = (run-IsAudited cs (new_manager N c) (new_manager-IsAudited c)).accounts f
