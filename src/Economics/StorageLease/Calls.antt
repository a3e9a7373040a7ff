-- ===== src/Economics/StorageLease/Calls.antt =====
-- dessin/economics/storage_lease.py: a history of calls on one manager.
use dessin.Prelude.{List, [], ◌∷◌, String}
use dessin.Prelude.Int.{ℤ}
use dessin.Num.{Num}
use dessin.Economics.StorageLease.{
  StorageLeaseManager, create_lease, renew_lease, cancel_lease, mark_deleted,
}
use dessin.Economics.StorageLease.Tick.{check_block}

module _ (N : Num) where
  -- A call of the manager, with its arguments.
  pub data Call : Type 0 where
    create :
        (file_id owner : String) (size_mb : N.Carrier) (initial_blocks : ℤ) (payment : N.Carrier)
        (current_block : ℤ)
        → Call
    renew :
        (file_id payer : String) (additional_blocks : ℤ) (payment : N.Carrier) (current_block : ℤ)
        → Call
    cancel : (file_id owner : String) (current_block : ℤ) → Call
    delete : (file_id : String) (current_block : ℤ) → Call
    check : (current_block : ℤ) → Call

  unfoldable pub call : Call → StorageLeaseManager N → StorageLeaseManager N
  call (create f o size n pay b) m = (create_lease N f o size n pay b m).1
  call (renew f p n pay b) m = (renew_lease N f p n pay b m).1
  call (cancel f o b) m = (cancel_lease N f o b m).1
  call (delete f b) m = mark_deleted N f b m
  call (check b) m = (check_block N b m).1

  unfoldable pub run : List Call → StorageLeaseManager N → StorageLeaseManager N
  run [] m = m
  run (c ∷ cs) m = run cs (call c m)
