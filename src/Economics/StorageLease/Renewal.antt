-- ===== src/Economics/StorageLease/Renewal.antt =====
-- dessin/economics/storage_lease.py: what `renew_lease` accepts, and what it changes.
use dessin.Prelude.{
  ◌≡◌, ◌↔◌, true, false, some, String, arith, if◌then◌else◌, ◌==◌, length, length-append, ◌+◌, ◌&&◌,
  [], ◌∷◌,
}
use dessin.Prelude.Int.{ℤ, pos, ◌+ℤ◌, ◌≤ℤ◌}
use dessin.Dict.{get, get-set}
use dessin.Num.{Num}
use dessin.Economics.StorageLease.{
  LeaseStatus, StorageLease, StorageLeaseManager, is_closed, renew_lease, renew_found, extended,
  renewal_event,
}

module _ (N : Num) where
  -- The lengths of a renewal that the configuration admits.
  abbrev pub InBounds : ℤ → StorageLeaseManager N → Type 0
  InBounds n m = (m.config.min_renewal_blocks ≤ℤ n) × (n ≤ℤ m.config.max_renewal_blocks)

  -- A renewal of a lease that is there is accepted exactly if the lease is open and the number of
  -- blocks is within the configured bounds, whoever pays and whatever the payment.
  pub renew_lease_iff :
      (f p : String) (n : ℤ) (pay : N.Carrier) (b : ℤ) (m : StorageLeaseManager N)
      (l : StorageLease N)
      → get f m.leases ≡ some l
      → ((renew_lease N f p n pay b m).0.0 ≡ true) ↔ ((is_closed l.status ≡ false) × InBounds n m)
  unfolding renew_lease renew_found
  renew_lease_iff f p n pay b m l e = rw (e, renew_lease) (ground arith, ground arith)

  -- An accepted renewal extends the paid time by exactly the blocks paid for, adds the payment and
  -- one renewal, makes the lease active, and logs one event; every other lease stays as it was. A
  -- refused renewal changes no lease and logs nothing.
  pub renew_lease_effect :
      (f p : String) (n : ℤ) (pay : N.Carrier) (b : ℤ) (m : StorageLeaseManager N)
      (l : StorageLease N) (g : String)
      → get f m.leases ≡ some l
      → let (r, m') = renew_lease N f p n pay b m in
        (get g m'.leases ≡ (
          if r.0 && f == g
          then some (record l {
            paid_through_block = l.paid_through_block +ℤ n;
            status = LeaseStatus.active;
            total_paid = N.add l.total_paid pay;
            renewal_count = l.renewal_count +ℤ pos 1;
          })
          else get g m.leases))
        × (length m'.events ≡ length m.events + (if r.0 then 1 else 0))
  unfolding renew_lease renew_found
  renew_lease_effect f p n pay b m l g e =
      rw (e, renew_lease)
        (
          ground (
            arith,
            get-set f g (extended N l n pay) m.leases,
            length-append m.events (renewal_event N f p n pay b l ∷ []),
          ),
          ground (arith, length-append m.events (renewal_event N f p n pay b l ∷ [])),
        )
