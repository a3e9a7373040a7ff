-- ===== src/Economics/StorageLease/Audit/Passes.antt =====
-- dessin/economics/storage_lease.py: `check_block` keeps the audit log in step.
use dessin.Prelude.{
  ◌≡◌, refl, false, Option, none, some, [], ◌∷◌, String, arith, ◌==◌, eq_iff, if◌then◌else◌, inl,
  inr, Bool-cases, sym,
}
use dessin.Prelude.Int.{ℤ}
use mathlib.Core.Option
use dessin.Dict.{Dict, get, IsDistinct}
use dessin.Num.{Num}
use dessin.Economics.StorageLease.{StorageLease, StorageLeaseManager}
use dessin.Economics.StorageLease.Tick.{tick, check_leases, check_block}
use dessin.Economics.StorageLease.Schedule.{get-check_leases}
use dessin.Economics.StorageLease.Audit.{IsAudited, View, view, replay, replay-append}

module _ (N : Num) where
  -- A pass over the leases.
  replay-tick_self :
      (f g : String) (b : ℤ) (l : StorageLease N)
      → replay N g (tick N f b l).events (some (view N l))
        ≡ (if f == g then some (view N (tick N f b l).lease) else some (view N l))
  unfolding replay tick
  replay-tick_self f g b l = ground arith

  replay-tick_ne :
      (f g : String) (b : ℤ) (l : StorageLease N) (v : Option (View N))
      → (f == g) ≡ false
      → replay N g (tick N f b l).events v ≡ v
  unfolding replay tick
  replay-tick_ne f g b l v h = ground arith

  replay-check_leases_absent :
      (b : ℤ) (d : Dict (StorageLease N)) (f : String) (v : Option (View N))
      → get f d ≡ none
      → replay N f (check_leases N b d).events v ≡ v
  unfolding check_leases get
  replay-check_leases_absent b [] f v h = unfold replay in refl
  replay-check_leases_absent b ((g, l) ∷ d) f v h = elim (Bool-cases (g == f)) [
    | inl same ↦ cc (rw same at h)
    | inr other ↦
        rw
          (
            replay-append N f (tick N g b l).events (check_leases N b d).events v,
            replay-tick_ne g f b l v other,
          )
          (replay-check_leases_absent b d f v (rw other at h))
  ]

  replay-check_leases :
      (b : ℤ) (d : Dict (StorageLease N)) (f : String)
      → IsDistinct d
      → replay N f (check_leases N b d).events (Option.map (view N) (get f d))
        ≡ Option.map (view N) (get f (check_leases N b d).leases)
  unfolding check_leases get
  replay-check_leases b [] f h = unfold replay in refl
  replay-check_leases b ((g, l) ∷ d) f h = elim (Bool-cases (g == f)) [
    | inl same ↦
        rw
          (
            same,
            replay-append N f (tick N g b l).events (check_leases N b d).events (some (view N l)),
            replay-tick_self g f b l,
            same,
          )
          (replay-check_leases_absent b d f _ (rw (← (eq_iff g f).0 same) h.0))
    | inr other ↦
        rw
          (
            other,
            replay-append N f (tick N g b l).events (check_leases N b d).events _,
            replay-tick_ne g f b l _ other,
          )
          (replay-check_leases b d f h.1)
  ]

  check_leases-IsDistinct :
      (b : ℤ) (d : Dict (StorageLease N)) → IsDistinct d → IsDistinct (check_leases N b d).leases
  unfolding check_leases
  check_leases-IsDistinct b [] h = tt
  check_leases-IsDistinct b ((g, l) ∷ d) h =
      (rw (get-check_leases N b d g, h.0) refl, check_leases-IsDistinct b d h.1)

  pub check_block-IsAudited :
      (b : ℤ) (m : StorageLeaseManager N) → IsAudited N m → IsAudited N (check_block N b m).1
  unfolding check_block
  check_block-IsAudited b m h = record {
    distinct = check_leases-IsDistinct b m.leases h.distinct;
    accounts = λ f.
        rw (replay-append N f m.events (check_leases N b m.leases).events none, ← h.accounts f)
          (sym (replay-check_leases b m.leases f h.distinct));
  }
