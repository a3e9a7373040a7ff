-- ===== src/Consensus/TrainingMarket/Cooldown.antt =====
-- dessin/consensus/training_market.py: the cooldown of the models of a block.
use dessin.Prelude.{
  length, refl, ◌∙◌, ◌≡◌, inl, inr, Bool, true, false, ◌||◌, Bool-cases, List, [], ◌∷◌, String,
  ◌==◌, map, some, if◌then◌else◌,
}
use dessin.Prelude.Int.{ℤ, ◌+ℤ◌, ltb_ℤ}
use dessin.Dict.{del, get, set, get-set}
use dessin.Num.{Num}
use dessin.Consensus.TrainingMarket.{
  TrainingMarket, ScheduledTrainingSlot, is_seen, settle_slots, finalize_block, log_raises,
  cooldown_length, model_in_cooldown,
}

-- A later entry for one key counts.
merge :
    {A : Type 0} (again same : Bool) (x y z : A)
    → z ≡ (if same then x else y)
    → (if again then x else z) ≡ (if same || again then x else y)
merge true true x y z e = refl
merge true false x y z e = refl
merge false true x y z e = e
merge false false x y z e = e

module _ {N : Num} where
  -- One round of `settle_slots`.
  abbrev settled : ScheduledTrainingSlot N → ℤ → TrainingMarket N → TrainingMarket N
  settled slot b s = record s {
    pending = del slot.task_id s.pending;
    cooldowns = set slot.model_id (b +ℤ cooldown_length s.config) s.cooldowns;
  }

  settle_slots-cooldown :
      (m : String) (slots : List (ScheduledTrainingSlot N)) (b : ℤ) (s : TrainingMarket N)
      → get m (settle_slots slots b s).cooldowns ≡ (
          if is_seen m (map (λ slot. slot.model_id) slots)
          then some (b +ℤ cooldown_length s.config)
          else get m s.cooldowns)
  unfolding settle_slots is_seen
  settle_slots-cooldown m [] b s = refl
  settle_slots-cooldown m (x ∷ slots) b s =
      settle_slots-cooldown m slots b (settled x b s)
      ∙ merge (is_seen m (map (λ slot. slot.model_id) slots)) (x.model_id == m)
          (some (b +ℤ cooldown_length s.config)) (get m s.cooldowns) _
          (get-set x.model_id m (b +ℤ cooldown_length s.config) s.cooldowns)

  finalize_block-cooldowns :
      (slots : List (ScheduledTrainingSlot N)) (b : ℤ) (s : TrainingMarket N)
      → (finalize_block slots b s).cooldowns ≡ (settle_slots slots b s).cooldowns
  unfolding finalize_block
  finalize_block-cooldowns slots b s =
      let t = settle_slots slots b s in
      elim (Bool-cases (log_raises (length slots) t.config.max_tasks_per_block t)) [
        | inl raises ↦ rw (raises, finalize_block) refl
        | inr logs ↦ rw (logs, finalize_block) refl
      ]

  -- A model scheduled in a block is in cooldown exactly until the block's height plus the cooldown, at
  -- least one block; every other model is in cooldown as it was before.
  model_in_cooldown-finalize_block :
      (m : String) (slots : List (ScheduledTrainingSlot N)) (b later : ℤ) (s : TrainingMarket N)
      → model_in_cooldown m later (finalize_block slots b s) ≡ (
          if is_seen m (map (λ slot. slot.model_id) slots)
          then ltb_ℤ later (b +ℤ cooldown_length s.config)
          else model_in_cooldown m later s)
  unfolding model_in_cooldown
  model_in_cooldown-finalize_block m slots b later s =
      elim (Bool-cases (is_seen m (map (λ slot. slot.model_id) slots))) [
        | inl scheduled ↦
            rw (finalize_block-cooldowns slots b s, settle_slots-cooldown m slots b s, scheduled)
              refl
        | inr other ↦
            rw (finalize_block-cooldowns slots b s, settle_slots-cooldown m slots b s, other) refl
      ]
