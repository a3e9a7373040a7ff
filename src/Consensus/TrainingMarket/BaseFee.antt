-- ===== src/Consensus/TrainingMarket/BaseFee.antt =====
-- dessin/consensus/training_market.py: the base fee stays within its bounds.
use dessin.Prelude.{
  refl, ap, ◌∙◌, [], ◌∷◌, ℕ, ◌≡◌, inl, inr, true, false, arith, Bool-cases, List, length,
}
use dessin.Prelude.Int.{ℤ, pos, eq_ℤ}
use dessin.Num.{Num, IsOrdered, min_num, max_num}
use dessin.Consensus.TrainingMarket.{
  TrainingMarket, TrainingMarketConfig, ScheduledTrainingSlot, adjust_base_fee, log_raises,
  settle_slots, finalize_block,
}

module _ {N : Num} (o : IsOrdered N) where
  not_below : (x y : N.Carrier) → N.lt x y ≡ false → N.le y x ≡ true
  not_below x y h = ground (arith, o.lt-eq-not-le x y, h)

  below : (x y : N.Carrier) → N.lt x y ≡ true → N.le x y ≡ true
  below x y h = elim (o.le_total x y) [
    | inl up ↦ up
    | inr down ↦ ground (arith, o.lt-eq-not-le x y, h, down)
  ]

  max_num_above : (x y : N.Carrier) → N.le x (max_num N x y) ≡ true
  max_num_above x y = elim (Bool-cases (N.lt x y)) [
    | inl more ↦ rw more (below x y more)
    | inr less ↦ rw less (o.le_refl x)
  ]

  max_num_most :
      (x y z : N.Carrier) → N.le x z ≡ true → N.le y z ≡ true → N.le (max_num N x y) z ≡ true
  max_num_most x y z h g = elim (Bool-cases (N.lt x y)) [
    | inl more ↦ rw more g
    | inr less ↦ rw less h
  ]

  min_num_below : (x y : N.Carrier) → N.le (min_num N x y) x ≡ true
  min_num_below x y = elim (Bool-cases (N.lt y x)) [
    | inl more ↦ rw more (below y x more)
    | inr less ↦ rw less (o.le_refl x)
  ]

  settle_slots-config :
      (slots : List (ScheduledTrainingSlot N)) (b : ℤ) (s : TrainingMarket N)
      → (settle_slots slots b s).config ≡ s.config
  unfolding settle_slots
  settle_slots-config [] b s = refl
  settle_slots-config (x ∷ slots) b s = settle_slots-config slots b _

  adjust_bounds :
      (n : ℕ) (max : ℤ) (t : TrainingMarket N) (c : TrainingMarketConfig N)
      → t.config ≡ c
      → eq_ℤ max (pos 0) ≡ false
      → N.le c.min_base_fee c.max_base_fee ≡ true
      → let fee = adjust_base_fee n max t in
        (N.le c.min_base_fee fee ≡ true) × (N.le fee c.max_base_fee ≡ true)
  unfolding adjust_base_fee
  adjust_bounds n max t c e some_slots ordered =
      rw (← e, some_slots)
        (
          max_num_above t.config.min_base_fee (min_num N t.config.max_base_fee _),
          max_num_most t.config.min_base_fee (min_num N t.config.max_base_fee _)
              t.config.max_base_fee (rw (← e) at ordered) (min_num_below t.config.max_base_fee _),
        )

  finalize_block-base_fee :
      (slots : List (ScheduledTrainingSlot N)) (b : ℤ) (s : TrainingMarket N)
      → let t = settle_slots slots b s in
        (finalize_block slots b s).base_fee
        ≡ adjust_base_fee (length slots) t.config.max_tasks_per_block t
  unfolding finalize_block
  finalize_block-base_fee slots b s =
      let t = settle_slots slots b s in
      elim (Bool-cases (log_raises (length slots) t.config.max_tasks_per_block t)) [
        | inl raises ↦ rw (raises, finalize_block) refl
        | inr logs ↦ rw (logs, finalize_block) refl
      ]

  -- After any block the base fee is between its floor and its ceiling, when a block has slots at all
  -- and the floor is not above the ceiling, whatever the fee was and however full the block.
  pub finalize_block_bounds :
      (slots : List (ScheduledTrainingSlot N)) (b : ℤ) (s : TrainingMarket N)
      → eq_ℤ s.config.max_tasks_per_block (pos 0) ≡ false
      → N.le s.config.min_base_fee s.config.max_base_fee ≡ true
      → let t = finalize_block slots b s in
        (N.le s.config.min_base_fee t.base_fee ≡ true)
        × (N.le t.base_fee s.config.max_base_fee ≡ true)
  finalize_block_bounds slots b s some_slots ordered =
      let e = settle_slots-config slots b s in
      let t = settle_slots slots b s in
      rw (finalize_block-base_fee slots b s) (
        adjust_bounds (length slots) t.config.max_tasks_per_block t s.config e
          (ap (λ c. eq_ℤ c.max_tasks_per_block (pos 0)) e ∙ some_slots) ordered)
