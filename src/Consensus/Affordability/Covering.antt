-- ===== src/Consensus/Affordability/Covering.antt =====
-- dessin/economics/economic_system.py: what an owner who can pay has, and the parts of a cost.
use dessin.Prelude.{
  ◌≡◌, inl, inr, Bool, true, false, not, ◌&&◌, Option-cases, [], String, ◌==◌, ap, ◌∙◌, arith,
}
use dessin.Prelude.Int.{ℤ, pos, ◌+ℤ◌, ◌-ℤ◌, ◌≤ℤ◌, ltb_ℤ, int_laws, +ℤ_parts, -ℤ_parts, eq_of_parts}
use dessin.Dict.{get, get_or}
use dessin.Num.{min_num}
use dessin.Num.Units.{Scale}
use dessin.Economics.EconomicSystem.{
  EconomicSystem, Result, returned, key_error, Action, gets, ◌>>=◌, ◌>>◌, system, get_balance,
}
use dessin.Economics.EconomicSystem.Transfers.{finalize_matured_unstakes, split_matured}
use dessin.Economics.EconomicSystem.Queues.{NonnegQueue, get-NonnegQueue}
use dessin.Economics.EconomicSystem.Holdings.{U, IsQueued, split_matured_lem}
use dessin.Economics.EconomicSystem.Training.{cover_from_stake, owner_can_pay}
use dessin.Consensus.Affordability.Payment.{remainder_of}

module _ (k : Scale) where
  -- What has matured of queues in order is not negative.
  pub due_nonneg :
      (a : String) (tip : ℤ) (s : EconomicSystem (U k))
      → IsQueued k s
      → pos 0 ≤ℤ (split_matured (U k) tip (pos 0) (get_or a [] s.unbonding_queue)).0
  due_nonneg a tip s h =
      let sound : NonnegQueue (get_or a [] s.unbonding_queue) =
        elim (Option-cases (get a s.unbonding_queue)) [
          | inl missing ↦ rw missing tt
          | inr (q, e) ↦ rw e (get-NonnegQueue a q s.unbonding_queue h.nonneg e)
        ] in
      (split_matured_lem k tip (pos 0) (get_or a [] s.unbonding_queue) sound).1

  pub grown_covers :
      (balance credited x : ℤ)
      → pos 0 ≤ℤ credited
      → ltb_ℤ balance x ≡ false
      → ltb_ℤ (balance +ℤ credited) x ≡ false
  grown_covers balance credited x due covered = ground (arith, +ℤ_parts balance credited)

  pub unchanged : (balance x : ℤ) → pos 0 ≤ℤ x → ltb_ℤ (pos 0) x ≡ false → balance ≡ balance +ℤ x
  unchanged balance x positive nothing =
      ground (arith, +ℤ_parts balance x, eq_of_parts balance (balance +ℤ x))

  pub shares :
      (escrow cost : ℤ)
      → pos 0 ≤ℤ cost
      → pos 0 ≤ℤ escrow
      → (pos 0 ≤ℤ min_num (U k) escrow cost) × (pos 0 ≤ℤ remainder_of k escrow cost)
  shares escrow cost costs holds =
      (ground arith, ground (arith, -ℤ_parts cost escrow, -ℤ_parts cost cost))

  pub adds_up :
      (before escrow cost between after : ℤ)
      → between ≡ before
      → after ≡ between +ℤ min_num (U k) escrow cost
      → after +ℤ remainder_of k escrow cost ≡ before +ℤ cost
  adds_up before escrow cost between after same paid =
      let part = min_num (U k) escrow cost in
      let sum : before +ℤ part +ℤ (cost -ℤ part) ≡ before +ℤ cost = omega int_laws in
      ap (λ n. n +ℤ (cost -ℤ part)) (paid ∙ ap (λ n. n +ℤ part) same) ∙ sum

  -- An action that ends by asking.
  bind_asks :
      {A : Type 0} (f : EconomicSystem (U k) → Bool) (m : Action (U k) A)
      (n : A → Action (U k) Bool)
      → ((a : A) (t : EconomicSystem (U k)) → (n a t).0 ≡ returned true → f (n a t).1 ≡ true)
      → (s : EconomicSystem (U k)) → (◌>>=◌ {N = U k} m n s).0 ≡ returned true
      → f (◌>>=◌ {N = U k} m n s).1 ≡ true
  bind_asks {A = A} f m n rest s = next (m s)
    where
      next :
          (p : Result A × EconomicSystem (U k))
          → let out : Result Bool × EconomicSystem (U k) = elim p.0 [
            | returned r ↦ n r p.1
            | key_error ↦ (key_error, p.1)
          ] in
            out.0 ≡ returned true → f out.1 ≡ true
      next (returned r, t) h = rest r t h
      next (key_error, t) h = cc

  pub owner_can_pay-covers :
      (owner : String) (x b : ℤ) (allow : Bool) (s : EconomicSystem (U k))
      → (ltb_ℤ (pos 0) x && not (owner == system)) ≡ true
      → (owner_can_pay (U k) owner x b allow s).0 ≡ returned true
      → not (ltb_ℤ (get_balance owner (owner_can_pay (U k) owner x b allow s).1) x) ≡ true
  unfolding owner_can_pay
  owner_can_pay-covers owner x b allow s owes =
      let covers : EconomicSystem (U k) → Bool = λ t. not (ltb_ℤ (get_balance owner t) x) in
      let ask : Action (U k) Bool = gets covers in
      let rest : ℤ → Action (U k) Bool = λ n. cover_from_stake (U k) owner x allow >> ask in
      rw owes (
        bind_asks covers (finalize_matured_unstakes (U k) owner b) rest
          (λ n.
            bind_asks covers (cover_from_stake (U k) owner x allow) (λ r. ask)
              (λ r t h. ground (arith, h)))
          s)
