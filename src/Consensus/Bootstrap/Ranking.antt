-- ===== src/Consensus/Bootstrap/Ranking.antt =====
-- dessin/consensus/enhanced_pogo_consensus.py: the ranking of the registered addresses, and who is active.
-- The key of the sort is the negated stake, then the height of the registration; `-x < -y` is `y < x`.
use dessin.Prelude.{
  suc, ◌-◌, Bool, not, ◌&&◌, ◌||◌, List, [], ◌∷◌, String, if◌then◌else◌, length, take, keep_if,
}
use dessin.Prelude.Int.{ℤ, pos, negsuc, ltb_ℤ}
use dessin.Dict.{Dict, get_or}
use dessin.Num.{Num, eq_num}
use dessin.Economics.EconomicSystem.{EconomicSystem, get_balance, get_staked_amount}
use dessin.Consensus.Leader.{member}
use dessin.Consensus.Bootstrap.State.{Node}

-- `d.keys()`
unfoldable pub keys : {V : Type 0} → Dict V → List String
keys [] = []
keys ((j, v) ∷ d) = j ∷ keys d

-- `xs[:cap]`
abbrev pub slice : ℤ → List String → List String
slice (pos n) xs = take n xs
slice (negsuc n) xs = take (length xs - suc n) xs

module _ (N : Num) where
  open N use {Carrier, add}

  -- `_unbonding_total`
  unfoldable pub unbonding_total : Carrier → List (Carrier × ℤ) → Carrier
  unbonding_total sum [] = sum
  unbonding_total sum ((amount, unlock) ∷ q) = unbonding_total (add sum amount) q

module _ {N : Num} where
  open N use {Carrier, nought, add, lt}

  abbrev pub get_virtual : String → EconomicSystem N → Carrier
  get_virtual a s = get_or a nought s.bootstrap_virtual_locked

  unfoldable pub effective_bootstrap_stake : String → EconomicSystem N → Carrier
  effective_bootstrap_stake a s = add (get_virtual a s) (get_staked_amount a s)

  unfoldable pub total_holdings_for_eligibility : String → EconomicSystem N → Carrier
  total_holdings_for_eligibility a s =
      add (add (add (get_balance a s) (get_staked_amount a s)) (get_virtual a s))
        (unbonding_total N nought (get_or a [] s.unbonding_queue))

  abbrev pub participants : Node N → List String
  participants s =
      keep_if (λ (a : String). not (member a s.roster.bootstrap_slashed))
        (keys s.roster.bootstrap_registry)

  -- Whether the key of `a` is less than that of `b`.
  unfoldable pub ranks_before : Node N → (a b : String) → Bool
  ranks_before s a b =
      let x = effective_bootstrap_stake a s.system in
      let y = effective_bootstrap_stake b s.system in
      let h = λ (c : String). get_or c (pos 0) s.roster.bootstrap_registry in
      lt y x || (eq_num N x y && ltb_ℤ (h a) (h b))

  -- `sorted` by the key: a stable sort.
  unfoldable pub insert_ranked : Node N → String → List String → List String
  insert_ranked s a [] = a ∷ []
  insert_ranked s a (b ∷ bs) =
      let rest = insert_ranked s a bs in if ranks_before s b a then b ∷ rest else a ∷ b ∷ bs

  unfoldable pub rank : Node N → List String → List String
  rank s [] = []
  rank s (a ∷ addrs) = insert_ranked s a (rank s addrs)

  -- `min(int(cfg.bootstrap_max_active_nodes), len(ranked))`
  abbrev pub active_cap : Node N → ℤ
  active_cap s =
      let n = pos (length (rank s (participants s))) in
      if ltb_ℤ n s.bootstrap_max_active_nodes then n else s.bootstrap_max_active_nodes

  -- `active`
  unfoldable pub active_miners : Node N → List String
  active_miners s = slice (active_cap s) (rank s (participants s))
