-- ===== src/Consensus/SpotCheck/Strikes.antt =====
-- dessin/consensus/spot_check_verification.py: the strikes of a model. `isfinite` stands for
-- `math.isfinite`; the set of frozen models is a list.
use dessin.Prelude.{
  ℕ, suc, ◌+◌, ◌≡◌, Bool, true, false, not, ◌&&◌, ◌||◌, List, [], ◌∷◌, ◌++◌, String, ◌==◌,
  if◌then◌else◌,
}
use dessin.Prelude.Int.{ℤ, pos, leb_ℤ}
use dessin.Dict.{Dict, get_or, set}
use dessin.Num.{Num}

pub record ChainStrikeState : Type 0 where
  pub strikes_by_model : Dict ℕ
  pub frozen_models : List String

abbrev pub is_member : String → List String → Bool
is_member model_id [] = false
is_member model_id (m ∷ ms) = m == model_id || is_member model_id ms

unfoldable pub is_frozen : String → ChainStrikeState → Bool
is_frozen model_id s = is_member model_id s.frozen_models

-- `self.frozen_models.discard(model_id)`
abbrev pub discard : String → List String → List String
discard model_id [] = []
discard model_id (m ∷ ms) =
    let rest = discard model_id ms in if m == model_id then rest else m ∷ rest

unfoldable pub reset : String → ChainStrikeState → ChainStrikeState
reset model_id s = record {
  strikes_by_model = set model_id 0 s.strikes_by_model;
  frozen_models = discard model_id s.frozen_models;
}

module _ (N : Num) (isfinite : N.Carrier → Bool) where
  -- `any(L < L0 for L in ...)`
  abbrev pub any_below : N.Carrier → List N.Carrier → Bool
  any_below l0 [] = false
  any_below l0 (l ∷ ls) = N.lt l l0 || any_below l0 ls

  abbrev pub dipped : (l0 : N.Carrier) → List N.Carrier → Bool
  dipped l0 ls = if isfinite l0 then any_below l0 ls else false

  -- A run without a dip: one more strike, and at `max_strikes` the model is frozen.
  abbrev pub strike :
      (model_id : String) (max_strikes : ℤ) → ChainStrikeState → (ℕ × Bool) × ChainStrikeState
  strike model_id max_strikes s =
      let cur = get_or model_id 0 s.strikes_by_model + 1 in
      let strikes = set model_id cur s.strikes_by_model in
      if leb_ℤ max_strikes (pos cur) && not (is_member model_id s.frozen_models)
      then (
        (cur, true),
        record { strikes_by_model = strikes; frozen_models = s.frozen_models ++ (model_id ∷ []) },
      )
      else ((cur, false), record { strikes_by_model = strikes; frozen_models = s.frozen_models })

  unfoldable pub accumulate_strikes :
      (model_id : String) (loss_curve : List N.Carrier) (max_strikes : ℤ)
      → ChainStrikeState
      → (ℕ × Bool) × ChainStrikeState
  accumulate_strikes model_id [] max_strikes s = ((get_or model_id 0 s.strikes_by_model, false), s)
  accumulate_strikes model_id (l0 ∷ ls) max_strikes s =
      if dipped l0 ls
      then ((0, false), record s { strikes_by_model = set model_id 0 s.strikes_by_model })
      else strike model_id max_strikes s

  pub data StrikeCall : Type 0 where
    accumulate : (model_id : String) (loss_curve : List N.Carrier) (max_strikes : ℤ) → StrikeCall
    refresh : (model_id : String) → StrikeCall

  -- The state after the calls, the first at the end of the list.
  abbrev pub strikes_after : List StrikeCall → ChainStrikeState → ChainStrikeState
  strikes_after [] s = s
  strikes_after (accumulate j curve max_strikes ∷ before) s =
      (accumulate_strikes j curve max_strikes (strikes_after before s)).1
  strikes_after (refresh j ∷ before) s = reset j (strikes_after before s)

  -- The runs of a model in a row, up to its last, that never dipped below their first loss; runs
  -- without a curve do not count, and a refresh starts anew.
  abbrev pub useless_runs : String → List StrikeCall → ℕ
  useless_runs m [] = 0
  useless_runs m (accumulate j [] max_strikes ∷ before) = useless_runs m before
  useless_runs m (accumulate j (l0 ∷ ls) max_strikes ∷ before) =
      let rest = useless_runs m before in
      if j == m then (if dipped l0 ls then 0 else suc rest) else rest
  useless_runs m (refresh j ∷ before) =
      let rest = useless_runs m before in if j == m then 0 else rest

  -- Since the last refresh of a model, a run of it brought the number of its runs in a row that never
  -- dipped to the `max_strikes` of that call.
  abbrev pub was_useless : String → List StrikeCall → Bool
  was_useless m [] = false
  was_useless m (accumulate j [] max_strikes ∷ before) = was_useless m before
  was_useless m (accumulate j (l0 ∷ ls) max_strikes ∷ before) =
      let rest = was_useless m before in
      if j == m
      then (not (dipped l0 ls) && leb_ℤ max_strikes (pos (suc (useless_runs m before)))) || rest
      else rest
  was_useless m (refresh j ∷ before) =
      let rest = was_useless m before in if j == m then false else rest

  -- One run with a curve.
  abbrev Runs : (useful : Bool) (m : String) (max_strikes : ℤ) (s t : ChainStrikeState) → Type 0
  Runs useful m max_strikes s t =
      (get_or m 0 t.strikes_by_model ≡ (if useful then 0 else suc (get_or m 0 s.strikes_by_model)))
      × (is_member m t.frozen_models ≡ (
          (not useful && leb_ℤ max_strikes (pos (suc (get_or m 0 s.strikes_by_model))))
          || is_member m s.frozen_models))

  -- What a call for another model leaves alone.
  abbrev Frame : (m : String) (s t : ChainStrikeState) → Type 0
  Frame m s t =
      (get_or m 0 t.strikes_by_model ≡ get_or m 0 s.strikes_by_model)
      × (is_member m t.frozen_models ≡ is_member m s.frozen_models)

  -- The counter and the frozen flag of a model are what the calls say.
  abbrev Counted : (m : String) → List StrikeCall → ChainStrikeState → Type 0
  Counted m calls t =
      (get_or m 0 t.strikes_by_model ≡ useless_runs m calls)
      × (is_member m t.frozen_models ≡ was_useless m calls)
