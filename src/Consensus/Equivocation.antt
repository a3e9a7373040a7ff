-- ===== src/Consensus/Equivocation.antt =====
-- dessin/consensus/enhanced_pogo_consensus.py, `_handle_potential_equivocation`: the hook by which
-- dessin/consensus/consensus.py tells of two blocks at one height under one miner's name. `now` and
-- `later` are the clock when the proposal is made and when the penalty or ban is entered.
pub mod Punishment
mod Tests
use dessin.Prelude.{
  ℕ, Bool, true, false, Option, none, some, List, [], ◌∷◌, ◌++◌, String, ◌==◌, if◌then◌else◌,
  count_if, ltb,
}
use dessin.Prelude.Int.{ℤ, pos}
use dessin.Dict.{set}
use dessin.Num.{Num}
use dessin.Economics.EconomicSystem.{get_staked_amount}
use dessin.Consensus.SlashingMechanism.{
  SlashingMechanism, double_signing, penalties, is_address_banned, propose_slashing, apply_slashing,
}
use dessin.Consensus.PogoConsensus.{Fields, PogoBlock, Hooks}

module _ (N : Num) where
  -- The part of the subclass's state that the hook uses.
  pub record Watch : Type 0 where
    pub slashing_mechanism : SlashingMechanism N
    pub equivocation_slash_keys : List String

module _ {N : Num} where
  open N use {Carrier, nought, add, le, of_int}

  -- The miner has no stake to take.
  unfoldable pub ban_without_stake :
      (now later : Carrier) (miner : String) → SlashingMechanism N → SlashingMechanism N
  ban_without_stake now later miner s =
      let (banned, t) = is_address_banned now miner s in
      if le (get_staked_amount miner s.economic_system) nought
      then (if banned then t else record t {
        banned_addresses =
            set miner (add later (of_int (penalties N double_signing).ban_duration_seconds))
              t.banned_addresses;
      })
      else s

  -- What follows the proposal.
  unfoldable pub punish :
      (now later : Carrier) (miner : String) (index : ℤ)
      → Option ℕ × SlashingMechanism N
      → SlashingMechanism N
  punish now later miner index (some ref, s) = (apply_slashing later ref index s).1
  punish now later miner index (none, s) = ban_without_stake now later miner s

  -- `key` is the text of a miner and a height.
  unfoldable pub handle_potential_equivocation :
      {R : Fields} (key : String → ℤ → String) (now later : Carrier)
      (incumbent conflicting : PogoBlock R)
      → Watch N
      → Watch N
  handle_potential_equivocation key now later incumbent conflicting w =
      let k = key conflicting.miner conflicting.index in
      if ltb 0 (count_if (λ (j : String). j == k) w.equivocation_slash_keys) then w else record {
        equivocation_slash_keys = k ∷ w.equivocation_slash_keys;
        slashing_mechanism = punish now later conflicting.miner conflicting.index (
            propose_slashing now conflicting.hash conflicting.miner double_signing
              "pogo_equivocation" w.slashing_mechanism);
      }

  -- The hooks of the subclass, of which `observe` keeps the roster of miners.
  abbrev pub watching :
      {R : Fields} (key : String → ℤ → String) (now later : Carrier)
      (observe : PogoBlock R → Watch N → Watch N)
      → Hooks R (Watch N)
  watching key now later observe = record {
    observe_block_miner = observe;
    handle_potential_equivocation = handle_potential_equivocation key now later;
  }
