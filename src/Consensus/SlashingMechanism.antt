-- ===== src/Consensus/SlashingMechanism.antt =====
-- dessin/consensus/slashing_mechanism.py: proposals, penalties, bans and reputation. `now` stands for
-- `time.time()`. An event object is shared between the proposals of its block and the list of applied
-- events, and `apply_slashing` writes to it: the objects stand in the state, and a reference is a
-- position there. Identifiers, times, evidence and descriptions of events are left out.
pub mod Attestations
pub mod Bans
pub mod Blame
pub mod Blocks
pub mod Penalties
pub mod Reputation
pub mod Rounds
mod Tests
use dessin.Prelude.{
  ℕ, zero, suc, Bool, true, false, not, ◌&&◌, ◌||◌, Option, none, some, List, [], ◌∷◌, ◌++◌, String,
  ◌==◌, if◌then◌else◌, length, get_elem?,
}
use dessin.Prelude.Int.{ℤ, pos, leb_ℤ, ltb_ℤ}
use dessin.Dict.{Dict, get, get_or, set, del, keep_values}
use dessin.Num.{Num, max_num}
use dessin.Economics.EconomicSystem.{EconomicSystem, Result, returned, key_error, get_staked_amount}
use dessin.Economics.EconomicSystem.Penalties.{process_slashing_penalty}

pub data SlashingReason : Type 0 where
  invalid_block double_signing negative_attestations : SlashingReason
  verification_failure malicious_behavior unavailability : SlashingReason

pub data SlashingSeverity : Type 0 where
  minor moderate major critical : SlashingSeverity

module _ (N : Num) where
  open N use {Carrier, nought, add, sub, mul, div, lt, le, of_int, dec}

  pub record SlashingPenalty : Type 0 where
    pub reason : SlashingReason
    pub severity : SlashingSeverity
    pub stake_penalty_percentage : Carrier
    pub ban_duration_seconds : ℤ
    pub reputation_penalty : Carrier
    pub economic_penalty : Carrier

  pub record SlashingEvent : Type 0 where
    pub block_index : ℤ
    pub block_hash : String
    pub slashed_address : String
    pub reason : SlashingReason
    pub severity : SlashingSeverity
    pub amount_slashed : Carrier
    pub stake_before : Carrier
    pub stake_after : Carrier
    pub ban_duration_seconds : ℤ
    pub reporter : String

  pub record SlashingMechanism : Type 0 where
    pub economic_system : EconomicSystem N
    pub slashing_threshold : Carrier
    pub slashing_events : List ℕ
    pub banned_addresses : Dict Carrier
    pub reputation_scores : Dict Carrier
    pub slashing_proposals : Dict (List ℕ)
    pub events : List SlashingEvent

  abbrev pub new_mechanism : (slashing_threshold : Carrier) → EconomicSystem N → SlashingMechanism
  new_mechanism slashing_threshold economic_system = record {
    economic_system = economic_system;
    slashing_threshold = slashing_threshold;
    slashing_events = [];
    banned_addresses = [];
    reputation_scores = [];
    slashing_proposals = [];
    events = [];
  }

  -- `_initialize_penalties`: every reason has its entry.
  unfoldable pub penalties : SlashingReason → SlashingPenalty
  penalties invalid_block = record {
    reason = invalid_block;
    severity = major;
    stake_penalty_percentage = dec 20 2;
    ban_duration_seconds = pos 3600;
    reputation_penalty = dec 50 0;
    economic_penalty = dec 100 0;
  }
  penalties double_signing = record {
    reason = double_signing;
    severity = critical;
    stake_penalty_percentage = dec 50 2;
    ban_duration_seconds = pos 86400;
    reputation_penalty = dec 100 0;
    economic_penalty = dec 500 0;
  }
  penalties negative_attestations = record {
    reason = negative_attestations;
    severity = moderate;
    stake_penalty_percentage = dec 10 2;
    ban_duration_seconds = pos 1800;
    reputation_penalty = dec 25 0;
    economic_penalty = dec 50 0;
  }
  penalties verification_failure = record {
    reason = verification_failure;
    severity = minor;
    stake_penalty_percentage = dec 5 2;
    ban_duration_seconds = pos 900;
    reputation_penalty = dec 10 0;
    economic_penalty = dec 25 0;
  }
  penalties malicious_behavior = record {
    reason = malicious_behavior;
    severity = major;
    stake_penalty_percentage = dec 30 2;
    ban_duration_seconds = pos 7200;
    reputation_penalty = dec 75 0;
    economic_penalty = dec 200 0;
  }
  penalties unavailability = record {
    reason = unavailability;
    severity = minor;
    stake_penalty_percentage = dec 2 2;
    ban_duration_seconds = pos 600;
    reputation_penalty = dec 5 0;
    economic_penalty = dec 10 0;
  }

module _ {N : Num} where
  open N use {Carrier, nought, add, sub, mul, div, lt, le, of_int, dec}

  unfoldable pub get_reputation_score : String → SlashingMechanism N → Carrier
  get_reputation_score address s = get_or address (dec 100 0) s.reputation_scores

  unfoldable pub update_reputation_score :
      String → Carrier → SlashingMechanism N → SlashingMechanism N
  unfolding get_reputation_score
  update_reputation_score address penalty s = record s {
    reputation_scores =
        set address (max_num N nought (sub (get_reputation_score address s) penalty))
          s.reputation_scores;
  }

  -- An expired ban is deleted.
  unfoldable pub is_address_banned :
      (now : Carrier) → String → SlashingMechanism N → Bool × SlashingMechanism N
  is_address_banned now address s = elim (get address s.banned_addresses) [
    | none ↦ (false, s)
    | some ban_end_time ↦
        if lt ban_end_time now
        then (false, record s { banned_addresses = del address s.banned_addresses })
        else (true, s)
  ]

  -- The object of a proposal.
  abbrev pub proposed :
      (block_hash slashed_address : String)
      → SlashingReason
      → (reporter : String) → SlashingMechanism N
      → SlashingEvent N
  proposed block_hash slashed_address reason reporter s =
      let penalty = penalties N reason in
      let current_stake = get_staked_amount slashed_address s.economic_system in
      let amount_slashed = mul current_stake penalty.stake_penalty_percentage in
      record {
        block_index = pos 0;
        block_hash = block_hash;
        slashed_address = slashed_address;
        reason = reason;
        severity = penalty.severity;
        amount_slashed = amount_slashed;
        stake_before = current_stake;
        stake_after = sub current_stake amount_slashed;
        ban_duration_seconds = penalty.ban_duration_seconds;
        reporter = reporter;
      }

  -- The new object stands in the list of its block.
  abbrev pub file_proposal : SlashingEvent N → SlashingMechanism N → Option ℕ × SlashingMechanism N
  file_proposal event s =
      let ref = length s.events in
      (
        some ref,
        record s {
          events = s.events ++ (event ∷ []);
          slashing_proposals =
              set event.block_hash (get_or event.block_hash [] s.slashing_proposals ++ (ref ∷ []))
                s.slashing_proposals;
        },
      )

  -- The reference of the new event; `none` is a refusal.
  unfoldable pub propose_slashing :
      (now : Carrier) (block_hash slashed_address : String)
      → SlashingReason
      → (reporter : String) → SlashingMechanism N
      → Option ℕ × SlashingMechanism N
  propose_slashing now block_hash slashed_address reason reporter s =
      let (banned, t) = is_address_banned now slashed_address s in
      if banned
      then (none, t)
      else if le (get_staked_amount slashed_address t.economic_system) nought
      then (none, t)
      else file_proposal (proposed block_hash slashed_address reason reporter t) t

  -- `event.block_index = block_index`
  abbrev pub write_block_index : ℕ → ℤ → List (SlashingEvent N) → List (SlashingEvent N)
  write_block_index ref block_index [] = []
  write_block_index zero block_index (e ∷ es) = record e { block_index = block_index } ∷ es
  write_block_index (suc ref) block_index (e ∷ es) = e ∷ write_block_index ref block_index es

  -- The rest of `apply_slashing` once the economic system has taken its penalty.
  unfoldable pub enforce :
      (now : Carrier) (ref : ℕ) → SlashingEvent N → SlashingMechanism N → Bool × SlashingMechanism N
  unfolding update_reputation_score
  enforce now ref event s =
      let banned = record s {
        banned_addresses =
            set event.slashed_address (add now (of_int event.ban_duration_seconds))
              s.banned_addresses;
      } in
      let scored =
        update_reputation_score event.slashed_address (penalties N event.reason).reputation_penalty
          banned in
      (true, record scored { slashing_events = scored.slashing_events ++ (ref ∷ []) })

  -- A raise is caught: what was written before it stays written.
  unfoldable pub conclude :
      (now : Carrier) (ref : ℕ)
      → SlashingEvent N
      → Result Bool
      → SlashingMechanism N
      → Bool × SlashingMechanism N
  conclude now ref event key_error s = (false, s)
  conclude now ref event (returned false) s = (false, s)
  conclude now ref event (returned true) s = enforce now ref event s

  -- The economic system's answer, and the state that `process_slashing_penalty` leaves.
  unfoldable pub penalize :
      (ref : ℕ)
      → SlashingEvent N
      → (block_index : ℤ) → SlashingMechanism N
      → Result Bool × SlashingMechanism N
  penalize ref event block_index s =
      let (result, economy) =
        process_slashing_penalty N event.slashed_address event.amount_slashed event.block_hash
          block_index s.economic_system in
      (
        result,
        record s { events = write_block_index ref block_index s.events; economic_system = economy },
      )

  unfoldable pub apply_slashing :
      (now : Carrier) (ref : ℕ) (block_index : ℤ) → SlashingMechanism N → Bool × SlashingMechanism N
  apply_slashing now ref block_index s = elim (get_elem? s.events ref) [
    | none ↦ (false, s)
    | some event ↦
        let (result, t) = penalize ref event block_index s in conclude now ref event result t
  ]

  unfoldable pub cleanup_expired_bans : (now : Carrier) → SlashingMechanism N → SlashingMechanism N
  cleanup_expired_bans now s = record s {
    banned_addresses = keep_values (λ ban_end_time. not (lt ban_end_time now)) s.banned_addresses;
  }
