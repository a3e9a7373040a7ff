-- ===== src/Consensus/SlashingMechanism/Bans.antt =====
-- dessin/consensus/slashing_mechanism.py: how long a ban lasts.
use dessin.Prelude.{
  ◌≡◌, refl, Bool, true, false, not, Option, none, some, String, arith, ℕ, get_elem?,
}
use dessin.Prelude.Int.{ℤ}
use dessin.Dict.{get, get-set_self, IsDistinct, kept, get-keep_values}
use dessin.Num.{Num, IsOrdered}
use dessin.Economics.EconomicSystem.{Result, returned, key_error}
use dessin.Consensus.SlashingMechanism.{
  SlashingMechanism, SlashingEvent, is_address_banned, apply_slashing, enforce,
  cleanup_expired_bans, conclude, penalize,
}

-- What a ban that ends at `ban` says at `now`.
abbrev pub active : (N : Num) (now : N.Carrier) → Option N.Carrier → Bool
active N now none = false
active N now (some ban) = not (N.lt ban now)

module _ {N : Num} where
  pub is_address_banned-active :
      (now : N.Carrier) (a : String) (s : SlashingMechanism N)
      → (is_address_banned now a s).0 ≡ active N now (get a s.banned_addresses)
  unfolding is_address_banned
  is_address_banned-active now a s = ground arith

  enforce-ban :
      (now : N.Carrier) (r : ℕ) (e : SlashingEvent N) (s : SlashingMechanism N)
      → get e.slashed_address (enforce now r e s).1.banned_addresses
        ≡ some (N.add now (N.of_int e.ban_duration_seconds))
  unfolding enforce
  enforce-ban now r e s = get-set_self e.slashed_address _ s.banned_addresses

  conclude-enforce :
      (now : N.Carrier) (r : ℕ) (e : SlashingEvent N) (result : Result Bool)
      (s : SlashingMechanism N)
      → (conclude now r e result s).0 ≡ true
      → conclude now r e result s ≡ enforce now r e s
  unfolding conclude
  conclude-enforce now r e key_error s done = cc
  conclude-enforce now r e (returned false) s done = cc
  conclude-enforce now r e (returned true) s done = refl

  pub apply_slashing-conclude :
      (now : N.Carrier) (r : ℕ) (b : ℤ) (e : SlashingEvent N) (s : SlashingMechanism N)
      → get_elem? s.events r ≡ some e
      → apply_slashing now r b s ≡ conclude now r e (penalize r e b s).0 (penalize r e b s).1
  unfolding apply_slashing
  apply_slashing-conclude now r b e s found = rw (found, apply_slashing) refl

  -- A penalty that is applied bans the address for its duration: at any time it is banned exactly until
  -- the time of the penalty plus the duration.
  pub is_address_banned-apply_slashing :
      (now later : N.Carrier) (r : ℕ) (b : ℤ) (e : SlashingEvent N) (s : SlashingMechanism N)
      → get_elem? s.events r ≡ some e
      → (apply_slashing now r b s).0 ≡ true
      → (is_address_banned later e.slashed_address (apply_slashing now r b s).1).0
        ≡ not (N.lt (N.add now (N.of_int e.ban_duration_seconds)) later)
  is_address_banned-apply_slashing now later r b e s found done =
      let (result, t) = penalize r e b s in
      let concluded = apply_slashing-conclude now r b e s found in
      let enforced = conclude-enforce now r e result t (rw concluded at done) in
      rw
        (
          concluded,
          enforced,
          is_address_banned-active later e.slashed_address (enforce now r e t).1,
          enforce-ban now r e t,
        )
        refl

  -- Deleting the expired bans changes no later answer.
  pub is_address_banned-cleanup_expired_bans :
      (o : IsOrdered N) (now later : N.Carrier) (a : String) (s : SlashingMechanism N)
      → IsDistinct s.banned_addresses
      → N.le now later ≡ true
      → (is_address_banned later a (cleanup_expired_bans now s)).0 ≡ (is_address_banned later a s).0
  unfolding cleanup_expired_bans
  is_address_banned-cleanup_expired_bans o now later a s distinct after =
      let swept = get-keep_values (λ x. not (N.lt x now)) a s.banned_addresses distinct in
      rw
        (
          is_address_banned-active later a s,
          is_address_banned-active later a (cleanup_expired_bans now s),
          swept,
        )
        (same (get a s.banned_addresses))
    where
      same :
          (ban : Option N.Carrier)
          → active N later (kept (λ x. not (N.lt x now)) ban) ≡ active N later ban
      same none = refl
      same (some x) =
          ground
            (arith, o.lt-eq-not-le x now, o.lt-eq-not-le x later, o.le_trans now later x, after)
