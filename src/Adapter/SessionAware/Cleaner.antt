-- ===== src/Adapter/SessionAware/Cleaner.antt =====
-- What a round of the cleaner leaves.
use Prim.Native.String.{String}
use socket_io.Base.{
  ℕ, ◌+◌, ◌≤◌, ◌<◌, ◌≡◌, refl, ap, ◌∙◌, arith, false, Option, none, some, List, [], ◌∷◌, ◌++◌,
  Bool-cases, inl, inr, All, if◌then◌else◌,
}
use socket_io.Base.Maps.{StringMap, lookup, lookup-delete, str_eq}
use socket_io.Adapter.Sets.{Sets}
use socket_io.Adapter.SessionAware.{
  PersistedPacket, SessionWithTimestamp, SessionAwareAdapter, PrivateSessionId, has_expired,
  packet_has_expired, clean_sessions, remove_last, clean_packets, clean, after_offset,
  restore_found, restore_session,
}

module _ {Set V : Type 0} where
  -- What a round keeps of a session.
  abbrev pub unexpired :
      ℕ → ℕ → Option (SessionWithTimestamp Set V) → Option (SessionWithTimestamp Set V)
  unexpired now max none = none
  unexpired now max (some s) = if has_expired now max s then none else some s

  lookup-clean_sessions :
      (now max : ℕ) (pid : PrivateSessionId) (sessions : StringMap (SessionWithTimestamp Set V))
      → lookup pid (clean_sessions now max sessions) ≡ unexpired now max (lookup pid sessions)
  unfolding clean_sessions lookup
  lookup-clean_sessions now max pid [] = refl
  lookup-clean_sessions now max pid ((key, s) ∷ sessions) =
      elim (Bool-cases (has_expired now max s)) [
        | inl e ↦ rw e (
            lookup-delete key pid (clean_sessions now max sessions)
            ∙ elim (Bool-cases (str_eq key pid)) [
              | inl q ↦ rw (q, e)
              | inr q ↦ rw q (lookup-clean_sessions now max pid sessions)
            ])
        | inr e ↦ rw e (elim (Bool-cases (str_eq key pid)) [
          | inl q ↦ rw (q, e)
          | inr q ↦ rw q (lookup-clean_sessions now max pid sessions)
        ])
      ]

  -- A packet that the clock has not reached yet, by its duration.
  abbrev pub Fresh : ℕ → ℕ → PersistedPacket Set V → Type 0
  Fresh now max p = now < p.emitted_at + max

  abbrev pub Stale : ℕ → ℕ → PersistedPacket Set V → Type 0
  Stale now max p = p.emitted_at + max ≤ now

  remove_last-Stale :
      (now max : ℕ) (packets : List (PersistedPacket Set V))
      → All (Stale now max) packets
      → remove_last now max packets ≡ none
  unfolding remove_last packet_has_expired
  remove_last-Stale now max [] h = refl
  remove_last-Stale now max (p ∷ packets) h =
      rw (remove_last-Stale now max packets h.1) (ground arith)

  remove_last-last :
      (now max : ℕ) (packets : List (PersistedPacket Set V)) (p : PersistedPacket Set V)
      (stale : List (PersistedPacket Set V))
      → Fresh now max p
      → All (Stale now max) stale
      → remove_last now max (packets ++ (p ∷ stale)) ≡ some (packets ++ stale)
  unfolding remove_last packet_has_expired
  remove_last-last now max [] p stale f h = rw (remove_last-Stale now max stale h) (ground arith)
  remove_last-last now max (q ∷ packets) p stale f h =
      rw (remove_last-last now max packets p stale f h)

  -- A round of the cleaner keeps every packet that is older than the duration of sessions, and where
  -- a younger one is there it takes out the last of these: the test of a packet's age is the wrong
  -- way round.
  pub clean-packets :
      (now : ℕ) (a : SessionAwareAdapter Set V) (packets : List (PersistedPacket Set V))
      (p : PersistedPacket Set V) (stale : List (PersistedPacket Set V))
      → a.packets ≡ packets ++ (p ∷ stale)
      → Fresh now a.max_disconnect_duration p
      → All (Stale now a.max_disconnect_duration) stale
      → (clean now a).packets ≡ packets ++ stale
  unfolding clean clean_packets
  clean-packets now a packets p stale e f h =
      rw (e, remove_last-last now a.max_disconnect_duration packets p stale f h, clean_packets)

  pub clean-packets-Stale :
      (now : ℕ) (a : SessionAwareAdapter Set V)
      → All (Stale now a.max_disconnect_duration) a.packets
      → (clean now a).packets ≡ a.packets
  unfolding clean clean_packets
  clean-packets-Stale now a h =
      rw (remove_last-Stale now a.max_disconnect_duration a.packets h, clean_packets)

  -- A session is known after a round of the cleaner if it was before and has not expired.
  pub lookup-clean :
      (now : ℕ) (pid : PrivateSessionId) (a : SessionAwareAdapter Set V)
      → lookup pid (clean now a).sessions
        ≡ unexpired now a.max_disconnect_duration (lookup pid a.sessions)
  unfolding clean
  lookup-clean now pid a = lookup-clean_sessions now a.max_disconnect_duration pid a.sessions

  -- No packet of the list has the id.
  abbrev pub Unknown : String → List (PersistedPacket Set V) → Type 0
  Unknown offset = All (λ p. str_eq p.id offset ≡ false)

  after_offset-Unknown :
      (offset : String) (packets : List (PersistedPacket Set V))
      → Unknown offset packets
      → after_offset offset packets ≡ none
  unfolding after_offset
  after_offset-Unknown offset [] u = refl
  after_offset-Unknown offset (p ∷ packets) u = rw u.0 (after_offset-Unknown offset packets u.1)

module _ (S : Sets) {V : Type 0} where
  open S use {Set}

  restore_found-Unknown :
      (now : ℕ) (pid : PrivateSessionId) (offset : String) (a : SessionAwareAdapter Set V)
      (o : Option (SessionWithTimestamp Set V))
      → lookup pid a.sessions ≡ o
      → after_offset offset a.packets ≡ none
      → (restore_session S now pid offset a).0 ≡ none
  unfolding restore_session restore_found
  restore_found-Unknown now pid offset a none e u = rw (e, restore_session)
  restore_found-Unknown now pid offset a (some s) e u =
      rw (e, restore_session, restore_found)
        (elim (Bool-cases (has_expired now a.max_disconnect_duration s)) [
          | inl q ↦ rw q
          | inr q ↦ rw (q, u)
        ])

  -- After a round of the cleaner no session can be restored, at any time and whatever its age, from an
  -- offset that was the last packet younger than the duration of sessions.
  pub restore_session-clean_lost :
      (now later : ℕ) (pid : PrivateSessionId) (a : SessionAwareAdapter Set V)
      (packets : List (PersistedPacket Set V)) (p : PersistedPacket Set V)
      (stale : List (PersistedPacket Set V))
      → a.packets ≡ packets ++ (p ∷ stale)
      → Fresh now a.max_disconnect_duration p
      → All (Stale now a.max_disconnect_duration) stale
      → Unknown p.id (packets ++ stale)
      → (restore_session S later pid p.id (clean now a)).0 ≡ none
  restore_session-clean_lost now later pid a packets p stale e f h u =
      restore_found-Unknown later pid p.id (clean now a) _ refl (
        ap (after_offset p.id) (clean-packets now a packets p stale e f h)
        ∙ after_offset-Unknown p.id (packets ++ stale) u)
