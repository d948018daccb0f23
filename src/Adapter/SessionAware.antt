-- ===== src/Adapter/SessionAware.antt =====
-- adapter/adapter_session_aware.go, with the session and packet types of adapter/adapter.go: sessions
-- that can be restored, and the packets that they may have missed. A time is a number of nanoseconds,
-- and each call gets the clock's as `now`. The values of a packet are those of a type `V`; the ids come
-- from the package yeast, and each broadcast gets its own.
pub mod Missed
pub mod Cleaner
pub mod Receivers
mod Tests
use Prim.Native.String.{String}
use socket_io.Base.{
  ℕ, ◌+◌, ◌≡◌, Bool, true, false, not, ◌&&◌, ◌||◌, Option, none, some, List, [], ◌∷◌, ◌++◌, ◌==◌,
  ltb, if◌then◌else◌,
}
use socket_io.Base.Maps.{StringMap, lookup, insert, delete, str_eq}
use socket_io.Parser.Header.{PacketType, event, PacketHeader}
use socket_io.Adapter.Sets.{Sets, Room, SocketId}
use socket_io.Adapter.Memory.{BroadcastOptions}

abbrev pub PrivateSessionId : Type 0
PrivateSessionId = String

pub record PersistedPacket (Set V : Type 0) : Type 0 where
  pub id : String
  pub emitted_at : ℕ
  pub opts : BroadcastOptions Set
  pub header : PacketHeader
  pub packet_data : List V

pub record SessionToPersist (Set V : Type 0) : Type 0 where
  pub sid : SocketId
  pub pid : PrivateSessionId
  pub rooms : List Room
  pub missed_packets : List (PersistedPacket Set V)

pub record SessionWithTimestamp (Set V : Type 0) : Type 0 where
  pub session : SessionToPersist Set V
  pub disconnected_at : ℕ

pub record SessionAwareAdapter (Set V : Type 0) : Type 0 where
  pub max_disconnect_duration : ℕ
  pub sessions : StringMap (SessionWithTimestamp Set V)
  pub packets : List (PersistedPacket Set V)

module _ {Set V : Type 0} where
  unfoldable pub new_session_aware_adapter : ℕ → SessionAwareAdapter Set V
  new_session_aware_adapter max = record {
    max_disconnect_duration = max;
    sessions = [];
    packets = [];
  }

  -- `hasExpired` of a session.
  unfoldable pub has_expired : ℕ → ℕ → SessionWithTimestamp Set V → Bool
  has_expired now max s = ltb (s.disconnected_at + max) now

  -- `HasExpired` of a packet.
  unfoldable pub packet_has_expired : ℕ → ℕ → PersistedPacket Set V → Bool
  packet_has_expired now max p = ltb now (p.emitted_at + max)

  pub clean_sessions :
      ℕ → ℕ → StringMap (SessionWithTimestamp Set V) → StringMap (SessionWithTimestamp Set V)
  clean_sessions now max [] = []
  clean_sessions now max ((pid, s) ∷ sessions) =
      let rest = clean_sessions now max sessions in
      if has_expired now max s then delete pid rest else (pid, s) ∷ rest

  -- The loop from the last packet down, which ends with its first removal: what is left, if anything
  -- was removed.
  pub remove_last : ℕ → ℕ → List (PersistedPacket Set V) → Option (List (PersistedPacket Set V))
  remove_last now max [] = none
  remove_last now max (p ∷ packets) = elim (remove_last now max packets) [
    | some rest ↦ some (p ∷ rest)
    | none ↦ if packet_has_expired now max p then some packets else none
  ]

  clean_packets : ℕ → ℕ → List (PersistedPacket Set V) → List (PersistedPacket Set V)
  unfolding remove_last
  clean_packets now max packets = elim (remove_last now max packets) [
    | none ↦ packets
    | some rest ↦ rest
  ]

  -- One round of `cleaner`.
  unfoldable pub clean : ℕ → SessionAwareAdapter Set V → SessionAwareAdapter Set V
  unfolding clean_sessions clean_packets
  clean now a = record a {
    sessions = clean_sessions now a.max_disconnect_duration a.sessions;
    packets = clean_packets now a.max_disconnect_duration a.packets;
  }

  unfoldable pub persist_session :
      ℕ → SessionToPersist Set V → SessionAwareAdapter Set V → SessionAwareAdapter Set V
  persist_session now session a = record a {
    sessions = insert session.pid (record { session = session; disconnected_at = now }) a.sessions;
  }

  -- The packets behind the first one with the given id.
  pub after_offset : String → List (PersistedPacket Set V) → Option (List (PersistedPacket Set V))
  after_offset offset [] = none
  after_offset offset (p ∷ packets) =
      if str_eq p.id offset then some packets else after_offset offset packets

abbrev pub Encoder : Type 0 → Type 0
Encoder V = PacketHeader → List V → PacketHeader × List V

module _ (S : Sets) where
  open S use {Set, contains, cardinality}

  -- One of the rooms is in the set.
  abbrev pub contains_any : Set → List Room → Bool
  contains_any s [] = false
  contains_any s (room ∷ rooms) = if contains room s then true else contains_any s rooms

  unfoldable pub should_include_packet : List Room → BroadcastOptions Set → Bool
  should_include_packet session_rooms opts =
      let included = cardinality opts.rooms == 0 || contains_any opts.rooms session_rooms in
      let not_excluded = not (contains_any opts.except session_rooms) in included && not_excluded

  module _ {V : Type 0} where
    pub included_packets : List Room → List (PersistedPacket Set V) → List (PersistedPacket Set V)
    unfolding should_include_packet
    included_packets rooms [] = []
    included_packets rooms (p ∷ packets) =
        let rest = included_packets rooms packets in
        if should_include_packet rooms p.opts then p ∷ rest else rest

    pub restore_found :
        ℕ
        → PrivateSessionId
        → String
        → SessionAwareAdapter Set V
        → SessionWithTimestamp Set V
        → Option (SessionToPersist Set V) × SessionAwareAdapter Set V
    unfolding included_packets has_expired after_offset
    restore_found now pid offset a s =
        if has_expired now a.max_disconnect_duration s
        then (none, record a { sessions = delete pid a.sessions })
        else elim (after_offset offset a.packets) [
          | none ↦ (none, a)
          | some packets ↦ (
            some (record s.session { missed_packets = included_packets s.session.rooms packets }),
            a,
          )
        ]

    unfoldable pub restore_session :
        ℕ
        → PrivateSessionId
        → String
        → SessionAwareAdapter Set V
        → Option (SessionToPersist Set V) × SessionAwareAdapter Set V
    unfolding restore_found
    restore_session now pid offset a = elim (lookup pid a.sessions) [
      | none ↦ (none, a)
      | some s ↦ restore_found now pid offset a s
    ]

  abbrev pub is_event_packet : PacketType → Bool
  is_event_packet event = true
  is_event_packet _ = false

  abbrev pub without_acknowledgement : Option ℕ → Bool
  without_acknowledgement none = true
  without_acknowledgement (some id) = false

  -- `Broadcast`, with what it passes on to the adapter in memory: an event without acknowledgement is
  -- kept, and sent with its id behind its values. The packet that is kept shares its header and its
  -- values with the one that is sent, and `encode` is what the encoder leaves of them there: an event
  -- with binary data has become a binary event, with placeholders in its values.
  module _ {V : Type 0} (text : String → V) (encode : Encoder V) where
    unfoldable pub broadcast :
        ℕ
        → String
        → PacketHeader
        → List V
        → BroadcastOptions Set
        → SessionAwareAdapter Set V
        → List V × SessionAwareAdapter Set V
    broadcast now id header v opts a =
        let (encoded_header, encoded) = encode header (v ++ (text id ∷ [])) in
        if is_event_packet header.type && without_acknowledgement header.id
        then (
          v ++ (text id ∷ []),
          record a {
            packets =
                a.packets
                ++ (record {
                  id = id;
                  emitted_at = now;
                  opts = opts;
                  header = encoded_header;
                  packet_data = encoded;
                }
                    ∷ []);
          },
        )
        else (v, a)
