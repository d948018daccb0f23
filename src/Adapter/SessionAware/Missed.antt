-- ===== src/Adapter/SessionAware/Missed.antt =====
-- What a client that comes back in time has missed.
use Prim.Native.String.{String}
use socket_io.Base.{ℕ, Bool, ◌&&◌, List, [], ◌∷◌, ◌++◌, if◌then◌else◌}
use socket_io.Parser.Header.{PacketHeader}
use socket_io.Adapter.Sets.{Sets}
use socket_io.Adapter.Memory.{BroadcastOptions}
use socket_io.Adapter.SessionAware.{
  PersistedPacket, SessionAwareAdapter, is_event_packet, without_acknowledgement, broadcast,
  Encoder,
}

-- A call of `Broadcast`.
pub record Emission (Set V : Type 0) : Type 0 where
  pub now : ℕ
  pub id : String
  pub header : PacketHeader
  pub v : List V
  pub opts : BroadcastOptions Set

module _ (S : Sets) {V : Type 0} (text : String → V) (encode : Encoder V) where
  open S use {Set}

  unfoldable pub broadcast_all :
      List (Emission Set V) → SessionAwareAdapter Set V → SessionAwareAdapter Set V
  broadcast_all [] a = a
  broadcast_all (m ∷ ms) a =
      broadcast_all ms (broadcast S text encode m.now m.id m.header m.v m.opts a).1

  -- The packets that are kept for those who come back: of the events without acknowledgement, as the
  -- encoder left them.
  abbrev pub kept : List (Emission Set V) → List (PersistedPacket Set V)
  kept [] = []
  kept (m ∷ ms) =
      let rest = kept ms in
      if is_event_packet S m.header.type && without_acknowledgement S m.header.id
      then record {
        id = m.id;
        emitted_at = m.now;
        opts = m.opts;
        header = (encode m.header (m.v ++ (text m.id ∷ []))).0;
        packet_data = (encode m.header (m.v ++ (text m.id ∷ []))).1;
      }
        ∷ rest
      else rest

  abbrev keeps : Emission Set V → Bool
  keeps m = is_event_packet S m.header.type && without_acknowledgement S m.header.id
