-- ===== src/Connection/Ingress.antt =====
-- What a server does with a message of a client: `processSessionPacket` of
-- src/sculk/protocol/connection/ServerNetworkSystem.cpp. The callbacks of one client are functions of what varies in
-- their arguments; what happens outside the session is a list of effects in their order. The counter of tasks under
-- way, for which the server waits when it stops, is left out.
pub mod Limit
pub mod Delivery
pub mod Refusal
use beprotocol.Common.{
  ℕ, suc, ◌+◌, ◌-◌, ◌^◌, List, [], ◌∷◌, ◌++◌, Bool, true, false, Option, none, some, ◌||◌, ◌&&◌,
  not, length, ltb, leb, ◌==◌, if◌then◌else◌,
}
use beprotocol.Stream.{Outcome, ReadOnlyBinaryStream}
use beprotocol.Stream.Fixed.{open_stream}
use beprotocol.Packet.Dispatch.{
  PacketClass, IPacket, PacketHeader, read_packet_header, read_and_create_packet_from_header,
}
use beprotocol.Connection.Envelope.{Libraries, Session, deserialize_batch_packets}
use Prim.Native.String.{String}

pub record Limits : Type 0 where
  pub max_packet_bytes : ℕ
  pub max_packets_per_second : ℕ

-- `mRawIngressWindowStart`, in nanoseconds, and `mRawIngressWindowPackets`.
pub record Window : Type 0 where
  pub start : ℕ
  pub packets : ℕ

-- `RAW_INGRESS_WINDOW`, a second.
abbrev pub raw_ingress_window : ℕ
raw_ingress_window = 1000000000

-- A clock that has gone back gives a negative difference, which is below the window, as 0 is.
unfoldable pub renew_window : ℕ → Window → Window
renew_window now w =
    if w.start == 0 || leb raw_ingress_window (now - w.start)
    then record { start = now; packets = 0 }
    else w

-- Whether one more message is taken, with the window after it.
unfoldable pub admit : Limits → ℕ → Window → Bool × Window
admit limits now w =
    let v = renew_window now w in
    if leb limits.max_packets_per_second v.packets
    then (false, v)
    else (true, record v { packets = v.packets + 1 })

-- `CallbackSet`, for one client: whether a callback is set, and what it answers.
pub record CallbackSet : Type 0 where
  pub on_disconnected : Bool
  pub on_packet_receive : Bool
  pub on_packet_parse_failed : Bool
  pub on_raw_packet_receive : Option (List ℕ → Bool)
  pub on_raw_ingress_limit_exceeded : Option (ℕ → ℕ → Bool)

-- Whose context the map has under the client's key.
pub data Holder : Type 0 where
  itself : Holder
  another : Holder
  nobody : Holder

-- A call of a callback, the command that takes the client out of the flush schedule, a session that is disconnected,
-- a message that is queued for the session, or the end of the process by an exception in a `noexcept` function.
pub data Effect : Type 1 where
  limit_exceeded : ℕ → ℕ → Effect
  cancels_flush : Effect
  disconnects : Holder → Effect
  disconnected : Effect
  raw_received : List ℕ → Effect
  received : IPacket → Effect
  parse_failed : ℕ → String → Effect
  inbound : List ℕ → Effect
  terminated : Effect

-- `if (mOnRawIngressLimitExceeded) shouldDisconnect = ...`, with `true` where it is not set.
unfoldable pub should_disconnect : CallbackSet → ℕ → ℕ → Bool
should_disconnect callbacks bytes count = elim callbacks.on_raw_ingress_limit_exceeded [
  | none ↦ true
  | some f ↦ f bytes count
]

unfoldable pub limit_call : CallbackSet → ℕ → ℕ → List Effect
limit_call callbacks bytes count = elim callbacks.on_raw_ingress_limit_exceeded [
  | none ↦ []
  | some f ↦ Effect.limit_exceeded bytes count ∷ []
]

-- The session that the map held, or the message's own if there was none.
unfoldable pub held_session : Holder → Holder
held_session Holder.itself = Holder.itself
held_session Holder.another = Holder.another
held_session Holder.nobody = Holder.itself

unfoldable pub is_held : Holder → Bool
is_held Holder.itself = true
is_held Holder.another = true
is_held Holder.nobody = false

-- `removeSessionContext`, which first cancels the flush, and the disconnection of the session.
unfoldable pub remove_session : Holder → List Effect
remove_session holder = Effect.cancels_flush ∷ (Effect.disconnects (held_session holder) ∷ [])

module _ (registry : ℕ → Option PacketClass) where
  unfoldable pub failed : CallbackSet → ℕ → String → List Effect
  failed callbacks id message =
      if callbacks.on_packet_parse_failed then Effect.parse_failed id message ∷ [] else []

  unfoldable pub deliver_created : CallbackSet → ℕ → Outcome IPacket → List Effect
  deliver_created callbacks id (Outcome.ok p) = Effect.received p ∷ []
  deliver_created callbacks id (Outcome.err message) = failed callbacks id message
  deliver_created callbacks id Outcome.fault = Effect.terminated ∷ []

  -- The id of an unreadable header is `-1`, in 16 bits.
  unfoldable pub deliver_parsed :
      CallbackSet → Outcome PacketHeader × ReadOnlyBinaryStream → List Effect
  deliver_parsed callbacks (Outcome.ok header, stream) =
      deliver_created callbacks header.packet_id
        (read_and_create_packet_from_header registry header stream).0
  deliver_parsed callbacks (Outcome.err message, stream) =
      failed callbacks 0xffff "Failed to read packet header"
  deliver_parsed callbacks (Outcome.fault, stream) = Effect.terminated ∷ []

  unfoldable pub deliver_packet : CallbackSet → List ℕ → List Effect
  deliver_packet callbacks payload =
      deliver_parsed callbacks (read_packet_header (open_stream payload))

  -- One round of the loop over the packets of a batch.
  unfoldable pub deliver_payload : CallbackSet → List ℕ → List Effect
  deliver_payload callbacks payload =
      if callbacks.on_packet_receive
      then elim callbacks.on_raw_packet_receive [
        | none ↦ deliver_packet callbacks payload
        | some f ↦
            Effect.raw_received payload
            ∷ (if f payload then deliver_packet callbacks payload else [])
      ]
      else Effect.inbound payload ∷ []

  unfoldable pub deliver_payloads : CallbackSet → List (List ℕ) → List Effect
  deliver_payloads callbacks [] = []
  deliver_payloads callbacks (payload ∷ payloads) =
      deliver_payload callbacks payload ++ deliver_payloads callbacks payloads

  unfoldable pub deliver_batch : CallbackSet → Outcome (List (List ℕ)) → List Effect
  deliver_batch callbacks (Outcome.ok payloads) = deliver_payloads callbacks payloads
  deliver_batch callbacks (Outcome.err message) = []
  deliver_batch callbacks Outcome.fault = Effect.terminated ∷ []

  -- `ID_DISCONNECTION_NOTIFICATION` and `ID_CONNECTION_LOST` of RakNet.
  module _ (libs : Libraries) (notification lost : ℕ) where
    -- `SessionContext`, and whose context the map has.
    pub record Context : Type 0 where
      pub session : Session libs
      pub window : Window
      pub holder : Holder

    -- `removeSessionContext` and the disconnection of the session, if the limit is to have this effect.
    unfoldable pub refuse : CallbackSet → ℕ → Context → List Effect × Context
    refuse callbacks bytes c =
        let calls = limit_call callbacks bytes c.window.packets in
        if should_disconnect callbacks bytes c.window.packets
        then (calls ++ remove_session c.holder, record c { holder = Holder.nobody })
        else (calls, c)

    unfoldable pub leave : CallbackSet → Context → List Effect × Context
    leave callbacks c = (
      remove_session c.holder
          ++ (if callbacks.on_disconnected && is_held c.holder
              then Effect.disconnected ∷ []
              else []),
      record c { holder = Holder.nobody },
    )

    -- A message that is taken.
    unfoldable pub process_taken : CallbackSet → ℕ → List ℕ → Context → List Effect × Context
    process_taken callbacks message_id payload c =
        let opened = deserialize_batch_packets libs c.session payload in
        if message_id == notification || message_id == lost
        then leave callbacks c
        else if not (message_id == 0xfe) || leb (suc (length payload)) 1
        then ([], c)
        else (deliver_batch callbacks opened.0, record c { session = opened.1 })

    -- `processSessionPacket`, on a message with its first byte and the rest.
    unfoldable pub process_session_packet :
        Limits → CallbackSet → ℕ → ℕ → List ℕ → Context → List Effect × Context
    process_session_packet limits callbacks now message_id payload c =
        let bytes = suc (length payload) in
        let admitted = admit limits now c.window in
        let counted : Context = record c { window = admitted.1 } in
        if ltb limits.max_packet_bytes bytes
        then refuse callbacks bytes c
        else if admitted.0
        then process_taken callbacks message_id payload counted
        else refuse callbacks bytes counted
