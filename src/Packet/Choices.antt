-- ===== src/Packet/Choices.antt =====
-- src/sculk/protocol/codec: packets whose layout depends on their data.
use beprotocol.Common.{
  ℕ, ◌<◌, ◌^◌, ◌≡◌, refl, List, length, All, Bool, true, false, [], ◌∷◌, arith, ap, sym, subst,
}
use beprotocol.Stream.{Reader, Writer, pure, ◌>>=◌, ◌>>◌}
use beprotocol.Stream.RoundTrip.{RoundTrips, RoundTrips-bind, RoundTrips-last, RoundTrips-pure}
use beprotocol.Stream.Fixed.{write_byte, read_byte, write_bool, read_bool}
use beprotocol.Stream.Fixed.RoundTrip.{RoundTrips-byte, RoundTrips-bool}
use beprotocol.Stream.VarInt.{
  write_unsigned_var_int, read_unsigned_var_int, write_var_int, read_var_int,
}
use beprotocol.Stream.VarInt.RoundTrip.{RoundTrips-var_int}
use beprotocol.Stream.Text.{write_string, read_string, RoundTrips-string}
use beprotocol.Stream.Containers.{
  uint8, int32, uint32, write_enum, read_enum, write_array, read_array, write_variant, read_variant,
  emplace_variant,
}
use beprotocol.Stream.Containers.RoundTrip.{
  RoundTrips-enum, RoundTrips-same_enum, RoundTrips-var_int_array, RoundTrips-variant,
  CastsBack-uint8-int32, static_cast-uint8-int32-lt,
}
use beprotocol.Packet.Fits.{FitsText, IsBits}

-- `DisconnectPacket`: the texts are there unless they are skipped.
pub record DisconnectPacket : Type 0 where
  pub reason : ℕ
  pub skip_message : Bool
  pub message : List ℕ
  pub filtered_message : List ℕ

-- The part under `if (!mSkipMessage)`.
unfoldable pub write_disconnect_texts : Bool → DisconnectPacket → Writer
write_disconnect_texts true p buffer = buffer
write_disconnect_texts false p buffer =
    write_string p.filtered_message (write_string p.message buffer)

unfoldable pub write_disconnect_packet : DisconnectPacket → Writer
write_disconnect_packet p = do
  write_enum uint8 int32 write_var_int p.reason
  write_bool p.skip_message
  write_disconnect_texts p.skip_message p

-- What is skipped stays as the constructor left it.
unfoldable pub read_disconnect_texts : ℕ → Bool → Reader DisconnectPacket
read_disconnect_texts reason true =
    pure (record { reason = reason; skip_message = true; message = []; filtered_message = [] })
read_disconnect_texts reason false = do
  message ← read_string
  filtered_message ← read_string
  pure (record {
    reason = reason;
    skip_message = false;
    message = message;
    filtered_message = filtered_message;
  })

unfoldable pub read_disconnect_packet : Reader DisconnectPacket
read_disconnect_packet = do
  reason ← read_enum uint8 int32 read_var_int
  skip_message ← read_bool
  read_disconnect_texts reason skip_message

-- Texts that are skipped are lost.
pub record FitsDisconnectPacket (p : DisconnectPacket) : Type 0 where
  pub reason_fits : IsBits 8 p.reason
  pub message_fits : FitsText p.message
  pub filtered_message_fits : FitsText p.filtered_message
  pub skipped : p.skip_message ≡ true → (p.message ≡ []) × (p.filtered_message ≡ [])

RoundTrips-disconnect_texts :
    (skip : Bool) (p : DisconnectPacket)
    → p.skip_message ≡ skip
    → FitsDisconnectPacket p
    → RoundTrips (write_disconnect_texts skip p) (read_disconnect_texts p.reason skip) p
unfolding write_disconnect_texts read_disconnect_texts ◌>>◌
RoundTrips-disconnect_texts true p e h =
    subst (λ (q : DisconnectPacket). RoundTrips (λ buffer. buffer) (pure silent) q) whole
      (RoundTrips-pure silent)
  where
    silent : DisconnectPacket
    silent = record { reason = p.reason; skip_message = true; message = []; filtered_message = [] }

    whole : silent ≡ p
    whole = λ i. record {
      reason = p.reason;
      skip_message = sym e i;
      message = sym (h.skipped e).0 i;
      filtered_message = sym (h.skipped e).1 i;
    }
RoundTrips-disconnect_texts false p e h =
    RoundTrips-bind (write_string p.message) (write_string p.filtered_message) _ _
      (RoundTrips-string p.message h.message_fits)
      (RoundTrips-last _ _ _ (RoundTrips-string p.filtered_message h.filtered_message_fits)
        (ap pure whole))
  where
    whole :
        record {
          reason = p.reason;
          skip_message = false;
          message = p.message;
          filtered_message = p.filtered_message;
        }
        ≡ p
    whole = λ i. record {
      reason = p.reason;
      skip_message = sym e i;
      message = p.message;
      filtered_message = p.filtered_message;
    }

pub RoundTrips-disconnect_packet :
    (p : DisconnectPacket)
    → FitsDisconnectPacket p
    → RoundTrips (write_disconnect_packet p) read_disconnect_packet p
unfolding write_disconnect_packet read_disconnect_packet
RoundTrips-disconnect_packet p h =
    RoundTrips-bind _ _ _ _
      (RoundTrips-enum uint8 int32 _ _ p.reason (CastsBack-uint8-int32 p.reason h.reason_fits)
        (RoundTrips-var_int _ (static_cast-uint8-int32-lt p.reason h.reason_fits)))
      (RoundTrips-bind _ _ _ _ (RoundTrips-bool p.skip_message)
        (RoundTrips-disconnect_texts p.skip_message p refl h))

-- `TextPacket::TextBodyVariant`.
pub data TextBody : Type 0 where
  message_only : List ℕ → TextBody
  author_and_message : List ℕ → List ℕ → TextBody
  message_and_params : List ℕ → List (List ℕ) → TextBody

pub record TextPacket : Type 0 where
  pub localize : Bool
  pub kind : ℕ
  pub body : TextBody
  pub xuid : List ℕ
  pub platform_id : List ℕ
  pub filtered_message : List ℕ

unfoldable pub text_body_index : TextBody → ℕ
text_body_index (message_only message) = 0
text_body_index (author_and_message player_name message) = 1
text_body_index (message_and_params message parameters) = 2

-- The visitor of `TextPacket::write`, which writes the type of the text too.
unfoldable pub visit_text_body : ℕ → TextBody → Writer
visit_text_body kind (message_only message) =
    write_enum uint8 uint8 write_byte kind >> write_string message
visit_text_body kind (author_and_message player_name message) =
    write_enum uint8 uint8 write_byte kind >> (write_string player_name >> write_string message)
visit_text_body kind (message_and_params message parameters) =
    write_enum uint8 uint8 write_byte kind
    >> (write_string message >> write_array uint32 write_unsigned_var_int write_string parameters)

unfoldable pub write_text_packet : TextPacket → Writer
write_text_packet p = do
  write_bool p.localize
  write_variant uint32 write_unsigned_var_int (text_body_index p.body)
      (visit_text_body p.kind p.body)
  write_string p.xuid
  write_string p.platform_id
  write_string p.filtered_message

unfoldable pub read_message_only : Reader (ℕ × TextBody)
read_message_only = do
  kind ← read_enum uint8 uint8 read_byte
  message ← read_string
  pure (kind, message_only message)

unfoldable pub read_author_and_message : Reader (ℕ × TextBody)
read_author_and_message = do
  kind ← read_enum uint8 uint8 read_byte
  player_name ← read_string
  message ← read_string
  pure (kind, author_and_message player_name message)

unfoldable pub read_message_and_params : Reader (ℕ × TextBody)
read_message_and_params = do
  kind ← read_enum uint8 uint8 read_byte
  message ← read_string
  parameters ← read_array uint32 read_unsigned_var_int read_string
  pure (kind, message_and_params message parameters)

unfoldable pub read_text_packet : Reader TextPacket
read_text_packet = do
  localize ← read_bool
  typed ←
      read_variant uint32 read_unsigned_var_int
        (read_message_only ∷ (read_author_and_message ∷ (read_message_and_params ∷ [])))
  xuid ← read_string
  platform_id ← read_string
  filtered_message ← read_string
  pure (record {
    localize = localize;
    kind = typed.0;
    body = typed.1;
    xuid = xuid;
    platform_id = platform_id;
    filtered_message = filtered_message;
  })

abbrev pub FitsTextBody : TextBody → Type 0
FitsTextBody (message_only message) = FitsText message
FitsTextBody (author_and_message player_name message) = FitsText player_name × FitsText message
FitsTextBody (message_and_params message parameters) =
    FitsText message × ((length parameters < 2 ^ 32) × All FitsText parameters)

pub record FitsTextPacket (p : TextPacket) : Type 0 where
  pub kind_fits : IsBits 8 p.kind
  pub body_fits : FitsTextBody p.body
  pub xuid_fits : FitsText p.xuid
  pub platform_id_fits : FitsText p.platform_id
  pub filtered_message_fits : FitsText p.filtered_message

RoundTrips-text_body :
    (kind : ℕ) (body : TextBody)
    → IsBits 8 kind
    → FitsTextBody body
    → RoundTrips
        (write_variant uint32 write_unsigned_var_int
          (text_body_index body)
          (visit_text_body kind body))
        (read_variant uint32 read_unsigned_var_int
          (read_message_only ∷ (read_author_and_message ∷ (read_message_and_params ∷ []))))
        (kind, body)
unfolding text_body_index visit_text_body emplace_variant read_message_only read_author_and_message
    read_message_and_params
RoundTrips-text_body kind (message_only message) hk h = RoundTrips-variant _ 0 _ _ (omega arith) (
    RoundTrips-bind _ _ _ _ (RoundTrips-same_enum uint8 _ _ kind hk (RoundTrips-byte kind hk))
      (RoundTrips-last _ _ _ (RoundTrips-string message h) refl))
RoundTrips-text_body kind (author_and_message player_name message) hk h =
    RoundTrips-variant _ 1 _ _ (omega arith) (
      RoundTrips-bind _ _ _ _ (RoundTrips-same_enum uint8 _ _ kind hk (RoundTrips-byte kind hk)) (
        RoundTrips-bind _ _ _ _ (RoundTrips-string player_name h.0)
          (RoundTrips-last _ _ _ (RoundTrips-string message h.1) refl)))
RoundTrips-text_body kind (message_and_params message parameters) hk h =
    RoundTrips-variant _ 2 _ _ (omega arith) (
      RoundTrips-bind _ _ _ _ (RoundTrips-same_enum uint8 _ _ kind hk (RoundTrips-byte kind hk)) (
        RoundTrips-bind _ _ _ _ (RoundTrips-string message h.0) (
          RoundTrips-last _ _ _
            (RoundTrips-var_int_array FitsText _ _ RoundTrips-string parameters h.1) refl)))

pub RoundTrips-text_packet :
    (p : TextPacket) → FitsTextPacket p → RoundTrips (write_text_packet p) read_text_packet p
unfolding write_text_packet read_text_packet
RoundTrips-text_packet p h = RoundTrips-bind _ _ _ _ (RoundTrips-bool p.localize) (
    RoundTrips-bind _ _ _ _ (RoundTrips-text_body p.kind p.body h.kind_fits h.body_fits) (
      RoundTrips-bind _ _ _ _ (RoundTrips-string p.xuid h.xuid_fits) (
        RoundTrips-bind _ _ _ _ (RoundTrips-string p.platform_id h.platform_id_fits) (
          RoundTrips-last _ _ _ (RoundTrips-string p.filtered_message h.filtered_message_fits)
            refl))))
