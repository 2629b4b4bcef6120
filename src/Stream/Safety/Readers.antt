-- ===== src/Stream/Safety/Readers.antt =====
-- What the reads of ReadOnlyBinaryStream.hpp (include/sculk/protocol/utility) do to the stream on any bytes.
use beprotocol.Stream.{ReadOnlyBinaryStream}
use beprotocol.Stream.VarInt.{read_unsigned_var_int64}
use beprotocol.Stream.Text.{read_string}
use beprotocol.Stream.Safety.{InBounds, Moves}
use beprotocol.Stream.Safety.Words.{IsSafe-unsigned_var_int64, IsSafe-string}

-- On a stream whose pointer is inside its buffer of less than `2 ^ 64` bytes, whatever the bytes are,
-- `readUnsignedVarInt64` keeps the buffer, does not move the pointer back or past the end, and leaves the
-- overflow flag set if it was.
pub read_unsigned_var_int64-Moves :
    (s : ReadOnlyBinaryStream) → InBounds s → Moves s (read_unsigned_var_int64 s).1
read_unsigned_var_int64-Moves = IsSafe-unsigned_var_int64.moves

-- On a stream whose pointer is inside its buffer of less than `2 ^ 64` bytes, whatever the bytes are,
-- `readString` keeps the buffer, does not move the pointer back or past the end, and leaves the overflow
-- flag set if it was.
pub read_string-Moves : (s : ReadOnlyBinaryStream) → InBounds s → Moves s (read_string s).1
read_string-Moves = IsSafe-string.moves
