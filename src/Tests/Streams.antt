-- ===== src/Tests/Streams.antt =====
-- The theorems on streams at concrete inputs.
use beprotocol.Common.{
  ℕ, List, [], ◌∷◌, arith, length, ◌≡◌, ◌≤◌, ◌<◌, ◌+◌, ◌-◌, ◌^◌, refl, lt_wf, dec_lt,
}
use beprotocol.Stream.{ReadOnlyBinaryStream, ◌>>◌}
use beprotocol.Stream.RoundTrip.{ReadsBack, reading}
use beprotocol.Stream.Fixed.{read_byte, write_byte, write_word, write_bytes}
use beprotocol.Stream.Fixed.RoundTrip.{RoundTrips-byte}
use beprotocol.Stream.Endian.{
  Endian, to_memory, from_memory, to_little_endian, from_little_endian, le_bytes, le_value,
  to_memory-to_little_endian, from_little_endian-from_memory,
}
use beprotocol.Stream.VarInt.{
  write_groups, write_unsigned_var_int, read_unsigned_var_int, write_unsigned_var_int64,
  read_unsigned_var_int64, zigzag, write_var_int, read_var_int,
}
use beprotocol.Stream.Text.{write_string, read_string}
use beprotocol.Stream.Containers.{uint32, static_cast, write_elements, write_array, read_array}
use beprotocol.Stream.ReadBack.{
  read_unsigned_var_int-write_unsigned_var_int, read_unsigned_var_int64-write_unsigned_var_int64,
  read_var_int-write_var_int, read_string-write_string, length-write_unsigned_var_int,
  read_array-write_array,
}
use beprotocol.Stream.Safety.{Moves}
use beprotocol.Stream.Safety.Readers.{read_unsigned_var_int64-Moves, read_string-Moves}

read_unsigned_var_int-write_unsigned_var_int_example :
    ReadsBack (write_unsigned_var_int 300) read_unsigned_var_int 300 (7 ∷ []) (9 ∷ [])
unfolding write_unsigned_var_int write_groups write_byte lt_wf dec_lt write_word write_bytes
    to_memory to_little_endian le_bytes
read_unsigned_var_int-write_unsigned_var_int_example =
    read_unsigned_var_int-write_unsigned_var_int 300 (omega arith) (7 ∷ []) (9 ∷ []) (omega arith)

read_unsigned_var_int64-write_unsigned_var_int64_example :
    ReadsBack (write_unsigned_var_int64 (2 ^ 40)) read_unsigned_var_int64 (2 ^ 40) (7 ∷ []) (9 ∷ [])
unfolding write_unsigned_var_int64 write_unsigned_var_int write_groups write_byte lt_wf dec_lt
    write_word write_bytes to_memory to_little_endian le_bytes
read_unsigned_var_int64-write_unsigned_var_int64_example =
    read_unsigned_var_int64-write_unsigned_var_int64 (2 ^ 40) (omega arith) (7 ∷ []) (9 ∷ [])
      (omega arith)

read_var_int-write_var_int_example :
    ReadsBack (write_var_int (2 ^ 32 - 3)) read_var_int (2 ^ 32 - 3) (7 ∷ []) (9 ∷ [])
unfolding write_var_int zigzag write_unsigned_var_int write_groups write_byte lt_wf dec_lt
    write_word write_bytes to_memory to_little_endian le_bytes
read_var_int-write_var_int_example =
    read_var_int-write_var_int (2 ^ 32 - 3) (omega arith) (7 ∷ []) (9 ∷ []) (omega arith)

read_string-write_string_example :
    ReadsBack (write_string (104 ∷ (105 ∷ []))) read_string (104 ∷ (105 ∷ [])) (7 ∷ []) (9 ∷ [])
unfolding write_string ◌>>◌ write_unsigned_var_int write_groups write_byte lt_wf dec_lt write_word
    write_bytes to_memory to_little_endian le_bytes
read_string-write_string_example =
    read_string-write_string (104 ∷ (105 ∷ [])) (omega arith) (7 ∷ []) (9 ∷ []) (omega arith)

length-write_unsigned_var_int_example :
    (1 + 1 ≤ length (write_unsigned_var_int 300 (7 ∷ [])))
    × (length (write_unsigned_var_int 300 (7 ∷ [])) ≤ 1 + 5)
length-write_unsigned_var_int_example = length-write_unsigned_var_int 300 (7 ∷ []) (omega arith)

abbrev bytes : List ℕ
bytes = 3 ∷ (255 ∷ [])

read_array-write_array_example :
    ReadsBack
      (write_array uint32 write_unsigned_var_int write_byte bytes)
      (read_array uint32 read_unsigned_var_int read_byte)
      bytes
      (7 ∷ [])
      (9 ∷ [])
unfolding write_array write_elements static_cast ◌>>◌ write_unsigned_var_int write_groups write_byte
    lt_wf dec_lt write_word write_bytes to_memory to_little_endian le_bytes
read_array-write_array_example =
    read_array-write_array (λ (v : ℕ). v < 256) write_byte read_byte RoundTrips-byte bytes
      (omega arith) (omega arith, (omega arith, tt)) (7 ∷ []) (9 ∷ []) (omega arith)

to_memory-to_little_endian_example :
    to_memory Endian.big 2 (to_little_endian Endian.big 2 258) ≡ 2 ∷ (1 ∷ [])
unfolding le_bytes
to_memory-to_little_endian_example = to_memory-to_little_endian Endian.big 2 258

from_little_endian-from_memory_example :
    from_little_endian Endian.big 2 (from_memory Endian.big (2 ∷ (1 ∷ []))) ≡ 258
unfolding le_value
from_little_endian-from_memory_example =
    from_little_endian-from_memory Endian.big 2 (2 ∷ (1 ∷ [])) refl (omega arith, (omega arith, tt))

abbrev unfinished : ReadOnlyBinaryStream
unfinished = reading 1 (3 ∷ (200 ∷ (200 ∷ [])))

read_unsigned_var_int64-Moves_example : Moves unfinished (read_unsigned_var_int64 unfinished).1
read_unsigned_var_int64-Moves_example =
    read_unsigned_var_int64-Moves unfinished (omega arith, omega arith)

read_string-Moves_example : Moves unfinished (read_string unfinished).1
read_string-Moves_example = read_string-Moves unfinished (omega arith, omega arith)
