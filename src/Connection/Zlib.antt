-- ===== src/Connection/Zlib.antt =====
-- src/sculk/protocol/connection/compression/Zlib.cpp: deflate and inflate in pieces of 64 KiB.
pub mod RoundTrip
pub mod Fuel
use beprotocol.Common.{
  ℕ, zero, suc, ◌+◌, ◌*◌, ◌%◌, ◌^◌, ◌≤◌, ◌<◌, ◌≡◌, refl, ap, sym, ◌∙◌, ◌⊎◌, inl, inr, List, [],
  ◌++◌, Option, none, some, length, ltb, ◌==◌, if◌then◌else◌, Bool, true, false, take,
}
use beprotocol.Stream.{Outcome}

-- What `deflate` and `inflate` return; `other` stands for the values that the code treats alike.
pub data Status : Type 0 where
  ok stream_end stream_error data_error mem_error other : Status

-- What Zlib.cpp calls of zlib: the initialization of a stream for raw deflate or inflate, its input, and a call that
-- fills at most so many bytes.
pub record ZlibLibrary : Type 1 where
  pub Stream : Type 0
  pub deflate_init2 : Option Stream
  pub inflate_init2 : Option Stream
  pub with_input : Stream → List ℕ → Stream
  pub deflate : Stream → ℕ → Status × (List ℕ × Stream)
  pub inflate : Stream → ℕ → Status × (List ℕ × Stream)

abbrev pub stream_chunk : ℕ
stream_chunk = 65536

abbrev pub max_decompressed_size : ℕ
max_decompressed_size = 64 * 1024 * 1024

unfoldable pub is_stream_error : Status → Bool
is_stream_error Status.stream_error = true
is_stream_error _ = false

unfoldable pub is_corrupt : Status → Bool
is_corrupt Status.data_error = true
is_corrupt Status.mem_error = true
is_corrupt _ = false

unfoldable pub is_stream_end : Status → Bool
is_stream_end Status.stream_end = true
is_stream_end _ = false

-- `avail_in` is 32 bits wide.
unfoldable pub available : List ℕ → List ℕ
available input = take (length input % 2 ^ 32) input

module _ (lib : ZlibLibrary) where
  -- The loop of `compress`, with the bytes put out so far.
  unfoldable pub deflate_rounds : ℕ → lib.Stream → List ℕ → Status × List ℕ
  deflate_rounds zero strm output = (Status.other, output)
  deflate_rounds (suc fuel) strm output =
      let r = lib.deflate strm stream_chunk in
      let more = output ++ r.1.0 in
      let rest = deflate_rounds fuel r.1.1 more in
      if is_stream_error r.0
      then (r.0, output)
      else if length r.1.0 == stream_chunk
      then rest
      else (r.0, more)

  -- More rounds than a deflated buffer has bytes, by the bound that zlib documents.
  abbrev pub deflate_fuel : List ℕ → ℕ
  deflate_fuel input = 2 * length input + 17

  unfoldable pub zlib_compress_from : List ℕ → Option lib.Stream → List ℕ
  zlib_compress_from input none = input
  zlib_compress_from input (some strm) =
      let r = deflate_rounds (deflate_fuel input) (lib.with_input strm (available input)) [] in
      if is_stream_end r.0 then r.1 else input

  unfoldable pub zlib_compress : List ℕ → List ℕ
  zlib_compress input = zlib_compress_from input lib.deflate_init2

  -- The loop of `decompress`; `out` says what it is where the fuel runs out.
  unfoldable pub inflate_rounds : Status × List ℕ → ℕ → lib.Stream → List ℕ → Status × List ℕ
  inflate_rounds out zero strm output = out
  inflate_rounds out (suc fuel) strm output =
      let r = lib.inflate strm stream_chunk in
      let more = output ++ r.1.0 in
      let rest = inflate_rounds out fuel r.1.1 more in
      if is_corrupt r.0
      then (r.0, output)
      else if ltb max_decompressed_size (length output + length r.1.0)
      then (Status.mem_error, output)
      else if length r.1.0 == stream_chunk
      then rest
      else (r.0, more)

  -- The rounds that 64 MiB of full chunks take, and two more.
  abbrev pub inflate_fuel : ℕ
  inflate_fuel = 1026

  unfoldable pub zlib_decompress_from : List ℕ → Option lib.Stream → Outcome (List ℕ)
  zlib_decompress_from input none = Outcome.err "Failed to initialize zlib decompression"
  zlib_decompress_from input (some strm) =
      let r =
        inflate_rounds (Status.other, []) inflate_fuel (lib.with_input strm (available input)) [] in
      if is_stream_end r.0 then Outcome.ok r.1 else Outcome.err "Failed to decompress data"

  unfoldable pub zlib_decompress : List ℕ → Outcome (List ℕ)
  zlib_decompress input = zlib_decompress_from input lib.inflate_init2
