-- ===== src/Connection/Compression.antt =====
-- src/sculk/protocol/connection/compression/Snappy.cpp, over the snappy library.
use beprotocol.Common.{
  ℕ, ◌≤◌, ◌<◌, ◌^◌, ◌*◌, ◌≡◌, refl, List, [], ◌∷◌, Option, none, some, length, ltb, ◌==◌,
  if◌then◌else◌, arith, false,
}
use beprotocol.Stream.{Outcome}

-- What Snappy.cpp calls of snappy: `RawCompress`, `GetUncompressedLength`, and `RawUncompress` into a
-- buffer of a length.
pub record SnappyLibrary : Type 0 where
  pub raw_compress : List ℕ → List ℕ
  pub uncompressed_length : List ℕ → Option ℕ
  pub raw_uncompress : List ℕ → ℕ → Option (List ℕ)

-- What snappy documents: compressed data is not empty, it carries the length, and it is uncompressed to
-- what it was made of, if that is shorter than `2 ^ 32` bytes.
pub record SnappyLaws (lib : SnappyLibrary) : Type 0 where
  pub nonempty : (input : List ℕ) → 1 ≤ length (lib.raw_compress input)
  pub carries_length :
      (input : List ℕ)
      → length input < 2 ^ 32
      → lib.uncompressed_length (lib.raw_compress input) ≡ some (length input)
  pub undoes :
      (input : List ℕ)
      → length input < 2 ^ 32
      → lib.raw_uncompress (lib.raw_compress input) (length input) ≡ some input

abbrev pub max_output_size : ℕ
max_output_size = 64 * 1024 * 1024

module _ (lib : SnappyLibrary) where
  unfoldable pub snappy_compress : List ℕ → List ℕ
  snappy_compress [] = []
  snappy_compress (b ∷ bytes) = lib.raw_compress (b ∷ bytes)

  unfoldable pub uncompress_whole : Option (List ℕ) → Outcome (List ℕ)
  uncompress_whole none = Outcome.err "snappy decompress failed"
  uncompress_whole (some output) = Outcome.ok output

  unfoldable pub uncompress_to : List ℕ → Option ℕ → Outcome (List ℕ)
  uncompress_to bytes none = Outcome.err "snappy decompress failed: invalid compressed payload"
  uncompress_to bytes (some size) =
      if ltb max_output_size size
      then Outcome.err "snappy decompress failed: output exceeds configured limit"
      else if size == 0
      then Outcome.ok []
      else uncompress_whole (lib.raw_uncompress bytes size)

  unfoldable pub snappy_decompress : List ℕ → Outcome (List ℕ)
  snappy_decompress [] = Outcome.err "snappy decompress failed: input is empty"
  snappy_decompress (b ∷ bytes) = uncompress_to (b ∷ bytes) (lib.uncompressed_length (b ∷ bytes))

  snappy_decompress_lem :
      (bytes : List ℕ)
      → 1 ≤ length bytes
      → snappy_decompress bytes ≡ uncompress_to bytes (lib.uncompressed_length bytes)
  unfolding snappy_decompress
  snappy_decompress_lem [] h = absurd (omega arith)
  snappy_decompress_lem (b ∷ bytes) h = refl

  -- Let snappy behave as `SnappyLaws` says. A buffer of at least one byte and at most 64 MiB that
  -- `snappy::compress` has compressed, `snappy::decompress` gives back.
  pub snappy_decompress-snappy_compress :
      (laws : SnappyLaws lib) (input : List ℕ)
      → 1 ≤ length input
      → length input ≤ max_output_size
      → snappy_decompress (snappy_compress input) ≡ Outcome.ok input
  unfolding snappy_compress uncompress_to uncompress_whole
  snappy_decompress-snappy_compress laws [] some_byte small = absurd (omega arith)
  snappy_decompress-snappy_compress laws (b ∷ bytes) some_byte small =
      rw
        (
          snappy_decompress_lem (lib.raw_compress (b ∷ bytes)) (laws.nonempty (b ∷ bytes)),
          laws.carries_length (b ∷ bytes) (omega arith),
        )
        (rw (limit, not_zero) (rw (laws.undoes (b ∷ bytes) (omega arith))))
    where
      limit : ltb max_output_size (length (b ∷ bytes)) ≡ false
      limit = ground arith

      not_zero : (length (b ∷ bytes) == 0) ≡ false
      not_zero = ground arith
