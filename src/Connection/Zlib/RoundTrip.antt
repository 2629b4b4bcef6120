-- ===== src/Connection/Zlib/RoundTrip.antt =====
-- What `zlib::compress` makes, `zlib::decompress` takes back.
use beprotocol.Common.{
  ℕ, zero, suc, ◌+◌, ◌*◌, ◌^◌, ◌≤◌, ◌<◌, ◌≡◌, refl, ap, ◌∙◌, ◌⊎◌, inl, inr, List, [], ◌++◌, some,
  length, ltb, ◌==◌, if◌then◌else◌, true, false, arith, take, drop, append_assoc, length-take,
  length-drop, take-drop, take_all, length-append, dec_lt, ◌%◌,
}
use beprotocol.Stream.{Outcome}
use beprotocol.Connection.Zlib.{
  Status, ZlibLibrary, stream_chunk, max_decompressed_size, is_stream_error, is_corrupt,
  is_stream_end, available, deflate_rounds, deflate_fuel, zlib_compress_from, zlib_compress,
  inflate_rounds, inflate_fuel, zlib_decompress_from, zlib_decompress,
}

-- What a call does to a stream that has still to put out `rest`: it fills the buffer with the next of these bytes,
-- and tells the end if they do not fill it.
pub record Gives {S : Type 0} (Left : S → List ℕ → Type 0) (n : ℕ) (rest : List ℕ)
    (r : Status × (List ℕ × S)) : Type 0 where
  pub chunk : r.1.0 ≡ take n rest
  pub left : Left r.1.1 (drop n rest)
  pub status : (r.0 ≡ Status.stream_end) ⊎ ((r.0 ≡ Status.ok) × (n ≤ length rest))

-- What zlib documents, where there is memory: a deflating stream puts out the deflated form of its input, whose size
-- is bounded, and an inflating stream that gets this form puts out the input.
pub record ZlibLaws (lib : ZlibLibrary) : Type 1 where
  pub deflated : List ℕ → List ℕ
  pub bound : (input : List ℕ) → length (deflated input) ≤ 2 * length input + 16
  pub Deflating : lib.Stream → List ℕ → Type 0
  pub Inflating : lib.Stream → List ℕ → Type 0
  pub deflate_stream : lib.Stream
  pub deflate_starts : lib.deflate_init2 ≡ some deflate_stream
  pub deflates :
      (input : List ℕ)
      → length input < 2 ^ 32
      → Deflating (lib.with_input deflate_stream input) (deflated input)
  pub deflate_gives :
      (s : lib.Stream) (rest : List ℕ) (n : ℕ)
      → 0 < n
      → Deflating s rest
      → Gives Deflating n rest (lib.deflate s n)
  pub inflate_stream : lib.Stream
  pub inflate_starts : lib.inflate_init2 ≡ some inflate_stream
  pub inflates :
      (input : List ℕ)
      → length (deflated input) < 2 ^ 32
      → Inflating (lib.with_input inflate_stream (deflated input)) input
  pub inflate_gives :
      (s : lib.Stream) (rest : List ℕ) (n : ℕ)
      → 0 < n
      → Inflating s rest
      → Gives Inflating n rest (lib.inflate s n)

module _ {S : Type 0} {Left : S → List ℕ → Type 0} {n : ℕ} {rest : List ℕ}
    {r : Status × (List ℕ × S)} (g : Gives Left n rest r) where
  no_error : is_stream_error r.0 ≡ false
  unfolding is_stream_error
  no_error = elim g.status [ inl e ↦ rw e refl | inr (e, h) ↦ rw e refl ]

  no_damage : is_corrupt r.0 ≡ false
  unfolding is_corrupt
  no_damage = elim g.status [ inl e ↦ rw e refl | inr (e, h) ↦ rw e refl ]

  chunk_length : length r.1.0 ≡ length (take n rest)
  chunk_length = ap length g.chunk

  filled : n ≤ length rest → (length r.1.0 == n) ≡ true
  filled h = ground (arith, chunk_length, length-take n rest)

  unfilled : length rest < n → (length r.1.0 == n) ≡ false
  unfilled h = ground (arith, chunk_length, length-take n rest)

  ended : length rest < n → r.0 ≡ Status.stream_end
  ended h = elim g.status [ inl e ↦ e | inr (e, k) ↦ absurd (omega arith) ]

  last_chunk : length rest < n → r.1.0 ≡ rest
  last_chunk h = g.chunk ∙ take_all n rest (omega arith)

  put_together : (output : List ℕ) → (output ++ r.1.0) ++ drop n rest ≡ output ++ rest
  put_together output =
      ap (λ (t : List ℕ). (output ++ t) ++ drop n rest) g.chunk
      ∙ append_assoc output (take n rest) (drop n rest)
      ∙ ap (λ (t : List ℕ). output ++ t) (take-drop n rest)

at_most : (a b : ℕ) → b ≤ a → ltb a b ≡ false
at_most a b h = ground arith

module _ (lib : ZlibLibrary) (laws : ZlibLaws lib) where
  deflate_rounds_lem :
      (fuel : ℕ) (strm : lib.Stream) (output rest : List ℕ)
      → laws.Deflating strm rest
      → length rest < fuel
      → deflate_rounds lib fuel strm output ≡ (Status.stream_end, output ++ rest)
  unfolding deflate_rounds
  deflate_rounds_lem zero strm output rest h room = absurd (omega arith)
  deflate_rounds_lem (suc fuel) strm output rest h room = elim (dec_lt (length rest) stream_chunk) [
    | yes part ↦
        rw (no_error g, unfilled g part) (λ i. (ended g part i, output ++ last_chunk g part i))
    | no full ↦
        rw (no_error g, filled g (omega arith))
          (deflate_rounds_lem fuel (lib.deflate strm stream_chunk).1.1
              (output ++ (lib.deflate strm stream_chunk).1.0) (drop stream_chunk rest) g.left
              (omega (arith, length-drop stream_chunk rest))
            ∙ ap (λ (t : List ℕ). (Status.stream_end, t)) (put_together g output))
  ]
    where
      g : Gives laws.Deflating stream_chunk rest (lib.deflate strm stream_chunk)
      g = laws.deflate_gives strm rest stream_chunk (omega arith) h

  inflate_rounds_lem :
      (out : Status × List ℕ) (fuel : ℕ) (strm : lib.Stream) (output rest : List ℕ)
      → laws.Inflating strm rest
      → length output + length rest ≤ max_decompressed_size
      → length rest < stream_chunk * fuel
      → inflate_rounds lib out fuel strm output ≡ (Status.stream_end, output ++ rest)
  unfolding inflate_rounds
  inflate_rounds_lem out zero strm output rest h small room = absurd (omega arith)
  inflate_rounds_lem out (suc fuel) strm output rest h small room =
      elim (dec_lt (length rest) stream_chunk) [
        | yes part ↦
            rw (no_damage g, within, unfilled g part)
              (λ i. (ended g part i, output ++ last_chunk g part i))
        | no full ↦
            rw (no_damage g, within, filled g (omega arith))
              (inflate_rounds_lem out fuel (lib.inflate strm stream_chunk).1.1
                  (output ++ (lib.inflate strm stream_chunk).1.0) (drop stream_chunk rest) g.left
                  (omega (
                    arith,
                    length-drop stream_chunk rest,
                    chunk_length g,
                    length-take stream_chunk rest,
                    length-append output (lib.inflate strm stream_chunk).1.0,
                  ))
                  (omega (arith, length-drop stream_chunk rest))
                ∙ ap (λ (t : List ℕ). (Status.stream_end, t)) (put_together g output))
      ]
    where
      g : Gives laws.Inflating stream_chunk rest (lib.inflate strm stream_chunk)
      g = laws.inflate_gives strm rest stream_chunk (omega arith) h

      within :
          ltb max_decompressed_size (length output + length (lib.inflate strm stream_chunk).1.0)
          ≡ false
      within =
          at_most max_decompressed_size _
            (omega (arith, small, chunk_length g, length-take stream_chunk rest))

  available_all : (input : List ℕ) → length input < 2 ^ 32 → available input ≡ input
  unfolding available
  available_all input h = take_all (length input % 2 ^ 32) input (omega arith)

  zlib_compress-deflated :
      (input : List ℕ) → length input < 2 ^ 32 → zlib_compress lib input ≡ laws.deflated input
  unfolding zlib_compress zlib_compress_from is_stream_end
  zlib_compress-deflated input small =
      ap (zlib_compress_from lib input) laws.deflate_starts
      ∙ ap (λ (r : Status × List ℕ). if is_stream_end r.0 then r.1 else input) rounds
    where
      rounds :
          deflate_rounds lib
            (deflate_fuel lib input)
            (lib.with_input laws.deflate_stream (available input))
            []
          ≡ (Status.stream_end, laws.deflated input)
      rounds =
          ap
            (λ (bytes : List ℕ).
              deflate_rounds lib (deflate_fuel lib input) (lib.with_input laws.deflate_stream bytes)
                [])
            (available_all input small)
          ∙ deflate_rounds_lem (deflate_fuel lib input) (lib.with_input laws.deflate_stream input)
              [] (laws.deflated input) (laws.deflates input small) (omega (arith, laws.bound input))

  inflated :
      (input : List ℕ)
      → length input ≤ max_decompressed_size
      → length (laws.deflated input) < 2 ^ 32
      → inflate_rounds lib
          (Status.other, [])
          (inflate_fuel lib)
          (lib.with_input laws.inflate_stream (available (laws.deflated input)))
          []
        ≡ (Status.stream_end, input)
  inflated input small packed =
      ap
        (λ (bytes : List ℕ).
          inflate_rounds lib (Status.other, []) (inflate_fuel lib)
            (lib.with_input laws.inflate_stream bytes) [])
        (available_all (laws.deflated input) packed)
      ∙ inflate_rounds_lem (Status.other, []) (inflate_fuel lib)
          (lib.with_input laws.inflate_stream (laws.deflated input)) [] input
          (laws.inflates input packed) (omega arith) (omega arith)

  -- Let zlib behave as `ZlibLaws` says. A buffer of at most 64 MiB that `zlib::compress` has compressed,
  -- `zlib::decompress` gives back: the loops of the two put all chunks together, and the limit does not stop them.
  pub zlib_decompress-zlib_compress :
      (input : List ℕ)
      → length input ≤ max_decompressed_size
      → zlib_decompress lib (zlib_compress lib input) ≡ Outcome.ok input
  unfolding zlib_decompress zlib_decompress_from is_stream_end
  zlib_decompress-zlib_compress input small =
      ap (zlib_decompress lib) (zlib_compress-deflated input (omega arith))
      ∙ ap (zlib_decompress_from lib (laws.deflated input)) laws.inflate_starts
      ∙ ap
          (λ (r : Status × List ℕ).
            if is_stream_end r.0 then Outcome.ok r.1 else Outcome.err "Failed to decompress data")
          (inflated input small (omega (arith, laws.bound input)))
