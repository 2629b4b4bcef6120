-- ===== src/Connection/Zlib/Fuel.antt =====
-- The loop of `zlib::decompress` comes to an end with any library.
use beprotocol.Common.{
  ℕ, zero, suc, ◌+◌, ◌*◌, ◌≤◌, ◌<◌, ◌≡◌, refl, sym, List, [], ◌++◌, Bool, true, false, length, ltb,
  ◌==◌, if◌then◌else◌, length-append, arith,
}
use beprotocol.Connection.Zlib.{
  Status, ZlibLibrary, stream_chunk, max_decompressed_size, is_corrupt, inflate_rounds,
  inflate_fuel,
}

-- Two rounds that differ only in what comes after them.
same_round {ℓ} :
    {A : Type ℓ} (corrupt large full : Bool) (x y rest rest' z : A)
    → (large ≡ false → full ≡ true → rest ≡ rest')
    → (if corrupt then x else if large then y else if full then rest else z)
      ≡ (if corrupt then x else if large then y else if full then rest' else z)
same_round true large full x y rest rest' z h = refl
same_round false true full x y rest rest' z h = refl
same_round false false true x y rest rest' z h = h refl refl
same_round false false false x y rest rest' z h = refl

full_chunk : (a c : ℕ) → ltb max_decompressed_size (a + c) ≡ false → a + c ≤ max_decompressed_size
full_chunk a c h = ground arith

is_full : (c : ℕ) → (c == stream_chunk) ≡ true → c ≡ stream_chunk
is_full c e = ground arith

module _ (lib : ZlibLibrary) where
  -- Each round that goes on puts out a full chunk.
  more_rounds :
      (out out' : Status × List ℕ) (fuel more : ℕ) (strm : lib.Stream) (output : List ℕ)
      → fuel ≤ more
      → length output ≤ max_decompressed_size
      → max_decompressed_size < length output + stream_chunk * fuel
      → inflate_rounds lib out fuel strm output ≡ inflate_rounds lib out' more strm output
  unfolding inflate_rounds
  more_rounds out out' zero more strm output at_least small room = absurd (omega arith)
  more_rounds out out' (suc fuel) zero strm output at_least small room = absurd (omega arith)
  more_rounds out out' (suc fuel) (suc more) strm output at_least small room =
      same_round (is_corrupt r.0) (ltb max_decompressed_size (length output + length r.1.0))
        (length r.1.0 == stream_chunk) (r.0, output) (Status.mem_error, output)
        (inflate_rounds lib out fuel r.1.1 (output ++ r.1.0))
        (inflate_rounds lib out' more r.1.1 (output ++ r.1.0)) (r.0, output ++ r.1.0)
        (λ within full.
          more_rounds out out' fuel more r.1.1 (output ++ r.1.0) (omega arith)
            (omega
              (arith, length-append output r.1.0, full_chunk (length output) (length r.1.0) within))
            (omega (arith, length-append output r.1.0, is_full (length r.1.0) full)))
    where
      r : Status × (List ℕ × lib.Stream)
      r = lib.inflate strm stream_chunk

  -- Whatever zlib's `inflate` does with any stream, the loop of `zlib::decompress` ends within 1026 rounds: whatever
  -- answer `out` a run gives where its rounds run out, with 1026 or more it comes to the same status and the same
  -- bytes as the loop in `zlib_decompress`, which has 1026.
  pub inflate_rounds-fuel :
      (out : Status × List ℕ) (more : ℕ) (strm : lib.Stream)
      → inflate_fuel lib ≤ more
      → inflate_rounds lib out more strm []
        ≡ inflate_rounds lib (Status.other, []) (inflate_fuel lib) strm []
  inflate_rounds-fuel out more strm enough = sym (
      more_rounds (Status.other, []) out (inflate_fuel lib) more strm [] enough (omega arith)
        (omega arith))
