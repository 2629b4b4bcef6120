-- ===== src/Packet/Chunk.antt =====
-- src/sculk/protocol/codec: the packet that carries a chunk.
use beprotocol.Common.{
  ℕ, ◌<◌, ◌^◌, ◌≡◌, refl, List, length, All, Bool, true, false, Option, if◌then◌else◌, ◌==◌, leb,
  arith, ap, ◌⊎◌, inl, inr, sym, differs,
}
use beprotocol.Stream.{Reader, Writer, pure, ◌>>=◌, ◌>>◌}
use beprotocol.Stream.RoundTrip.{RoundTrips, RoundTrips-bind, RoundTrips-last}
use beprotocol.Stream.Fixed.{
  write_signed_short, read_signed_short, write_unsigned_int64, read_unsigned_int64,
}
use beprotocol.Stream.Fixed.RoundTrip.{RoundTrips-signed_short, RoundTrips-unsigned_int64}
use beprotocol.Stream.VarInt.{
  write_unsigned_var_int, read_unsigned_var_int, write_var_int, read_var_int,
}
use beprotocol.Stream.VarInt.RoundTrip.{RoundTrips-unsigned_var_int, RoundTrips-var_int}
use beprotocol.Stream.Text.{write_string, read_string, RoundTrips-string}
use beprotocol.Stream.Containers.{uint32, write_array, read_array, write_optional, read_optional}
use beprotocol.Stream.Containers.RoundTrip.{
  OptionAll, RoundTrips-var_int_array, RoundTrips-optional,
}
use beprotocol.Packet.Fits.{FitsText, IsBits}
use beprotocol.Packet.Types.{
  ChunkPos, write_chunk_pos, read_chunk_pos, FitsChunkPos, RoundTrips-chunk_pos,
}

-- `LevelChunkPacket`. A limit is the pattern of an `int16_t`; `is_chunk_in_tick_range` is a member
-- that no byte of the packet carries.
pub record LevelChunkPacket : Type 0 where
  pub position : ChunkPos
  pub dimension_id : ℕ
  pub is_chunk_in_tick_range : Bool
  pub serialized_chunk : List ℕ
  pub sub_chunks_count : ℕ
  pub client_needs_to_request_subchunks : Bool
  pub client_request_sub_chunk_limit : ℕ
  pub cache_blobs : Option (List ℕ)

-- How many sub-chunks: a count, or one of two marks for a client that asks for them.
unfoldable pub write_sub_chunks : Bool → ℕ → ℕ → Writer
write_sub_chunks true count limit =
    if leb (2 ^ 15) limit
    then write_unsigned_var_int 0xffff_ffff
    else (write_unsigned_var_int 0xffff_fffe >> write_signed_short limit)
write_sub_chunks false count limit = write_unsigned_var_int count

unfoldable pub write_cache_blobs : List ℕ → Writer
write_cache_blobs = write_array uint32 write_unsigned_var_int write_unsigned_int64

unfoldable pub write_level_chunk_packet : LevelChunkPacket → Writer
write_level_chunk_packet p = do
  write_chunk_pos p.position
  write_var_int p.dimension_id
  write_sub_chunks p.client_needs_to_request_subchunks p.sub_chunks_count
      p.client_request_sub_chunk_limit
  write_optional write_cache_blobs p.cache_blobs
  write_string p.serialized_chunk

pub record SubChunks : Type 0 where
  pub needs_to_request : Bool
  pub count : ℕ
  pub limit : ℕ

-- After the mark with a limit the count stays as the constructor left it.
unfoldable pub read_limit : ℕ → Reader SubChunks
read_limit count =
    if count == 0xffff_fffe
    then (read_signed_short >>= λ limit.
        pure (record { needs_to_request = true; count = 0; limit = limit }))
    else if count == 0xffff_ffff
    then pure (record { needs_to_request = true; count = 0; limit = 0xffff })
    else pure (record { needs_to_request = false; count = count; limit = 0 })

unfoldable pub read_sub_chunks : Reader SubChunks
read_sub_chunks = read_unsigned_var_int >>= read_limit

unfoldable pub read_cache_blobs : Reader (List ℕ)
read_cache_blobs = read_array uint32 read_unsigned_var_int read_unsigned_int64

unfoldable pub read_level_chunk_packet : Reader LevelChunkPacket
read_level_chunk_packet = do
  position ← read_chunk_pos
  dimension_id ← read_var_int
  sub_chunks ← read_sub_chunks
  cache_blobs ← read_optional read_cache_blobs
  serialized_chunk ← read_string
  pure (record {
    position = position;
    dimension_id = dimension_id;
    is_chunk_in_tick_range = false;
    serialized_chunk = serialized_chunk;
    sub_chunks_count = sub_chunks.count;
    client_needs_to_request_subchunks = sub_chunks.needs_to_request;
    client_request_sub_chunk_limit = sub_chunks.limit;
    cache_blobs = cache_blobs;
  })

-- A count that is no mark, and no limit; or no count, and a limit that is not below -1.
abbrev pub FitsSubChunks : Bool → ℕ → ℕ → Type 0
FitsSubChunks true count limit = (count ≡ 0) × ((limit < 2 ^ 15) ⊎ (limit ≡ 0xffff))
FitsSubChunks false count limit = (count < 0xffff_fffe) × (limit ≡ 0)

pub record FitsLevelChunkPacket (p : LevelChunkPacket) : Type 0 where
  pub position_fits : FitsChunkPos p.position
  pub dimension_id_fits : IsBits 32 p.dimension_id
  pub not_in_tick_range : p.is_chunk_in_tick_range ≡ false
  pub serialized_chunk_fits : FitsText p.serialized_chunk
  pub sub_chunks_fit :
      FitsSubChunks p.client_needs_to_request_subchunks p.sub_chunks_count
        p.client_request_sub_chunk_limit
  pub cache_blobs_fit :
      OptionAll (λ (blobs : List ℕ). (length blobs < 2 ^ 32) × All (IsBits 64) blobs) p.cache_blobs

RoundTrips-sub_chunks :
    (needs : Bool) (count limit : ℕ)
    → FitsSubChunks needs count limit
    → RoundTrips
        (write_sub_chunks needs count limit)
        read_sub_chunks
        (record { needs_to_request = needs; count = count; limit = limit })
unfolding write_sub_chunks read_sub_chunks
RoundTrips-sub_chunks true count limit (e, inl small) =
    rw (not_negative, e)
      (RoundTrips-bind _ _ _ _ (RoundTrips-unsigned_var_int 0xffff_fffe (omega arith)) (
        unfold read_limit in
        RoundTrips-last _ _ _ (RoundTrips-signed_short limit (omega arith)) refl))
  where
    not_negative : leb (2 ^ 15) limit ≡ false
    not_negative = ground arith
RoundTrips-sub_chunks true count limit (e, inr minus_one) =
    rw (minus_one, e)
      (RoundTrips-last _ _ _ (RoundTrips-unsigned_var_int 0xffff_ffff (omega arith))
        (unfold read_limit in refl))
RoundTrips-sub_chunks false count limit (small, e) =
    rw e (
      RoundTrips-last _ _ _ (RoundTrips-unsigned_var_int count (omega arith)) (no_mark count small))
  where
    no_mark :
        (n : ℕ)
        → n < 0xffff_fffe
        → read_limit n ≡ pure (record { needs_to_request = false; count = n; limit = 0 })
    no_mark n h =
        unfold read_limit in rw (differs n 0xffff_fffe h, differs n 0xffff_ffff (omega arith))

pub RoundTrips-level_chunk_packet :
    (p : LevelChunkPacket)
    → FitsLevelChunkPacket p
    → RoundTrips (write_level_chunk_packet p) read_level_chunk_packet p
unfolding write_level_chunk_packet read_level_chunk_packet write_cache_blobs read_cache_blobs
RoundTrips-level_chunk_packet p h =
    RoundTrips-bind _ _ _ _ (RoundTrips-chunk_pos p.position h.position_fits) (
      RoundTrips-bind _ _ _ _ (RoundTrips-var_int p.dimension_id h.dimension_id_fits) (
        RoundTrips-bind _ _ _ _ (RoundTrips-sub_chunks _ _ _ h.sub_chunks_fit) (
          RoundTrips-bind _ _ _ _
            (RoundTrips-optional
              (λ (blobs : List ℕ). (length blobs < 2 ^ 32) × All (IsBits 64) blobs) _ _
              (RoundTrips-var_int_array (IsBits 64) _ _ RoundTrips-unsigned_int64) p.cache_blobs
              h.cache_blobs_fit)
            (RoundTrips-last _ _ _ (RoundTrips-string p.serialized_chunk h.serialized_chunk_fits)
              (ap pure whole)))))
  where
    whole : (record p { is_chunk_in_tick_range = false }) ≡ p
    whole = λ i. record p { is_chunk_in_tick_range = sym h.not_in_tick_range i }
