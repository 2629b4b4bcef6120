-- ===== src/Connection/Envelope/RoundTrip.antt =====
-- What one session serializes, the session on the other side deserializes.
use beprotocol.Common.{
  ℕ, ◌^◌, ◌<◌, ◌≡◌, refl, ap, subst, ◌∙◌, List, [], ◌++◌, ◌≤◌, All, Option, none, some, length, ◌⊎◌,
  inl, inr, Bool, true, false, leb, arith, drop-append, if◌then◌else◌,
}
use beprotocol.Stream.{Outcome, IsSize, with_message}
use beprotocol.Stream.Fixed.{
  write_signed_char, read_signed_char, write_bytes, open_stream, get_left_buffer_view,
}
use beprotocol.Stream.Fixed.RoundTrip.{RoundTrips-signed_char}
use beprotocol.Stream.RoundTrip.{RoundTrips}
use beprotocol.Stream.Containers.{int8, int32, size_type, static_cast, write_enum, read_enum}
use beprotocol.Stream.Containers.RoundTrip.{RoundTrips-same_enum}
use beprotocol.Connection.Batch.{write_batch, parse_batch, FitsFrame, parse_batch-write_batch}
use beprotocol.Connection.Crypto.{CryptoManager}
use beprotocol.Connection.Crypto.InStep.{CtrMode, Synced}
use beprotocol.Connection.Crypto.Exchange.{FitsCipher, exchange_message}
use beprotocol.Connection.Zlib.{max_decompressed_size}
use beprotocol.Connection.Zlib.RoundTrip.{ZlibLaws, zlib_decompress-zlib_compress}
use beprotocol.Connection.Compression.{
  SnappyLaws, max_output_size, snappy_decompress-snappy_compress,
}
use beprotocol.Connection.Envelope.{
  Libraries, Session, no_compression, after, compress_as, compress_batch, encrypt_batch,
  serialize_batched_packets, decrypt_batch, decompress_as, decompress_batch,
  deserialize_batch_packets,
}

module _ (libs : Libraries) where
  -- An algorithm of the enum, and for it a size of the batch that its limit allows.
  abbrev pub Takes : ℕ → List ℕ → Type 0
  Takes type batch =
      ((type ≡ 0) × (length batch ≤ max_decompressed_size))
      ⊎ (((type ≡ 1) × ((1 ≤ length batch) × (length batch ≤ max_output_size)))
          ⊎ (type ≡ no_compression))

  -- The header byte is read, and the rest is the payload.
  decompress_header :
      (type : ℕ) (own : ℕ) (payload : List ℕ)
      → type < 2 ^ 8
      → IsSize (length (write_bytes payload (write_enum int8 int8 write_signed_char type [])))
      → decompress_batch libs
          (some own)
          (write_bytes payload (write_enum int8 int8 write_signed_char type []))
        ≡ decompress_as libs payload type
  unfolding decompress_batch write_bytes open_stream get_left_buffer_view
  decompress_header type own payload small size =
      rw (r.written []) (rw (r.decoded.decode [] payload size') (rw (drop-append r.bytes payload)))
    where
      r :
          RoundTrips
            (write_enum int8 int8 write_signed_char type)
            (read_enum int8 int8 read_signed_char)
            type
      r = RoundTrips-same_enum int8 _ _ type small (RoundTrips-signed_char type small)

      size' : IsSize (length (r.bytes ++ payload))
      size' = subst (λ (t : List ℕ). IsSize (length (t ++ payload))) (r.written []) size

  Takes-small : (type : ℕ) (batch : List ℕ) → Takes type batch → type < 2 ^ 8
  Takes-small type batch (inl (e, h)) = omega arith
  Takes-small type batch (inr (inl (e, h))) = omega arith
  Takes-small type batch (inr (inr e)) = omega arith

  abbrev pub reaches : ℕ → List ℕ → Bool
  reaches threshold batch = leb (static_cast int32 size_type threshold) (length batch)

  -- What is encrypted has a size that is an `int`.
  abbrev pub FitsEncryption : Option (CryptoManager libs.ssl) → List ℕ → Type 0
  FitsEncryption none bytes = Unit
  FitsEncryption (some m) bytes = FitsCipher bytes

  module _ (mode : CtrMode libs.ssl) where
    -- Neither side encrypts, or both do and are in step.
    abbrev pub EncryptionInStep :
        Option (CryptoManager libs.ssl) → Option (CryptoManager libs.ssl) → Type 0
    EncryptionInStep none none = Unit
    EncryptionInStep none (some n) = ⊥
    EncryptionInStep (some m) none = ⊥
    EncryptionInStep (some m) (some n) = Synced mode m n

    -- What lies between two sessions when one of them has serialized and the other deserialized.
    record Carried (a b : Option (CryptoManager libs.ssl)) (bytes : List ℕ) : Type 0 where
      secret : List ℕ
      sent : (encrypt_batch libs a bytes).0 ≡ Outcome.ok secret
      received : (decrypt_batch libs b secret).0 ≡ Outcome.ok bytes
      in_step : EncryptionInStep (encrypt_batch libs a bytes).1 (decrypt_batch libs b secret).1

    carried :
        (a b : Option (CryptoManager libs.ssl)) (bytes : List ℕ)
        → EncryptionInStep a b
        → FitsEncryption a bytes
        → Carried a b bytes
    unfolding encrypt_batch decrypt_batch
    carried none none bytes h small = record {
      secret = bytes;
      sent = refl;
      received = refl;
      in_step = tt;
    }
    carried none (some n) bytes h small = elim h [ ]
    carried (some m) none bytes h small = elim h [ ]
    carried (some m) (some n) bytes h small =
        let e = exchange_message mode m n bytes h small in
        record {
          secret = e.secret;
          sent = ap (with_message "Failed to encrypt data") e.sent;
          received = ap (with_message "Failed to decrypt data") e.received;
          in_step = e.synced;
        }

  module _ (zlib_laws : ZlibLaws libs.zlib) (snappy_laws : SnappyLaws libs.snappy) where
    decompress_as-compress_as :
        (type : ℕ) (batch : List ℕ)
        → Takes type batch
        → decompress_as libs (compress_as libs type batch) type ≡ Outcome.ok batch
    unfolding decompress_as compress_as
    decompress_as-compress_as type batch (inl (e, h)) = rw e (
        ap (with_message "zlib decompression failed")
          (zlib_decompress-zlib_compress libs.zlib zlib_laws batch h))
    decompress_as-compress_as type batch (inr (inl (e, (h, k)))) = rw e (
        ap (with_message "snappy decompression failed")
          (snappy_decompress-snappy_compress libs.snappy snappy_laws batch h k))
    decompress_as-compress_as type batch (inr (inr e)) = rw e

    decompress_batch-compress_batch :
        (own : Option ℕ) (threshold : ℕ) (batch : List ℕ)
        → ((type : ℕ) → own ≡ some type → reaches threshold batch ≡ true → Takes type batch)
        → IsSize (length (compress_batch libs own threshold batch))
        → decompress_batch libs own (compress_batch libs own threshold batch) ≡ Outcome.ok batch
    unfolding compress_batch
    decompress_batch-compress_batch none threshold batch takes size =
        unfold decompress_batch in refl
    decompress_batch-compress_batch (some type) threshold batch takes size =
        go (reaches threshold batch) (takes type refl) size
      where
        go :
            (c : Bool)
            → (c ≡ true → Takes type batch)
            → IsSize (
                length (
                  if c
                  then write_bytes
                      (compress_as libs type batch)
                      (write_enum int8 int8 write_signed_char type [])
                  else write_bytes batch
                      (write_enum int8 int8 write_signed_char no_compression [])))
            → decompress_batch libs (some type) (
                if c
                then write_bytes
                    (compress_as libs type batch)
                    (write_enum int8 int8 write_signed_char type [])
                else write_bytes batch (write_enum int8 int8 write_signed_char no_compression []))
              ≡ Outcome.ok batch
        go true takes size =
            decompress_header type type (compress_as libs type batch)
              (Takes-small type batch (takes refl)) size
            ∙ decompress_as-compress_as type batch (takes refl)
        go false takes size =
            decompress_header no_compression type batch (omega arith) size
            ∙ (unfold decompress_as in refl)

    module _ (mode : CtrMode libs.ssl) where
      pub deserialize-serialize :
          (a b : Session libs) (packets : List (List ℕ))
          → a.compression_type ≡ b.compression_type
          → EncryptionInStep mode a.encryption b.encryption
          → All FitsFrame packets
          → IsSize (length (write_batch packets []))
          → ((type : ℕ)
              → a.compression_type ≡ some type
              → reaches a.compression_threshold (write_batch packets []) ≡ true
              → Takes type (write_batch packets []))
          → IsSize (
              length (
                compress_batch libs a.compression_type a.compression_threshold
                  (write_batch packets [])))
          → FitsEncryption a.encryption (
              compress_batch libs a.compression_type a.compression_threshold
                (write_batch packets []))
          → (bytes : List ℕ) × ((serialize_batched_packets libs a packets).0 ≡ Outcome.ok bytes)
            × ((deserialize_batch_packets libs b bytes).0 ≡ Outcome.ok packets)
            × EncryptionInStep mode
                (serialize_batched_packets libs a packets).1.encryption
                (deserialize_batch_packets libs b bytes).1.encryption
      unfolding serialize_batched_packets deserialize_batch_packets
      deserialize-serialize a b packets same in_step fits size takes packed_size ciphers =
          (between.secret, between.sent, back, between.in_step)
        where
          packed : List ℕ
          packed =
              compress_batch libs a.compression_type a.compression_threshold
                (write_batch packets [])

          between : Carried mode a.encryption b.encryption packed
          between = carried mode a.encryption b.encryption packed in_step ciphers

          unpacked :
              decompress_batch libs b.compression_type packed ≡ Outcome.ok (write_batch packets [])
          unpacked =
              subst
                (λ (own : Option ℕ).
                  decompress_batch libs own packed ≡ Outcome.ok (write_batch packets []))
                same
                (decompress_batch-compress_batch a.compression_type a.compression_threshold
                  (write_batch packets []) takes packed_size)

          back :
              after
                (after
                  (decrypt_batch libs b.encryption between.secret).0
                  (decompress_batch libs b.compression_type))
                parse_batch
              ≡ Outcome.ok packets
          back = rw between.received (rw unpacked (parse_batch-write_batch packets fits size))
