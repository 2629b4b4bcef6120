-- ===== src/Connection/Envelope.antt =====
-- `serializeBatchedPackets` and `deserializeBatchPackets` of src/sculk/protocol/connection/Session.cpp: a batch, its
-- compression and its encryption. OpenSSL, zlib and snappy are arguments.
pub mod RoundTrip
use beprotocol.Common.{ℕ, List, [], ◌∷◌, ◌++◌, Option, none, some, length, leb, ◌==◌, if◌then◌else◌}
use beprotocol.Stream.{Outcome, with_message, ReadOnlyBinaryStream}
use beprotocol.Stream.Fixed.{
  write_signed_char, read_signed_char, write_bytes, open_stream, get_left_buffer_view,
}
use beprotocol.Stream.Containers.{int8, int32, size_type, static_cast, write_enum, read_enum}
use beprotocol.Connection.Batch.{write_batch, parse_batch}
use beprotocol.Connection.Crypto.{OpenSsl, CryptoManager, encrypt, decrypt}
use beprotocol.Connection.Zlib.{ZlibLibrary, zlib_compress, zlib_decompress}
use beprotocol.Connection.Compression.{SnappyLibrary, snappy_compress, snappy_decompress}

-- The third-party code behind a session.
pub record Libraries : Type 1 where
  pub ssl : OpenSsl
  pub zlib : ZlibLibrary
  pub snappy : SnappyLibrary

-- `CompressionAlgorithm`, by the bit patterns of its `int8_t`.
abbrev pub no_compression : ℕ
no_compression = 0xff

abbrev pub after {ℓ κ} : {A : Type ℓ} {B : Type κ} → Outcome A → (A → Outcome B) → Outcome B
after (Outcome.ok a) f = f a
after (Outcome.err message) f = Outcome.err message
after Outcome.fault f = Outcome.fault

module _ (libs : Libraries) where
  -- The members of `Session` that the two functions use.
  pub record Session : Type 0 where
    pub compression_type : Option ℕ
    pub compression_threshold : ℕ
    pub encryption : Option (CryptoManager libs.ssl)

  unfoldable pub compress_as : ℕ → List ℕ → List ℕ
  compress_as type batch =
      if type == 0
      then zlib_compress libs.zlib batch
      else if type == 1
      then snappy_compress libs.snappy batch
      else batch

  -- The header byte and the batch, which is compressed from the threshold on.
  unfoldable pub compress_batch : Option ℕ → ℕ → List ℕ → List ℕ
  compress_batch none threshold batch = batch
  compress_batch (some type) threshold batch =
      if leb (static_cast int32 size_type threshold) (length batch)
      then write_bytes (compress_as type batch) (write_enum int8 int8 write_signed_char type [])
      else write_bytes batch (write_enum int8 int8 write_signed_char no_compression [])

  unfoldable pub encrypt_batch :
      Option (CryptoManager libs.ssl) → List ℕ → Outcome (List ℕ) × Option (CryptoManager libs.ssl)
  encrypt_batch none bytes = (Outcome.ok bytes, none)
  encrypt_batch (some m) bytes =
      let encrypted = encrypt libs.ssl m bytes in
      (with_message "Failed to encrypt data" encrypted.0, some encrypted.1)

  unfoldable pub serialize_batched_packets : Session → List (List ℕ) → Outcome (List ℕ) × Session
  serialize_batched_packets s packets =
      let batch =
        compress_batch s.compression_type s.compression_threshold (write_batch packets []) in
      let encrypted = encrypt_batch s.encryption batch in
      (encrypted.0, record s { encryption = encrypted.1 })

  unfoldable pub decrypt_batch :
      Option (CryptoManager libs.ssl) → List ℕ → Outcome (List ℕ) × Option (CryptoManager libs.ssl)
  decrypt_batch none bytes = (Outcome.ok bytes, none)
  decrypt_batch (some m) bytes =
      let decrypted = decrypt libs.ssl m bytes in
      (with_message "Failed to decrypt data" decrypted.0, some decrypted.1)

  unfoldable pub decompress_as : List ℕ → ℕ → Outcome (List ℕ)
  decompress_as payload type =
      if type == 0
      then with_message "zlib decompression failed" (zlib_decompress libs.zlib payload)
      else if type == 1
      then with_message "snappy decompression failed" (snappy_decompress libs.snappy payload)
      else if type == no_compression
      then Outcome.ok payload
      else Outcome.err "unknown compression type in batch packet"

  unfoldable pub decompress_batch : Option ℕ → List ℕ → Outcome (List ℕ)
  decompress_batch none bytes = Outcome.ok bytes
  decompress_batch (some _) bytes =
      let header = read_enum int8 int8 read_signed_char (open_stream bytes) in
      after (with_message "failed to read compression type from batch packet" header.0)
        (decompress_as (get_left_buffer_view header.1))

  unfoldable pub deserialize_batch_packets : Session → List ℕ → Outcome (List (List ℕ)) × Session
  deserialize_batch_packets s bytes =
      let decrypted = decrypt_batch s.encryption bytes in
      (
        after (after decrypted.0 (decompress_batch s.compression_type)) parse_batch,
        record s { encryption = decrypted.1 },
      )
