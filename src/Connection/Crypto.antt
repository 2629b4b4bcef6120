-- ===== src/Connection/Crypto.antt =====
-- `CryptoManager` of src/sculk/protocol/connection/encryption/CryptoManager.cpp: what a session sends
-- carries a checksum over a counter and goes through AES in counter mode. OpenSSL is an argument.
pub mod InStep
pub mod Exchange
use beprotocol.Common.{
  ℕ, zero, suc, ◌+◌, ◌-◌, ◌%◌, ◌^◌, List, [], ◌∷◌, ◌++◌, Bool, true, false, ◌||◌, Option, none,
  some, length, take, drop, ltb, ◌==◌, if◌then◌else◌,
}
use beprotocol.Stream.{Outcome}
use beprotocol.Stream.Endian.{le_bytes}

-- What the class calls of OpenSSL. `cipher_init` is `EVP_CipherInit_ex`, for encryption if the flag is true, and
-- `EVP_CIPHER_CTX_set_padding`; `cipher_update` gets the input and its length as an `int`, by its bit pattern, and
-- gives the bytes that `EVP_CipherUpdate` puts out, if it succeeds; `sha256` is the digest of what the updates hand
-- over, one after the other.
pub record OpenSsl : Type 1 where
  pub Context : Type 0
  pub cipher_new : Option Context
  pub cipher_init : Context → List ℕ → List ℕ → Bool → Bool × Context
  pub cipher_update : Context → List ℕ → ℕ → Option (List ℕ) × Context
  pub sha256 : List ℕ → Option (List ℕ)

abbrev pub zeros : ℕ → List ℕ
zeros zero = []
zeros (suc n) = 0 ∷ zeros n

-- `std::equal` over as many bytes as the checksum has.
unfoldable pub same_bytes : List ℕ → List ℕ → Bool
same_bytes [] ys = true
same_bytes (x ∷ xs) [] = false
same_bytes (x ∷ xs) (y ∷ ys) = let rest = same_bytes xs ys in if x == y then rest else false

-- `selectAesCtrCipher` knows three sizes of keys.
unfoldable pub is_key_size : ℕ → Bool
is_key_size n = (n == 16) || ((n == 24) || (n == 32))

-- The block that the constructor makes: up to twelve bytes of the key, zeros, and a two.
unfoldable pub counter_block : List ℕ → List ℕ
counter_block key = take 12 (key ++ zeros 12) ++ (0 ∷ (0 ∷ (0 ∷ (2 ∷ []))))

-- Eight bytes of the digest, or zeros if there is none that long.
unfoldable pub first_eight : Option (List ℕ) → List ℕ
first_eight none = zeros 8
first_eight (some digest) = if ltb (length digest) 8 then zeros 8 else take 8 digest

-- An update that gives another number of bytes is an error.
unfoldable pub whole_output : ℕ → Option (List ℕ) → Outcome (List ℕ)
whole_output size none = Outcome.err "Failed to process data with cipher"
whole_output size (some output) =
    if length output == size
    then Outcome.ok output
    else Outcome.err "Failed to process data with cipher"

module _ (ssl : OpenSsl) where
  pub record CryptoManager : Type 0 where
    pub key_bytes : List ℕ
    pub initial_counter_block : List ℕ
    pub encrypt_ctx : Option ssl.Context
    pub decrypt_ctx : Option ssl.Context
    pub encrypt_counter : ℕ
    pub decrypt_counter : ℕ

  unfoldable pub create_manager : List ℕ → CryptoManager
  create_manager key = record {
    key_bytes = key;
    initial_counter_block = counter_block key;
    encrypt_ctx = none;
    decrypt_ctx = none;
    encrypt_counter = 0;
    decrypt_counter = 0;
  }

  unfoldable pub checksum : List ℕ → ℕ → List ℕ → List ℕ
  checksum key counter payload = first_eight (ssl.sha256 (le_bytes 8 counter ++ (payload ++ key)))

  unfoldable pub start_cipher :
      CryptoManager → Bool → Option ssl.Context → Bool × Option ssl.Context
  start_cipher m encrypt none = (false, none)
  start_cipher m encrypt (some fresh) =
      let started = ssl.cipher_init fresh m.key_bytes m.initial_counter_block encrypt in
      (started.0, some started.1)

  -- The context stays as it was if the key has no cipher.
  unfoldable pub initialize_cipher :
      CryptoManager → Bool → Option ssl.Context → Bool × Option ssl.Context
  initialize_cipher m encrypt ctx =
      if is_key_size (length m.key_bytes)
      then start_cipher m encrypt ssl.cipher_new
      else (false, ctx)

  -- `!ctx && !initializeCipher(ctx, encrypt)`, by its opposite.
  unfoldable pub ready : CryptoManager → Bool → Option ssl.Context → Bool × Option ssl.Context
  ready m encrypt none = initialize_cipher m encrypt none
  ready m encrypt (some ctx) = (true, some ctx)

  unfoldable pub ctr_crypt : Option ssl.Context → List ℕ → Outcome (List ℕ) × Option ssl.Context
  ctr_crypt ctx [] = (Outcome.ok [], ctx)
  ctr_crypt none (b ∷ bytes) = (Outcome.err "Cipher context is not initialized", none)
  ctr_crypt (some ctx) (b ∷ bytes) =
      let updated = ssl.cipher_update ctx (b ∷ bytes) (length (b ∷ bytes) % 2 ^ 32) in
      (whole_output (length (b ∷ bytes)) updated.0, some updated.1)

  -- What `encrypt` does once the counter has moved on.
  unfoldable pub encrypt_data : CryptoManager → List ℕ → Outcome (List ℕ) × CryptoManager
  encrypt_data m bytes =
      let (is_ready, ctx) = ready m true m.encrypt_ctx in
      let (output, ctx') = ctr_crypt ctx bytes in
      if is_ready
      then (output, record m { encrypt_ctx = ctx' })
      else (Outcome.err "Failed to initialize encryption cipher", record m { encrypt_ctx = ctx })

  unfoldable pub encrypt : CryptoManager → List ℕ → Outcome (List ℕ) × CryptoManager
  encrypt m [] = (Outcome.ok [], m)
  encrypt m (b ∷ bytes) =
      let sum = checksum m.key_bytes m.encrypt_counter (b ∷ bytes) in
      encrypt_data (record m { encrypt_counter = (m.encrypt_counter + 1) % 2 ^ 64 })
        ((b ∷ bytes) ++ sum)

  -- `verify` moves the counter on where there are bytes enough for a checksum.
  unfoldable pub verify : CryptoManager → List ℕ → Bool × CryptoManager
  verify m input =
      let size = length input - 8 in
      let expected = checksum m.key_bytes m.decrypt_counter (take size input) in
      if ltb (length input) 8 then (false, m) else (
        same_bytes expected (drop size input),
        record m { decrypt_counter = (m.decrypt_counter + 1) % 2 ^ 64 },
      )

  -- What `decrypt` does with the output of the cipher.
  unfoldable pub check_clear : CryptoManager → Outcome (List ℕ) → Outcome (List ℕ) × CryptoManager
  check_clear m (Outcome.ok clear) =
      let (is_valid, m') = verify m clear in
      if is_valid
      then (Outcome.ok (take (length clear - 8) clear), m')
      else (Outcome.err "Failed to verify decrypted data", m')
  check_clear m (Outcome.err message) = (Outcome.err "Failed to decrypt data", m)
  check_clear m Outcome.fault = (Outcome.fault, m)

  unfoldable pub decrypt_data : CryptoManager → List ℕ → Outcome (List ℕ) × CryptoManager
  decrypt_data m input =
      let (is_ready, ctx) = ready m false m.decrypt_ctx in
      let (clear, ctx') = ctr_crypt ctx input in
      let checked = check_clear (record m { decrypt_ctx = ctx' }) clear in
      if is_ready
      then checked
      else (Outcome.err "Failed to initialize decryption cipher", record m { decrypt_ctx = ctx })

  -- An input too short for a checksum gives no bytes and no error.
  unfoldable pub decrypt : CryptoManager → List ℕ → Outcome (List ℕ) × CryptoManager
  decrypt m input = if ltb (length input) 8 then (Outcome.ok [], m) else decrypt_data m input
