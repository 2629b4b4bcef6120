-- ===== src/Connection/Crypto/Exchange.antt =====
-- What one side of a connection encrypts, the other decrypts, message after message.
use beprotocol.Common.{
  ℕ, ◌+◌, ◌-◌, ◌%◌, ◌^◌, ◌≡◌, refl, ap, List, [], ◌∷◌, ◌++◌, map, All, ◌<◌, true, false, Option,
  some, length, take-append, ltb, arith, length-append,
}
use beprotocol.Stream.{Outcome}
use beprotocol.Connection.Crypto.{
  OpenSsl, CryptoManager, is_key_size, create_manager, checksum, ready, ctr_crypt, encrypt_data,
  encrypt, check_clear, decrypt_data, decrypt,
}
use beprotocol.Connection.Crypto.InStep.{
  CtrMode, Synced, BothReady, both_ready, Crossed, crossed, verify-signed, length-checksum,
}

-- A message that is an `int` long with its checksum.
abbrev pub FitsCipher : List ℕ → Type 0
FitsCipher message = length message + 8 < 2 ^ 31

module _ {ssl : OpenSsl} (mode : CtrMode ssl) where
  -- What a message becomes in between, and what both sides are after it.
  pub record Exchanged (m n : CryptoManager ssl) (message : List ℕ) : Type 0 where
    pub secret : List ℕ
    pub sent : (encrypt ssl m message).0 ≡ Outcome.ok secret
    pub received : (decrypt ssl n secret).0 ≡ Outcome.ok message
    pub synced : Synced mode (encrypt ssl m message).1 (decrypt ssl n secret).1

  encrypt_data_lem :
      (m : CryptoManager ssl) (clear secret : List ℕ) (c : ssl.Context) (c' : Option ssl.Context)
      → ready ssl m true m.encrypt_ctx ≡ (true, some c)
      → ctr_crypt ssl (some c) clear ≡ (Outcome.ok secret, c')
      → encrypt_data ssl m clear ≡ (Outcome.ok secret, record m { encrypt_ctx = c' })
  unfolding encrypt_data
  encrypt_data_lem m clear secret c c' is_ready crypts = rw is_ready (rw crypts)

  check_clear_lem :
      (n : CryptoManager ssl) (payload sum : List ℕ)
      → sum ≡ checksum ssl n.key_bytes n.decrypt_counter payload
      → check_clear ssl n (Outcome.ok (payload ++ sum))
        ≡ (Outcome.ok payload, record n { decrypt_counter = (n.decrypt_counter + 1) % 2 ^ 64 })
  unfolding check_clear
  check_clear_lem n payload sum e =
      rw (verify-signed ssl n payload sum e, size) (rw (take-append payload sum))
    where
      size : length (payload ++ sum) - 8 ≡ length payload
      size = omega (
        arith,
        length-append payload sum,
        ap length e,
        length-checksum ssl n.key_bytes n.decrypt_counter payload,
      )

  decrypt_data_lem :
      (n : CryptoManager ssl) (payload sum secret : List ℕ) (d : ssl.Context)
      (d' : Option ssl.Context)
      → ready ssl n false n.decrypt_ctx ≡ (true, some d)
      → ctr_crypt ssl (some d) secret ≡ (Outcome.ok (payload ++ sum), d')
      → sum ≡ checksum ssl n.key_bytes n.decrypt_counter payload
      → decrypt_data ssl n secret ≡ (
        Outcome.ok payload,
        record n { decrypt_ctx = d'; decrypt_counter = (n.decrypt_counter + 1) % 2 ^ 64 },
      )
  unfolding decrypt_data
  decrypt_data_lem n payload sum secret d d' is_ready crypts e =
      rw is_ready (rw crypts (check_clear_lem (record n { decrypt_ctx = d' }) payload sum e))

  -- A message that is not empty.
  exchanged :
      (m n : CryptoManager ssl) (b : ℕ) (bytes : List ℕ)
      → Synced mode m n
      → FitsCipher (b ∷ bytes)
      → Exchanged m n (b ∷ bytes)
  exchanged m n b bytes h small = record {
    secret = across.secret;
    sent = ap (λ (r : Outcome (List ℕ) × CryptoManager ssl). r.0) encrypts;
    received = ap (λ (r : Outcome (List ℕ) × CryptoManager ssl). r.0) decrypts;
    synced =
        rw (encrypts, decrypts)
          (record {
            same_key = h.same_key;
            same_block = h.same_block;
            key_size = h.key_size;
            same_counter = ap (λ (k : ℕ). (k + 1) % 2 ^ 64) h.same_counter;
            contexts = across.in_step;
          });
  }
    where
      message : List ℕ
      message = b ∷ bytes

      sum : List ℕ
      sum = checksum ssl m.key_bytes m.encrypt_counter message

      counted : CryptoManager ssl
      counted = record m { encrypt_counter = (m.encrypt_counter + 1) % 2 ^ 64 }

      both : BothReady mode counted n m.encrypt_ctx n.decrypt_ctx
      both =
          both_ready mode counted n m.encrypt_ctx n.decrypt_ctx h.same_key h.same_block h.key_size
            h.contexts

      short : length (message ++ sum) < 2 ^ 31
      short = omega (
        arith,
        small,
        length-append message sum,
        length-checksum ssl m.key_bytes m.encrypt_counter message,
      )

      across : Crossed mode both.encrypting both.decrypting (message ++ sum)
      across =
          crossed mode both.encrypting both.decrypting (message ++ sum) both.in_step
            (omega (arith, length-append message sum)) short

      encrypts : encrypt ssl m message ≡ (
        Outcome.ok across.secret,
        record counted {
          encrypt_ctx =
              some (ssl.cipher_update both.encrypting (message ++ sum) (length (message ++ sum))).1;
        },
      )
      encrypts =
          unfold encrypt in
          encrypt_data_lem counted (message ++ sum) across.secret both.encrypting _ both.sender
            across.sender

      signed : sum ≡ checksum ssl n.key_bytes n.decrypt_counter message
      signed = λ i. checksum ssl (h.same_key i) (h.same_counter i) message

      long : ltb (length across.secret) 8 ≡ false
      long = ground (
        arith,
        across.same_length,
        length-append message sum,
        length-checksum ssl m.key_bytes m.encrypt_counter message,
      )

      decrypts : decrypt ssl n across.secret ≡ (
        Outcome.ok message,
        record n {
          decrypt_ctx =
              some (ssl.cipher_update both.decrypting across.secret (length (message ++ sum))).1;
          decrypt_counter = (n.decrypt_counter + 1) % 2 ^ 64;
        },
      )
      decrypts =
          unfold decrypt in
          rw long (
            decrypt_data_lem n message sum across.secret both.decrypting _ both.receiver
              across.receiver signed)

  -- Of an empty message nothing is sent, and nothing comes.
  pub exchange_message :
      (m n : CryptoManager ssl) (message : List ℕ)
      → Synced mode m n
      → FitsCipher message
      → Exchanged m n message
  exchange_message m n [] h small = record {
    secret = [];
    sent = unfold encrypt in refl;
    received = unfold decrypt in refl;
    synced = unfold encrypt decrypt in h;
  }
  exchange_message m n (b ∷ bytes) h small = exchanged m n b bytes h small

-- What the receiver has of each message that the sender encrypts; an error of the sender is handed on.
abbrev receive :
    (ssl : OpenSsl) → CryptoManager ssl → Outcome (List ℕ) → Outcome (List ℕ) × CryptoManager ssl
receive ssl n (Outcome.ok secret) = decrypt ssl n secret
receive ssl n (Outcome.err message) = (Outcome.err message, n)
receive ssl n Outcome.fault = (Outcome.fault, n)

abbrev pub conversation :
    (ssl : OpenSsl)
    → CryptoManager ssl
    → CryptoManager ssl
    → List (List ℕ)
    → List (Outcome (List ℕ))
conversation ssl m n [] = []
conversation ssl m n (message ∷ messages) =
    let sent = encrypt ssl m message in
    let received = receive ssl n sent.0 in
    let later = conversation ssl sent.1 received.1 messages in received.0 ∷ later

module _ {ssl : OpenSsl} (mode : CtrMode ssl) where
  conversation-Synced :
      (messages : List (List ℕ)) (m n : CryptoManager ssl)
      → Synced mode m n
      → All FitsCipher messages
      → conversation ssl m n messages ≡ map Outcome.ok messages
  conversation-Synced [] m n h small = refl
  conversation-Synced (message ∷ messages) m n h (one, small) =
      let e = exchange_message mode m n message h one in
      rw e.sent (
        rw e.received (
          ap (λ (later : List (Outcome (List ℕ))). Outcome.ok message ∷ later)
            (conversation-Synced messages _ _ e.synced small)))

-- Let OpenSSL's counter mode behave as `CtrMode` says, and the key have 16, 24 or 32 bytes. If one `CryptoManager`
-- of this key encrypts a sequence of messages, empty or not, each of which with its checksum is shorter than `2 ^
-- 31` bytes, and another one of the same key decrypts what comes out, in the same order, then each message comes
-- back as it was, with no error: checksums, counters and contexts of the two stay in step.
pub conversation-create_manager :
    (ssl : OpenSsl) (mode : CtrMode ssl) (key : List ℕ) (messages : List (List ℕ))
    → is_key_size (length key) ≡ true
    → All FitsCipher messages
    → conversation ssl (create_manager ssl key) (create_manager ssl key) messages
      ≡ map Outcome.ok messages
unfolding create_manager
conversation-create_manager ssl mode key messages size small =
    conversation-Synced mode messages _ _
      (record {
        same_key = refl;
        same_block = refl;
        key_size = size;
        same_counter = refl;
        contexts = tt;
      })
      small
