-- ===== src/Connection/Crypto/InStep.antt =====
-- Two managers with the same key, one that encrypts and one that decrypts, stay in step.
use beprotocol.Common.{
  ℕ, ◌+◌, ◌-◌, ◌%◌, ◌^◌, ◌<◌, ◌≡◌, refl, sym, ap, ◌∙◌, List, [], ◌∷◌, ◌++◌, Bool, true, false,
  Option, none, some, length, ltb, arith, length-append, take-append, drop-append, length-take,
}
use beprotocol.Stream.{Outcome}
use beprotocol.Connection.Crypto.{
  OpenSsl, CryptoManager, same_bytes, is_key_size, first_eight, checksum, start_cipher,
  initialize_cipher, ready, whole_output, ctr_crypt, encrypt, verify,
}

-- Counter mode, as OpenSSL documents it: a cipher can be had for the sizes of keys that AES knows, for both
-- directions; an update with a length that is positive as an `int` puts out as many bytes as it is given; and a
-- context that decrypts, started and updated like one that encrypts, undoes it.
pub record CtrMode (ssl : OpenSsl) : Type 1 where
  pub InStep : ssl.Context → ssl.Context → Type 0
  pub fresh : ssl.Context
  pub is_fresh : ssl.cipher_new ≡ some fresh
  pub starts :
      (key block : List ℕ)
      → is_key_size (length key) ≡ true
      → ((ssl.cipher_init fresh key block true).0 ≡ true)
        × ((ssl.cipher_init fresh key block false).0 ≡ true)
        × InStep (ssl.cipher_init fresh key block true).1 (ssl.cipher_init fresh key block false).1
  pub updates :
      (c d : ssl.Context) (clear : List ℕ)
      → InStep c d
      → 0 < length clear
      → length clear < 2 ^ 31
      → (secret : List ℕ) × ((ssl.cipher_update c clear (length clear)).0 ≡ some secret)
        × (length secret ≡ length clear)
        × ((ssl.cipher_update d secret (length clear)).0 ≡ some clear)
        × InStep
            (ssl.cipher_update c clear (length clear)).1
            (ssl.cipher_update d secret (length clear)).1

same_bytes_self : (xs : List ℕ) → same_bytes xs xs ≡ true
unfolding same_bytes
same_bytes_self [] = refl
same_bytes_self (x ∷ xs) = ground (arith, same_bytes_self xs)

whole_output_lem :
    (size : ℕ) (bytes : List ℕ)
    → length bytes ≡ size
    → whole_output size (some bytes) ≡ Outcome.ok bytes
unfolding whole_output
whole_output_lem size bytes e = ground arith

module _ (ssl : OpenSsl) where
  length-first_eight : (digest : Option (List ℕ)) → length (first_eight digest) ≡ 8
  unfolding first_eight
  length-first_eight none = refl
  length-first_eight (some digest) = ground (arith, length-take 8 digest)

  pub length-checksum :
      (key : List ℕ) (counter : ℕ) (payload : List ℕ)
      → length (checksum ssl key counter payload) ≡ 8
  unfolding checksum
  length-checksum key counter payload = length-first_eight _

  -- What was signed is found valid by a manager whose key and counter are the same.
  pub verify-signed :
      (m : CryptoManager ssl) (payload sum : List ℕ)
      → sum ≡ checksum ssl m.key_bytes m.decrypt_counter payload
      → verify ssl m (payload ++ sum)
        ≡ (true, record m { decrypt_counter = (m.decrypt_counter + 1) % 2 ^ 64 })
  unfolding verify
  verify-signed m payload sum e =
      rw (long, size)
        (rw (take-append payload sum, drop-append payload sum)
          (rw (← e) (rw (same_bytes_self sum))))
    where
      whole : length (payload ++ sum) ≡ length payload + 8
      whole =
          length-append payload sum
          ∙ ap (λ (n : ℕ). length payload + n) (ap length e ∙ length-checksum _ _ payload)

      long : ltb (length (payload ++ sum)) 8 ≡ false
      long = ground (arith, whole)

      size : length (payload ++ sum) - 8 ≡ length payload
      size = omega (arith, whole)

-- The contexts of the two sides: neither is there yet, or both are and are in step.
abbrev ContextsInStep :
    {ssl : OpenSsl} (mode : CtrMode ssl) → Option ssl.Context → Option ssl.Context → Type 0
ContextsInStep mode none none = Unit
ContextsInStep mode none (some d) = ⊥
ContextsInStep mode (some c) none = ⊥
ContextsInStep mode (some c) (some d) = mode.InStep c d

-- A sender and a receiver with the same key and the same count of messages.
pub record Synced {ssl : OpenSsl} (mode : CtrMode ssl) (m n : CryptoManager ssl) : Type 0 where
  pub same_key : m.key_bytes ≡ n.key_bytes
  pub same_block : m.initial_counter_block ≡ n.initial_counter_block
  pub key_size : is_key_size (length n.key_bytes) ≡ true
  pub same_counter : m.encrypt_counter ≡ n.decrypt_counter
  pub contexts : ContextsInStep mode m.encrypt_ctx n.decrypt_ctx

module _ {ssl : OpenSsl} (mode : CtrMode ssl) where
  -- Both sides get a context, and these are in step.
  pub record BothReady (m n : CryptoManager ssl) (c d : Option ssl.Context) : Type 0 where
    pub encrypting : ssl.Context
    pub decrypting : ssl.Context
    pub sender : ready ssl m true c ≡ (true, some encrypting)
    pub receiver : ready ssl n false d ≡ (true, some decrypting)
    pub in_step : mode.InStep encrypting decrypting

  started :
      (m : CryptoManager ssl) (encrypt : Bool)
      → is_key_size (length m.key_bytes) ≡ true
      → (ssl.cipher_init mode.fresh m.key_bytes m.initial_counter_block encrypt).0 ≡ true
      → ready ssl m encrypt none
        ≡ (true, some (ssl.cipher_init mode.fresh m.key_bytes m.initial_counter_block encrypt).1)
  unfolding ready initialize_cipher start_cipher
  started m encrypt size works = rw (size, mode.is_fresh) (rw works)

  pub both_ready :
      (m n : CryptoManager ssl) (c d : Option ssl.Context)
      → m.key_bytes ≡ n.key_bytes
      → m.initial_counter_block ≡ n.initial_counter_block
      → is_key_size (length n.key_bytes) ≡ true
      → ContextsInStep mode c d
      → BothReady m n c d
  both_ready m n none none same_key same_block size h =
      let (sends, receives, in_step) = mode.starts n.key_bytes n.initial_counter_block size in
      record {
        encrypting = (ssl.cipher_init mode.fresh n.key_bytes n.initial_counter_block true).1;
        decrypting = (ssl.cipher_init mode.fresh n.key_bytes n.initial_counter_block false).1;
        sender =
            rw (← same_key, ← same_block)
              (started m true (rw same_key size) (rw (same_key, same_block) sends));
        receiver = started n false size receives;
        in_step = in_step;
      }
  both_ready m n none (some d) same_key same_block size h = elim h [ ]
  both_ready m n (some c) none same_key same_block size h = elim h [ ]
  both_ready m n (some c) (some d) same_key same_block size h = record {
    encrypting = c;
    decrypting = d;
    sender = unfold ready in refl;
    receiver = unfold ready in refl;
    in_step = h;
  }

  -- The bytes in between, and what both sides become.
  pub record Crossed (c d : ssl.Context) (clear : List ℕ) : Type 0 where
    pub secret : List ℕ
    pub sender :
        ctr_crypt ssl (some c) clear
        ≡ (Outcome.ok secret, some (ssl.cipher_update c clear (length clear)).1)
    pub same_length : length secret ≡ length clear
    pub receiver :
        ctr_crypt ssl (some d) secret
        ≡ (Outcome.ok clear, some (ssl.cipher_update d secret (length clear)).1)
    pub in_step :
        mode.InStep
          (ssl.cipher_update c clear (length clear)).1
          (ssl.cipher_update d secret (length clear)).1

  ctr_crypt_lem :
      (c : ssl.Context) (bytes output : List ℕ) (n : ℕ)
      → 0 < length bytes
      → length bytes < 2 ^ 31
      → length bytes ≡ n
      → (ssl.cipher_update c bytes n).0 ≡ some output
      → length output ≡ length bytes
      → ctr_crypt ssl (some c) bytes ≡ (Outcome.ok output, some (ssl.cipher_update c bytes n).1)
  unfolding ctr_crypt
  ctr_crypt_lem c [] output n h small count e same = absurd (omega arith)
  ctr_crypt_lem c (b ∷ bytes) output n h small count e same =
      rw as_int (rw e (rw (whole_output_lem (length (b ∷ bytes)) output same)))
    where
      as_int : length (b ∷ bytes) % 2 ^ 32 ≡ n
      as_int = omega (arith, small, count)

  pub crossed :
      (c d : ssl.Context) (clear : List ℕ)
      → mode.InStep c d
      → 0 < length clear
      → length clear < 2 ^ 31
      → Crossed c d clear
  crossed c d clear h nonempty small =
      let (secret, sends, same, receives, in_step) = mode.updates c d clear h nonempty small in
      record {
        secret = secret;
        sender = ctr_crypt_lem c clear secret (length clear) nonempty small refl sends same;
        same_length = same;
        receiver =
            ctr_crypt_lem d secret clear (length clear) (omega arith) (omega arith) same receives
              (sym same);
        in_step = in_step;
      }
