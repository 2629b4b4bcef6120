-- ===== src/Stream/RoundTrip.antt =====
-- What it means that a reader undoes a writer, with the rules for the two ways in which the codecs
-- of include/sculk/protocol/utility are put together: one after the other, and by branches.
use beprotocol.Common.{
  ℕ, ◌≡◌, sym, ap, ◌∙◌, List, [], ◌++◌, append-nil, append_assoc, length, false,
}
use beprotocol.Stream.{
  Outcome, ReadOnlyBinaryStream, Reader, Writer, IsSize, pure, ◌>>=◌, ◌>>◌, or_error,
}
use Prim.Native.String.{String}
use mathlib.Core.Path.{subst}

-- A stream that has read `before` and has `rest` left.
abbrev pub positioned : List ℕ → List ℕ → ReadOnlyBinaryStream
positioned before rest = record {
  has_overflowed = false;
  buffer_view = before ++ rest;
  read_pointer = length before;
}

-- Wherever `bytes` stand in a buffer, `m` reads exactly these and returns `a`.
pub record Decodes {ℓ} {A : Type ℓ} (m : Reader A) (bytes : List ℕ) (a : A) : Type ℓ where
  pub decode :
      (before rest : List ℕ)
      → IsSize (length (before ++ (bytes ++ rest)))
      → m (positioned before (bytes ++ rest)) ≡ (Outcome.ok a, positioned (before ++ bytes) rest)

-- `w` appends some bytes to whatever buffer it is given, and `m` reads `a` back from these bytes
-- and no others.
pub record RoundTrips {ℓ} {A : Type ℓ} (w : Writer) (m : Reader A) (a : A) : Type ℓ where
  pub bytes : List ℕ
  pub written : (buffer : List ℕ) → w buffer ≡ buffer ++ bytes
  pub decoded : Decodes m bytes a

module _ {ℓ κ} {A : Type ℓ} {B : Type κ} where
  pub Decodes-bind :
      (m : Reader A) (f : A → Reader B) {bs cs : List ℕ} {a : A} {b : B}
      → Decodes m bs a
      → Decodes (f a) cs b
      → Decodes (m >>= f) (bs ++ cs) b
  unfolding ◌>>=◌
  Decodes-bind m f {bs} {cs} {a} {b} d e = record { decode = go }
    where
      go :
          (before rest : List ℕ)
          → IsSize (length (before ++ ((bs ++ cs) ++ rest)))
          → (m >>= f) (positioned before ((bs ++ cs) ++ rest))
            ≡ (Outcome.ok b, positioned (before ++ (bs ++ cs)) rest)
      go before rest fits = rw (append_assoc bs cs rest) (
          rw (d.decode before (cs ++ rest) fits')
            (e.decode (before ++ bs) rest fits'' ∙ ap done (append_assoc before bs cs)))
        where
          done : List ℕ → Outcome B × ReadOnlyBinaryStream
          done pre = (Outcome.ok b, positioned pre rest)

          fits' : IsSize (length (before ++ (bs ++ (cs ++ rest))))
          fits' =
              subst (λ (t : List ℕ). IsSize (length (before ++ t))) (append_assoc bs cs rest) fits

          fits'' : IsSize (length ((before ++ bs) ++ (cs ++ rest)))
          fits'' =
              subst (λ (t : List ℕ). IsSize (length t)) (sym (append_assoc before bs (cs ++ rest)))
                fits'

  -- A reader that goes on after the last byte, without reading.
  pub Decodes-then :
      (m : Reader A) (f : A → Reader B) {bs : List ℕ} {a : A} {b : B}
      → Decodes m bs a
      → ((s : ReadOnlyBinaryStream) → f a s ≡ (Outcome.ok b, s))
      → Decodes (m >>= f) bs b
  unfolding ◌>>=◌
  Decodes-then m f {bs} {a} d e = record {
    decode =
        λ before rest fits. rw (d.decode before rest fits) (e (positioned (before ++ bs) rest));
  }

  -- One after the other: the first writer's bytes are read first.
  pub RoundTrips-bind :
      (w v : Writer) (m : Reader A) (f : A → Reader B) {a : A} {b : B}
      → RoundTrips w m a
      → RoundTrips v (f a) b
      → RoundTrips (w >> v) (m >>= f) b
  unfolding ◌>>◌
  RoundTrips-bind w v m f r t = record {
    bytes = r.bytes ++ t.bytes;
    written = λ buffer.
        rw (r.written buffer) (t.written (buffer ++ r.bytes) ∙ append_assoc buffer r.bytes t.bytes);
    decoded = Decodes-bind m f r.decoded t.decoded;
  }

  pub RoundTrips-last :
      (w : Writer) (m : Reader A) (f : A → Reader B) {a : A} {b : B}
      → RoundTrips w m a
      → f a ≡ pure b
      → RoundTrips w (m >>= f) b
  unfolding pure
  RoundTrips-last w m f {b = b} r e = record {
    bytes = r.bytes;
    written = r.written;
    decoded = Decodes-then m f r.decoded (λ s. ap (λ (g : Reader B). g s) e);
  }

module _ {ℓ} {A : Type ℓ} where
  unfoldable pub RoundTrips-or_error :
      (message : String) {w : Writer} (m : Reader A) {a : A}
      → RoundTrips w m a
      → RoundTrips w (or_error message m) a
  unfolding or_error
  RoundTrips-or_error message m r = record {
    bytes = r.bytes;
    written = r.written;
    decoded = record { decode = λ before rest fits. rw (r.decoded.decode before rest fits) };
  }

  -- Nothing is written, and the reader answers at once.
  pub RoundTrips-pure : (a : A) → RoundTrips (λ buffer. buffer) (pure a) a
  unfolding pure
  RoundTrips-pure a = record {
    bytes = [];
    written = λ buffer. sym (append-nil buffer);
    decoded = record { decode = λ before rest fits. rw append-nil };
  }

  -- Whatever `w` writes into an empty buffer, `m` reads it back to the last byte.
  pub RoundTrips-whole :
      {w : Writer} {m : Reader A} {a : A}
      → RoundTrips w m a
      → IsSize (length (w []))
      → m (record { has_overflowed = false; buffer_view = w []; read_pointer = 0 })
        ≡ (Outcome.ok a, positioned (w []) [])
  RoundTrips-whole {m = m} r fits = rw (r.written []) (
      subst (λ (t : List ℕ). m (positioned [] t) ≡ (Outcome.ok _, positioned r.bytes []))
        (append-nil r.bytes)
        (r.decoded.decode [] [] (
          subst (λ (t : List ℕ). IsSize (length t)) (r.written [] ∙ sym (append-nil r.bytes))
            fits)))

-- A stream over `bytes` whose first `n` have been read.
abbrev pub reading : ℕ → List ℕ → ReadOnlyBinaryStream
reading n bytes = record { has_overflowed = false; buffer_view = bytes; read_pointer = n }

-- Where `w` has written behind `buffer`, with `rest` behind that, `m` reads `a` and stops before `rest`.
abbrev pub ReadsBack {ℓ} : {A : Type ℓ} → Writer → Reader A → A → List ℕ → List ℕ → Type ℓ
ReadsBack w m a buffer rest =
    m (reading (length buffer) (w buffer ++ rest))
    ≡ (Outcome.ok a, reading (length (w buffer)) (w buffer ++ rest))

pub RoundTrips-ReadsBack {ℓ} :
    {A : Type ℓ} {w : Writer} {m : Reader A} {a : A}
    → RoundTrips w m a
    → (buffer rest : List ℕ) → IsSize (length (w buffer ++ rest))
    → ReadsBack w m a buffer rest
RoundTrips-ReadsBack {w = w} {m = m} {a = a} r buffer rest size = rw (r.written buffer) (
    subst
      (λ (t : List ℕ).
        m (reading (length buffer) t)
        ≡ (Outcome.ok a, reading (length (buffer ++ r.bytes)) ((buffer ++ r.bytes) ++ rest)))
      (sym (append_assoc buffer r.bytes rest))
      (r.decoded.decode buffer rest (
        subst (λ (t : List ℕ). IsSize (length t))
          (ap (λ (t : List ℕ). t ++ rest) (r.written buffer) ∙ append_assoc buffer r.bytes rest)
          size)))
