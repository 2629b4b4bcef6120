-- ===== src/Stream/Safety.antt =====
-- Reading any bytes, well formed or not: the read pointer goes forward and stays in the buffer.
pub mod Words
pub mod Containers
pub mod Readers
pub mod Gains
use beprotocol.Common.{
  ℕ, ◌≤◌, ◌<◌, ◌^◌, ◌≡◌, refl, List, length, Bool, true, ◌∙◌, subst, arith, sym,
}
use beprotocol.Stream.{Outcome, ReadOnlyBinaryStream, Reader, pure, fail, and_then, ◌>>=◌, or_error}
use Prim.Native.String.{String}

-- A buffer has a size, and the pointer is not past it.
abbrev pub InBounds : ReadOnlyBinaryStream → Type 0
InBounds s = (s.read_pointer ≤ length s.buffer_view) × (length s.buffer_view < 2 ^ 64)

-- From `s` to `t` the buffer is the same, the pointer goes forward and stays inside, and the
-- overflow flag is not taken back.
pub record Moves (s t : ReadOnlyBinaryStream) : Type 0 where
  pub same_buffer : t.buffer_view ≡ s.buffer_view
  pub forward : s.read_pointer ≤ t.read_pointer
  pub inside : t.read_pointer ≤ length s.buffer_view
  pub bounded : length s.buffer_view < 2 ^ 64
  pub sticky : s.has_overflowed ≡ true → t.has_overflowed ≡ true

pub record IsSafe {ℓ} {A : Type ℓ} (m : Reader A) : Type 0 where
  pub moves : (s : ReadOnlyBinaryStream) → InBounds s → Moves s (m s).1

pub Moves-stay : (s : ReadOnlyBinaryStream) → InBounds s → Moves s s
Moves-stay s h = record {
  same_buffer = refl;
  forward = omega arith;
  inside = h.0;
  bounded = h.1;
  sticky = λ e. e;
}

pub Moves-InBounds : {s t : ReadOnlyBinaryStream} → Moves s t → InBounds t
Moves-InBounds {s} {t} m =
    subst (λ (b : List ℕ). (t.read_pointer ≤ length b) × (length b < 2 ^ 64)) (sym m.same_buffer)
      (m.inside, m.bounded)

pub Moves-trans : {s t u : ReadOnlyBinaryStream} → Moves s t → Moves t u → Moves s u
Moves-trans {s} {t} {u} m n = record {
  same_buffer = n.same_buffer ∙ m.same_buffer;
  forward = omega (arith, m.forward, n.forward);
  inside = subst (λ (b : List ℕ). u.read_pointer ≤ length b) m.same_buffer n.inside;
  bounded = m.bounded;
  sticky = λ e. n.sticky (m.sticky e);
}

module _ {ℓ κ} {A : Type ℓ} {B : Type κ} where
  Moves-and_then :
      (r : Outcome A) (f : A → Reader B) (s t : ReadOnlyBinaryStream)
      → Moves s t
      → ((a : A) → IsSafe (f a))
      → Moves s (and_then r f t).1
  Moves-and_then (Outcome.ok a) f s t m h = Moves-trans m ((h a).moves t (Moves-InBounds m))
  Moves-and_then (Outcome.err message) f s t m h = m
  Moves-and_then Outcome.fault f s t m h = m

  pub IsSafe-bind :
      (m : Reader A) (f : A → Reader B) → IsSafe m → ((a : A) → IsSafe (f a)) → IsSafe (m >>= f)
  unfolding ◌>>=◌
  IsSafe-bind m f hm hf = record {
    moves = λ s h. Moves-and_then (m s).0 f s (m s).1 (hm.moves s h) hf;
  }

module _ {ℓ} {A : Type ℓ} where
  pub IsSafe-pure : (a : A) → IsSafe (pure a)
  unfolding pure
  IsSafe-pure a = record { moves = λ s h. Moves-stay s h }

  pub IsSafe-fail : (message : String) → IsSafe (fail {A = A} message)
  unfolding fail
  IsSafe-fail message = record { moves = λ s h. Moves-stay s h }

  pub IsSafe-or_error : (message : String) (m : Reader A) → IsSafe m → IsSafe (or_error message m)
  unfolding or_error
  IsSafe-or_error message m h = record { moves = λ s b. h.moves s b }

  -- An answer that does not touch the stream.
  pub IsSafe-answer : (r : Outcome A) → IsSafe (λ s. (r, s))
  IsSafe-answer r = record { moves = λ s h. Moves-stay s h }
