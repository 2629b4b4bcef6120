-- ===== src/Stream.antt =====
-- The state and the error values of ReadOnlyBinaryStream.hpp, BinaryStream.hpp and Result.hpp
-- (include/sculk/protocol/utility). A byte is a number below 256; a buffer is a list of them.
pub mod Endian
pub mod Fixed
pub mod VarInt
pub mod Text
pub mod Containers
pub mod RoundTrip
pub mod Safety
pub mod ReadBack
use beprotocol.Common.{ℕ, ◌≤◌, ◌<◌, ◌^◌, ◌+◌, ◌≡◌, List, Bool, length, All}
use Prim.Native.String.{String}

-- `Result<T>`: a value or an error with its message. `fault` is what C++ gives no value for: an
-- exception that leaves the function, or a `bool` whose byte is neither 0 nor 1.
pub data Outcome {ℓ} (A : Type ℓ) : Type ℓ where
  ok : A → Outcome A
  err : String → Outcome A
  fault : Outcome A

-- `class ReadOnlyBinaryStream`.
pub record ReadOnlyBinaryStream : Type 0 where
  pub has_overflowed : Bool
  pub buffer_view : List ℕ
  pub read_pointer : ℕ

-- A member function that reads: it changes the stream on its error paths too.
abbrev pub Reader {ℓ} : Type ℓ → Type ℓ
Reader A = ReadOnlyBinaryStream → Outcome A × ReadOnlyBinaryStream

-- A member function that writes: `BinaryStream` is a reference to the buffer that it appends to.
abbrev pub Writer : Type 0
Writer = List ℕ → List ℕ

abbrev pub IsByte : ℕ → Type 0
IsByte b = b < 256

unfoldable pub pure {ℓ} : {A : Type ℓ} → A → Reader A
pure a s = (Outcome.ok a, s)

unfoldable pub fail {ℓ} : {A : Type ℓ} → String → Reader A
fail message s = (Outcome.err message, s)

abbrev pub and_then {ℓ κ} : {A : Type ℓ} {B : Type κ} → Outcome A → (A → Reader B) → Reader B
and_then (Outcome.ok a) f s = f a s
and_then (Outcome.err message) f s = (Outcome.err message, s)
and_then Outcome.fault f s = (Outcome.fault, s)

-- `_SCULK_READ(m)`: go on with the value, or return the error.
infixl 1 ◌>>=◌
unfoldable pub ◌>>=◌ {ℓ κ} : {A : Type ℓ} {B : Type κ} → Reader A → (A → Reader B) → Reader B
m >>= f = λ s. and_then (m s).0 f (m s).1

-- `if (!m) return makeError(message)`: the error of `m` is replaced.
abbrev pub with_message {ℓ} : {A : Type ℓ} → String → Outcome A → Outcome A
with_message message (Outcome.ok a) = Outcome.ok a
with_message message (Outcome.err _) = Outcome.err message
with_message message Outcome.fault = Outcome.fault

unfoldable pub or_error {ℓ} : {A : Type ℓ} → String → Reader A → Reader A
or_error message m s = (with_message message (m s).0, (m s).1)

infixl 1 ◌>>◌
unfoldable pub ◌>>◌ : Writer → Writer → Writer
v >> w = λ buffer. w (v buffer)

-- `size_t` is 64 bits wide.
abbrev pub IsSize : ℕ → Type 0
IsSize n = n < 2 ^ 64
