-- ===== src/Connection/Batch/Total.antt =====
-- The loop of `deserializeBatchPackets` comes to an end on any bytes: each round that goes on has
-- moved the read pointer forward.
use beprotocol.Common.{
  ℕ, zero, suc, ◌+◌, ◌-◌, ◌^◌, ◌≤◌, ◌<◌, ◌≡◌, ap, subst, List, [], ◌∷◌, length, Bool, true, false,
  ltb, ◌==◌, drop, if◌then◌else◌, arith,
}
use beprotocol.Stream.{
  Outcome, ReadOnlyBinaryStream, Reader, IsSize, pure, ◌>>=◌, or_error, with_message, and_then,
}
use beprotocol.Stream.Fixed.{
  read_bytes, exceeds, overflow, has_data_left, open_stream, slice, add_size,
}
use beprotocol.Stream.VarInt.{read_unsigned_var_int}
use beprotocol.Stream.Safety.{
  InBounds, Moves, Moves-InBounds, IsSafe, IsSafe-bind, IsSafe-or_error, IsSafe-answer,
}
use beprotocol.Stream.Safety.Words.{IsSafe-unsigned_var_int, IsSafe-bytes, IsSafe-branch}
use beprotocol.Stream.Safety.Gains.{Advances, Advances-groups}
use beprotocol.Connection.Batch.{read_framed, read_batch, parse_batch}
use Prim.Native.String.{String}

-- A reader that returns: with a value or with an error.
abbrev Returns {ℓ} : {A : Type ℓ} → Outcome A → Type 0
Returns (Outcome.ok a) = Unit
Returns (Outcome.err message) = Unit
Returns Outcome.fault = ⊥

Advances-or_error {ℓ} :
    {A : Type ℓ} (p : ℕ) (message : String) (r : Outcome A) (t : ReadOnlyBinaryStream)
    → Advances p r t
    → Advances p (with_message message r) t
Advances-or_error p message (Outcome.ok a) t h = h
Advances-or_error p message (Outcome.err _) t h = tt
Advances-or_error p message Outcome.fault t h = elim h [ ]

-- What returns past an advance has advanced.
Advances-forward {ℓ} :
    {A : Type ℓ} (p : ℕ) (r : Outcome A) (t u : ReadOnlyBinaryStream)
    → p < t.read_pointer
    → t.read_pointer ≤ u.read_pointer
    → Returns r
    → Advances p r u
Advances-forward p (Outcome.ok a) t u h forward _ = omega arith
Advances-forward p (Outcome.err message) t u h forward _ = tt
Advances-forward p Outcome.fault t u h forward back = elim back [ ]

Advances-and_then {ℓ κ} :
    {A : Type ℓ} {B : Type κ} (p : ℕ) (r : Outcome A) (f : A → Reader B) (t : ReadOnlyBinaryStream)
    → InBounds t
    → Advances p r t
    → ((a : A) → IsSafe (f a))
    → ((a : A) (u : ReadOnlyBinaryStream) → Returns (f a u).0)
    → Advances p (and_then r f t).0 (and_then r f t).1
Advances-and_then p (Outcome.ok a) f t b h safe back =
    Advances-forward p (f a t).0 t (f a t).1 h ((safe a).moves t b).forward (back a t)
Advances-and_then p (Outcome.err message) f t b h safe back = tt
Advances-and_then p Outcome.fault f t b h safe back = elim h [ ]

abbrev payload : ℕ → Reader (List ℕ)
payload size s =
    if ltb (length s.buffer_view - s.read_pointer) size
    then (Outcome.err "batched packet size exceeds remaining payload", s)
    else or_error "failed to read batched packet payload" (read_bytes size) s

Returns-if {ℓ} :
    {A : Type ℓ} (c : Bool) (x y : Outcome A × ReadOnlyBinaryStream)
    → Returns x.0
    → Returns y.0
    → Returns (if c then x else y).0
Returns-if true x y hx hy = hx
Returns-if false x y hx hy = hy

Returns-or_error {ℓ} :
    {A : Type ℓ} (message : String) (r : Outcome A) → Returns r → Returns (with_message message r)
Returns-or_error message (Outcome.ok a) h = tt
Returns-or_error message (Outcome.err _) h = tt
Returns-or_error message Outcome.fault h = elim h [ ]

Returns-read_bytes : (n : ℕ) (s : ReadOnlyBinaryStream) → Returns (read_bytes n s).0
unfolding read_bytes
Returns-read_bytes n s =
    let failed : Outcome (List ℕ) × ReadOnlyBinaryStream =
      overflow "ReadOnlyBinaryStream::readBytes overflowed" s in
    let flagged : Outcome (List ℕ) × ReadOnlyBinaryStream =
      (Outcome.err "ReadOnlyBinaryStream::readBytes overflowed", s) in
    let nothing : Outcome (List ℕ) × ReadOnlyBinaryStream = (Outcome.ok [], s) in
    let done : Outcome (List ℕ) × ReadOnlyBinaryStream =
      (Outcome.ok (slice n s), record s { read_pointer = add_size s.read_pointer n }) in
    let bounded = if exceeds n s then failed else done in
    let some_bytes = if n == 0 then nothing else bounded in
    Returns-if s.has_overflowed flagged some_bytes tt
      (Returns-if (n == 0) nothing bounded tt (Returns-if (exceeds n s) failed done tt tt))

Returns-payload : (size : ℕ) (s : ReadOnlyBinaryStream) → Returns (payload size s).0
unfolding or_error
Returns-payload size s =
    let failed : Outcome (List ℕ) × ReadOnlyBinaryStream =
      (Outcome.err "batched packet size exceeds remaining payload", s) in
    let bytes = or_error "failed to read batched packet payload" (read_bytes size) s in
    Returns-if (ltb (length s.buffer_view - s.read_pointer) size) failed bytes tt
      (Returns-or_error _ (read_bytes size s).0 (Returns-read_bytes size s))

-- The test whether a batched packet is as long as announced.
abbrev too_long : ℕ → ReadOnlyBinaryStream → Bool
too_long size s = ltb (length s.buffer_view - s.read_pointer) size

abbrev size_error : Reader (List ℕ)
size_error s = (Outcome.err "batched packet size exceeds remaining payload", s)

IsSafe-payload : (size : ℕ) → IsSafe (payload size)
IsSafe-payload size =
    IsSafe-branch (too_long size) size_error
      (or_error "failed to read batched packet payload" (read_bytes size))
      (IsSafe-answer (Outcome.err "batched packet size exceeds remaining payload"))
      (IsSafe-or_error _ _ (IsSafe-bytes size))

pub IsSafe-framed : IsSafe read_framed
unfolding read_framed
IsSafe-framed = IsSafe-bind _ _ (IsSafe-or_error _ _ IsSafe-unsigned_var_int) IsSafe-payload

abbrev read_size : Reader ℕ
read_size = or_error "failed to read batched packet size" read_unsigned_var_int

IsSafe-size : IsSafe read_size
IsSafe-size = IsSafe-or_error _ _ IsSafe-unsigned_var_int

Advances-size : (s : ReadOnlyBinaryStream) → Advances s.read_pointer (read_size s).0 (read_size s).1
unfolding or_error read_unsigned_var_int
Advances-size s =
    Advances-or_error s.read_pointer _ (read_unsigned_var_int s).0 (read_unsigned_var_int s).1 (
      Advances-groups 35 28 0x70 (2 ^ 32) _ s.read_pointer (drop s.read_pointer s.buffer_view) 0 0 s
        (omega arith))

Advances-framed :
    (s : ReadOnlyBinaryStream)
    → InBounds s
    → Advances s.read_pointer (read_framed s).0 (read_framed s).1
unfolding read_framed ◌>>=◌
Advances-framed s h =
    Advances-and_then s.read_pointer (read_size s).0 payload (read_size s).1
      (Moves-InBounds (IsSafe-size.moves s h)) (Advances-size s) IsSafe-payload Returns-payload

-- The rest of a round, when the packets that follow have been read or have failed.
Returns-later :
    (packet : List ℕ) (r : Outcome (List (List ℕ))) (t : ReadOnlyBinaryStream)
    → Returns r
    → Returns (and_then r (λ packets. pure (packet ∷ packets)) t).0
unfolding pure
Returns-later packet (Outcome.ok packets) t h = tt
Returns-later packet (Outcome.err message) t h = tt
Returns-later packet Outcome.fault t h = elim h [ ]

Returns-round :
    (fuel p : ℕ) (r : Outcome (List ℕ)) (t : ReadOnlyBinaryStream)
    → Advances p r t
    → ((p < t.read_pointer) → Returns (read_batch fuel t).0)
    → Returns (and_then r (λ packet. read_batch fuel >>= λ packets. pure (packet ∷ packets)) t).0
unfolding ◌>>=◌
Returns-round fuel p (Outcome.ok packet) t h later =
    Returns-later packet (read_batch fuel t).0 (read_batch fuel t).1 (later h)
Returns-round fuel p (Outcome.err message) t h later = tt
Returns-round fuel p Outcome.fault t h later = elim h [ ]

Returns-read_batch :
    (fuel : ℕ) (s : ReadOnlyBinaryStream)
    → InBounds s
    → length s.buffer_view < s.read_pointer + fuel
    → Returns (read_batch fuel s).0
unfolding read_batch ◌>>=◌
Returns-read_batch zero s h enough = elim (no_fuel h.0 enough) [ ]
  where
    no_fuel : s.read_pointer ≤ length s.buffer_view → length s.buffer_view < s.read_pointer + 0 → ⊥
    no_fuel low high = omega arith
Returns-read_batch (suc fuel) s h enough =
    let round : Reader (List (List ℕ)) =
      read_framed >>= λ packet. read_batch fuel >>= λ packets. pure (packet ∷ packets) in
    let nothing : Outcome (List (List ℕ)) × ReadOnlyBinaryStream = (Outcome.ok [], s) in
    Returns-if (has_data_left s) (round s) nothing
      (Returns-round fuel s.read_pointer (read_framed s).0 (read_framed s).1 (Advances-framed s h)
        (λ forward.
          Returns-read_batch fuel (read_framed s).1 (Moves-InBounds moved) (still moved forward)))
      tt
  where
    moved : Moves s (read_framed s).1
    moved = IsSafe-framed.moves s h

    still :
        Moves s (read_framed s).1
        → s.read_pointer < (read_framed s).1.read_pointer
        → length (read_framed s).1.buffer_view < (read_framed s).1.read_pointer + fuel
    still m forward = omega (arith, ap (λ (b : List ℕ). length b) m.same_buffer)

-- The loop of `deserializeBatchPackets` returns, with packets or with an error, on any buffer of less than
-- `2 ^ 64` bytes, well formed or not; `fault` would stand for a loop that goes on.
pub parse_batch-returns :
    (buffer : List ℕ) → IsSize (length buffer) → ¬ (parse_batch buffer ≡ Outcome.fault)
unfolding parse_batch open_stream
parse_batch-returns buffer size e =
    subst (λ (r : Outcome (List (List ℕ))). Returns r) e
      (Returns-read_batch (suc (length buffer)) (open_stream buffer) (omega arith, size)
        (omega arith))
