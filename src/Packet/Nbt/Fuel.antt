-- ===== src/Packet/Nbt/Fuel.antt =====
-- Reading a named binary tag from any bytes: where the reader moves, and its fuel.
use beprotocol.Common.{
  ℕ, zero, suc, ◌+◌, ◌^◌, ◌<◌, ◌≡◌, refl, ap, subst, ◌∙◌, List, [], length, Bool, true, false, leb,
  ◌==◌, if◌then◌else◌, arith, sym, Option, none,
}
use Prim.Native.String.{String}
use beprotocol.Stream.{Outcome, ReadOnlyBinaryStream, Reader, pure, ◌>>=◌, and_then}
use beprotocol.Stream.Fixed.{read_byte}
use beprotocol.Stream.Containers.{uint8, read_elements, emplace}
use beprotocol.Stream.Safety.{
  InBounds, Moves, Moves-InBounds, IsSafe, IsSafe-bind, IsSafe-pure, IsSafe-fail, IsSafe-answer,
}
use beprotocol.Stream.Safety.Words.{
  IsSafe-ignore_bytes, IsSafe-byte, IsSafe-signed_char, IsSafe-signed_short, IsSafe-float,
  IsSafe-double, IsSafe-var_int, IsSafe-var_int64, IsSafe-string, IsSafe-if,
}
use beprotocol.Stream.Safety.Containers.{IsSafe-enum, IsSafe-elements}
use beprotocol.Stream.Safety.Gains.{GainsAt, Gains, Gains-byte, Gains-enum, Gains-string}
use beprotocol.Packet.Nbt.{
  Tag, spent, read_resized, string_less, entries_of, TagType, emplace_type, read_tag,
  read_entries_tag, deserialize_compound, read_compound,
}
use beprotocol.Packet.Nbt.Leaves.{read_type}

IsSafe-type : IsSafe read_type
IsSafe-type = IsSafe-enum uint8 uint8 read_byte IsSafe-byte

Gains-type : Gains read_type
Gains-type = Gains-enum uint8 uint8 read_byte IsSafe-byte Gains-byte

IsSafe-resized {ℓ} : {A : Type ℓ} (func : Reader A) → IsSafe func → IsSafe (read_resized func)
unfolding read_resized
IsSafe-resized func h = IsSafe-bind _ _ IsSafe-var_int (λ size.
    IsSafe-if (leb (2 ^ 31) size) _ _ (IsSafe-answer Outcome.fault) (IsSafe-elements func h size))

mutual
  unfolding read_tag read_entries_tag

  pub IsSafe-tag : (out : Option String) (fuel : ℕ) (t : TagType) → IsSafe (read_tag out fuel t)
  IsSafe-tag out fuel TagType.end = IsSafe-pure _
  IsSafe-tag out fuel TagType.byte = IsSafe-bind _ _ IsSafe-signed_char (λ v. IsSafe-pure _)
  IsSafe-tag out fuel TagType.short = IsSafe-bind _ _ IsSafe-signed_short (λ v. IsSafe-pure _)
  IsSafe-tag out fuel TagType.int = IsSafe-bind _ _ IsSafe-var_int (λ v. IsSafe-pure _)
  IsSafe-tag out fuel TagType.long = IsSafe-bind _ _ IsSafe-var_int64 (λ v. IsSafe-pure _)
  IsSafe-tag out fuel TagType.float = IsSafe-bind _ _ IsSafe-float (λ v. IsSafe-pure _)
  IsSafe-tag out fuel TagType.double = IsSafe-bind _ _ IsSafe-double (λ v. IsSafe-pure _)
  IsSafe-tag out fuel TagType.byte_array =
      IsSafe-bind _ _ (IsSafe-resized _ IsSafe-signed_char) (λ v. IsSafe-pure _)
  IsSafe-tag out fuel TagType.string = IsSafe-bind _ _ IsSafe-string (λ v. IsSafe-pure _)
  IsSafe-tag out zero TagType.list = IsSafe-answer (spent out)
  IsSafe-tag out (suc fuel) TagType.list = IsSafe-bind _ _ IsSafe-type (λ type.
      IsSafe-bind _ _ (IsSafe-resized _ (IsSafe-tag out fuel (emplace_type type)))
        (λ v. IsSafe-pure _))
  IsSafe-tag out zero TagType.compound = IsSafe-answer (spent out)
  IsSafe-tag out (suc fuel) TagType.compound =
      IsSafe-bind _ _ (IsSafe-entries out fuel []) (λ v. IsSafe-pure _)
  IsSafe-tag out fuel TagType.int_array =
      IsSafe-bind _ _ (IsSafe-resized _ IsSafe-var_int) (λ v. IsSafe-pure _)

  pub IsSafe-entries :
      (out : Option String) (fuel : ℕ) (es : List (List ℕ × Tag))
      → IsSafe (read_entries_tag out fuel es)
  IsSafe-entries out zero es = IsSafe-answer (spent out)
  IsSafe-entries out (suc fuel) es = IsSafe-bind _ _ IsSafe-type (λ type.
      IsSafe-if (type == 0) _ _ (IsSafe-pure es) (
        IsSafe-bind _ _ IsSafe-string (λ key.
          IsSafe-bind _ _ (IsSafe-tag out fuel (emplace_type type))
            (λ v. IsSafe-entries out fuel _))))

-- On streams with fewer than `n` bytes left, the two do the same.
record Agree {ℓ} (n : ℕ) {A : Type ℓ} (m m' : Reader A) : Type ℓ where
  agree :
      (s : ReadOnlyBinaryStream)
      → InBounds s
      → length s.buffer_view < n + s.read_pointer
      → m s ≡ m' s

IsSafe-deserialize : IsSafe deserialize_compound
unfolding deserialize_compound
IsSafe-deserialize =
    IsSafe-bind _ _
      (record { moves = λ s b. (IsSafe-entries none (suc (length s.buffer_view)) []).moves s b })
      (λ es. IsSafe-pure _)

IsSafe-compound : IsSafe read_compound
unfolding read_compound
IsSafe-compound = IsSafe-bind _ _ IsSafe-type (λ root.
    IsSafe-if (root == 10) _ _ (IsSafe-bind _ _ (IsSafe-ignore_bytes 1) (λ _. IsSafe-deserialize))
      (IsSafe-fail _))

-- No stream has fewer than no bytes left.
Agree-none {ℓ} : {A : Type ℓ} (m m' : Reader A) → Agree 0 m m'
Agree-none m m' = record { agree = λ s b few. absurd (omega arith) }

Agree-same {ℓ} : {A : Type ℓ} (n : ℕ) (m : Reader A) → Agree n m m
Agree-same n m = record { agree = λ s b few. refl }

Agree-fewer {ℓ} : {A : Type ℓ} (n : ℕ) (m m' : Reader A) → Agree (suc n) m m' → Agree n m m'
Agree-fewer n m m' h = record { agree = λ s b few. h.agree s b (omega arith) }

Agree-if {ℓ} :
    {A : Type ℓ} (n : ℕ) (c : Bool) (k m m' : Reader A)
    → Agree n m m'
    → Agree n (if c then k else m) (if c then k else m')
Agree-if n true k m m' h = Agree-same n k
Agree-if n false k m m' h = h

gained {ℓ} :
    {A : Type ℓ} (p : ℕ) (r : Outcome A) (t : ReadOnlyBinaryStream) (a : A)
    → GainsAt p r t
    → r ≡ Outcome.ok a
    → p < t.read_pointer
gained p r t a h e = subst (λ (o : Outcome _). GainsAt p o t) e h

module _ {ℓ κ} {A : Type ℓ} {B : Type κ} where
  Agree-and_then :
      (n : ℕ) (r : Outcome A) (f f' : A → Reader B) (t : ReadOnlyBinaryStream)
      → InBounds t
      → ((a : A) → r ≡ Outcome.ok a → length t.buffer_view < n + t.read_pointer)
      → ((a : A) → Agree n (f a) (f' a))
      → and_then r f t ≡ and_then r f' t
  Agree-and_then n (Outcome.ok a) f f' t b few hf = (hf a).agree t b (few a refl)
  Agree-and_then n (Outcome.err message) f f' t b few hf = refl
  Agree-and_then n Outcome.fault f f' t b few hf = refl

  Agree-bind :
      (n : ℕ) (m m' : Reader A) (f f' : A → Reader B)
      → IsSafe m
      → Agree n m m'
      → ((a : A) → Agree n (f a) (f' a))
      → Agree n (m >>= f) (m' >>= f')
  unfolding ◌>>=◌
  Agree-bind n m m' f f' safe h hf = record {
    agree = λ s b few.
        let moved = safe.moves s b in
        Agree-and_then n (m s).0 f f' (m s).1 (Moves-InBounds moved)
          (λ a e. omega (arith, moved.forward, ap length moved.same_buffer)) hf
        ∙ ap (λ (r : Outcome A × ReadOnlyBinaryStream). and_then r.0 f' r.1) (h.agree s b few);
  }

  -- Behind a reader that takes a byte, one byte fewer is left.
  Agree-gain :
      (n : ℕ) (m : Reader A) (f f' : A → Reader B)
      → IsSafe m
      → Gains m
      → ((a : A) → Agree n (f a) (f' a))
      → Agree (suc n) (m >>= f) (m >>= f')
  unfolding ◌>>=◌
  Agree-gain n m f f' safe gains hf = record {
    agree = λ s b few.
        let moved = safe.moves s b in
        Agree-and_then n (m s).0 f f' (m s).1 (Moves-InBounds moved)
          (λ a e. omega (
            arith,
            gained s.read_pointer (m s).0 (m s).1 a (gains.gains s b) e,
            ap length moved.same_buffer,
          ))
          hf;
  }

module _ {ℓ} {A : Type ℓ} (n : ℕ) (m m' : Reader A) (safe : IsSafe m) (h : Agree n m m') where
  Agree-elements : (size : ℕ) → Agree n (read_elements m size) (read_elements m' size)
  unfolding read_elements
  Agree-elements zero = Agree-same n _
  Agree-elements (suc size) = Agree-bind n m m' _ _ safe h (λ x.
      Agree-bind n _ _ _ _ (IsSafe-elements m safe size) (Agree-elements size)
        (λ xs. Agree-same n _))

  Agree-resized : Agree n (read_resized m) (read_resized m')
  unfolding read_resized
  Agree-resized =
      Agree-bind n _ _ _ _ IsSafe-var_int (Agree-same n _)
        (λ size. Agree-if n (leb (2 ^ 31) size) _ _ _ (Agree-elements size))

module _ (out out' : Option String) (fuel : ℕ)
    (tag : (t : TagType)
      → Agree fuel (read_tag out (suc fuel) t) (read_tag out' (suc (suc fuel)) t))
    (entries : (es : List (List ℕ × Tag))
      → Agree
          (suc fuel)
          (read_entries_tag out (suc fuel) es)
          (read_entries_tag out' (suc (suc fuel)) es)) where
  Agree-next_tag :
      (t : TagType)
      → Agree (suc fuel) (read_tag out (suc (suc fuel)) t) (read_tag out' (suc (suc (suc fuel))) t)
  unfolding read_tag
  Agree-next_tag TagType.compound =
      Agree-bind (suc fuel) _ _ _ _ (IsSafe-entries out (suc fuel) []) (entries [])
        (λ v. Agree-same (suc fuel) _)
  Agree-next_tag TagType.list = Agree-gain fuel _ _ _ IsSafe-type Gains-type (λ type.
      Agree-bind fuel _ _ _ _ (IsSafe-resized _ (IsSafe-tag out (suc fuel) (emplace_type type)))
        (Agree-resized fuel _ _ (IsSafe-tag out (suc fuel) (emplace_type type))
          (tag (emplace_type type)))
        (λ v. Agree-same fuel _))
  Agree-next_tag TagType.end = Agree-same (suc fuel) _
  Agree-next_tag TagType.byte = Agree-same (suc fuel) _
  Agree-next_tag TagType.short = Agree-same (suc fuel) _
  Agree-next_tag TagType.int = Agree-same (suc fuel) _
  Agree-next_tag TagType.long = Agree-same (suc fuel) _
  Agree-next_tag TagType.float = Agree-same (suc fuel) _
  Agree-next_tag TagType.double = Agree-same (suc fuel) _
  Agree-next_tag TagType.byte_array = Agree-same (suc fuel) _
  Agree-next_tag TagType.string = Agree-same (suc fuel) _
  Agree-next_tag TagType.int_array = Agree-same (suc fuel) _

  Agree-next_entries :
      (es : List (List ℕ × Tag))
      → Agree
          (suc (suc fuel))
          (read_entries_tag out (suc (suc fuel)) es)
          (read_entries_tag out' (suc (suc (suc fuel))) es)
  unfolding read_entries_tag
  Agree-next_entries es = Agree-gain (suc fuel) _ _ _ IsSafe-type Gains-type (λ type.
      Agree-if (suc fuel) (type == 0) _ _ _ (
        Agree-gain fuel _ _ _ IsSafe-string Gains-string (λ key.
          Agree-bind fuel _ _ _ _ (IsSafe-tag out (suc fuel) (emplace_type type))
            (tag (emplace_type type))
            (λ v. Agree-fewer fuel _ _ (entries (emplace string_less key v es))))))

-- One more unit of fuel, and another answer where it runs out, change nothing where there are fewer bytes left than
-- units.
Agree-fuel :
    (out out' : Option String) (fuel : ℕ)
    → ((t : TagType) → Agree fuel (read_tag out (suc fuel) t) (read_tag out' (suc (suc fuel)) t))
      × ((es : List (List ℕ × Tag))
          → Agree
              (suc fuel)
              (read_entries_tag out (suc fuel) es)
              (read_entries_tag out' (suc (suc fuel)) es))
unfolding read_entries_tag
Agree-fuel out out' zero =
    (λ t. Agree-none _ _, λ es. Agree-gain 0 _ _ _ IsSafe-type Gains-type (λ type. Agree-none _ _))
Agree-fuel out out' (suc fuel) =
    let before = Agree-fuel out out' fuel in
    (
      Agree-next_tag out out' fuel before.0 before.1,
      Agree-next_entries out out' fuel before.0 before.1,
    )

more_fuel :
    (out : Option String) (extra : ℕ) (s : ReadOnlyBinaryStream)
    → InBounds s
    → read_entries_tag none (suc (length s.buffer_view)) [] s
      ≡ read_entries_tag out (suc (extra + length s.buffer_view)) [] s
more_fuel out zero s b =
    ((Agree-fuel none none (length s.buffer_view)).1 []).agree s b (omega arith)
    ∙ sym (((Agree-fuel out none (length s.buffer_view)).1 []).agree s b (omega arith))
    ∙ ap (λ (n : ℕ). read_entries_tag out (suc n) [] s) (omega arith)
more_fuel out (suc extra) s b =
    more_fuel out extra s b
    ∙ ((Agree-fuel out out (extra + length s.buffer_view)).1 []).agree s b (omega arith)
    ∙ ap (λ (n : ℕ). read_entries_tag out (suc n) [] s) (omega arith)

-- On any bytes, fewer than `2 ^ 64` and well formed or not, with the read pointer not past their end,
-- `deserialize_compound` never runs out of its fuel, one unit more than the buffer has bytes: whatever answer `out`
-- a reading gives where its fuel runs out, with this fuel or any more it comes to the same value or the same error,
-- at the same place, as `deserialize_compound`.
pub deserialize_compound-fuel :
    (out : Option String) (extra : ℕ) (s : ReadOnlyBinaryStream)
    → InBounds s
    → deserialize_compound s
      ≡ (read_entries_tag out (suc (extra + length s.buffer_view)) [] >>= λ es.
            pure (entries_of es))
          s
unfolding deserialize_compound ◌>>=◌
deserialize_compound-fuel out extra s b =
    ap
      (λ (r : Outcome (List (List ℕ × Tag)) × ReadOnlyBinaryStream).
        and_then r.0 (λ es. pure (entries_of es)) r.1)
      (more_fuel out extra s b)

-- On any bytes, fewer than `2 ^ 64` and well formed or not, with the read pointer not past their end,
-- `CompoundTag::read` leaves the buffer as it is, moves the read pointer forward and not past the end, and does not
-- take the overflow flag back.
pub read_compound-Moves : (s : ReadOnlyBinaryStream) → InBounds s → Moves s (read_compound s).1
read_compound-Moves s b = IsSafe-compound.moves s b
