-- ===== src/Stream/VarInt/RoundTrip.antt =====
-- What the writers of variable-length integers write, the readers read back.
use beprotocol.Common.{
  ℕ, zero, suc, ◌+◌, ◌-◌, ◌*◌, ◌/◌, ◌%◌, ◌^◌, ◌≤◌, ◌<◌, ◌≡◌, sym, ap, ◌∙◌, List, [], ◌∷◌, ◌++◌, ltb,
  if◌then◌else◌, length, append_assoc, length-append, false, drop, drop-append, arith, bit_and,
  bit_or, lt_wf, Bool-cases, ltb→lt, lt→ltb, dec_lt, ◌⊎◌, inl, inr,
}
use beprotocol.Common.Bits.{
  bit_and_one, bit_and_127, top_bit, mask_70, mask_7e, set_top_bit, bit_or_disjoint,
  even-bit_or_one,
}
use beprotocol.Stream.{Outcome, ReadOnlyBinaryStream, Reader, pure}
use beprotocol.Stream.Endian.{le_bytes, to_memory, to_little_endian}
use beprotocol.Stream.Fixed.{write_bytes, write_word, write_byte}
use beprotocol.Stream.RoundTrip.{
  positioned, Decodes, RoundTrips, RoundTrips-last, RoundTrips-or_error,
}
use beprotocol.Stream.VarInt.{
  write_groups, write_unsigned_var_int, write_unsigned_var_int64, zigzag, write_var_int,
  write_var_int64, read_groups, read_unsigned_var_int, read_unsigned_var_int64, unzigzag,
  read_var_int, read_var_int64,
}
use Prim.Native.String.{String}
use mathlib.Core.WellFounded.{Acc}
use native.Mathlib.Nat.{pow-suc, mod-eq_of_lt}
use native.Mathlib.Numerals.{towards_suc}

-- The format: seven bits a byte, lowest first, the top bit set on all bytes but the last. At most
-- `k + 1` bytes are given.
unfoldable pub groups : ℕ → ℕ → List ℕ
groups zero v = v ∷ []
groups (suc k) v =
    let more = (v % 128 + 128) ∷ groups k (v / 128) in if ltb v 128 then v ∷ [] else more

write_byte_lem : (v : ℕ) (buffer : List ℕ) → v < 256 → write_byte v buffer ≡ buffer ++ (v ∷ [])
unfolding write_byte write_word write_bytes to_memory to_little_endian le_bytes
write_byte_lem v buffer h = ap (λ (b : ℕ). buffer ++ (b ∷ [])) (omega arith)

set_group : (v : ℕ) → bit_or (bit_and v 0x7f) 0x80 ≡ v % 128 + 128
set_group v = rw (bit_and_127 v) (set_top_bit (v % 128) (omega arith))

write_groups-groups :
    (k v : ℕ) (w : Acc ◌<◌ v) (buffer : List ℕ)
    → v < 128 ^ suc k
    → write_groups v w buffer ≡ buffer ++ groups k v
unfolding write_groups groups
write_groups-groups zero v (Acc.intro _ smaller) buffer h =
    ground (arith, bit_and_127 v, write_byte_lem v buffer)
write_groups-groups (suc k) v (Acc.intro _ smaller) buffer h =
    let byte : ℕ = v % 128 + 128 in
    grind (
      arith,
      bit_and_127 v,
      set_group v,
      write_byte_lem v buffer,
      write_byte_lem byte buffer,
      append_assoc buffer (byte ∷ []) (groups k (v / 128)),
      λ (w : Acc ◌<◌ (v / 128)).
          write_groups-groups k (v / 128) w (buffer ++ (byte ∷ []))
            (omega (arith, pow-suc 128 (suc k))),
    )

next_shift : (shift : ℕ) → 128 * 2 ^ shift ≡ 2 ^ (shift + 7)
next_shift shift = simp towards_suc (omega arith)

-- A number from bit `shift` on: its lowest group there, the others from the next shift on.
split_group : (n shift : ℕ) → n % 128 * 2 ^ shift + n / 128 * 2 ^ (shift + 7) ≡ n * 2 ^ shift
split_group n shift = rw (← next_shift shift) (omega (arith, scaled))
  where
    scaled : (n / 128 * 128 + n % 128) * 2 ^ shift ≡ n * 2 ^ shift
    scaled = ap (λ (m : ℕ). m * 2 ^ shift) (omega arith)

module _ (limit last high modulus : ℕ) (message : String) (below : last < limit)
    (fits_last : (b : ℕ) → b < 128 → b * 2 ^ last < modulus → bit_and b high ≡ 0) where
  abbrev read : List ℕ → ℕ → ℕ → Reader ℕ
  read = read_groups limit last high modulus message

  -- A group joins the value, which has no bits from `shift` on.
  joined :
      (b g value shift : ℕ)
      → bit_and b 0x7f ≡ g
      → value < 2 ^ shift
      → value + g * 2 ^ shift < modulus
      → bit_or value (bit_and b 0x7f * 2 ^ shift % modulus) ≡ value + g * 2 ^ shift
  joined b g value shift e hv fits =
      rw e (ap (bit_or value) whole ∙ bit_or_disjoint shift value g hv)
    where
      whole : g * 2 ^ shift % modulus ≡ g * 2 ^ shift
      whole = mod-eq_of_lt (omega arith)

  last_group :
      (w value shift : ℕ) (rest : List ℕ) (s : ReadOnlyBinaryStream)
      → w < 128
      → shift ≤ last
      → value < 2 ^ shift
      → value + w * 2 ^ shift < modulus
      → read (w ∷ rest) shift value s
        ≡ (Outcome.ok (value + w * 2 ^ shift), record s { read_pointer = s.read_pointer + 1 })
  unfolding read_groups
  last_group w value shift rest s hw hs hv fits = grind (
    arith,
    joined w w value shift (rw (bit_and_127 w) (omega arith)) hv fits,
    top_bit w,
    fits_last w hw,
    at_last,
  )
    where
      at_last : shift ≡ last → w * 2 ^ last < modulus
      at_last e = rw (← e) (omega arith)

  inner_group :
      (g value shift : ℕ) (rest : List ℕ) (s : ReadOnlyBinaryStream)
      → g < 128
      → shift < last
      → value < 2 ^ shift
      → value + g * 2 ^ shift < modulus
      → read ((g + 128) ∷ rest) shift value s
        ≡ read rest
            (shift + 7)
            (value + g * 2 ^ shift)
            (record s { read_pointer = s.read_pointer + 1 })
  unfolding read_groups
  inner_group g value shift rest s hg hs hv fits = ground (
    arith,
    joined (g + 128) g value shift (rw (bit_and_127 (g + 128)) (omega arith)) hv fits,
    top_bit (g + 128),
  )

  -- The value so far keeps to the bits below the next shift.
  low_fits : (w value shift : ℕ) → value < 2 ^ shift → value + w % 128 * 2 ^ shift < 2 ^ (shift + 7)
  low_fits w value shift hv =
      omega (arith, next_shift shift, ap (λ (t : ℕ). t * 2 ^ shift) split, rest_small)
    where
      split : w % 128 + (127 - w % 128) ≡ 127
      split = omega arith

      rest_small : 0 ≤ (127 - w % 128) * 2 ^ shift
      rest_small = omega arith

  -- `w` is what is still to be read; it counts from bit `shift` on.
  read-groups :
      (k w value shift : ℕ) (rest : List ℕ) (s : ReadOnlyBinaryStream)
      → w < 128 ^ suc k
      → value < 2 ^ shift
      → value + w * 2 ^ shift < modulus
      → shift + 7 * k ≤ last
      → read (groups k w ++ rest) shift value s ≡ (
        Outcome.ok (value + w * 2 ^ shift),
        record s { read_pointer = s.read_pointer + length (groups k w) },
      )
  unfolding groups
  read-groups zero w value shift rest s hw hv fits hs =
      last_group w value shift rest s (omega arith) (omega arith) hv fits
  read-groups (suc k) w value shift rest s hw hv fits hs = elim (Bool-cases (ltb w 128)) [
    | inl small ↦
        rw small (last_group w value shift rest s (ltb→lt w 128 small) (omega arith) hv fits)
    | inr large ↦ rw large (
        inner_group (w % 128) value shift (groups k (w / 128) ++ rest) s (omega arith) (omega arith)
          hv (omega (arith, split_group w shift))
        ∙ read-groups k (w / 128) (value + w % 128 * 2 ^ shift) (shift + 7) rest
            (record s { read_pointer = s.read_pointer + 1 }) (omega (arith, pow-suc 128 (suc k)))
            (low_fits w value shift hv) (omega (arith, split_group w shift)) (omega arith)
        ∙ ground (arith, split_group w shift))
  ]

  -- From the start of an integer below `modulus`, wherever its bytes stand.
  Decodes-groups :
      (k v : ℕ)
      → v < 128 ^ suc k
      → v < modulus
      → 7 * k ≤ last
      → Decodes (λ s. read (drop s.read_pointer s.buffer_view) 0 0 s) (groups k v) v
  Decodes-groups k v hv fits hs = record {
    decode = λ before rest size. rw (drop-append before (groups k v ++ rest)) (
        read-groups k v 0 0 rest (positioned before (groups k v ++ rest)) hv (omega arith)
          (omega arith) (omega arith)
        ∙ λ i. (
          Outcome.ok (whole i),
          record {
            has_overflowed = false;
            buffer_view = sym (append_assoc before (groups k v) rest) i;
            read_pointer = sym (length-append before (groups k v)) i;
          },
        ));
  }
    where
      whole : 0 + v * 2 ^ 0 ≡ v
      whole = omega arith

-- What does not fit is refused: at shift 28 the last byte has four bits, at shift 63 it has one.
fits_28 : (b : ℕ) → b < 128 → b * 2 ^ 28 < 2 ^ 32 → bit_and b 0x70 ≡ 0
fits_28 b h fits = omega (arith, mask_70 b (omega arith))

fits_63 : (b : ℕ) → b < 128 → b * 2 ^ 63 < 2 ^ 64 → bit_and b 0x7e ≡ 0
fits_63 b h fits = omega (arith, mask_7e b (omega arith))

pub RoundTrips-unsigned_var_int :
    (v : ℕ) → v < 2 ^ 32 → RoundTrips (write_unsigned_var_int v) read_unsigned_var_int v
unfolding write_unsigned_var_int read_unsigned_var_int
RoundTrips-unsigned_var_int v h = record {
  bytes = groups 4 v;
  written = λ buffer. write_groups-groups 4 v (lt_wf.apply v) buffer (omega arith);
  decoded =
      Decodes-groups 35 28 0x70 (2 ^ 32) _ (omega arith) fits_28 4 v (omega arith) h (omega arith);
}

pub RoundTrips-unsigned_var_int64 :
    (v : ℕ) → v < 2 ^ 64 → RoundTrips (write_unsigned_var_int64 v) read_unsigned_var_int64 v
unfolding write_unsigned_var_int64 read_unsigned_var_int64
RoundTrips-unsigned_var_int64 v h = record {
  bytes = groups 9 v;
  written = λ buffer. write_groups-groups 9 v (lt_wf.apply v) buffer (omega arith);
  decoded =
      Decodes-groups 70 63 0x7e (2 ^ 64) _ (omega arith) fits_63 9 v (omega arith) h (omega arith);
}

module _ (half : ℕ) where
  -- A number that is not negative is doubled; `-(n + 1)`, the pattern `2 * half - 1 - n`, becomes
  -- `2 * n + 1`.
  pub zigzag_nonnegative : (v : ℕ) → v < half → zigzag half v ≡ v * 2
  unfolding zigzag
  zigzag_nonnegative v h = rw (lt→ltb v half h) (mod-eq_of_lt (omega arith))

  pub zigzag_negative : (n : ℕ) → n < half → zigzag half (2 * half - 1 - n) ≡ n * 2 + 1
  unfolding zigzag
  zigzag_negative n h = rw not_less (ap (λ (t : ℕ). bit_or t 1) doubled ∙ even-bit_or_one n)
    where
      not_less : ltb (2 * half - 1 - n) half ≡ false
      not_less = ground arith

      doubled : (2 * half - 1 - (2 * half - 1 - n)) * 2 % (2 * half) ≡ n * 2
      doubled = ap (λ (t : ℕ). t * 2 % (2 * half)) (omega arith) ∙ mod-eq_of_lt (omega arith)

  unzigzag-even : (v : ℕ) → unzigzag half (v * 2) ≡ v
  unfolding unzigzag
  unzigzag-even v = ground (arith, bit_and_one (v * 2))

  unzigzag-odd : (n : ℕ) → unzigzag half (n * 2 + 1) ≡ 2 * half - 1 - n
  unfolding unzigzag
  unzigzag-odd n = ground (arith, bit_and_one (n * 2 + 1))

  zigzag_shape :
      (v : ℕ)
      → v < 2 * half
      → ((v < half) × (zigzag half v ≡ v * 2))
        ⊎ ((n : ℕ) × (n < half) × (v ≡ 2 * half - 1 - n) × (zigzag half v ≡ n * 2 + 1))
  zigzag_shape v h = elim (dec_lt v half) [
    | yes small ↦ inl (small, zigzag_nonnegative v small)
    | no large ↦
        let e : v ≡ 2 * half - 1 - (2 * half - 1 - v) = omega arith in
        inr (
          2 * half - 1 - v,
          omega arith,
          e,
          ap (zigzag half) e ∙ zigzag_negative (2 * half - 1 - v) (omega arith),
        )
  ]

  zigzag-lt : (v : ℕ) → v < 2 * half → zigzag half v < 2 * half
  zigzag-lt v h = elim (zigzag_shape v h) [
    | inl (small, e) ↦ omega arith
    | inr (n, small, e, e') ↦ omega arith
  ]

  unzigzag-zigzag : (v : ℕ) → v < 2 * half → unzigzag half (zigzag half v) ≡ v
  unzigzag-zigzag v h = elim (zigzag_shape v h) [
    | inl (small, e) ↦ rw e (unzigzag-even v)
    | inr (n, small, e, e') ↦ rw e' (unzigzag-odd n ∙ sym e)
  ]

pub RoundTrips-var_int : (v : ℕ) → v < 2 ^ 32 → RoundTrips (write_var_int v) read_var_int v
unfolding write_var_int read_var_int
RoundTrips-var_int v h =
    RoundTrips-last (write_unsigned_var_int (zigzag (2 ^ 31) v)) _ _
      (RoundTrips-or_error _ _
        (RoundTrips-unsigned_var_int (zigzag (2 ^ 31) v) (zigzag-lt (2 ^ 31) v h)))
      (ap pure (unzigzag-zigzag (2 ^ 31) v h))

pub RoundTrips-var_int64 : (v : ℕ) → v < 2 ^ 64 → RoundTrips (write_var_int64 v) read_var_int64 v
unfolding write_var_int64 read_var_int64
RoundTrips-var_int64 v h =
    RoundTrips-last (write_unsigned_var_int64 (zigzag (2 ^ 63) v)) _ _
      (RoundTrips-or_error _ _
        (RoundTrips-unsigned_var_int64 (zigzag (2 ^ 63) v) (zigzag-lt (2 ^ 63) v h)))
      (ap pure (unzigzag-zigzag (2 ^ 63) v h))

-- An integer takes one byte at least, and `k + 1` bytes at most.
pub length-groups : (k v : ℕ) → (1 ≤ length (groups k v)) × (length (groups k v) ≤ k + 1)
unfolding groups
length-groups zero v = omega arith
length-groups (suc k) v = ground (arith, length-groups k (v / 128))

pub unsigned_var_int-nonempty :
    (v : ℕ) (h : v < 2 ^ 32) → 1 ≤ length (RoundTrips-unsigned_var_int v h).bytes
unfolding RoundTrips-unsigned_var_int
unsigned_var_int-nonempty v h = (length-groups 4 v).0

pub unsigned_var_int-length :
    (v : ℕ) (h : v < 2 ^ 32)
    → (1 ≤ length (RoundTrips-unsigned_var_int v h).bytes)
      × (length (RoundTrips-unsigned_var_int v h).bytes ≤ 5)
unfolding RoundTrips-unsigned_var_int
unsigned_var_int-length v h = length-groups 4 v
