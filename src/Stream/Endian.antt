-- ===== src/Stream/Endian.antt =====
-- include/sculk/protocol/utility/Endian.hpp: byte order of machine words. A word of `n` bytes is the
-- number of its bit pattern, below `256 ^ n`; a float is its IEEE bit pattern.
use beprotocol.Common.{
  ℕ, zero, suc, ◌+◌, ◌*◌, ◌/◌, ◌%◌, ◌^◌, ◌<◌, ◌≡◌, refl, sym, ap, subst, ◌∙◌, List, [], ◌∷◌, length,
  All, length-append, All-append, arith,
}
use beprotocol.Stream.{IsByte}
use mathlib.Core.List.{reverse, reverse-append, reverse-reverse}
use native.Mathlib.Nat.{pow-suc}

pub data Endian : Type 0 where
  little big : Endian

-- The bytes of a word, lowest first, and the word of such bytes.
unfoldable pub le_bytes : ℕ → ℕ → List ℕ
le_bytes zero v = []
le_bytes (suc n) v = v % 256 ∷ le_bytes n (v / 256)

unfoldable pub le_value : List ℕ → ℕ
le_value [] = 0
le_value (b ∷ bs) = b + 256 * le_value bs

-- A word in the memory of a host, and the word that a host sees there.
unfoldable pub to_memory : Endian → ℕ → ℕ → List ℕ
to_memory Endian.little n v = le_bytes n v
to_memory Endian.big n v = reverse (le_bytes n v)

unfoldable pub from_memory : Endian → List ℕ → ℕ
from_memory Endian.little bs = le_value bs
from_memory Endian.big bs = le_value (reverse bs)

-- `swapEndian`, which is `std::byteswap` on every type that the streams use.
unfoldable pub swap_endian : ℕ → ℕ → ℕ
swap_endian n v = le_value (reverse (le_bytes n v))

unfoldable pub to_little_endian : Endian → ℕ → ℕ → ℕ
to_little_endian Endian.little n v = v
to_little_endian Endian.big n v = swap_endian n v

unfoldable pub from_little_endian : Endian → ℕ → ℕ → ℕ
from_little_endian Endian.little n v = v
from_little_endian Endian.big n v = swap_endian n v

pub length-le_bytes : (n v : ℕ) → length (le_bytes n v) ≡ n
unfolding le_bytes
length-le_bytes zero v = refl
length-le_bytes (suc n) v = ap suc (length-le_bytes n (v / 256))

pub le_bytes-IsByte : (n v : ℕ) → All IsByte (le_bytes n v)
unfolding le_bytes
le_bytes-IsByte zero v = tt
le_bytes-IsByte (suc n) v = (omega arith, le_bytes-IsByte n (v / 256))

pub le_value-le_bytes : (n v : ℕ) → v < 256 ^ n → le_value (le_bytes n v) ≡ v
unfolding le_bytes le_value
le_value-le_bytes zero v h = omega arith
le_value-le_bytes (suc n) v h =
    omega (arith, le_value-le_bytes n (v / 256) (omega (arith, pow-suc 256 n)))

pub le_bytes-le_value : (bs : List ℕ) → All IsByte bs → le_bytes (length bs) (le_value bs) ≡ bs
unfolding le_bytes le_value
le_bytes-le_value [] h = refl
le_bytes-le_value (b ∷ bs) (hb, h) = ground (arith, le_bytes-le_value bs h, quotient)
  where
    quotient : (b + 256 * le_value bs) / 256 ≡ le_value bs
    quotient = omega arith

pub le_value-lt : (bs : List ℕ) → All IsByte bs → le_value bs < 256 ^ length bs
unfolding le_value
le_value-lt [] h = omega arith
le_value-lt (b ∷ bs) (hb, h) = omega (arith, le_value-lt bs h, pow-suc 256 (length bs))

length-reverse {ℓ} : {A : Type ℓ} (xs : List A) → length (reverse xs) ≡ length xs
length-reverse [] = refl
length-reverse (x ∷ xs) = omega (
  arith,
  ap length (reverse-append (x ∷ []) xs),
  length-append (reverse xs) (x ∷ []),
  length-reverse xs,
)

reverse-IsByte : (xs : List ℕ) → All IsByte xs → All IsByte (reverse xs)
reverse-IsByte [] h = tt
reverse-IsByte (x ∷ xs) (hx, h) =
    rw (reverse-append (x ∷ []) xs)
      (All-append IsByte (reverse xs) (x ∷ []) (reverse-IsByte xs h) (hx, tt))

-- Reversing the bytes of a word and reading them in the other order is the identity.
reversed_bytes :
    (n : ℕ) (bs : List ℕ)
    → length bs ≡ n
    → All IsByte bs
    → reverse (le_bytes n (le_value (reverse bs))) ≡ bs
reversed_bytes n bs e h =
    ap reverse (swapped ∙ le_bytes-le_value (reverse bs) (reverse-IsByte bs h)) ∙ reverse-reverse bs
  where
    swapped :
        le_bytes n (le_value (reverse bs)) ≡ le_bytes (length (reverse bs)) (le_value (reverse bs))
    swapped = ap (λ (k : ℕ). le_bytes k (le_value (reverse bs))) (sym (length-reverse bs ∙ e))

-- On a little-endian host and on a big-endian one, what memory holds of a word after `toLittleEndian` is the
-- word's bytes, lowest first.
pub to_memory-to_little_endian :
    (host : Endian) (n v : ℕ) → to_memory host n (to_little_endian host n v) ≡ le_bytes n v
unfolding to_memory to_little_endian swap_endian
to_memory-to_little_endian Endian.little n v = refl
to_memory-to_little_endian Endian.big n v =
    reversed_bytes n (le_bytes n v) (length-le_bytes n v) (le_bytes-IsByte n v)

-- On a little-endian host and on a big-endian one, what `fromLittleEndian` makes of the word that the host
-- sees in `n` bytes of memory is the word with these bytes, lowest first.
pub from_little_endian-from_memory :
    (host : Endian) (n : ℕ) (bs : List ℕ)
    → length bs ≡ n
    → All IsByte bs
    → from_little_endian host n (from_memory host bs) ≡ le_value bs
unfolding from_memory from_little_endian swap_endian
from_little_endian-from_memory Endian.little n bs e h = refl
from_little_endian-from_memory Endian.big n bs e h = ap le_value (reversed_bytes n bs e h)

-- `swapEndian` is its own inverse on words of `n` bytes.
pub swap_endian-swap_endian : (n v : ℕ) → v < 256 ^ n → swap_endian n (swap_endian n v) ≡ v
unfolding swap_endian
swap_endian-swap_endian n v h =
    ap le_value (reversed_bytes n (le_bytes n v) (length-le_bytes n v) (le_bytes-IsByte n v))
    ∙ le_value-le_bytes n v h

pub swap_endian-lt : (n v : ℕ) → swap_endian n v < 256 ^ n
unfolding swap_endian
swap_endian-lt n v =
    subst (λ (k : ℕ). le_value (reverse (le_bytes n v)) < 256 ^ k)
      (length-reverse (le_bytes n v) ∙ length-le_bytes n v)
      (le_value-lt (reverse (le_bytes n v)) (reverse-IsByte _ (le_bytes-IsByte n v)))
