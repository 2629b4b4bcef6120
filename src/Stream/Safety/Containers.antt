-- ===== src/Stream/Safety/Containers.antt =====
-- Reads of enums, arrays, optionals, variants and maps are safe where the reads of their elements are.
use beprotocol.Common.{ℕ, zero, suc, ◌-◌, ◌^◌, List, [], ◌∷◌, Bool, true, false, ◌&&◌, All, leb}
use beprotocol.Stream.{Outcome, Reader}
use beprotocol.Stream.Containers.{
  IntType, static_cast, size_type, read_enum, read_elements, read_array, read_present,
  read_optional, emplace_variant, read_variant, emplace, read_entries, read_map,
}
use beprotocol.Stream.Safety.{
  IsSafe, IsSafe-bind, IsSafe-pure, IsSafe-fail, IsSafe-or_error, IsSafe-answer,
}
use beprotocol.Stream.Safety.Words.{IsSafe-bool, IsSafe-if}

pub IsSafe-enum :
    (underlying wire : IntType) (func : Reader ℕ)
    → IsSafe func
    → IsSafe (read_enum underlying wire func)
unfolding read_enum
IsSafe-enum underlying wire func h =
    IsSafe-bind _ _ (IsSafe-or_error _ _ h) (λ value. IsSafe-pure _)

module _ {ℓ} {A : Type ℓ} where
  pub IsSafe-elements : (func : Reader A) → IsSafe func → (n : ℕ) → IsSafe (read_elements func n)
  unfolding read_elements
  IsSafe-elements func h zero = IsSafe-pure []
  IsSafe-elements func h (suc n) =
      IsSafe-bind _ _ h
        (λ x. IsSafe-bind _ _ (IsSafe-elements func h n) (λ xs. IsSafe-pure (x ∷ xs)))

  pub IsSafe-array :
      (t : IntType) (prefix : Reader ℕ) (func : Reader A)
      → IsSafe prefix
      → IsSafe func
      → IsSafe (read_array t prefix func)
  unfolding read_array
  IsSafe-array t prefix func hp h = IsSafe-bind _ _ (IsSafe-or_error _ _ hp) (λ size.
      IsSafe-if (t.signed && leb (2 ^ (t.bits - 1)) size) _ _ (IsSafe-answer Outcome.fault)
        (IsSafe-elements func h size))

  IsSafe-present : (func : Reader A) → IsSafe func → (b : Bool) → IsSafe (read_present func b)
  unfolding read_present
  IsSafe-present func h true = IsSafe-bind _ _ h (λ x. IsSafe-pure _)
  IsSafe-present func h false = IsSafe-pure _

  pub IsSafe-optional : (func : Reader A) → IsSafe func → IsSafe (read_optional func)
  unfolding read_optional
  IsSafe-optional func h = IsSafe-bind _ _ (IsSafe-or_error _ _ IsSafe-bool) (IsSafe-present func h)

  IsSafe-emplace_variant :
      (alternatives : List (Reader A))
      → All IsSafe alternatives
      → (index : ℕ) → IsSafe (emplace_variant alternatives index)
  unfolding emplace_variant
  IsSafe-emplace_variant [] h index = IsSafe-fail _
  IsSafe-emplace_variant (alternative ∷ others) (hx, h) zero = hx
  IsSafe-emplace_variant (alternative ∷ others) (hx, h) (suc index) =
      IsSafe-emplace_variant others h index

  pub IsSafe-variant :
      (t : IntType) (prefix : Reader ℕ) (alternatives : List (Reader A))
      → IsSafe prefix
      → All IsSafe alternatives
      → IsSafe (read_variant t prefix alternatives)
  unfolding read_variant
  IsSafe-variant t prefix alternatives hp h =
      IsSafe-bind _ _ (IsSafe-or_error _ _ hp)
        (λ index. IsSafe-emplace_variant alternatives h (static_cast t size_type index))

module _ {ℓ κ} {K : Type ℓ} {V : Type κ} (less : K → K → Bool) (func : Reader (K × V))
    (h : IsSafe func) where
  IsSafe-entries : (n : ℕ) (entries : List (K × V)) → IsSafe (read_entries less func n entries)
  unfolding read_entries
  IsSafe-entries zero entries = IsSafe-pure entries
  IsSafe-entries (suc n) entries =
      IsSafe-bind _ _ h (λ entry. IsSafe-entries n (emplace less entry.0 entry.1 entries))

  pub IsSafe-map : (prefix : Reader ℕ) → IsSafe prefix → IsSafe (read_map less prefix func)
  unfolding read_map
  IsSafe-map prefix hp = IsSafe-bind _ _ (IsSafe-or_error _ _ hp) (λ size. IsSafe-entries size [])
