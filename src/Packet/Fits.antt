-- ===== src/Packet/Fits.antt =====
-- What the types of the fields of the packets guarantee of their values.
use beprotocol.Common.{ℕ, ◌<◌, ◌^◌, List, length}

-- A value of an integer, float or enum type of a width.
abbrev pub IsBits : ℕ → ℕ → Type 0
IsBits bits v = v < 2 ^ bits

-- A text whose length fits its `uint32_t` prefix.
abbrev pub FitsText : List ℕ → Type 0
FitsText text = length text < 2 ^ 32
