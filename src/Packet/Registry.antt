-- ===== src/Packet/Registry.antt =====
-- The cases of `createPacket` in src/sculk/protocol/codec/MinecraftPackets.cpp whose classes are
-- modelled; the switch has further cases.
pub mod Setup
pub mod Level
pub mod Actors
pub mod Screens
pub mod Tags
use beprotocol.Common.{
  ℕ, ◌≡◌, refl, sym, subst, List, [], ◌∷◌, ◌++◌, Option, none, some, All, ◌==◌, if◌then◌else◌, Bool,
  true, false, not, ◌&&◌, arith, ap, ◌∙◌,
}
use beprotocol.Packet.Dispatch.{PacketClass}
use mathlib.Core.List.{Memᴰ}
use Setup.{setup_classes}
use Level.{level_classes}
use Actors.{actors_classes}
use Screens.{screens_classes}
use Tags.{tags_classes}

abbrev pub modelled_classes : List PacketClass
modelled_classes =
    setup_classes ++ (level_classes ++ (actors_classes ++ (screens_classes ++ tags_classes)))

unfoldable pub find_class : List PacketClass → ℕ → Option PacketClass
find_class [] id = none
find_class (c ∷ cs) id = if id == c.id then some c else find_class cs id

unfoldable pub modelled_registry : ℕ → Option PacketClass
unfolding find_class
modelled_registry = find_class modelled_classes

-- No class of the list has the id.
absent : ℕ → List PacketClass → Bool
absent id [] = true
absent id (c ∷ cs) = not (id == c.id) && absent id cs

are_distinct : List PacketClass → Bool
are_distinct [] = true
are_distinct (c ∷ cs) = absent c.id cs && are_distinct cs

absent-Mem :
    (id : ℕ) (cs : List PacketClass)
    → absent id cs ≡ true
    → (c : PacketClass) → Memᴰ c cs
    → (c.id == id) ≡ false
unfolding absent
absent-Mem id [] h c member = elim member [ ]
absent-Mem id (d ∷ cs) h c (Memᴰ.head e) =
    subst (λ (b : PacketClass). (b.id == id) ≡ false) (sym e) (ground arith)
absent-Mem id (d ∷ cs) h c (Memᴰ.tail member) = absent-Mem id cs (ground (arith)) c member

find_class-Mem :
    (cs : List PacketClass)
    → are_distinct cs ≡ true
    → (c : PacketClass) → Memᴰ c cs
    → find_class cs c.id ≡ some c
unfolding find_class are_distinct
find_class-Mem [] h c member = elim member [ ]
find_class-Mem (d ∷ cs) h c (Memᴰ.head e) =
    subst (λ (b : PacketClass). find_class (d ∷ cs) b.id ≡ some b) (sym e) (ground arith)
find_class-Mem (d ∷ cs) h c (Memᴰ.tail member) =
    rw (absent-Mem d.id cs (ground arith) c member) (find_class-Mem cs (ground arith) c member)

pub modelled_registry-Mem :
    (c : PacketClass) → Memᴰ c modelled_classes → modelled_registry c.id ≡ some c
unfolding modelled_registry
modelled_registry-Mem = find_class-Mem modelled_classes (unfold are_distinct absent in refl)
