-- ===== src/Wire/Magic.antt =====
-- eMessageMagic of include/hyprwire/core/types/MessageMagic.hpp, and its names in
-- src/core/message/MessageMagic.cpp.
use hyprwire_debian.Base.{ℕ, Bool, ◌||◌, ◌==◌, if◌then◌else◌}
use Prim.Native.String.{String}

abbrev pub end : ℕ
end = 0x0

abbrev pub uint : ℕ
uint = 0x10

abbrev pub int : ℕ
int = 0x11

abbrev pub f32 : ℕ
f32 = 0x12

abbrev pub seq : ℕ
seq = 0x13

abbrev pub object_id : ℕ
object_id = 0x14

abbrev pub varchar : ℕ
varchar = 0x20

abbrev pub array : ℕ
array = 0x21

abbrev pub object : ℕ
object = 0x22

abbrev pub fd : ℕ
fd = 0x40

-- The case labels UINT, F32, INT, OBJECT and SEQ, which the decoders list together: the types
-- of four bytes.
unfoldable pub is_word : ℕ → Bool
is_word t = t == uint || t == f32 || t == int || t == object || t == seq

-- magicToString
unfoldable pub magic_to_string : ℕ → String
magic_to_string m =
    if m == end
    then "END"
    else if m == uint
    then "UINT"
    else if m == int
    then "INT"
    else if m == f32
    then "F32"
    else if m == seq
    then "SEQUENCE"
    else if m == object_id
    then "OBJECT_ID"
    else if m == varchar
    then "VARCHAR"
    else if m == array
    then "ARRAY"
    else if m == object
    then "OBJECT"
    else if m == fd
    then "FD"
    else "ERROR"
