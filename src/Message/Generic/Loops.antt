-- ===== src/Message/Generic/Loops.antt =====
-- A length near 2^64 in GenericProtocolMessage.cpp: the walk over the arguments stays where it is.
use hyprwire_debian.Base.{
  ℕ, zero, suc, ◌+◌, ◌-◌, ◌^◌, ◌<◌, ◌≤◌, ◌≡◌, refl, ap, ◌∙◌, arith, List, [], ◌∷◌, ◌++◌, length,
  drop, drop-add, length-drop, u32_bytes, IsU32, add64, add64_lem, drop_cons-lt,
}
use hyprwire_debian.Outcome.{done, stuck}
use hyprwire_debian.Outcome.Laws.{at_lem, expect_in, read_u32_in}
use hyprwire_debian.VarInt.{parse_var_int, parse_var_int_span, var_int_loop}
use hyprwire_debian.Wire.Magic.{is_word}
use hyprwire_debian.Message.Generic.{Cursor, skip_arg, skip_args, parse_generic}

-- A text's code, and five bytes that parseVarInt reads as 2^64 - 6.
abbrev pub endless : List ℕ
endless = 0x20 ∷ 0xFA ∷ 0xFF ∷ 0xFF ∷ 0xFF ∷ 0x7F ∷ []

-- The header of a call, in front of its arguments.
abbrev pub call_header : ℕ → ℕ → List ℕ
call_header object method = 0x64 ∷ 0x22 ∷ u32_bytes object ++ (0x10 ∷ u32_bytes method)

endless-var_int :
    (len : ℕ) (rest : List ℕ)
    → 5 ≤ len
    → var_int_loop (0xFA ∷ 0xFF ∷ 0xFF ∷ 0xFF ∷ 0x7F ∷ rest) len 0 0 ≡ done (2 ^ 64 - 6, 5)
unfolding var_int_loop
endless-var_int len rest h = ground arith

module _ (bytes : List ℕ) (offset : ℕ) (rest : List ℕ) where
  endless-skip_arg :
      (c : Cursor)
      → offset + c.i < 2 ^ 63
      → drop (offset + c.i) bytes ≡ endless ++ rest
      → skip_arg bytes offset 0x20 c ≡ done c
  unfolding skip_arg parse_var_int parse_var_int_span is_word
  endless-skip_arg c h e =
      let behind : drop (offset + c.i + 1) bytes ≡ 0xFA ∷ 0xFF ∷ 0xFF ∷ 0xFF ∷ 0x7F ∷ rest =
        drop-add (offset + c.i) 1 bytes ∙ ap (drop 1) e in
      let room : 5 ≤ length bytes - (offset + c.i + 1) =
        omega (arith, length-drop (offset + c.i + 1) bytes, ap length behind) in
      let still : add64 c.i 0 ≡ c.i = omega (arith, add64_lem c.i 0 (omega arith)) in
      rw
        (
          add64_lem offset c.i (omega arith),
          add64_lem (offset + c.i) 1 (omega arith),
          behind,
          endless-var_int (length bytes - (offset + c.i + 1)) rest room,
          still,
        )
        refl

  endless-skip_args :
      (fuel : ℕ) (c : Cursor)
      → offset + c.i < 2 ^ 63
      → drop (offset + c.i) bytes ≡ endless ++ rest
      → skip_args fuel bytes offset c ≡ stuck
  unfolding skip_args
  endless-skip_args zero c h e = refl
  endless-skip_args (suc fuel) c h e =
      rw
        (
          add64_lem offset c.i (omega arith),
          at_lem bytes (offset + c.i) 0x20 _ e,
          endless-skip_arg c h e,
        )
        (endless-skip_args fuel c h e)

-- The walk over a generic message whose arguments begin with a text of the length FA FF FF FF 7F,
-- in a buffer below 2^63 bytes, never ends: parseVarInt reads 2^64 - 6, and the walk moves on by
-- 2^64. No amount of fuel is enough.
pub parse_generic-endless :
    (object method : ℕ) (bytes fds rest : List ℕ) (offset fuel : ℕ)
    → IsU32 object
    → IsU32 method
    → length bytes < 2 ^ 63
    → drop offset bytes ≡ call_header object method ++ (endless ++ rest)
    → parse_generic fuel bytes fds offset ≡ stuck
unfolding parse_generic
parse_generic-endless object method bytes fds rest offset fuel ho hm fits e =
    let e11 : drop (offset + 11) bytes ≡ endless ++ rest = rw (drop-add, e) refl in
    let inside : offset + 11 < length bytes = drop_cons-lt (offset + 11) bytes e11 in
    rw
      (
        expect_in bytes offset _ e 0 100 refl,
        expect_in bytes offset _ e 1 0x22 refl,
        read_u32_in bytes offset _ e 2 object _ ho refl,
        expect_in bytes offset _ e 6 0x10 refl,
        read_u32_in bytes offset _ e 7 method _ hm refl,
        endless-skip_args bytes offset rest fuel (record { i = 11; fds = fds; taken = [] })
            (omega (arith, inside)) e11,
      )
      refl
