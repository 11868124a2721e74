-- ===== src/Message/Generic/Arrivals.antt =====
-- A generic message as it arrives, of its object, its method and its arguments.
use hyprwire_debian.Base.{
  ℕ, ◌+◌, ◌<◌, ◌≤◌, ◌≡◌, ap, arith, List, [], ◌∷◌, ◌++◌, length, length-append, length-drop, drop,
  u32_bytes,
}
use hyprwire_debian.Message.Generic.{Generic}
use hyprwire_debian.Message.Generic.Args.{
  Arg, args_fds, args_bytes, arg_bytes, generic_bytes, arg_bytes-cons,
}

pub length-args_bytes : (args : List Arg) → length args ≤ length (args_bytes args)
unfolding args_bytes
length-args_bytes [] = omega arith
length-args_bytes (a ∷ args) = omega (
  arith,
  length-append (arg_bytes a) (args_bytes args),
  ap length (arg_bytes-cons a).1,
  length-args_bytes args,
)

-- A call as it arrives.
abbrev pub arrived : ℕ → ℕ → List Arg → List ℕ → Generic
arrived object method args rest = record {
  object = object;
  depends_on_seq = 0;
  method = method;
  span = args_bytes args ++ 0 ∷ rest;
  span_size = length (args_bytes args) + 1;
  fds = args_fds args;
}

abbrev pub generic_tail : ℕ → ℕ → List Arg → List ℕ
generic_tail object method args =
    0x22 ∷ u32_bytes object ++ (0x10 ∷ u32_bytes method ++ (args_bytes args ++ 0 ∷ []))

pub generic_bytes-lt :
    (object method : ℕ) (args : List Arg)
    → length (args_bytes args) + 1 < length (generic_bytes object method args)
unfolding generic_bytes
generic_bytes-lt object method args = ground (arith, length-append (args_bytes args) (0 ∷ []))

pub args_in :
    (bytes : List ℕ) (off object method : ℕ) (args : List Arg) (rest : List ℕ)
    → drop off bytes ≡ generic_bytes object method args ++ rest
    → length (args_bytes args) + 1 < length bytes
args_in bytes off object method args rest e = omega (
  arith,
  length-drop off bytes,
  ap length e,
  length-append (generic_bytes object method args) rest,
  generic_bytes-lt object method args,
)
