-- ===== src/WireObject/RoundTrip/Check.antt =====
-- IWireObject::call's encoding loop, and the first loop of IWireObject::called, on arguments that
-- fit the parameters.
use hyprwire_debian.Base.{ℕ, ◌≡◌, refl, arith, List, [], ◌∷◌, ◌++◌, All, true, false}
use hyprwire_debian.Outcome.{done}
use hyprwire_debian.Message.Generic.Args.{
  Arg, word, text, fd, words, texts, fds, IsArg, args_bytes, args_fds, arg_code,
}
use hyprwire_debian.WireObject.Marshal.{
  VaArg, num, str, nums, strs, is_plain, is_skipped, marshal, marshal_scalar, marshal_array,
}

-- The parameters that an argument answers to, and what is passed for it.
unfoldable pub arg_params : Arg → List ℕ
arg_params (words t vs) = 0x21 ∷ t ∷ []
arg_params (texts ts) = 0x21 ∷ 0x20 ∷ []
arg_params (fds ns) = 0x21 ∷ 0x40 ∷ []
arg_params a = arg_code a ∷ []

unfoldable pub arg_va : Arg → VaArg
arg_va (word t v) = num v
arg_va (text s) = str s
arg_va (fd n) = num n
arg_va (words t vs) = nums vs
arg_va (texts ts) = strs ts
arg_va (fds ns) = nums ns

unfoldable pub args_params : List Arg → List ℕ
unfolding arg_params
args_params [] = []
args_params (a ∷ args) = arg_params a ++ args_params args

unfoldable pub args_va : List Arg → List VaArg
unfolding arg_va
args_va [] = []
args_va (a ∷ args) = arg_va a ∷ args_va args

-- A caller passes no SEQ: `call` writes that itself.
abbrev pub IsPassed : Arg → Type 0
IsPassed (word t v) = is_plain t ≡ true
IsPassed (words t vs) = is_plain t ≡ true
IsPassed _ = Unit {0}

-- The encoder writes the arguments that it is passed.
pub marshal-args :
    (args : List Arg)
    → All IsArg args
    → All IsPassed args
    → marshal false (args_params args) (args_va args) ≡ done (args_bytes args, args_fds args)
unfolding marshal marshal_scalar marshal_array is_skipped is_plain args_params args_va args_bytes
    args_fds
marshal-args [] h k = refl
marshal-args (word t v ∷ args) h k = ground (arith, marshal-args args h.1 k.1)
marshal-args (text s ∷ args) h k = ground (arith, marshal-args args h.1 k.1)
marshal-args (fd n ∷ args) h k = ground (arith, marshal-args args h.1 k.1)
marshal-args (words t vs ∷ args) h k = ground (arith, marshal-args args h.1 k.1)
marshal-args (texts ts ∷ args) h k = ground (arith, marshal-args args h.1 k.1)
marshal-args (fds ns ∷ args) h k = ground (arith, marshal-args args h.1 k.1)
