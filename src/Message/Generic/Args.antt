-- ===== src/Message/Generic/Args.antt =====
-- The arguments of a generic message, as IWireObject::call writes them
-- (src/core/wireObject/IWireObject.cpp): the case labels of its `switch` on a parameter's type.
use hyprwire_debian.Base.{
  ℕ, ◌≡◌, ◌≢◌, refl, arith, true, ◌^◌, ◌<◌, List, [], ◌∷◌, ◌++◌, All, IsU32, length, u32_bytes,
}
use hyprwire_debian.VarInt.{encode_var_int}
use hyprwire_debian.Wire.MessageType
use hyprwire_debian.Wire.Magic
use hyprwire_debian.Wire.Magic.{is_word}
use hyprwire_debian.Message.Handshake.{words_bytes, text_bytes, texts_bytes}

-- A word is a UINT, INT, F32, OBJECT or SEQ, by its code and its 32 bits.
pub data Arg : Type 0 where
  word : ℕ → ℕ → Arg
  text : List ℕ → Arg
  fd : ℕ → Arg
  words : ℕ → List ℕ → Arg
  texts : List (List ℕ) → Arg
  fds : List ℕ → Arg

-- The bytes of an argument, and the descriptors that go beside them.
unfoldable pub arg_bytes : Arg → List ℕ
arg_bytes (word t v) = t ∷ u32_bytes v
arg_bytes (text s) = Magic.varchar ∷ text_bytes s
arg_bytes (fd n) = Magic.fd ∷ []
arg_bytes (words t vs) = Magic.array ∷ t ∷ [] ++ (encode_var_int (length vs) ++ words_bytes vs)
arg_bytes (texts ts) =
    Magic.array ∷ Magic.varchar ∷ [] ++ (encode_var_int (length ts) ++ texts_bytes ts)
arg_bytes (fds ns) = Magic.array ∷ Magic.fd ∷ [] ++ encode_var_int (length ns)

unfoldable pub arg_fds : Arg → List ℕ
arg_fds (fd n) = n ∷ []
arg_fds (fds ns) = ns
arg_fds _ = []

unfoldable pub args_bytes : List Arg → List ℕ
unfolding arg_bytes
args_bytes [] = []
args_bytes (a ∷ rest) = arg_bytes a ++ args_bytes rest

unfoldable pub args_fds : List Arg → List ℕ
unfolding arg_fds
args_fds [] = []
args_fds (a ∷ rest) = arg_fds a ++ args_fds rest

abbrev IsShort {ℓ} : {A : Type ℓ} → List A → Type 0
IsShort xs = length xs < 2 ^ 28

-- The codes and numbers fit, and the lengths fit the 28 bits that are written.
abbrev pub IsArg : Arg → Type 0
IsArg (word t v) = (is_word t ≡ true) × IsU32 v
IsArg (text s) = IsShort s
IsArg (fd n) = Unit {0}
IsArg (words t vs) = (is_word t ≡ true) × IsShort vs × All IsU32 vs
IsArg (texts ts) = IsShort ts × All IsShort ts
IsArg (fds ns) = IsShort ns

-- The whole message of IWireObject::call: the object, the method, the arguments.
unfoldable pub generic_bytes : ℕ → ℕ → List Arg → List ℕ
generic_bytes object method args =
    MessageType.generic_protocol_message ∷ Magic.object ∷ u32_bytes object
    ++ (Magic.uint ∷ u32_bytes method ++ (args_bytes args ++ Magic.end ∷ []))

-- The code that an argument begins with.
abbrev pub arg_code : Arg → ℕ
arg_code (word t v) = t
arg_code (text s) = Magic.varchar
arg_code (fd n) = Magic.fd
arg_code _ = Magic.array

pub arg_bytes-cons : (a : Arg) → (front : List ℕ) × (arg_bytes a ≡ arg_code a ∷ front)
unfolding arg_bytes
arg_bytes-cons (word t v) = (_, refl)
arg_bytes-cons (text s) = (_, refl)
arg_bytes-cons (fd n) = (_, refl)
arg_bytes-cons (words t vs) = (_, refl)
arg_bytes-cons (texts ts) = (_, refl)
arg_bytes-cons (fds ns) = (_, refl)

pub arg_code-ne-end : (a : Arg) → IsArg a → arg_code a ≢ 0
unfolding is_word
arg_code-ne-end (word t v) h e = ground arith
arg_code-ne-end (text s) h e = cc
arg_code-ne-end (fd n) h e = cc
arg_code-ne-end (words t vs) h e = cc
arg_code-ne-end (texts ts) h e = cc
arg_code-ne-end (fds ns) h e = cc
