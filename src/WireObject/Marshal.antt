-- ===== src/WireObject/Marshal.antt =====
-- IWireObject::call (src/core/wireObject/IWireObject.cpp), up to what is sent.
use hyprwire_debian.Base.{
  ℕ, Bool, true, false, not, ◌&&◌, ◌||◌, none, some, List, [], ◌∷◌, ◌++◌, ltb, ◌==◌, if◌then◌else◌,
  length, u32_bytes,
}
use hyprwire_debian.Outcome.{Outcome, done, reject, crash, ◌>>=◌}
use hyprwire_debian.VarInt.{encode_var_int}
use hyprwire_debian.Wire.Magic
use hyprwire_debian.Wire.MessageType
use hyprwire_debian.Message.Handshake.{words_bytes, text_bytes, texts_bytes}
use hyprwire_debian.WireObject.Spec.{
  Method, WireObject, Refusal, invalid_method, too_new, server_returns, get_elem?, is_empty,
}

-- What `va_arg` finds: 32 bits (of an unsigned, a signed or a float), a C string, or the pointer
-- and the length of an array of 32-bit values or of strings.
pub data VaArg : Type 0 where
  num : ℕ → VaArg
  str : List ℕ → VaArg
  nums : List ℕ → VaArg
  strs : List (List ℕ) → VaArg

-- The case labels of the encoder; it has none for SEQ.
unfoldable pub is_plain : ℕ → Bool
is_plain t = t == Magic.uint || t == Magic.int || t == Magic.object || t == Magic.f32

-- The bytes that are appended to `data`, and the descriptors to `fds`.
abbrev pub Chunk : Type 0
Chunk = List ℕ × List ℕ

-- A scalar parameter. To fetch what the caller did not pass is undefined behaviour.
unfoldable pub marshal_scalar : ℕ → VaArg → Outcome Chunk
unfolding is_plain
marshal_scalar t (num v) =
    if is_plain t
    then done (t ∷ u32_bytes v, [])
    else if t == Magic.fd
    then done (Magic.fd ∷ [], v ∷ [])
    else crash
marshal_scalar t (str s) =
    if t == Magic.varchar then done (Magic.varchar ∷ text_bytes s, []) else crash
marshal_scalar t a = crash

-- An array with the element type `t`; another type makes `call` give up with `errd()`.
unfoldable pub marshal_array : ℕ → VaArg → Outcome Chunk
unfolding is_plain
marshal_array t (nums vs) =
    let head = Magic.array ∷ t ∷ encode_var_int (length vs) in
    if is_plain t
    then done (head ++ words_bytes vs, [])
    else if t == Magic.fd
    then done (head, vs)
    else if t == Magic.varchar
    then crash
    else reject
marshal_array t (strs ts) =
    let head = Magic.array ∷ t ∷ encode_var_int (length ts) in
    if t == Magic.varchar
    then done (head ++ texts_bytes ts, [])
    else if is_plain t || t == Magic.fd
    then crash
    else reject
marshal_array t a = crash

-- The parameters that fetch no argument: `default: break;`
unfoldable pub is_skipped : ℕ → Bool
unfolding is_plain
is_skipped t = not (is_plain t || t == Magic.varchar || t == Magic.array || t == Magic.fd)

abbrev pub cons_chunk : Chunk → Chunk → Chunk
cons_chunk (b, f) (bs, fs) = (b ++ bs, f ++ fs)

-- The loop over the parameters, which takes the arguments from the front. The flag tells that the
-- parameter is the element type of an ARRAY; to lack it makes `params.at(++i)` throw.
unfoldable pub marshal : Bool → List ℕ → List VaArg → Outcome Chunk
marshal false [] va = done ([], [])
marshal true [] va = crash
marshal true (t ∷ ps) [] = crash
marshal true (t ∷ ps) (a ∷ va) = do
  c ← marshal_array t a
  cs ← marshal false ps va
  done (cons_chunk c cs)
marshal false (p ∷ ps) [] = elim (is_skipped p) [ true ↦ marshal false ps [] | false ↦ crash ]
marshal false (p ∷ ps) (a ∷ va) = elim (is_skipped p) [
  | true ↦ marshal false ps (a ∷ va)
  | false ↦ elim (p == Magic.array) [
    | true ↦ marshal true ps (a ∷ va)
    | false ↦ do c ← marshal_scalar p a; cs ← marshal false ps va; done (cons_chunk c cs)
  ]
]

-- What `call` comes to: `error(m_id, MSG)` and 0, or a message with its descriptors, and the
-- sequence number of the object that the answer will create, or 0.
pub data Call : Type 0 where
  refused : Refusal → Call
  message : List ℕ → List ℕ → ℕ → Call

-- The encoding, for a method that may be called; `seq` is the number that `++m_seq` would give.
unfoldable pub encode_call : WireObject → Method → ℕ → List VaArg → ℕ → Outcome Call
encode_call obj method id va seq = do
  (bytes, fds) ← marshal false method.params va
  done (
      message
        (MessageType.generic_protocol_message ∷ Magic.object ∷ u32_bytes obj.id
          ++ (Magic.uint ∷ u32_bytes id
              ++ ((if is_empty method.returns_type then [] else Magic.seq ∷ u32_bytes seq)
                  ++ (bytes ++ Magic.end ∷ []))))
        fds (if is_empty method.returns_type then 0 else seq))

unfoldable pub call_method : Bool → WireObject → Method → ℕ → List VaArg → ℕ → Outcome Call
unfolding encode_call
call_method server obj method id va seq =
    if ltb obj.version method.since
    then done (refused (too_new id method.since obj.version))
    else if not (is_empty method.returns_type) && server
    then done (refused (server_returns id obj.id))
    else encode_call obj method id va seq

-- `reject` is `errd()` and 0.
unfoldable pub call : Bool → List Method → WireObject → ℕ → List VaArg → ℕ → Outcome Call
unfolding call_method
call server methods obj id va seq = elim (get_elem? methods id) [
  | none ↦ done (refused (invalid_method id obj.id))
  | some method ↦ call_method server obj method id va seq
]
