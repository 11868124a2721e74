-- ===== src/WireObject/Demarshal.antt =====
-- IWireObject::called (src/core/wireObject/IWireObject.cpp), up to the call of the listener, and
-- FFI::ffiTypeFrom (src/helpers/FFI.cpp).
use hyprwire_debian.Base.{
  ℕ, zero, suc, ◌+◌, ◌*◌, ◌%◌, ◌^◌, Bool, true, false, ◌||◌, none, some, List, [], ◌∷◌, ◌++◌, ltb,
  ◌==◌, if◌then◌else◌, drop, add64, sub64,
}
use hyprwire_debian.Outcome.{Outcome, done, crash, stuck, peek, copy_text, first_u32, ◌>>=◌}
use hyprwire_debian.VarInt.{parse_var_int_span}
use hyprwire_debian.Wire.Magic
use hyprwire_debian.Wire.Magic.{is_word}
use hyprwire_debian.Message.Generic.Args.{Arg, word, text, fd, words, texts, fds}
use hyprwire_debian.WireObject.Spec.{
  Method, WireObject, Refusal, invalid_method, too_new, wrong_param, bad_array,
  object_unimplemented, get_elem?, is_empty, has_listener,
}

pub data FfiType : Type 0 where
  uint32 sint32 float pointer null : FfiType

-- FFI::ffiTypeFrom
unfoldable pub ffi_type_from : ℕ → FfiType
ffi_type_from t =
    if t == Magic.uint || t == Magic.object || t == Magic.seq
    then uint32
    else if t == Magic.fd || t == Magic.int
    then sint32
    else if t == Magic.f32
    then float
    else if t == Magic.varchar || t == Magic.array
    then pointer
    else null

-- A `std::span`: the memory from its start on, and its size.
pub record Span : Type 0 where
  pub mem : List ℕ
  pub size : ℕ

-- `data[i]`
unfoldable pub span_at : Span → ℕ → Outcome ℕ
span_at s i = if ltb i s.size then peek s.mem i else crash

-- `std::memcpy(&v, &data[i], 4)`
unfoldable pub unchecked_u32 : List ℕ → ℕ → Outcome ℕ
unchecked_u32 mem i = elim (first_u32 (drop i mem)) [ done v ↦ done v | _ ↦ crash ]

-- A value, or `error(m_id, MSG)` and the end of the call.
pub data Checked {ℓ} (A : Type ℓ) : Type ℓ where
  fine : A → Checked A
  refuse : Refusal → Checked A

-- `dataI` behind the strings of an array: `len` is `arrMessageLen`.
unfoldable pub check_texts : Span → ℕ → ℕ → ℕ → Outcome (Checked ℕ)
check_texts s p len zero = done (fine len)
check_texts s p len (suc n) = elim (ltb s.size (add64 p len)) [
  | true ↦ done (refuse bad_array)
  | false ↦ do
    (str_len, str_len_len) ← parse_var_int_span s.mem (add64 p len) (sub64 (sub64 s.size p) len)
    check_texts s p (add64 len (add64 str_len str_len_len)) n
]

abbrev pub forward : ℕ → Outcome (Checked ℕ) → Outcome (Checked ℕ)
forward p (done (fine len)) = done (fine (add64 p len))
forward p o = o

-- The `switch` on an array's element type `t`.
unfoldable pub check_elements : Span → ℕ → ℕ → ℕ → ℕ → Outcome (Checked ℕ)
check_elements s t p arr_len len =
    if is_word t
    then done (fine (add64 p (add64 len (4 * arr_len % 2 ^ 64))))
    else if t == Magic.varchar
    then forward p (check_texts s p len arr_len)
    else if t == Magic.fd
    then done (fine (add64 p len))
    else done (refuse bad_array)

-- An array parameter with the element type `t`: `p` is `dataI`, `i` the index of `t` in the
-- parameters. The result is the next `dataI`.
unfoldable pub check_array : ℕ → Span → ℕ → ℕ → ℕ → Outcome (Checked ℕ)
check_array id s t i p = do
  wire ← span_at s (p + 1)
  elim (t == wire) [
    | false ↦ done (refuse (wrong_param id i Magic.array Magic.array))
    | true ↦ do
      (arr_len, len_len) ← parse_var_int_span s.mem (p + 2) (sub64 s.size i)
      check_elements s t p arr_len (2 + len_len)
  ]

-- The other parameters. A code with no case label moves nothing.
unfoldable pub check_scalar : Span → ℕ → ℕ → Outcome (Checked ℕ)
check_scalar s t p =
    if t == Magic.fd
    then done (fine (add64 p 1))
    else if is_word t
    then done (fine (add64 p 5))
    else if t == Magic.varchar
    then (do
      (a, b) ← parse_var_int_span s.mem (p + 1) (sub64 s.size p)
      done (fine (add64 p (add64 (add64 a b) 1))))
    else if t == Magic.object_id
    then done (refuse object_unimplemented)
    else done (fine p)

-- What the next parameter is: one to compare with the wire, the element type of an ARRAY, or the
-- one that END passes over.
pub data Mode : Type 0 where
  param element passed : Mode

abbrev pub also : List FfiType → Outcome (Checked (List FfiType)) → Outcome (Checked (List FfiType))
also front (done (fine types)) = done (fine (front ++ types))
also front o = o

-- The first loop: each parameter, at the index `i`, against what stands on the wire at `p`. The
-- result is the list of types for libffi. Without an element type `params.at(++i)` throws.
unfoldable pub check_params : ℕ → Span → Mode → List ℕ → ℕ → ℕ → Outcome (Checked (List FfiType))
unfolding ffi_type_from
check_params id s param [] i p = done (fine [])
check_params id s element [] i p = crash
check_params id s passed [] i p = done (fine [])
check_params id s passed (t ∷ ts) i p = check_params id s param ts (i + 1) p
check_params id s element (t ∷ ts) i p = do
  next ← check_array id s t i p
  elim next [
    | refuse r ↦ done (refuse r)
    | fine p' ↦ also (ffi_type_from Magic.uint ∷ []) (check_params id s param ts (i + 1) p')
  ]
check_params id s param (t ∷ ts) i p = do
  wire ← span_at s p
  elim (t == wire) [
    | false ↦ done (refuse (wrong_param id i t wire))
    | true ↦ elim (t == Magic.array) [
      | true ↦ also (ffi_type_from t ∷ []) (check_params id s element ts (i + 1) p)
      | false ↦ elim (t == Magic.end) [
        | true ↦ also (ffi_type_from t ∷ []) (check_params id s passed ts (i + 1) p)
        | false ↦ do
          next ← check_scalar s t p
          elim next [
            | refuse r ↦ done (refuse r)
            | fine p' ↦ also (ffi_type_from t ∷ []) (check_params id s param ts (i + 1) p')
          ]
      ]
    ]
  ]

-- `fds.at(fdNo++)`, `n` times: the descriptors, and those that are left.
unfoldable pub next_fds : ℕ → List ℕ → Outcome (List ℕ × List ℕ)
next_fds zero fs = done ([], fs)
next_fds (suc n) [] = crash
next_fds (suc n) (f ∷ fs) = do (taken, left) ← next_fds n fs; done (f ∷ taken, left)

-- The words, and the strings, of an array at `p`. Each read is a `memcpy`, or a string view, of
-- memory that is not checked.
unfoldable pub decode_words : List ℕ → ℕ → ℕ → Outcome (List ℕ)
decode_words mem p zero = done []
decode_words mem p (suc n) = do
  v ← unchecked_u32 mem p
  vs ← decode_words mem (p + 4) n
  done (v ∷ vs)

unfoldable pub decode_texts : Span → ℕ → ℕ → ℕ → Outcome (List (List ℕ) × ℕ)
decode_texts s p len zero = done ([], len)
decode_texts s p len (suc n) = do
  (str_len, str_len_len) ← parse_var_int_span s.mem (p + len) (sub64 s.size p)
  t ← copy_text s.mem (p + len + str_len_len) str_len
  (ts, last) ← decode_texts s p (len + str_len_len + str_len) n
  done (t ∷ ts, last)

-- One argument, the index behind it, and the descriptors that are left.
abbrev pub Decoded : Type 0
Decoded = Arg × ℕ × List ℕ

unfoldable pub decode_elements : Span → ℕ → ℕ → ℕ → ℕ → List ℕ → Outcome (Checked Decoded)
decode_elements s t p arr_len len fs =
    if is_word t
    then (do
      vs ← decode_words s.mem (p + len) arr_len
      done (fine (words t vs, p + len + arr_len * 4, fs)))
    else if t == Magic.varchar
    then (do (ts, last) ← decode_texts s p len arr_len; done (fine (texts ts, p + last, fs)))
    else if t == Magic.fd
    then (do (ns, left) ← next_fds arr_len fs; done (fine (fds ns, p + len, left)))
    else done (refuse bad_array)

unfoldable pub decode_array : Span → ℕ → List ℕ → Outcome (Checked Decoded)
decode_array s p fs = do
  t ← span_at s (p + 1)
  (arr_len, len_len) ← parse_var_int_span s.mem (p + 2) (sub64 s.size p)
  decode_elements s t p arr_len (2 + len_len) fs

-- A string and a descriptor.
unfoldable pub decode_text : Span → ℕ → List ℕ → Outcome (Checked Decoded)
decode_text s p fs = do
  (str_len, len) ← parse_var_int_span s.mem (p + 1) (sub64 (sub64 s.size p) 1)
  t ← copy_text s.mem (p + len + 1) str_len
  done (fine (text t, p + 1 + len + str_len, fs))

unfoldable pub decode_fd : ℕ → List ℕ → Outcome (Checked Decoded)
decode_fd p fs = do
  (ns, left) ← next_fds 1 fs
  elim ns [ [] ↦ crash | n ∷ _ ↦ done (fine (fd n, p + 1, left)) ]

unfoldable pub decode_word : Span → ℕ → ℕ → List ℕ → Outcome (Checked Decoded)
decode_word s code p fs = do v ← unchecked_u32 s.mem (p + 1); done (fine (word code v, p + 5, fs))

-- One round of the second loop at a code that is not END and has a case label.
unfoldable pub decode_arg : Span → ℕ → ℕ → List ℕ → Outcome (Checked Decoded)
decode_arg s code p fs =
    if is_word code
    then decode_word s code p fs
    else if code == Magic.varchar
    then decode_text s p fs
    else if code == Magic.array
    then decode_array s p fs
    else if code == Magic.object_id
    then done (refuse object_unimplemented)
    else decode_fd p fs

unfoldable pub is_known : ℕ → Bool
is_known code =
    is_word code
    || code == Magic.varchar
    || code == Magic.array
    || code == Magic.object_id
    || code == Magic.fd

-- The second loop, which makes the values out of the data, up to its end or an END. It does not
-- look at the parameters, and passes over a byte that is no code. A text that is read lies in
-- memory, so the index cannot wrap.
unfoldable pub decode_args : ℕ → Span → ℕ → List ℕ → Outcome (Checked (List Arg))
decode_args zero s p fs = stuck
decode_args (suc fuel) s p fs = elim (ltb p s.size) [
  | false ↦ done (fine [])
  | true ↦ do
    code ← span_at s p
    elim (code == Magic.end) [
      | true ↦ done (fine [])
      | false ↦ elim (is_known code) [
        | false ↦ decode_args fuel s (p + 1) fs
        | true ↦ do
          next ← decode_arg s code p fs
          elim next [
            | refuse r ↦ done (refuse r)
            | fine (a, p', fs') ↦ do
              rest ← decode_args fuel s p' fs'
              elim rest [ refuse r ↦ done (refuse r) | fine more ↦ done (fine (a ∷ more)) ]
          ]
      ]
    ]
]

-- What `called` comes to: nothing, as no one listens; `error(m_id, MSG)`; `errd()`, as libffi
-- refused the types; or the listener is called with the object and these values.
pub data Called : Type 0 where
  ignored : Called
  refused : Refusal → Called
  failed : Called
  invoked : List Arg → Called

-- The parameters on the wire: a method that returns an object has its number in front.
unfoldable pub wire_params : Method → List ℕ
wire_params method =
    if is_empty method.returns_type then method.params else Magic.seq ∷ method.params

-- `prep_cif` says whether `ffi_prep_cif` takes the types.
module _ (prep_cif : List FfiType → Bool) where
  unfoldable pub deliver : ℕ → Span → List ℕ → List FfiType → Outcome Called
  deliver fuel s fs types =
      if prep_cif (pointer ∷ types)
      then (do
        args ← decode_args fuel s 0 fs
        elim args [ refuse r ↦ done (refused r) | fine values ↦ done (invoked values) ])
      else done failed

  unfoldable pub called_method : ℕ → WireObject → Method → ℕ → Span → List ℕ → Outcome Called
  unfolding deliver
  called_method fuel obj method id s fs =
      if ltb obj.version method.since
      then done (refused (too_new id method.since obj.version))
      else (do
        types ← check_params id s param (wire_params method) 0 0
        elim types [ refuse r ↦ done (refused r) | fine ts ↦ deliver fuel s fs ts ])

  unfoldable pub called : ℕ → List Method → WireObject → ℕ → Span → List ℕ → Outcome Called
  unfolding called_method
  called fuel methods obj id s fs = elim (get_elem? methods id) [
    | none ↦ done (refused (invalid_method id obj.id))
    | some method ↦
        if has_listener obj.listeners id
        then called_method fuel obj method id s fs
        else done ignored
  ]
