-- ===== src/WireObject/RoundTrip/EndToEnd.antt =====
-- From IWireObject::call on one side to the listener on the other.
use hyprwire_debian.Base.{
  ℕ, ◌^◌, ◌<◌, ◌≤◌, ◌≡◌, refl, arith, Bool, true, false, some, List, [], ◌∷◌, ◌++◌, length, All,
  IsU32, u32_bytes,
}
use hyprwire_debian.Outcome.{done}
use hyprwire_debian.Wire.Magic.{is_word}
use hyprwire_debian.Message.Generic.Args.{
  Arg, word, IsArg, args_bytes, args_fds, arg_bytes, arg_fds, generic_bytes,
}
use hyprwire_debian.WireObject.Spec.{Method, WireObject, get_elem?, is_empty, has_listener}
use hyprwire_debian.WireObject.Marshal.{message, call, call_method, encode_call, marshal}
use hyprwire_debian.WireObject.Demarshal.{
  Span, FfiType, pointer, fine, check_params, param, invoked, wire_params, deliver, called_method,
  called,
}
use hyprwire_debian.WireObject.RoundTrip.Check.{
  arg_params, args_params, args_va, IsPassed, marshal-args,
}
use hyprwire_debian.WireObject.RoundTrip.Params.{args_types, check_params-args}
use hyprwire_debian.WireObject.RoundTrip.Decode.{decode_args-append}
use mathlib.Core.List.{append_assoc, append-nil}

-- What goes over the wire for `args`: a method that returns an object has its number in front.
abbrev pub sent_args : Method → ℕ → List Arg → List Arg
sent_args method seq args = elim (is_empty method.returns_type) [
  | true ↦ args
  | false ↦ word 0x13 seq ∷ args
]

-- call writes the generic message of its object, its method and its arguments, with the sequence
-- number of the returned object in front where the method returns one, if the method exists in the
-- object's version, a server does not ask for an object back, and the arguments are of the method's
-- parameters.
pub call-args :
    (server : Bool) (methods : List Method) (obj : WireObject) (id seq : ℕ) (args : List Arg)
    (method : Method)
    → get_elem? methods id ≡ some method
    → method.since ≤ obj.version
    → (server ≡ true → is_empty method.returns_type ≡ true)
    → method.params ≡ args_params args
    → All IsArg args
    → All IsPassed args
    → call server methods obj id (args_va args) seq
      ≡ done (
          message
            (generic_bytes obj.id id (sent_args method seq args))
            (args_fds args)
            (elim (is_empty method.returns_type) [ true ↦ 0 | false ↦ seq ]))
unfolding call call_method encode_call generic_bytes args_bytes arg_bytes
call-args server methods obj id seq args method found since one_way fits h k =
    ground (arith, marshal_fits, append_assoc (u32_bytes seq) (args_bytes args) (0 ∷ []))
  where
    marshal_fits :
        marshal false method.params (args_va args) ≡ done (args_bytes args, args_fds args)
    marshal_fits = rw fits (marshal-args args h k)

-- The parameters on the wire are those of what is sent.
pub wire_params-sent :
    (method : Method) (seq : ℕ) (args : List Arg)
    → method.params ≡ args_params args
    → wire_params method ≡ args_params (sent_args method seq args)
unfolding wire_params args_params arg_params
wire_params-sent method seq args fits = ground arith

pub sent_args-IsArg :
    (method : Method) (seq : ℕ) (args : List Arg)
    → IsU32 seq
    → All IsArg args
    → All IsArg (sent_args method seq args)
sent_args-IsArg method seq args hs h =
    elim (is_empty method.returns_type)
      as (λ b. All IsArg (elim b [ true ↦ args | false ↦ word 0x13 seq ∷ args ])) [
        | true ↦ h
        | false ↦ ((unfold is_word in refl, hs), h)
      ]

pub sent_args-fds :
    (method : Method) (seq : ℕ) (args : List Arg)
    → args_fds (sent_args method seq args) ≡ args_fds args
unfolding args_fds arg_fds
sent_args-fds method seq args = ground arith

-- called passes to the listener the values that stand encoded in the span, descriptors included, if
-- the method exists with a listener in the object's version, its parameters on the wire are those
-- of the values, libffi takes their types, and the span is below 2^63 bytes and holds them. Fuel
-- above the number of arguments is enough.
pub called-args :
    (prep_cif : List FfiType → Bool) (fuel : ℕ) (methods : List Method) (obj : WireObject) (id : ℕ)
    (s : Span) (args : List Arg) (rest : List ℕ) (method : Method)
    → get_elem? methods id ≡ some method
    → has_listener obj.listeners id ≡ true
    → method.since ≤ obj.version
    → wire_params method ≡ args_params args
    → prep_cif (pointer ∷ args_types args) ≡ true
    → All IsArg args
    → length args < fuel
    → s.size < 2 ^ 63
    → length (args_bytes args) < s.size
    → s.mem ≡ args_bytes args ++ 0 ∷ rest
    → called prep_cif fuel methods obj id s (args_fds args) ≡ done (invoked args)
unfolding called called_method deliver
called-args prep_cif fuel methods obj id s args rest method found heard since fits cif h hf small
      room e =
    ground (
      arith,
      params,
      rw append-nil at (decode_args-append s small args fuel 0 [] rest h hf (omega arith) e),
    )
  where
    params : check_params id s param (wire_params method) 0 0 ≡ done (fine (args_types args))
    params = rw fits (check_params-args s small args id 0 0 rest h (omega arith) (omega arith) e)
