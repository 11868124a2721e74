-- ===== src/Client/Versions.antt =====
-- The version of an object that a call returns (CClientSocket::makeObject,
-- src/core/client/ClientSocket.cpp).
use hyprwire_debian.Base.{ℕ, ◌<◌, ◌≡◌, arith, some, List}
use hyprwire_debian.Outcome.{done}
use hyprwire_debian.WireObject.Spec.{
  Method, ObjectSpec, WireObject, Refusal, get_elem?, methods_out,
}
use hyprwire_debian.WireObject.Marshal.{VaArg, call, call_method}
use hyprwire_debian.Client.State.{ClientSocket}
use hyprwire_debian.Client.Operations.{make_object, object_error}
use hyprwire_debian.Client.Dispatch.{call_object, after_call}

make_object-version :
    (c : ClientSocket) (protocol_name object_name : List ℕ) (seq : ℕ) (c' : ClientSocket)
    (o : WireObject)
    → make_object c protocol_name object_name seq ≡ (c', some o)
    → o.version ≡ 0
unfolding make_object
make_object-version c protocol_name object_name seq c' o h = ground (arith, h)

-- On an object that makeObject made, which a call returned, the call of any method that is there
-- since a version above 0 returns 0 and does nothing at all: it sends and puts off no message and
-- sets no error.
pub call_object-returned :
    (describe : Refusal → List ℕ) (c c' later : ClientSocket) (protocol_name object_name : List ℕ)
    (seq : ℕ) (o : WireObject) (spec : ObjectSpec) (id : ℕ) (va : List VaArg) (method : Method)
    → make_object c protocol_name object_name seq ≡ (c', some o)
    → get_elem? spec.c2s id ≡ some method
    → 0 < method.since
    → call_object describe later o spec id va ≡ done (later, 0)
unfolding call_object call call_method methods_out after_call object_error
call_object-returned describe c c' later protocol_name object_name seq o spec id va method made
      found newer =
    let version = make_object-version c protocol_name object_name seq c' o made in
    ground (arith, found, version, newer)
