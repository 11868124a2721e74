-- ===== src/Client/Calls.antt =====
-- A call of a client's object, over the wire, to the listener at the server's object.
use hyprwire_debian.Base.{
  ℕ, ◌+◌, ◌%◌, ◌^◌, ◌<◌, ◌≤◌, ◌≡◌, ◌≢◌, arith, Bool, true, false, Option, some, List, [], All,
  length, IsU32,
}
use hyprwire_debian.Outcome.{done}
use hyprwire_debian.Message.Generic.Args.{Arg, IsArg, args_fds, generic_bytes}
use hyprwire_debian.WireObject.Spec.{
  Method, ObjectSpec, WireObject, Refusal, get_elem?, is_empty, methods_out,
}
use hyprwire_debian.WireObject.Demarshal.{FfiType}
use hyprwire_debian.WireObject.RoundTrip.Check.{args_params, args_va, IsPassed}
use hyprwire_debian.WireObject.RoundTrip.EndToEnd.{call-args}
use hyprwire_debian.Server.State
use hyprwire_debian.Server.State.{Implementation, ServerClient}
use hyprwire_debian.Server.Socket.{dispatch_client, answer_roundtrip}
use hyprwire_debian.Server.Requests.{
  Takes, invoke, delivered, next, finished, stream_bytes, stream_fds, request_bytes, request_fds,
}
use hyprwire_debian.Server.Requests.Runs.{dispatch_client-Run}
use hyprwire_debian.Client.State.{ClientSocket, log, sent}
use hyprwire_debian.Client.Operations.{send_message}
use hyprwire_debian.Client.Dispatch.{call_object, after_call, send_call, count_seq}
use mathlib.Core.List.{append-nil}

-- The client's part: the message is sent whole.
call_object-sent :
    (describe : Refusal → List ℕ) (c : ClientSocket) (obj : WireObject) (spec : ObjectSpec) (id : ℕ)
    (args : List Arg) (method : Method)
    → c.valid ≡ true
    → obj.id ≢ 0
    → get_elem? spec.c2s id ≡ some method
    → method.since ≤ obj.version
    → is_empty method.returns_type ≡ true
    → method.params ≡ args_params args
    → All IsArg args
    → All IsPassed args
    → call_object describe c obj spec id (args_va args)
      ≡ done (log c (sent (generic_bytes obj.id id args) (args_fds args)), 0)
unfolding call_object after_call send_call count_seq send_message methods_out
call_object-sent describe c obj spec id args method valid ne found since one_way fits h k = ground (
  arith,
  valid,
  ne,
  found,
  one_way,
  call-args false spec.c2s obj id ((c.seq + 1) % 2 ^ 32) args method found since (λ _. one_way) fits
      h k,
)

-- Let a method that returns no object exist in the object's version on a client, and let its
-- parameters be those of 32-bit words, texts below 2^28 bytes, descriptors and arrays of them. Then
-- call on an object with a number, over a valid socket, sends one message; and a server's client
-- without an error, whose object of that number takes the call, has its listener called once with
-- the same arguments when that message, below 2^63 bytes, is dispatched.
pub call_object-heard :
    (describe : Refusal → List ℕ) (prep_cif : List FfiType → Bool) (peer : Option ℕ)
    (impls : List Implementation) (c : ClientSocket) (obj : WireObject) (spec : ObjectSpec) (id : ℕ)
    (args : List Arg) (method : Method) (s : ServerClient) (sobj : WireObject)
    → c.valid ≡ true
    → obj.id ≢ 0
    → get_elem? spec.c2s id ≡ some method
    → method.since ≤ obj.version
    → is_empty method.returns_type ≡ true
    → method.params ≡ args_params args
    → All IsArg args
    → All IsPassed args
    → IsU32 obj.id
    → IsU32 id
    → s.error ≡ false
    → State.object_for_id obj.id s.objects ≡ some sobj
    → Takes prep_cif sobj id args
    → length (generic_bytes obj.id id args) < 2 ^ 63
    → (call_object describe c obj spec id (args_va args)
        ≡ done (log c (sent (generic_bytes obj.id id args) (args_fds args)), 0))
      × (dispatch_client describe prep_cif peer impls s
            (record { bytes = generic_bytes obj.id id args; fds = args_fds args; bad = false })
          ≡ done (answer_roundtrip (State.log s (State.heard sobj.id id args))))
call_object-heard describe prep_cif peer impls c obj spec id args method s sobj valid ne found since
      one_way fits h k ho hi no_error there takes small =
    (
      call_object-sent describe c obj spec id args method valid ne found since one_way fits h k,
      unfold stream_bytes stream_fds request_bytes request_fds in
          rw (append-nil (generic_bytes obj.id id args), append-nil (args_fds args)) at
            (dispatch_client-Run describe prep_cif peer impls s (invoke obj.id id args) []
              (State.log s (State.heard sobj.id id args))
              (next no_error (delivered there takes) finished) ((ho, hi, h), tt)
              (rw (append-nil (generic_bytes obj.id id args)) small)),
    )
