-- ===== src/Server/Calls/Events.antt =====
-- A call of a server's object, over the wire, to the listener at the client's object.
use hyprwire_debian.Base.{
  ℕ, ◌^◌, ◌<◌, ◌≤◌, ◌≡◌, arith, ap, not, ◌∙◌, Bool, true, false, some, List, [], All, length, IsU32,
}
use hyprwire_debian.Outcome.{done}
use hyprwire_debian.Message.Generic.Args.{Arg, IsArg, args_fds, generic_bytes}
use hyprwire_debian.WireObject.Spec.{
  Method, ObjectSpec, WireObject, Refusal, get_elem?, is_empty, methods_out,
}
use hyprwire_debian.WireObject.Demarshal.{FfiType}
use hyprwire_debian.WireObject.RoundTrip.Check.{args_params, args_va, IsPassed}
use hyprwire_debian.WireObject.RoundTrip.EndToEnd.{call-args}
use hyprwire_debian.Server.State.{ServerClient, log, sent}
use hyprwire_debian.Server.Client.{send_message}
use hyprwire_debian.Server.Calls.{call_object, owner_send}
use hyprwire_debian.Client.State
use hyprwire_debian.Client.State.{ClientSocket}
use hyprwire_debian.Client.Dispatch.{Polled, dispatch_events}
use hyprwire_debian.Client.Flush.{flush_pending-nil}
use hyprwire_debian.Client.Replies.{
  Takes, event, delivered, next, finished, stream_bytes, stream_fds, reply_bytes, reply_fds,
}
use hyprwire_debian.Client.Replies.Runs.{dispatch_events-Run}
use mathlib.Core.List.{append-nil}

-- What a client reads when the server has called.
abbrev pub delivery : ℕ → ℕ → List Arg → Polled
delivery object method args = record {
  timed_out = false;
  pollhup = false;
  pollin = true;
  raw = record { bytes = generic_bytes object method args; fds = args_fds args; bad = false };
}

-- Let a method that returns no object exist in the object's version on a server, and let its
-- parameters be those of 32-bit words, texts below 2^28 bytes, descriptors and arrays of them. Then
-- call on the object of a client that is there, over a valid socket, sends one message; and a
-- client without an error or calls that wait, whose object of that number takes the event, has its
-- listener called once with the same arguments when that message, below 2^63 bytes, is dispatched.
pub call_object-delivered :
    (describe : Refusal → List ℕ) (prep_cif : List FfiType → Bool) (s : ServerClient)
    (obj : WireObject) (spec : ObjectSpec) (id : ℕ) (args : List Arg) (method : Method)
    (c : ClientSocket) (cobj : WireObject)
    → s.valid ≡ true
    → get_elem? spec.s2c id ≡ some method
    → method.since ≤ obj.version
    → is_empty method.returns_type ≡ true
    → method.params ≡ args_params args
    → All IsArg args
    → All IsPassed args
    → IsU32 obj.id
    → IsU32 id
    → c.error ≡ false
    → c.pending_outgoing ≡ []
    → State.object_for_id obj.id c.objects ≡ some cobj
    → Takes prep_cif cobj id args
    → length (generic_bytes obj.id id args) < 2 ^ 63
    → (call_object describe (some s) obj spec id (args_va args)
        ≡ done (some (log s (sent (generic_bytes obj.id id args) (args_fds args)))))
      × (dispatch_events describe prep_cif c (delivery obj.id id args)
          ≡ done (State.log c (State.heard cobj.id id args), true))
unfolding call_object owner_send send_message methods_out stream_bytes stream_fds reply_bytes
    reply_fds
call_object-delivered describe prep_cif s obj spec id args method c cobj valid found since one_way
      fits h k ho hi no_error nothing there takes small =
    let bytes = generic_bytes obj.id id args in
    let c' : ClientSocket = State.log c (State.heard cobj.id id args) in
    (
      ground (
        arith,
        valid,
        one_way,
        call-args true spec.s2c obj id 0 args method found since (λ _. one_way) fits h k,
      ),
      rw (append-nil bytes, append-nil (args_fds args), flush_pending-nil c' nothing) at
            (dispatch_events-Run describe prep_cif c (event obj.id id args) [] c' no_error
              (next (delivered there takes) finished) ((ho, hi, h), tt)
              (rw (append-nil bytes) small))
          ∙ ap (λ b. done (c', not b)) no_error,
    )
