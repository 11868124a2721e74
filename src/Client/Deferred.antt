-- ===== src/Client/Deferred.antt =====
-- Calls of an object that has no number yet, from m_pendingOutgoing of the client
-- (src/core/client/ClientSocket.cpp) to the listeners at the server.
use hyprwire_debian.Base.{
  ℕ, ◌+◌, ◌%◌, ◌^◌, ◌<◌, ◌≤◌, ◌≡◌, ◌≢◌, refl, arith, Bool, true, false, Option, some, List, [], ◌∷◌,
  ◌++◌, map, All, length, IsU32, ◌∙◌,
}
use hyprwire_debian.Outcome.{done}
use hyprwire_debian.Message.Numbers.{encode_new_object}
use hyprwire_debian.Message.Generic.Args.{Arg, IsArg, args_fds, generic_bytes}
use hyprwire_debian.WireObject.Spec.{
  Method, ObjectSpec, WireObject, Refusal, get_elem?, is_empty, methods_out,
}
use hyprwire_debian.WireObject.Demarshal.{FfiType}
use hyprwire_debian.WireObject.RoundTrip.Check.{args_params, args_va, IsPassed}
use hyprwire_debian.WireObject.RoundTrip.EndToEnd.{call-args}
use hyprwire_debian.Server.State
use hyprwire_debian.Server.State.{Implementation, ServerClient}
use hyprwire_debian.Server.Socket.{dispatch_client, answer_roundtrip}
use hyprwire_debian.Server.Requests.{
  Request, Takes, IsRequest, Run, invoke, delivered, next, finished, stream_bytes, stream_fds,
}
use hyprwire_debian.Server.Requests.Runs.{dispatch_client-Run}
use hyprwire_debian.Client.State.{ClientSocket, Pending, Event, sent, object_for_seq}
use hyprwire_debian.Client.Operations.{send_message, on_seq}
use hyprwire_debian.Client.Dispatch.{
  flush, flush_pending, dispatch_events, call_object, after_call, send_call, count_seq,
}
use hyprwire_debian.Client.Replies.{new_object, numbered, reply_bytes, reply_fds}
use hyprwire_debian.Client.Replies.Runs.{readable, dispatch_events-one}
use hyprwire_debian.Client.Sequences.{resolve_seq-generic_bytes, object_for_seq-on_seq}
use mathlib.Core.List.{append_assoc, append-nil}

-- A call: its method and its arguments.
abbrev pub Called : Type 0
Called = ℕ × List Arg

-- What waits for it, what is sent for it to the object of this number, what the server reads, and
-- what is heard there.
abbrev pub deferred : ℕ → Called → Pending
deferred seq (method, args) = record {
  bytes = generic_bytes 0 method args;
  fds = args_fds args;
  depends_on_seq = seq;
}

abbrev pub sent_to : ℕ → Called → Event
sent_to id (method, args) = sent (generic_bytes id method args) (args_fds args)

abbrev pub request_to : ℕ → Called → Request
request_to id (method, args) = invoke id method args

abbrev pub heard_at : ℕ → Called → State.Event
heard_at id (method, args) = State.heard id method args

-- An object without a number puts a call off; nothing is sent.
pub call_object-deferred :
    (describe : Refusal → List ℕ) (c : ClientSocket) (obj : WireObject) (spec : ObjectSpec) (id : ℕ)
    (args : List Arg) (method : Method)
    → obj.id ≡ 0
    → get_elem? spec.c2s id ≡ some method
    → method.since ≤ obj.version
    → is_empty method.returns_type ≡ true
    → method.params ≡ args_params args
    → All IsArg args
    → All IsPassed args
    → call_object describe c obj spec id (args_va args)
      ≡ done (
        record c { pending_outgoing = c.pending_outgoing ++ deferred obj.seq (id, args) ∷ [] },
        0,
      )
unfolding call_object after_call send_call count_seq methods_out
call_object-deferred describe c obj spec id args method none_yet found since one_way fits h k =
    ground (
      arith,
      none_yet,
      found,
      one_way,
      call-args false spec.c2s obj id ((c.seq + 1) % 2 ^ 32) args method found since (λ _. one_way)
          fits h k,
    )

flush-deferred :
    (seq : ℕ) (obj : WireObject) (calls : List Called) (c : ClientSocket)
    → c.valid ≡ true
    → object_for_seq seq c.objects ≡ some obj
    → obj.id ≢ 0
    → obj.id < 256
    → flush c (map (deferred seq) calls)
      ≡ (record c { trace = c.trace ++ map (sent_to obj.id) calls }, [])
unfolding flush send_message
flush-deferred seq obj [] c valid found nonzero small = rw (append-nil c.trace) refl
flush-deferred seq obj ((method, args) ∷ calls) c valid found nonzero small =
    let event = sent_to obj.id (method, args) in
    ground (
      arith,
      valid,
      found,
      nonzero,
      resolve_seq-generic_bytes obj.id method args,
      flush-deferred seq obj calls (record c { trace = c.trace ++ event ∷ [] }) valid found nonzero
          small,
      append_assoc c.trace (event ∷ []) (map (sent_to obj.id) calls),
    )

calls-Run :
    (prep_cif : List FfiType → Bool) (peer : Option ℕ) (impls : List Implementation) (id : ℕ)
    (sobj : WireObject) (calls : List Called) (s : ServerClient)
    → s.error ≡ false
    → State.object_for_id id s.objects ≡ some sobj
    → All (λ call. Takes prep_cif sobj call.0 call.1) calls
    → Run prep_cif peer impls s
        (map (request_to id) calls)
        (record s { trace = s.trace ++ map (heard_at sobj.id) calls })
calls-Run prep_cif peer impls id sobj [] s no_error there takes = rw (append-nil s.trace) finished
calls-Run prep_cif peer impls id sobj ((method, args) ∷ calls) s no_error there takes =
    let event = heard_at sobj.id (method, args) in
    let after : ServerClient = record s { trace = s.trace ++ event ∷ [] } in
    next no_error (delivered there takes.0) (
      rw (append_assoc s.trace (event ∷ []) (map (heard_at sobj.id) calls)) at
        (calls-Run prep_cif peer impls id sobj calls after no_error there takes.1))

-- The number of a method has 32 bits, and so have the words of its arguments.
abbrev pub IsCall : Called → Type 0
IsCall (method, args) = IsU32 method × All IsArg args

requests-IsRequest :
    (id : ℕ) (calls : List Called)
    → IsU32 id
    → All IsCall calls
    → All IsRequest (map (request_to id) calls)
requests-IsRequest id [] small h = tt
requests-IsRequest id ((method, args) ∷ calls) small h =
    ((small, h.0.0, h.0.1), requests-IsRequest id calls small h.1)

-- Let the calls that wait on a valid client without an error all be of one object, known under its
-- sequence number of 32 bits. When the answer tells a number for it, from 1 to 255, dispatchEvents
-- sends them all in order to that number and none waits any more; and a server's client without an
-- error or a roundtrip to answer, whose object of that number takes them, has its listeners called
-- with their arguments in that order when it reads them in a buffer below 2^63 bytes.
pub deferred-heard :
    (describe : Refusal → List ℕ) (prep_cif : List FfiType → Bool) (peer : Option ℕ)
    (impls : List Implementation) (c : ClientSocket) (s : ServerClient) (obj sobj : WireObject)
    (seq id : ℕ) (first : Called) (others : List Called)
    → c.valid ≡ true
    → c.error ≡ false
    → c.pending_outgoing ≡ map (deferred seq) (first ∷ others)
    → object_for_seq seq c.objects ≡ some obj
    → IsU32 seq
    → id ≢ 0
    → id < 256
    → All IsCall (first ∷ others)
    → s.error ≡ false
    → s.scheduled_roundtrip_seq ≡ 0
    → State.object_for_id id s.objects ≡ some sobj
    → All (λ call. Takes prep_cif sobj call.0 call.1) (first ∷ others)
    → length (stream_bytes (map (request_to id) (first ∷ others))) < 2 ^ 63
    → (dispatch_events describe prep_cif c (readable (encode_new_object seq id))
        ≡ done (
          record (on_seq c seq id) {
            pending_outgoing = [];
            trace = c.trace ++ map (sent_to id) (first ∷ others);
          },
          true,
        ))
      × (dispatch_client describe prep_cif peer impls s (record {
        bytes = stream_bytes (map (request_to id) (first ∷ others));
        fds = stream_fds (map (request_to id) (first ∷ others));
        bad = false;
      })
          ≡ done (record s { trace = s.trace ++ map (heard_at sobj.id) (first ∷ others) }))
unfolding on_seq reply_bytes reply_fds encode_new_object flush_pending
deferred-heard describe prep_cif peer impls c s obj sobj seq id first others valid no_error waiting
      found seq_small nonzero small hc s_no_error no_roundtrip there takes fits =
    let calls = first ∷ others in
    let named : WireObject = record obj { id = id } in
    let known : object_for_seq seq (on_seq c seq id).objects ≡ some named =
      (object_for_seq-on_seq c seq id (seq + 1) obj found (omega arith)).0 in
    (
      ground (
        arith,
        no_error,
        waiting,
        flush-deferred seq named calls (on_seq c seq id) valid known nonzero small,
        dispatch_events-one describe prep_cif c (new_object seq id) (on_seq c seq id)
            (encode_new_object seq id) no_error numbered (seq_small, omega arith) refl refl
            (omega arith),
      ),
      dispatch_client-Run describe prep_cif peer impls s (request_to id first)
            (map (request_to id) others)
            (record s { trace = s.trace ++ map (heard_at sobj.id) calls })
            (calls-Run prep_cif peer impls id sobj calls s s_no_error there takes)
            (requests-IsRequest id calls (omega arith) hc) fits
          ∙ (unfold answer_roundtrip in ground (arith, no_roundtrip)),
    )
