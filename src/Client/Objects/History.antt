-- ===== src/Client/Objects/History.antt =====
-- What a program may do with a CClientSocket from its construction on
-- (src/core/client/ClientSocket.cpp).
use hyprwire_debian.Base.{ℕ, ◌+◌, ◌^◌, ◌<◌, ◌≤◌, ◌≡◌, arith, Bool, Option, some, List, []}
use hyprwire_debian.Outcome.{done}
use hyprwire_debian.Outcome.Results.{Results-done}
use hyprwire_debian.Message.Hello.{encode_hello}
use hyprwire_debian.Message.Numbers.{encode_roundtrip_request}
use hyprwire_debian.WireObject.Spec.{WireObject, ObjectSpec, ProtocolSpec, Refusal, get_elem?}
use hyprwire_debian.WireObject.Demarshal.{FfiType}
use hyprwire_debian.WireObject.Marshal.{VaArg}
use hyprwire_debian.Client.State.{ClientSocket, new_socket, object_for_seq}
use hyprwire_debian.Client.Operations.{greet, add_implementation, bind_protocol, send_message}
use hyprwire_debian.Client.Dispatch.{Polled, dispatch_events, call_object}
use hyprwire_debian.Client.Objects.{
  IsSequenced, Keeps-IsSequenced, send_message-Keeps, object_for_seq-Ascending,
}
use hyprwire_debian.Client.Objects.Binds.{bind_protocol-IsSequenced}
use hyprwire_debian.Client.Objects.Calls.{call_object-IsSequenced}
use hyprwire_debian.Client.Objects.Dispatch.{Sockets, dispatch_events-Results}

module _ (describe : Refusal → List ℕ) (prep_cif : List FfiType → Bool) where
  -- One operation that returns. The loops that wait are dispatches, and `roundtrip` sends a request
  -- and dispatches; `listen` changes no number. What counts m_seq up does not take it to 2^32.
  pub data Act (c : ClientSocket) : ClientSocket → Type 0 where
    connects : (valid : Bool) → Act c (greet c valid)
    implements : (x : ProtocolSpec) → Act c (add_implementation c x)
    dispatches :
        (p : Polled) {c' : ClientSocket} {more : Bool}
        → dispatch_events describe prep_cif c p ≡ done (c', more)
        → Act c c'
    binds :
        (spec : ProtocolSpec) (version : ℕ) {c' : ClientSocket} {made : Option WireObject}
        → c.seq + 1 < 2 ^ 32
        → bind_protocol c spec version ≡ done (c', made)
        → Act c c'
    calls :
        (obj : WireObject) (spec : ObjectSpec) (id : ℕ) (va : List VaArg) {c' : ClientSocket}
        {ret : ℕ}
        → c.seq + 1 < 2 ^ 32
        → call_object describe c obj spec id va ≡ done (c', ret)
        → Act c c'
    asks :
        (seq : ℕ)
        → Act c (
            send_message
              (record c { last_sent_roundtrip_seq = seq })
              (encode_roundtrip_request seq)
              [])

  -- The operations since the construction.
  pub data History : ClientSocket → Type 0 where
    constructed : History new_socket
    later : {c c' : ClientSocket} → History c → Act c c' → History c'

  Act-IsSequenced : {c c' : ClientSocket} → Act c c' → IsSequenced c → IsSequenced c'
  Act-IsSequenced {c} (connects v) h =
      Keeps-IsSequenced c (greet c v)
        (unfold greet in send_message-Keeps (record c { valid = v }) encode_hello []) h
  Act-IsSequenced (implements x) h = unfold add_implementation in h
  Act-IsSequenced {c} {c'} (dispatches p {more = more} e) h =
      Keeps-IsSequenced c c'
        (Results-done (Sockets c) (dispatch_events describe prep_cif c p) (c', more)
          (dispatch_events-Results describe prep_cif c p) e)
        h
  Act-IsSequenced {c} {c'} (binds spec version {made = made} small e) h =
      bind_protocol-IsSequenced c spec version c' made small h e
  Act-IsSequenced {c} {c'} (calls obj spec id va {ret = ret} small e) h =
      call_object-IsSequenced describe c obj spec id va c' ret small h e
  Act-IsSequenced {c} (asks seq) h =
      let counted : ClientSocket = record c { last_sent_roundtrip_seq = seq } in
      Keeps-IsSequenced c (send_message counted (encode_roundtrip_request seq) [])
        (send_message-Keeps counted (encode_roundtrip_request seq) []) h

  pub History-IsSequenced : {c : ClientSocket} → History c → IsSequenced c
  History-IsSequenced constructed = omega arith
  History-IsSequenced (later r a) = Act-IsSequenced a (History-IsSequenced r)

  -- After any sequence of connecting, adding implementations, dispatches of whatever arrives,
  -- binds, calls and roundtrip requests since the construction, in which m_seq is not counted up to
  -- 2^32, each object of the client has a sequence number that is not above m_seq and is the one
  -- that objectForSeq finds under it.
  pub History-found :
      (c : ClientSocket) (i : ℕ) (o : WireObject)
      → History c
      → get_elem? c.objects i ≡ some o
      → (o.seq ≤ c.seq) × (object_for_seq o.seq c.objects ≡ some o)
  History-found c i o r e =
      let found = object_for_seq-Ascending 0 c.objects c.seq i o (History-IsSequenced r) e in
      (found.1, found.2)
