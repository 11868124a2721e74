-- ===== src/Client/Operations.antt =====
-- The operations of CClientSocket (src/core/client/ClientSocket.cpp), up to those that wait.
use hyprwire_debian.Base.{
  ℕ, ◌+◌, ◌%◌, ◌^◌, Bool, true, false, Option, none, some, List, [], ◌∷◌, ◌++◌, ltb, ◌==◌,
  if◌then◌else◌,
}
use hyprwire_debian.Outcome.{Outcome, done, crash, ◌>>=◌}
use hyprwire_debian.Wire.Decimal.{stoul}
use hyprwire_debian.Message.Hello.{bytes_eq, encode_hello}
use hyprwire_debian.Message.BindProtocol.{encode_bind_protocol}
use hyprwire_debian.Message.Generic.{Generic}
use hyprwire_debian.WireObject.Spec.{
  ProtocolSpec, ObjectSpec, WireObject, Refusal, fresh, methods_in,
}
use hyprwire_debian.WireObject.Demarshal.{
  FfiType, Called, ignored, refused, failed, invoked, called,
}
use hyprwire_debian.Client.State.{sent, heard, ClientSocket, log, object_for_id, set_id}

-- CClientSocket::sendMessage: one `sendmsg` that is not put off, whatever it comes to.
unfoldable pub send_message : ClientSocket → List ℕ → List ℕ → ClientSocket
send_message c bytes fds = if c.valid then log c (sent bytes fds) else c

-- The end of CClientSocket::attempt and attemptFromFd, with the descriptor that they got.
unfoldable pub greet : ClientSocket → Bool → ClientSocket
unfolding send_message
greet c valid = send_message (record c { valid = valid }) encode_hello []

-- CClientSocket::addImplementation
unfoldable pub add_implementation : ClientSocket → ProtocolSpec → ClientSocket
add_implementation c x = record c { impls = c.impls ++ x ∷ [] }

-- CClientSocket::disconnectOnError
unfoldable pub disconnect_on_error : ClientSocket → ClientSocket
disconnect_on_error c = record c { error = true; valid = false }

-- `find_last_of('@')`, as what stands before and behind the last one.
unfoldable pub split_last : ℕ → List ℕ → Option (List ℕ × List ℕ)
split_last mark [] = none
split_last mark (b ∷ bs) = elim (split_last mark bs) [
  | some (front, back) ↦ some (b ∷ front, back)
  | none ↦ if b == mark then some ([], bs) else none
]

-- Without an '@', `atPos` is npos: the name is the whole text, and `atPos + 1` wraps to 0, so that
-- the whole text is read as the version too. A version is a `uint32_t`.
unfoldable pub server_spec : List ℕ → Outcome (List ℕ × ℕ)
unfolding stoul split_last
server_spec text = elim (split_last b'@' text) [
  | none ↦ do n ← stoul text; done (text, n % 2 ^ 32)
  | some (name, ver) ↦ do n ← stoul ver; done (name, n % 2 ^ 32)
]

-- CClientSocket::serverSpecs: the first text that does not parse ends the loop.
unfoldable pub add_specs : ClientSocket → List (List ℕ) → ClientSocket
unfolding server_spec disconnect_on_error
add_specs c [] = c
add_specs c (s ∷ ss) = elim (server_spec s) [
  | done spec ↦ add_specs (record c { server_specs = c.server_specs ++ spec ∷ [] }) ss
  | _ ↦ disconnect_on_error c
]

unfoldable pub server_specs : ClientSocket → List (List ℕ) → ClientSocket
unfolding add_specs
server_specs c s = record (add_specs c s) { handshake_done = true }

-- CClientSocket::onSeq
unfoldable pub on_seq : ClientSocket → ℕ → ℕ → ClientSocket
unfolding set_id
on_seq c seq id = record c { objects = set_id seq id c.objects }

-- CClientSocket::bindProtocol, up to `waitForObject`. To take the front of no objects is undefined
-- behaviour.
unfoldable pub bind_protocol :
    ClientSocket → ProtocolSpec → ℕ → Outcome (ClientSocket × Option WireObject)
unfolding disconnect_on_error send_message
bind_protocol c spec version =
    if ltb spec.spec_ver version then done (disconnect_on_error c, none) else elim spec.objects [
      | [] ↦ crash
      | front ∷ _ ↦
          let n : ℕ = (c.seq + 1) % 2 ^ 32 in
          let obj : WireObject = record fresh {
            spec = some front;
            seq = n;
            version = version;
            protocol_name = spec.spec_name;
          } in
          done (
            send_message (record c { seq = n; objects = c.objects ++ obj ∷ [] })
                (encode_bind_protocol spec.spec_name n version) [],
            some obj,
          )
    ]

unfoldable pub find_spec : List ℕ → List ProtocolSpec → Option ProtocolSpec
find_spec name [] = none
find_spec name (p ∷ ps) = if bytes_eq p.spec_name name then some p else find_spec name ps

unfoldable pub find_named : List ℕ → List ObjectSpec → Option ObjectSpec
find_named name [] = none
find_named name (s ∷ ss) = if bytes_eq s.object_name name then some s else find_named name ss

-- CClientSocket::makeObject
unfoldable pub make_object : ClientSocket → List ℕ → List ℕ → ℕ → ClientSocket × Option WireObject
unfolding find_spec find_named
make_object c protocol_name object_name seq = elim (find_spec protocol_name c.impls) [
  | none ↦ (c, none)
  | some p ↦ elim (find_named object_name p.objects) [
    | none ↦ (c, none)
    | some spec ↦
        let obj : WireObject = record fresh {
          protocol_name = protocol_name;
          spec = some spec;
          seq = seq;
        } in
        (record c { objects = c.objects ++ obj ∷ [] }, some obj)
  ]
]

-- CClientObject does not override IObject::error (src/core/implementation/Object.cpp), which does
-- nothing.
unfoldable pub object_error : ClientSocket → ℕ → ℕ → List ℕ → ClientSocket
object_error c object id msg = c

module _ (describe : Refusal → List ℕ) (prep_cif : List FfiType → Bool) where
  unfoldable pub after_called : ClientSocket → WireObject → ℕ → Called → ClientSocket
  unfolding object_error
  after_called c obj method ignored = c
  after_called c obj method (refused r) = object_error c obj.id obj.id (describe r)
  after_called c obj method failed = record c { error = true }
  after_called c obj method (invoked args) = log c (heard obj.id method args)

  unfoldable pub call_object : ClientSocket → WireObject → Generic → Outcome ClientSocket
  unfolding after_called
  call_object c obj msg = elim obj.spec [
    | none ↦ crash
    | some spec ↦ do
      r ←
          called prep_cif (msg.span_size + 1) (methods_in false spec) obj msg.method
            (record { mem = msg.span; size = msg.span_size }) msg.fds
      done (after_called c obj msg.method r)
  ]

  -- CClientSocket::onGeneric
  unfoldable pub on_generic : ClientSocket → Generic → Outcome ClientSocket
  unfolding call_object
  on_generic c msg = elim (object_for_id msg.object c.objects) [
    | none ↦ done c
    | some obj ↦ call_object c obj msg
  ]
