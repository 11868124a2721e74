-- ===== src/Server/Client.antt =====
-- The operations of CServerClient (src/core/server/ServerClient.cpp), with those of CServerObject
-- (ServerObject.cpp) that act on it.
use hyprwire_debian.Base.{
  ℕ, ◌+◌, ◌%◌, ◌^◌, Bool, true, false, Option, none, some, List, [], ◌∷◌, ◌++◌, ltb, if◌then◌else◌,
}
use hyprwire_debian.Outcome.{Outcome, done, crash, ◌>>=◌}
use hyprwire_debian.Message.FatalError.{encode_fatal_error}
use hyprwire_debian.Message.Numbers.{encode_new_object}
use hyprwire_debian.Message.Generic.{Generic}
use hyprwire_debian.WireObject.Spec.{ObjectSpec, WireObject, Refusal, fresh, methods_in}
use hyprwire_debian.WireObject.Demarshal.{
  FfiType, Called, ignored, refused, failed, invoked, called,
}
use hyprwire_debian.Server.State.{
  Implementation, sent, bound, heard, ServerClient, log, find_impl, find_object, binds,
  object_for_id,
}

-- CServerClient::dispatchFirstPoll: `peer` is the pid that `getsockopt` finds, if it finds one.
unfoldable pub dispatch_first_poll : Option ℕ → ServerClient → ServerClient
dispatch_first_poll peer c = elim c.first_poll_done [
  | true ↦ c
  | false ↦ elim peer [
    | none ↦ record c { first_poll_done = true }
    | some pid ↦ record c { first_poll_done = true; pid = some pid }
  ]
]

-- CServerClient::sendMessage: one `sendmsg` that is not put off, whatever it comes to.
unfoldable pub send_message : ServerClient → List ℕ → List ℕ → ServerClient
send_message c bytes fds = if c.valid then log c (sent bytes fds) else c

-- CServerObject::error of an object of this number.
unfoldable pub object_error : ServerClient → ℕ → ℕ → List ℕ → ServerClient
unfolding send_message
object_error c object id msg =
    record (send_message c (encode_fatal_error (some object) id msg) []) { error = true }

-- CServerClient::onBind
abbrev pub on_bind_name : Option Implementation → List ℕ → ℕ → ServerClient → ServerClient
on_bind_name none name id c = c
on_bind_name (some p) name id c = if binds name p.implementation then log c (bound id) else c

-- `onBind` of an object whose `m_spec` is there.
unfoldable pub on_bind : List Implementation → ServerClient → WireObject → ObjectSpec → ServerClient
on_bind impls c obj spec =
    on_bind_name (find_impl obj.protocol_name impls) spec.object_name obj.id c

-- An object that was not made stays in `m_objects` all the same.
abbrev pub fail_object : ServerClient → WireObject → ServerClient × Option WireObject
fail_object c obj = (record c { objects = c.objects ++ obj ∷ []; error = true }, none)

-- The object as it is filled in; the list holds the pointer, so that it shows there.
unfoldable pub make_object :
    List Implementation
    → ServerClient
    → WireObject
    → ObjectSpec
    → ℕ
    → ServerClient × Option WireObject
unfolding send_message on_bind
make_object impls c obj spec seq = (
  on_bind impls
      (send_message (record c { objects = c.objects ++ obj ∷ [] }) (encode_new_object seq obj.id)
        [])
      obj spec,
  some obj,
)

-- After the search for the object's specification.
unfoldable pub fill_object :
    List Implementation
    → ServerClient
    → WireObject
    → Option ObjectSpec
    → ℕ
    → ℕ
    → ServerClient × Option WireObject
unfolding make_object
fill_object impls c obj none spec_ver seq = fail_object c obj
fill_object impls c obj (some spec) spec_ver seq =
    if ltb spec_ver obj.version
    then fail_object c (record obj { spec = some spec })
    else make_object impls c (record obj { spec = some spec }) spec seq

-- After the search for the protocol.
unfoldable pub join_protocol :
    List Implementation
    → ServerClient
    → WireObject
    → Option Implementation
    → List ℕ
    → List ℕ
    → ℕ
    → ServerClient × Option WireObject
unfolding fill_object
join_protocol impls c obj none protocol object seq = fail_object c obj
join_protocol impls c obj (some p) protocol object seq =
    fill_object impls c (record obj { protocol_name = protocol })
      (find_object object p.protocol.objects) p.protocol.spec_ver seq

-- CServerClient::createObject
unfoldable pub create_object :
    List Implementation → ServerClient → List ℕ → List ℕ → ℕ → ℕ → ServerClient × Option WireObject
unfolding join_protocol
create_object impls c protocol object version seq =
    join_protocol impls (record c { max_id = (c.max_id + 1) % 2 ^ 32 })
      (record fresh { id = c.max_id; version = version }) (find_impl protocol impls) protocol object
      seq

-- `describe` is the text of a refusal, and `prep_cif` whether libffi takes the types.
module _ (describe : Refusal → List ℕ) (prep_cif : List FfiType → Bool) where
  -- What comes of a call of the object `obj`, for the client.
  unfoldable pub after_called : ServerClient → WireObject → ℕ → Called → ServerClient
  unfolding object_error
  after_called c obj method ignored = c
  after_called c obj method (refused r) = object_error c obj.id obj.id (describe r)
  after_called c obj method failed = record c { error = true }
  after_called c obj method (invoked args) = log c (heard obj.id method args)

  -- Without a specification, `methodsIn` goes through a null pointer.
  unfoldable pub call_object : ServerClient → WireObject → Generic → Outcome ServerClient
  unfolding after_called
  call_object c obj msg = elim obj.spec [
    | none ↦ crash
    | some spec ↦ do
      r ←
          called prep_cif (msg.span_size + 1) (methods_in true spec) obj msg.method
            (record { mem = msg.span; size = msg.span_size }) msg.fds
      done (after_called c obj msg.method r)
  ]

  -- CServerClient::onGeneric
  unfoldable pub on_generic : ServerClient → Generic → Outcome ServerClient
  unfolding call_object
  on_generic c msg = elim (object_for_id msg.object c.objects) [
    | none ↦ done c
    | some obj ↦ call_object c obj msg
  ]
