-- ===== src/Server/Calls.antt =====
-- IWireObject::call of a server's object (src/core/wireObject/IWireObject.cpp), with the operations
-- of CServerObject that it ends in (src/core/server/ServerObject.cpp).
pub mod Events
use hyprwire_debian.Base.{ℕ, ◌<◌, ◌≡◌, true, false, Option, none, some, List, ◌≤◌}
use hyprwire_debian.Outcome.{Outcome, done, reject, crash, stuck}
use hyprwire_debian.WireObject.Spec.{
  Method, ObjectSpec, WireObject, Refusal, invalid_method, too_new, server_returns, get_elem?,
  is_empty, methods_out,
}
use hyprwire_debian.WireObject.Marshal.{VaArg, Call, refused, message, call}
use hyprwire_debian.Server.State.{ServerClient}
use hyprwire_debian.Server.Client.{send_message, object_error}

-- What `m_client`, a weak pointer, leads to: the client, or nothing once the client is gone.
abbrev pub Owner : Type 0
Owner = Option ServerClient

-- CServerObject::errd
unfoldable pub errd : Owner → Owner
errd none = none
errd (some c) = some (record c { error = true })

-- CServerObject::sendMessage
unfoldable pub owner_send : Owner → List ℕ → List ℕ → Owner
unfolding send_message
owner_send none bytes fds = none
owner_send (some c) bytes fds = some (send_message c bytes fds)

-- CServerObject::error: `m_client` is not tested before it is used.
unfoldable pub owner_error : Owner → ℕ → ℕ → List ℕ → Outcome Owner
unfolding object_error
owner_error none object id msg = crash
owner_error (some c) object id msg = done (some (object_error c object id msg))

-- The end of `call`. No object is made: a server calls no method that returns one.
abbrev pub finish_call : (Refusal → List ℕ) → Owner → WireObject → Outcome Call → Outcome Owner
finish_call describe owner obj (done (refused r)) = owner_error owner obj.id obj.id (describe r)
finish_call describe owner obj (done (message bytes fds ret)) = done (owner_send owner bytes fds)
finish_call describe owner obj reject = done (errd owner)
finish_call describe owner obj crash = crash
finish_call describe owner obj stuck = stuck

-- IWireObject::call of a server's object, whose specification is `spec`.
unfoldable pub call_object :
    (Refusal → List ℕ) → Owner → WireObject → ObjectSpec → ℕ → List VaArg → Outcome Owner
unfolding owner_error owner_send errd
call_object describe owner obj spec id va =
    finish_call describe owner obj (call true (methods_out true spec) obj id va 0)

-- Why a call is refused: there is no such method, it is too new, or it returns an object.
pub data Refuses (obj : WireObject) (spec : ObjectSpec) (id : ℕ) : Refusal → Type 0 where
  no_method : get_elem? spec.s2c id ≡ none → Refuses obj spec id (invalid_method id obj.id)
  not_yet :
      {method : Method}
      → get_elem? spec.s2c id ≡ some method
      → obj.version < method.since
      → Refuses obj spec id (too_new id method.since obj.version)
  asks_back :
      {method : Method}
      → get_elem? spec.s2c id ≡ some method
      → method.since ≤ obj.version
      → is_empty method.returns_type ≡ false
      → Refuses obj spec id (server_returns id obj.id)
