-- ===== src/Client/Connect.antt =====
-- CClientSocket::attempt and IClientSocket::open (src/core/client/ClientSocket.cpp). What the system
-- answers is an input.
use hyprwire_debian.Base.{
  ℕ, Bool, true, false, not, ◌||◌, Option, none, some, List, leb, if◌then◌else◌, length,
}
use hyprwire_debian.Client.State.{ClientSocket, new_socket}
use hyprwire_debian.Client.Operations.{greet}

-- Whether socket gives a descriptor, what `exists` finds and whether it sets `ec`, and whether
-- someone listens.
pub record Answers : Type 0 where
  pub valid : Bool
  pub exists : Bool
  pub exists_failed : Bool
  pub connects : Bool

-- CClientSocket::attempt: the socket, and whether it is connected. `sun_path` has 108 bytes.
unfoldable pub attempt : ClientSocket → Answers → List ℕ → ClientSocket × Bool
attempt c a path =
    let opened = record c { valid = a.valid } in
    if not a.exists || a.exists_failed
    then (opened, false)
    else if leb 108 (length path)
    then (opened, false)
    else if not a.connects
    then (opened, false)
    else (greet opened a.valid, true)

-- IClientSocket::open of a path, and of a descriptor that is or is not valid.
unfoldable pub open_path : Answers → List ℕ → Option ClientSocket
unfolding attempt
open_path a path = let r = attempt new_socket a path in if r.1 then some r.0 else none

unfoldable pub open_fd : Bool → Option ClientSocket
open_fd valid = some (greet new_socket valid)
