-- ===== src/Server/Listener.antt =====
-- How a CServerSocket (src/core/server/ServerSocket.cpp) begins and ends: its constructor, open,
-- attempt and its destructor. What the system answers is an input, and what the program asks of it
-- is a list of calls in order.
pub mod Files
use hyprwire_debian.Base.{
  ℕ, Bool, true, false, not, Option, none, some, List, [], ◌∷◌, ◌++◌, leb, if◌then◌else◌, length,
}
use hyprwire_debian.WireObject.Spec.{is_empty}
use hyprwire_debian.Server.Socket.{ServerSocket, recheck_poll_fds, attempt_empty}

abbrev pub SocketPath : Type 0
SocketPath = List ℕ

-- socket, connect, std::filesystem::remove, bind and listen
pub data SystemCall : Type 0 where
  open_socket : SystemCall
  connect_to : SocketPath → SystemCall
  remove_file : SocketPath → SystemCall
  bind_to : SocketPath → SystemCall
  listen_on : Option ℕ → SystemCall

-- What connect comes to: someone listens, `errno` is ECONNREFUSED, or it is another error.
pub data Connect : Type 0 where
  alive refused other_error : Connect

-- The system's answers to attempt: whether the path exists, the descriptors of the two calls of
-- socket, what connect comes to, whether remove sets `ec`, and whether bind returns 0. Where
-- `exists` returns true, `ec` is clear.
pub record Answers : Type 0 where
  pub exists : Bool
  pub probe_fd : Option ℕ
  pub connects : Connect
  pub removal_fails : Bool
  pub fd : Option ℕ
  pub binds : Bool

-- A CServerSocket with `m_path` and `m_wakeupWriteFd`, and the calls that it made.
pub record Listener : Type 0 where
  pub socket : ServerSocket
  pub path : SocketPath
  pub wakeup_write_fd : Option ℕ
  pub calls : List SystemCall

-- The constructor: the two ends that `pipe` gives, if it gives them.
unfoldable pub new_listener : Option (ℕ × ℕ) → Listener
new_listener pipes = record {
  socket = record {
    fd = none;
    exit_fd = none;
    wakeup_fd = elim pipes [ none ↦ none | some (r, w) ↦ some r ];
    is_empty_listener = false;
    impls = [];
    clients = [];
    wakeup_writes = 0;
    pollfds = [];
  };
  path = [];
  wakeup_write_fd = elim pipes [ none ↦ none | some (r, w) ↦ some w ];
  calls = [];
}

abbrev pub ask : Listener → SystemCall → Listener
ask l c = record l { calls = l.calls ++ c ∷ [] }

-- `m_fd = ...`
abbrev pub set_fd : Listener → Option ℕ → Listener
set_fd l fd = record l { socket = record l.socket { fd = fd } }

-- `sun_path` has 108 bytes.
abbrev pub sun_path_size : ℕ
sun_path_size = 108

-- The first part of attempt: what stands at the path is removed if no one listens there. Whether
-- attempt goes on.
unfoldable pub clear_path : Listener → Answers → SocketPath → Listener × Bool
clear_path l a path =
    if not a.exists
    then (l, true)
    else (let opened = set_fd (ask l open_socket) a.probe_fd in
        if leb sun_path_size (length path)
        then (opened, false)
        else (let connected = ask opened (connect_to path) in
            elim a.connects [
              | alive ↦ (set_fd connected none, false)
              | other_error ↦ (connected, false)
              | refused ↦ (ask (set_fd connected none) (remove_file path), not a.removal_fails)
            ]))

-- The second part.
unfoldable pub bind_path : Listener → Answers → SocketPath → Listener × Bool
unfolding recheck_poll_fds
bind_path l a path =
    let opened = set_fd (ask l open_socket) a.fd in
    if leb sun_path_size (length path)
    then (opened, false)
    else (let bound = ask opened (bind_to path) in
        if not a.binds then (bound, false) else (
          record (ask bound (listen_on a.fd)) {
            path = path;
            socket = recheck_poll_fds bound.socket;
          },
          true,
        ))

-- CServerSocket::attempt
abbrev pub bind_after : Listener × Bool → Answers → SocketPath → Listener × Bool
bind_after (l, true) a path = bind_path l a path
bind_after (l, false) a path = (l, false)

unfoldable pub attempt : Listener → Answers → SocketPath → Listener × Bool
unfolding clear_path
attempt l a path = bind_after (clear_path l a path) a path

-- IServerSocket::open of a path, and of none.
unfoldable pub open_path : Option (ℕ × ℕ) → Answers → SocketPath → Option Listener
unfolding new_listener attempt
open_path pipes a path =
    let r = attempt (new_listener pipes) a path in if r.1 then some r.0 else none

unfoldable pub open_empty : Option (ℕ × ℕ) → Option Listener
unfolding new_listener attempt_empty
open_empty pipes = let l = new_listener pipes in some (record l { socket = attempt_empty l.socket })

-- The destructor, but for the poll thread.
unfoldable pub close : Listener → Listener
close l =
    let closed = set_fd l none in
    if is_empty l.path then closed else ask closed (remove_file l.path)
