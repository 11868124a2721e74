-- ===== src/Reads.antt =====
-- parseFromFd (src/core/socket/SocketHelpers.cpp): reading what a socket has. What the calls of
-- recvmsg find is an input.
pub mod Chunks
pub mod Calls
use hyprwire_debian.Base.{
  ℕ, ◌^◌, Bool, true, false, Option, none, some, List, [], ◌∷◌, ◌++◌, ◌==◌, length,
}
use hyprwire_debian.Server.Socket.{RawMessage}

-- The first control message: none, one that is no SCM_RIGHTS of SOL_SOCKET, or descriptors.
pub data Control : Type 0 where
  no_control : Control
  other_control : Control
  rights : List ℕ → Control

-- What recvmsg returns: an error, or bytes.
pub data Received : Type 0 where
  failed : Received
  received : List ℕ → Control → Received

abbrev pub buffer_size : ℕ
buffer_size = 8192

-- `SSocketRawParsedMessage message;` and `{.bad = true}`
abbrev pub nothing : RawMessage
nothing = record { bytes = []; fds = []; bad = false }

abbrev pub bad_message : RawMessage
bad_message = record { bytes = []; fds = []; bad = true }

-- What a call adds to the message, if it is no protocol error.
unfoldable pub append_received : RawMessage → List ℕ → Control → Option RawMessage
append_received m bytes no_control = some (record m { bytes = m.bytes ++ bytes })
append_received m bytes other_control = none
append_received m bytes (rights fds) =
    some (record m { bytes = m.bytes ++ bytes; fds = m.fds ++ fds })

-- The loop, with the message so far: the message, and the calls that are not made. There is no
-- result if the last call does not return.
unfoldable pub read_loop : RawMessage → List Received → Option (RawMessage × List Received)
unfolding append_received
read_loop m [] = none
read_loop m (failed ∷ rs) = some (bad_message, rs)
read_loop m (received bytes c ∷ rs) = elim (append_received m bytes c) [
  | none ↦ some (bad_message, rs)
  | some m' ↦ elim (length bytes == buffer_size) [ true ↦ read_loop m' rs | false ↦ some (m', rs) ]
]

-- parseFromFd
unfoldable pub parse_from_fd : List Received → Option (RawMessage × List Received)
unfolding read_loop
parse_from_fd rs = read_loop nothing rs
