-- ===== src/Reads/Chunks.antt =====
-- What parseFromFd (src/core/socket/SocketHelpers.cpp) makes of the pieces in which a socket gives
-- its bytes.
use mathlib.Core.List.{append_assoc, append-nil}
use hyprwire_debian.Base.{
  ℕ, ◌<◌, ◌≡◌, refl, sym, ap, ◌∙◌, false, Option, none, some, List, [], ◌∷◌, ◌++◌, ◌==◌, length,
  All, arith, ==_ne,
}
use hyprwire_debian.Server.Socket.{RawMessage}
use hyprwire_debian.Reads.{
  Control, no_control, rights, Received, failed, received, buffer_size, nothing, bad_message,
  read_loop, parse_from_fd,
}

-- A piece: bytes, and the descriptors that come with them, if some do.
abbrev pub Piece : Type 0
Piece = List ℕ × Option (List ℕ)

abbrev control_of : Option (List ℕ) → Control
control_of none = no_control
control_of (some fds) = rights fds

abbrev pub arrives : Piece → Received
arrives (bytes, fds) = received bytes (control_of fds)

abbrev pub arrive : List Piece → List Received
arrive [] = []
arrive (p ∷ ps) = arrives p ∷ arrive ps

unfoldable pub all_bytes : List Piece → List ℕ
all_bytes [] = []
all_bytes ((bytes, fds) ∷ ps) = bytes ++ all_bytes ps

unfoldable pub all_fds : List Piece → List ℕ
all_fds [] = []
all_fds ((bytes, none) ∷ ps) = all_fds ps
all_fds ((bytes, some fds) ∷ ps) = fds ++ all_fds ps

-- Pieces that fill the buffer.
abbrev pub Full : List Piece → Type 0
Full ps = All (λ p. length p.0 ≡ buffer_size) ps

-- A message and one piece, or pieces, behind it.
abbrev add_piece : RawMessage → Piece → RawMessage
add_piece m (bytes, none) = record m { bytes = m.bytes ++ bytes }
add_piece m (bytes, some fds) = record m { bytes = m.bytes ++ bytes; fds = m.fds ++ fds }

abbrev pub gathered : RawMessage → List Piece → RawMessage
gathered m ps = record m { bytes = m.bytes ++ all_bytes ps; fds = m.fds ++ all_fds ps }

gathered-add_piece :
    (m : RawMessage) (p : Piece) (ps : List Piece)
    → gathered (add_piece m p) ps ≡ gathered m (p ∷ ps)
unfolding all_bytes all_fds
gathered-add_piece m (bytes, none) ps = rw (append_assoc m.bytes bytes (all_bytes ps)) refl
gathered-add_piece m (bytes, some fds) ps =
    rw (append_assoc m.bytes bytes (all_bytes ps), append_assoc m.fds fds (all_fds ps)) refl

gathered-nil : (m : RawMessage) → gathered m [] ≡ m
unfolding all_bytes all_fds
gathered-nil m = rw (append-nil m.bytes, append-nil m.fds) refl

read_loop-full :
    (m : RawMessage) (p : Piece) (rs : List Received)
    → length p.0 ≡ buffer_size
    → read_loop m (arrives p ∷ rs) ≡ read_loop (add_piece m p) rs
unfolding read_loop
read_loop-full m (bytes, none) rs h = rw (h, read_loop) refl
read_loop-full m (bytes, some fds) rs h = rw (h, read_loop) refl

not_full : (bytes : List ℕ) → length bytes < buffer_size → (length bytes == buffer_size) ≡ false
not_full bytes h = ==_ne (length bytes) buffer_size (λ e. omega (arith, e, h))

read_loop-last :
    (m : RawMessage) (p : Piece) (rs : List Received)
    → length p.0 < buffer_size
    → read_loop m (arrives p ∷ rs) ≡ some (add_piece m p, rs)
unfolding read_loop
read_loop-last m (bytes, none) rs h = rw (not_full bytes h, read_loop) refl
read_loop-last m (bytes, some fds) rs h = rw (not_full bytes h, read_loop) refl

-- Any pieces that fill the buffer are only gathered.
read_loop-arrive :
    (m : RawMessage) (ps : List Piece) (rs : List Received)
    → Full ps
    → read_loop m (arrive ps ++ rs) ≡ read_loop (gathered m ps) rs
read_loop-arrive m [] rs h = ap (λ k. read_loop k rs) (sym (gathered-nil m))
read_loop-arrive m (p ∷ ps) rs h =
    read_loop-full m p (arrive ps ++ rs) h.0
    ∙ read_loop-arrive (add_piece m p) ps rs h.1
    ∙ ap (λ k. read_loop k rs) (gathered-add_piece m p ps)

all_bytes-append : (ps : List Piece) (p : Piece) → all_bytes (ps ++ p ∷ []) ≡ all_bytes ps ++ p.0
unfolding all_bytes
all_bytes-append [] p = append-nil p.0
all_bytes-append (q ∷ ps) p =
    ap (λ l. q.0 ++ l) (all_bytes-append ps p) ∙ sym (append_assoc q.0 (all_bytes ps) p.0)

gathered-append :
    (m : RawMessage) (ps : List Piece) (p : Piece)
    → add_piece (gathered m ps) p ≡ gathered m (ps ++ p ∷ [])
gathered-append m [] p =
    ap (λ k. add_piece k p) (gathered-nil m)
    ∙ sym (gathered-nil (add_piece m p))
    ∙ gathered-add_piece m p []
gathered-append m (q ∷ ps) p =
    ap (λ k. add_piece k p) (sym (gathered-add_piece m q ps))
    ∙ gathered-append (add_piece m q) ps p
    ∙ gathered-add_piece m q (ps ++ p ∷ [])

-- Where recvmsg fills the buffer of 8192 bytes any number of times and then brings fewer bytes,
-- parseFromFd returns all bytes and all descriptors in order, and makes no further call.
pub parse_from_fd-arrive :
    (ps : List Piece) (p : Piece) (rs : List Received)
    → Full ps
    → length p.0 < buffer_size
    → parse_from_fd (arrive ps ++ arrives p ∷ rs) ≡ some (gathered nothing (ps ++ p ∷ []), rs)
unfolding parse_from_fd
parse_from_fd-arrive ps p rs h k =
    read_loop-arrive nothing ps (arrives p ∷ rs) h
    ∙ read_loop-last (gathered nothing ps) p rs k
    ∙ ap (λ m. some (m, rs)) (gathered-append nothing ps p)

failed-bad :
    (m : RawMessage) (rs : List Received) → read_loop m (failed ∷ rs) ≡ some (bad_message, rs)
unfolding read_loop
failed-bad m rs = refl

-- Where recvmsg fills the buffer any number of times and then fails, parseFromFd returns a bad
-- message without the bytes and the descriptors that it read.
pub parse_from_fd-failed :
    (ps : List Piece) (rs : List Received)
    → Full ps
    → parse_from_fd (arrive ps ++ failed ∷ rs) ≡ some (bad_message, rs)
unfolding parse_from_fd
parse_from_fd-failed ps rs h =
    read_loop-arrive nothing ps (failed ∷ rs) h ∙ failed-bad (gathered nothing ps) rs
