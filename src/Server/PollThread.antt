-- ===== src/Server/PollThread.antt =====
-- The poll thread of CServerSocket::extractLoopFD (src/core/server/ServerSocket.cpp) and the program
-- that it wakes: the steps that the two take, in any order. A step is what is done between two
-- places where the other can be seen.
pub mod Wakes
use hyprwire_debian.Base.{ℕ, ◌+◌, ◌-◌, ◌≡◌, ◌≢◌, Bool, true, false, Option, none, some}
use hyprwire_debian.Server.Socket.{ServerSocket, recheck_poll_fds}

-- Where the thread stands: before the test of the loop, in `poll`, behind it, behind the test there,
-- waiting for the event to be handled, or at its end.
pub data Place : Type 0 where
  top polling woken tested waiting ended : Place

-- Where the program stands: outside, in dispatchEvents before and in clearEventFd, behind it, or in
-- the destructor behind its writes.
pub data Caller : Type 0 where
  idle dispatching clearing cleared closing : Caller

-- `m_threadCanPoll`, `m_pollEvent`, the bytes in the pipe of `m_exportFd`, and whether the exit pipe
-- has its byte.
pub record World : Type 0 where
  pub place : Place
  pub caller : Caller
  pub can_poll : Bool
  pub event : Bool
  pub pipe : ℕ
  pub exit : Bool

-- extractLoopFD when it starts the thread.
abbrev pub started : World
started = record {
  place = top;
  caller = idle;
  can_poll = true;
  event = false;
  pipe = 0;
  exit = false;
}

pub data Step : World → World → Type 0 where
  -- The thread: `while (m_threadCanPoll)`, the poll, which returns when a descriptor is ready, the
  -- test behind it, which is made without the lock, and then the event under the lock. The wait
  -- ends when the event is handled, or after five seconds.
  polls : {w : World} → w.place ≡ top → w.can_poll ≡ true → Step w (record w { place = polling })
  ends : {w : World} → w.place ≡ top → w.can_poll ≡ false → Step w (record w { place = ended })
  wakes : {w : World} → w.place ≡ polling → Step w (record w { place = woken })
  returns : {w : World} → w.place ≡ woken → w.can_poll ≡ false → Step w (record w { place = ended })
  tests : {w : World} → w.place ≡ woken → w.can_poll ≡ true → Step w (record w { place = tested })
  exports :
      {w : World}
      → w.place ≡ tested
      → Step w (record w { place = waiting; event = true; pipe = w.pipe + 1 })
  resumes : {w : World} → w.place ≡ waiting → w.event ≡ false → Step w (record w { place = top })
  times_out : {w : World} → w.place ≡ waiting → Step w (record w { place = top })
  -- The program: dispatchEvents, which reads the pipe until it is empty and then takes the event
  -- back; and the destructor.
  dispatches : {w : World} → w.caller ≡ idle → Step w (record w { caller = dispatching })
  begins_clearing : {w : World} → w.caller ≡ dispatching → Step w (record w { caller = clearing })
  reads : {w : World} → w.caller ≡ clearing → w.pipe ≢ 0 → Step w (record w { pipe = w.pipe - 127 })
  is_empty : {w : World} → w.caller ≡ clearing → w.pipe ≡ 0 → Step w (record w { caller = cleared })
  handles : {w : World} → w.caller ≡ cleared → Step w (record w { caller = idle; event = false })
  closes :
      {w : World}
      → w.caller ≡ idle
      → Step w (record w { caller = closing; can_poll = false; event = false; exit = true })

pub data Steps : World → World → Type 0 where
  stay : {w : World} → Steps w w
  also : {u v w : World} → Steps u v → Step v w → Steps u w

-- A CServerSocket with the descriptors of the thread, and the thread, if it was started.
pub record Exported : Type 0 where
  pub socket : ServerSocket
  pub export_fd : Option ℕ
  pub export_write_fd : Option ℕ
  pub exit_write_fd : Option ℕ
  pub thread : Option World

abbrev pub Pipe : Type 0
Pipe = Option (ℕ × ℕ)

-- The second half of extractLoopFD, behind the first pipe.
unfoldable pub start_thread : Exported → Pipe → Exported
unfolding recheck_poll_fds
start_thread x none = x
start_thread x (some (r, w)) = record x {
  socket = recheck_poll_fds (record x.socket { exit_fd = some r });
  exit_write_fd = some w;
  thread = some started;
}

-- CServerSocket::extractLoopFD, with what its two calls of `pipe` give. The result is the
-- descriptor, or -1.
unfoldable pub extract_loop_fd : Exported → Pipe → Pipe → Exported × Option ℕ
unfolding start_thread
extract_loop_fd x first second = elim x.export_fd [
  | some fd ↦ (x, some fd)
  | none ↦ elim first [
    | none ↦ (x, none)
    | some (r, w) ↦ (
      start_thread (record x { export_fd = some r; export_write_fd = some w }) second,
      elim second [ none ↦ none | some p ↦ some r ],
    )
  ]
]
