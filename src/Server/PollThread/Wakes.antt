-- ===== src/Server/PollThread/Wakes.antt =====
-- The poll thread of CServerSocket (src/core/server/ServerSocket.cpp) and the program.
use hyprwire_debian.Base.{ℕ, suc, ◌<◌, ◌≡◌, true, false, arith}
use hyprwire_debian.Server.PollThread.{
  ended, idle, closing, World, started, Step, polls, ends, wakes, returns, tests, exports, resumes,
  times_out, dispatches, begins_clearing, reads, is_empty, handles, closes, Steps, stay, also,
}

-- While the program is outside and the event is not handled, there is a byte for it to read.
abbrev pub IsWoken : World → Type 0
IsWoken w = w.caller ≡ idle → w.event ≡ true → 0 < w.pipe

Step-IsWoken : {v w : World} → Step v w → IsWoken v → IsWoken w
Step-IsWoken (polls h k) i = i
Step-IsWoken (ends h k) i = i
Step-IsWoken (wakes h) i = i
Step-IsWoken (returns h k) i = i
Step-IsWoken (tests h k) i = i
Step-IsWoken (exports h) i = λ a b. omega arith
Step-IsWoken (resumes h k) i = i
Step-IsWoken (times_out h) i = i
Step-IsWoken (dispatches h) i = λ a b. cc
Step-IsWoken (begins_clearing h) i = λ a b. cc
Step-IsWoken (reads h k) i = λ a b. cc
Step-IsWoken (is_empty h k) i = λ a b. cc
Step-IsWoken (handles h) i = λ a b. cc
Step-IsWoken (closes h) i = λ a b. cc

Steps-IsWoken : {w : World} → Steps started w → IsWoken w
Steps-IsWoken stay = λ a b. cc
Steps-IsWoken (also ss s) = Step-IsWoken s (Steps-IsWoken ss)

-- However the steps of the poll thread and of the program follow each other: while the program is
-- outside dispatchEvents and the event of the thread is not taken back, the pipe that the program
-- polls has a byte.
pub waiting-readable : (w : World) → Steps started w → w.caller ≡ idle → w.event ≡ true → 0 < w.pipe
waiting-readable w ss h k = Steps-IsWoken ss h k

-- Once the destructor has written, nothing turns that back.
abbrev IsClosed : World → Type 0
IsClosed w = w.caller ≡ closing → w.can_poll ≡ false

-- The thread ends within `n` steps, whichever are taken, and until then there is one to take.
pub data EndsIn : ℕ → World → Type 0 where
  over : {n : ℕ} {w : World} → w.place ≡ ended → EndsIn n w
  soon :
      {n : ℕ} {w next : World}
      → Step w next
      → ((v : World) → Step w v → EndsIn n v)
      → EndsIn (suc n) w
