-- ===== src/Tests/Sockets.antt =====
-- The server's socket: its files, its loops and its thread.
use hyprwire_debian.Base.{◌<◌, ◌≡◌, refl, true, false, none, some, List, [], ◌∷◌, ◌++◌}
use hyprwire_debian.Outcome.{done}
use hyprwire_debian.Server.Socket.{
  ServerSocket, internal_fds, dispatch_existing_connections, dispatch_new_connections,
}
use hyprwire_debian.Server.Polls.{IsPolled}
use hyprwire_debian.Server.Listener.{Answers, SocketPath, refused, new_listener, attempt, close}
use hyprwire_debian.Server.Listener.Files.{is_stale, takes, removals, only_if, attempt-close}
use hyprwire_debian.Server.Events.{Turn, dispatch_events}
use hyprwire_debian.Server.Events.Loops.{dispatch_events-IsPolled}
use hyprwire_debian.Server.PollThread.{
  World, started, Steps, stay, also, polls, wakes, tests, exports, closing, waiting,
}
use hyprwire_debian.Server.PollThread.Wakes.{waiting-readable}

-- A file that is left over from another server.
abbrev left_over : Answers
left_over = record {
  exists = true;
  probe_fd = some 3;
  connects = refused;
  removal_fails = false;
  fd = some 4;
  binds = true;
}

abbrev path : SocketPath
path = 47 ∷ 115 ∷ []

attempt-close_example :
    ((attempt (new_listener none) left_over path).1 ≡ takes left_over path)
    × (removals (attempt (new_listener none) left_over path).0.calls
        ≡ only_if (is_stale left_over path) path)
    × (removals (close (attempt (new_listener none) left_over path).0).calls
        ≡ only_if (is_stale left_over path) path ++ only_if (takes left_over path) path)
attempt-close_example = attempt-close none left_over path (λ e. cc)

-- One who connects, and then no one.
abbrev listening : ServerSocket
listening = record {
  fd = some 4;
  exit_fd = none;
  wakeup_fd = some 5;
  is_empty_listener = false;
  impls = [];
  clients = [];
  wakeup_writes = 0;
  pollfds = some 4 ∷ none ∷ some 5 ∷ [];
}

abbrev quiet : Turn
quiet = record { incoming = false; accepted = none; polled = [] }

abbrev turns : List Turn
turns = record { incoming = true; accepted = some 9; polled = [] } ∷ quiet ∷ quiet ∷ quiet ∷ []

abbrev after_turns : ServerSocket
after_turns = (dispatch_new_connections listening true (some 9)).0

listening-IsPolled : IsPolled listening
unfolding internal_fds
listening-IsPolled = record { listens = λ e. refl; exits = refl; wakes = refl; serves = refl }

dispatched :
    dispatch_events (λ r. []) (λ ts. true) (λ c. none) true listening turns
    ≡ done (some (after_turns, []))
unfolding dispatch_events dispatch_new_connections dispatch_existing_connections
dispatched = refl

dispatch_events-IsPolled_example : IsPolled after_turns
dispatch_events-IsPolled_example =
    dispatch_events-IsPolled (λ r. []) (λ ts. true) (λ c. none) true listening after_turns turns []
      listening-IsPolled dispatched

-- The thread finds something and waits; and the destructor comes then.
abbrev found : World
found = record started { place = waiting; event = true; pipe = 1 }

found_after : Steps started found
found_after =
    also (also (also (also stay (polls refl refl)) (wakes refl)) (tests refl refl)) (exports refl)

waiting-readable_example : 0 < 1
waiting-readable_example = waiting-readable found found_after refl refl

abbrev closed : World
closed = record found { caller = closing; can_poll = false; event = false; exit = true }
