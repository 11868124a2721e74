-- ===== src/Server/Listener/Files.antt =====
-- Which files a CServerSocket (src/core/server/ServerSocket.cpp) asks the system to remove.
use hyprwire_debian.Base.{
  ℕ, ◌≡◌, ◌≢◌, refl, Bool, true, false, Option, none, List, [], ◌∷◌, ◌++◌, leb, if◌then◌else◌,
  length, Bool-cases, inl, inr,
}
use hyprwire_debian.Server.Listener.{
  SocketPath, SystemCall, open_socket, connect_to, remove_file, bind_to, listen_on, Connect, alive,
  refused, other_error, Answers, Listener, new_listener, ask, set_fd, clear_path, bind_path,
  attempt, close, sun_path_size,
}

-- The paths that the system is asked to remove, whatever it answers.
unfoldable pub removals : List SystemCall → List SocketPath
removals [] = []
removals (remove_file p ∷ cs) = p ∷ removals cs
removals (open_socket ∷ cs) = removals cs
removals (connect_to p ∷ cs) = removals cs
removals (bind_to p ∷ cs) = removals cs
removals (listen_on fd ∷ cs) = removals cs

-- No one listens at the path any more; and nothing stands there, or it could be removed.
unfoldable pub is_stale : Answers → SocketPath → Bool
is_stale a path =
    if leb sun_path_size (length path)
    then false
    else if a.exists
    then elim a.connects [ refused ↦ true | _ ↦ false ]
    else false

unfoldable pub takes : Answers → SocketPath → Bool
takes a path =
    if leb sun_path_size (length path)
    then false
    else if a.exists
    then elim a.connects [ refused ↦ (if a.removal_fails then false else a.binds) | _ ↦ false ]
    else a.binds

abbrev pub only_if : Bool → SocketPath → List SocketPath
only_if b path = if b then path ∷ [] else []

-- What attempt comes to, and what it and the destructor ask to remove.
abbrev Removes : Answers → SocketPath → Listener × Bool → Type 0
Removes a path r =
    (r.1 ≡ takes a path)
    × (removals r.0.calls ≡ only_if (is_stale a path) path)
    × (removals (close r.0).calls ≡ only_if (is_stale a path) path ++ only_if (takes a path) path)

-- A path that is too long, and one that is not, by the answers.
long-Removes :
    (pipes : Option (ℕ × ℕ)) (a : Answers) (path : SocketPath) (exists : Bool)
    → a.exists ≡ exists
    → leb sun_path_size (length path) ≡ true
    → Removes a path (attempt (new_listener pipes) a path)
unfolding attempt clear_path bind_path close removals is_stale takes new_listener
long-Removes pipes a path true h e = rw (h, e) (refl, refl, refl)
long-Removes pipes a path false h e = rw (h, e) (refl, refl, refl)

free-Removes :
    (pipes : Option (ℕ × ℕ)) (a : Answers) (c : ℕ) (cs : SocketPath) (binds : Bool)
    → a.exists ≡ false
    → a.binds ≡ binds
    → leb sun_path_size (length (c ∷ cs)) ≡ false
    → Removes a (c ∷ cs) (attempt (new_listener pipes) a (c ∷ cs))
unfolding attempt clear_path bind_path close removals is_stale takes new_listener
free-Removes pipes a c cs true h k e = rw (h, k, e) (refl, refl, refl)
free-Removes pipes a c cs false h k e = rw (h, k, e) (refl, refl, refl)

-- The path of a server that is gone is removed, and taken.
abbrev stale : Listener → Answers → SocketPath → Listener
stale l a path =
    ask (set_fd (ask (set_fd (ask l open_socket) a.probe_fd) (connect_to path)) none)
      (remove_file path)

clear_path-stale :
    (l : Listener) (a : Answers) (path : SocketPath)
    → a.exists ≡ true
    → a.connects ≡ refused
    → a.removal_fails ≡ false
    → leb sun_path_size (length path) ≡ false
    → clear_path l a path ≡ (stale l a path, true)
unfolding clear_path
clear_path-stale l a path h k r e = rw (h, k, r, e) refl

stale-Removes :
    (pipes : Option (ℕ × ℕ)) (a : Answers) (c : ℕ) (cs : SocketPath) (binds : Bool)
    → a.exists ≡ true
    → a.connects ≡ refused
    → a.removal_fails ≡ false
    → a.binds ≡ binds
    → leb sun_path_size (length (c ∷ cs)) ≡ false
    → Removes a (c ∷ cs) (bind_path (stale (new_listener pipes) a (c ∷ cs)) a (c ∷ cs))
unfolding bind_path close removals is_stale takes new_listener
stale-Removes pipes a c cs true h k r b e = rw (h, k, r, b, e) (refl, refl, refl)
stale-Removes pipes a c cs false h k r b e = rw (h, k, r, b, e) (refl, refl, refl)

found-Removes :
    (pipes : Option (ℕ × ℕ)) (a : Answers) (c : ℕ) (cs : SocketPath) (connects : Connect)
    (removal_fails binds : Bool)
    → a.exists ≡ true
    → a.connects ≡ connects
    → a.removal_fails ≡ removal_fails
    → a.binds ≡ binds
    → leb sun_path_size (length (c ∷ cs)) ≡ false
    → Removes a (c ∷ cs) (attempt (new_listener pipes) a (c ∷ cs))
unfolding attempt clear_path bind_path close removals is_stale takes new_listener
found-Removes pipes a c cs alive rm bi h k r b e = rw (h, k, e) (refl, refl, refl)
found-Removes pipes a c cs other_error rm bi h k r b e = rw (h, k, e) (refl, refl, refl)
found-Removes pipes a c cs refused true bi h k r b e = rw (h, k, r, e) (refl, refl, refl)
found-Removes pipes a c cs refused false bi h k r b e =
    rw (clear_path-stale (new_listener pipes) a (c ∷ cs) h k r e)
      (stale-Removes pipes a c cs bi h k r b e)

-- attempt on a path that is not empty, by a new socket, takes the path exactly if it is below 108
-- bytes, can be bound, and nothing stands there or what stands there refuses a connection and can
-- be removed. It asks the system to remove the path, once, exactly if the path is that short and
-- what stands there refuses a connection, and asks for no other removal; and the destructor then
-- asks for the removal of the path exactly if it was taken, once.
pub attempt-close :
    (pipes : Option (ℕ × ℕ)) (a : Answers) (path : SocketPath)
    → path ≢ []
    → ((attempt (new_listener pipes) a path).1 ≡ takes a path)
      × (removals (attempt (new_listener pipes) a path).0.calls ≡ only_if (is_stale a path) path)
      × (removals (close (attempt (new_listener pipes) a path).0).calls
          ≡ only_if (is_stale a path) path ++ only_if (takes a path) path)
attempt-close pipes a [] ne = absurd (ne refl)
attempt-close pipes a (c ∷ cs) ne = elim (Bool-cases (leb sun_path_size (length (c ∷ cs)))) [
  | inl long ↦ long-Removes pipes a (c ∷ cs) a.exists refl long
  | inr fits ↦ elim (Bool-cases a.exists) [
    | inl h ↦ found-Removes pipes a c cs a.connects a.removal_fails a.binds h refl refl refl fits
    | inr h ↦ free-Removes pipes a c cs a.binds h refl fits
  ]
]
