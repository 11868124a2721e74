-- ===== src/Server/Events.antt =====
-- CServerSocket::dispatchPending and dispatchEvents (src/core/server/ServerSocket.cpp): the loops
-- around a round of dispatch. What each call of poll finds is an input.
pub mod Loops
use hyprwire_debian.Base.{
  ℕ, ◌-◌, Bool, true, false, Option, none, some, List, [], ◌∷◌, ltb, if◌then◌else◌,
}
use hyprwire_debian.Outcome.{Outcome, done, ◌>>=◌}
use hyprwire_debian.WireObject.Spec.{Refusal}
use hyprwire_debian.WireObject.Demarshal.{FfiType}
use hyprwire_debian.Server.Socket.{
  Client, ServerSocket, Polled, dispatch_new_connections, dispatch_existing_connections,
}

-- What poll sets: whether someone wants to connect, what accept then returns, and what it sets for
-- the clients.
pub record Turn : Type 0 where
  pub incoming : Bool
  pub accepted : Option ℕ
  pub polled : List Polled

-- The loops stop where the list of turns ends: poll has not returned.
abbrev pub Loop : Type 0
Loop = Outcome (Option (ServerSocket × List Turn))

module _ (describe : Refusal → List ℕ) (prep_cif : List FfiType → Bool)
    (peer : Client → Option ℕ) where
  -- dispatchPending: the socket, whether there was anything, and the turns that are left.
  unfoldable pub dispatch_pending :
      ServerSocket → List Turn → Outcome (Option (ServerSocket × Bool × List Turn))
  dispatch_pending s [] = done none
  dispatch_pending s (t ∷ ts) = elim ((dispatch_new_connections s t.incoming t.accepted).1) [
    | true ↦ dispatch_pending (dispatch_new_connections s t.incoming t.accepted).0 ts
    | false ↦ do
      (s', any) ←
          dispatch_existing_connections describe prep_cif peer
            (dispatch_new_connections s t.incoming t.accepted).0 t.polled
      done (some (s', any, ts))
  ]

  -- `while (dispatchPending()) { ; }`, with the call's own loop opened.
  unfoldable pub dispatch_all : ServerSocket → List Turn → Loop
  dispatch_all s [] = done none
  dispatch_all s (t ∷ ts) = elim ((dispatch_new_connections s t.incoming t.accepted).1) [
    | true ↦ dispatch_all (dispatch_new_connections s t.incoming t.accepted).0 ts
    | false ↦ do
      (s', any) ←
          dispatch_existing_connections describe prep_cif peer
            (dispatch_new_connections s t.incoming t.accepted).0 t.polled
      elim any [ true ↦ dispatch_all s' ts | false ↦ done (some (s', ts)) ]
  ]

  -- What follows a loop, if it ends.
  abbrev pub after_loop : Loop → (ServerSocket → List Turn → Loop) → Loop
  after_loop m f = m >>= λ r. elim r [ none ↦ done none | some (s, ts) ↦ f s ts ]

  -- The `poll` that waits, whose turn only wakes the program.
  unfoldable pub dispatch_blocked : ServerSocket → List Turn → Loop
  unfolding dispatch_all
  dispatch_blocked s [] = done none
  dispatch_blocked s (t ∷ ts) = dispatch_all s ts

  -- dispatchEvents
  unfoldable pub dispatch_events : Bool → ServerSocket → List Turn → Loop
  unfolding dispatch_blocked
  dispatch_events block s ts =
      after_loop (dispatch_all s ts)
        (λ s' ts'. elim block [ true ↦ dispatch_blocked s' ts' | false ↦ done (some (s', ts')) ])
