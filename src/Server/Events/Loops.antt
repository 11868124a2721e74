-- ===== src/Server/Events/Loops.antt =====
-- The loops of dispatchEvents (src/core/server/ServerSocket.cpp).
use hyprwire_debian.Base.{ℕ, ◌≡◌, refl, Bool, true, false, Option, none, some, List, [], ◌∷◌}
use hyprwire_debian.Outcome.{Outcome, done, reject, crash, stuck, ◌>>=◌}
use hyprwire_debian.Outcome.Results.{Results, Results-done}
use hyprwire_debian.WireObject.Spec.{Refusal}
use hyprwire_debian.WireObject.Demarshal.{FfiType}
use hyprwire_debian.Server.Socket.{
  Client, ServerSocket, dispatch_new_connections, dispatch_existing_connections,
}
use hyprwire_debian.Server.Polls.{
  IsPolled, dispatch_new_connections-IsPolled, dispatch_existing_connections-IsPolled,
}
use hyprwire_debian.Server.Events.{
  Turn, Loop, dispatch_pending, dispatch_all, after_loop, dispatch_blocked, dispatch_events,
}

module _ (describe : Refusal → List ℕ) (prep_cif : List FfiType → Bool)
    (peer : Client → Option ℕ) where
  -- Again, if there was anything.
  abbrev pub again : Outcome (Option (ServerSocket × Bool × List Turn)) → Loop
  again m = m >>= λ r. elim r [
    | none ↦ done none
    | some (s, true, ts) ↦ dispatch_all describe prep_cif peer s ts
    | some (s, false, ts) ↦ done (some (s, ts))
  ]

  again-existing :
      (o : Outcome (ServerSocket × Bool)) (ts : List Turn)
      → (o >>= λ r. elim (r.1) [
        | true ↦ dispatch_all describe prep_cif peer (r.0) ts
        | false ↦ done (some (r.0, ts))
      ])
        ≡ again (o >>= λ r. done (some (r.0, r.1, ts)))
  again-existing (done (s, true)) ts = refl
  again-existing (done (s, false)) ts = refl
  again-existing reject ts = refl
  again-existing crash ts = refl
  again-existing stuck ts = refl

  again-if :
      (b : Bool) (x y : Loop) (x' y' : Outcome (Option (ServerSocket × Bool × List Turn)))
      → x ≡ again x'
      → y ≡ again y'
      → (elim b [ true ↦ x | false ↦ y ]) ≡ again (elim b [ true ↦ x' | false ↦ y' ])
  again-if true x y x' y' h k = h
  again-if false x y x' y' h k = k

  -- The loop of dispatchEvents is `while (dispatchPending())`: again, as long as there was anything.
  pub dispatch_all-pending :
      (s : ServerSocket) (ts : List Turn)
      → dispatch_all describe prep_cif peer s ts
        ≡ again (dispatch_pending describe prep_cif peer s ts)
  unfolding dispatch_all dispatch_pending
  dispatch_all-pending s [] = refl
  dispatch_all-pending s (t ∷ ts) =
      again-if (dispatch_new_connections s t.incoming t.accepted).1 _ _ _ _
        (dispatch_all-pending (dispatch_new_connections s t.incoming t.accepted).0 ts)
        (again-existing
          (dispatch_existing_connections describe prep_cif peer
            (dispatch_new_connections s t.incoming t.accepted).0 t.polled)
          ts)

  abbrev AllPolled : Option (ServerSocket × List Turn) → Type 0
  AllPolled none = Unit
  AllPolled (some (s, ts)) = IsPolled s

  turn-AllPolled :
      (b : Bool) (x y : Loop)
      → Results AllPolled x
      → Results AllPolled y
      → Results AllPolled (elim b [ true ↦ x | false ↦ y ])
  turn-AllPolled true x y h k = h
  turn-AllPolled false x y h k = k

  existing-AllPolled :
      (o : Outcome (ServerSocket × Bool)) (ts : List Turn)
      → ((s' : ServerSocket) (any : Bool) → o ≡ done (s', any) → IsPolled s')
      → ((s' : ServerSocket)
          → IsPolled s'
          → Results AllPolled (dispatch_all describe prep_cif peer s' ts))
      → Results AllPolled (
          o >>= λ r. elim (r.1) [
            | true ↦ dispatch_all describe prep_cif peer (r.0) ts
            | false ↦ done (some (r.0, ts))
          ])
  existing-AllPolled (done (s, true)) ts h k = k s (h s true refl)
  existing-AllPolled (done (s, false)) ts h k = h s false refl
  existing-AllPolled reject ts h k = tt
  existing-AllPolled crash ts h k = tt
  existing-AllPolled stuck ts h k = tt

  dispatch_all-IsPolled :
      (s : ServerSocket) (ts : List Turn)
      → IsPolled s
      → Results AllPolled (dispatch_all describe prep_cif peer s ts)
  unfolding dispatch_all
  dispatch_all-IsPolled s [] h = tt
  dispatch_all-IsPolled s (t ∷ ts) h =
      let new = dispatch_new_connections s t.incoming t.accepted in
      let h' = dispatch_new_connections-IsPolled s t.incoming t.accepted h in
      turn-AllPolled new.1 _ _ (dispatch_all-IsPolled new.0 ts h') (
        existing-AllPolled (dispatch_existing_connections describe prep_cif peer new.0 t.polled) ts
          (λ s' any e.
            dispatch_existing_connections-IsPolled describe prep_cif peer new.0 t.polled s' any h'
              e)
          (λ s' k. dispatch_all-IsPolled s' ts k))

  dispatch_blocked-IsPolled :
      (s : ServerSocket) (ts : List Turn)
      → IsPolled s
      → Results AllPolled (dispatch_blocked describe prep_cif peer s ts)
  unfolding dispatch_blocked
  dispatch_blocked-IsPolled s [] h = tt
  dispatch_blocked-IsPolled s (t ∷ ts) h = dispatch_all-IsPolled s ts h

  events-AllPolled :
      (block : Bool) (o : Loop)
      → Results AllPolled o
      → Results AllPolled (
          after_loop describe prep_cif peer o (λ s' ts'. elim block [
            | true ↦ dispatch_blocked describe prep_cif peer s' ts'
            | false ↦ done (some (s', ts'))
          ]))
  events-AllPolled block (done none) h = tt
  events-AllPolled true (done (some (s, ts))) h = dispatch_blocked-IsPolled s ts h
  events-AllPolled false (done (some (s, ts))) h = h
  events-AllPolled block reject h = tt
  events-AllPolled block crash h = tt
  events-AllPolled block stuck h = tt

  -- Let the descriptors that are polled be, in this order, the listening one, if the server
  -- listens, those of the exit and the wakeup, which are the last two of the first internalFds, and
  -- from there on those of the clients in order. They still are when dispatchEvents returns,
  -- whoever connects, sends or hangs up in any of its rounds.
  pub dispatch_events-IsPolled :
      (block : Bool) (s s' : ServerSocket) (ts ts' : List Turn)
      → IsPolled s
      → dispatch_events describe prep_cif peer block s ts ≡ done (some (s', ts'))
      → IsPolled s'
  unfolding dispatch_events
  dispatch_events-IsPolled block s s' ts ts' h e =
      Results-done AllPolled (dispatch_events describe prep_cif peer block s ts) (some (s', ts'))
        (events-AllPolled block (dispatch_all describe prep_cif peer s ts)
          (dispatch_all-IsPolled s ts h))
        e
