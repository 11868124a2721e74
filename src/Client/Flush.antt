-- ===== src/Client/Flush.antt =====
-- The calls that wait in m_pendingOutgoing, at the end of dispatchEvents
-- (src/core/client/ClientSocket.cpp).
use hyprwire_debian.Base.{◌≡◌, refl, arith, Option, none, some, List, [], ◌∷◌}
use hyprwire_debian.WireObject.Spec.{WireObject}
use hyprwire_debian.Client.State.{ClientSocket, Pending, object_for_seq}
use hyprwire_debian.Client.Operations.{send_message}
use hyprwire_debian.Client.Dispatch.{resolve_seq, flush, flush_pending}

flush-error : (ps : List Pending) (c : ClientSocket) → (flush c ps).0.error ≡ c.error
unfolding flush
flush-error [] c = refl
flush-error (p ∷ ps) c = split (flush-error ps) (object_for_seq p.depends_on_seq c.objects) refl
  where
    split :
        ((d : ClientSocket) → (flush d ps).0.error ≡ d.error)
        → (m : Option WireObject) → object_for_seq p.depends_on_seq c.objects ≡ m
        → (flush c (p ∷ ps)).0.error ≡ c.error
    split ih none e = ground (arith, e, ih c)
    split ih (some o) e =
        let sent : ClientSocket = send_message c (resolve_seq o.id p.bytes) p.fds in
        unfold send_message in ground (arith, e, ih c, ih sent)

pub flush_pending-error : (c : ClientSocket) → (flush_pending c).error ≡ c.error
unfolding flush_pending
flush_pending-error c = flush-error c.pending_outgoing c

flush-objects : (ps : List Pending) (c : ClientSocket) → (flush c ps).0.objects ≡ c.objects
unfolding flush
flush-objects [] c = refl
flush-objects (p ∷ ps) c = split (flush-objects ps) (object_for_seq p.depends_on_seq c.objects) refl
  where
    split :
        ((d : ClientSocket) → (flush d ps).0.objects ≡ d.objects)
        → (m : Option WireObject) → object_for_seq p.depends_on_seq c.objects ≡ m
        → (flush c (p ∷ ps)).0.objects ≡ c.objects
    split ih none e = ground (arith, e, ih c)
    split ih (some o) e =
        let sent : ClientSocket = send_message c (resolve_seq o.id p.bytes) p.fds in
        unfold send_message in ground (arith, e, ih c, ih sent)

pub flush_pending-objects : (c : ClientSocket) → (flush_pending c).objects ≡ c.objects
unfolding flush_pending
flush_pending-objects c = flush-objects c.pending_outgoing c

pub flush_pending-nil : (c : ClientSocket) → c.pending_outgoing ≡ [] → flush_pending c ≡ c
unfolding flush_pending flush
flush_pending-nil c nothing = ground (arith, nothing)
