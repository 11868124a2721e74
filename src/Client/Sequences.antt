-- ===== src/Client/Sequences.antt =====
-- How a client joins the number that the server gives to an object with the one it asked under.
use hyprwire_debian.Base.{ℕ, ◌%◌, ◌≡◌, ◌≢◌, refl, arith, some, List, [], ◌∷◌}
use hyprwire_debian.Message.Generic.Args.{Arg, generic_bytes}
use hyprwire_debian.WireObject.Spec.{WireObject}
use hyprwire_debian.Client.State.{ClientSocket, object_for_seq, set_id}
use hyprwire_debian.Client.Operations.{on_seq}
use hyprwire_debian.Client.Dispatch.{resolve_seq}

-- onSeq gives the number to the first object that asked under the sequence number, where there is
-- one, and what is found under any other sequence number stays as it was.
pub object_for_seq-on_seq :
    (c : ClientSocket) (seq id other : ℕ) (obj : WireObject)
    → object_for_seq seq c.objects ≡ some obj
    → other ≢ seq
    → (object_for_seq seq (on_seq c seq id).objects ≡ some (record obj { id = id }))
      × (object_for_seq other (on_seq c seq id).objects ≡ object_for_seq other c.objects)
unfolding on_seq object_for_seq set_id
object_for_seq-on_seq c seq id other obj found ne = (found_there c.objects found, others c.objects)
  where
    found_there :
        (os : List WireObject)
        → object_for_seq seq os ≡ some obj
        → object_for_seq seq (set_id seq id os) ≡ some (record obj { id = id })
    found_there [] h = cc
    found_there (o ∷ os) h = ground (arith, h, found_there os)

    others :
        (os : List WireObject) → object_for_seq other (set_id seq id os) ≡ object_for_seq other os
    others [] = refl
    others (o ∷ os) = ground (arith, ne, others os)

-- resolveSeq turns a call that was written for the object 0 into the call of the object whose
-- number is the low byte of the one given.
pub resolve_seq-generic_bytes :
    (id method : ℕ) (args : List Arg)
    → resolve_seq id (generic_bytes 0 method args) ≡ generic_bytes (id % 256) method args
unfolding resolve_seq generic_bytes
resolve_seq-generic_bytes id method args = ground arith
