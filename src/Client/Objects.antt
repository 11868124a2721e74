-- ===== src/Client/Objects.antt =====
-- The sequence numbers of a client's objects: m_seq and m_objects of CClientSocket
-- (src/core/client/ClientSocket.cpp).
pub mod Dispatch
pub mod Binds
pub mod Calls
pub mod History
use hyprwire_debian.Base.{
  ℕ, zero, suc, ◌+◌, ◌%◌, ◌^◌, ◌<◌, ◌≤◌, ◌≡◌, ◌≢◌, refl, arith, none, some, List, [], ◌∷◌, ◌++◌,
  map, ◌∙◌,
}
use hyprwire_debian.WireObject.Spec.{WireObject, get_elem?}
use hyprwire_debian.Client.State.{ClientSocket, object_for_seq, set_id}
use hyprwire_debian.Client.Operations.{on_seq, send_message}

abbrev pub object_seq : WireObject → ℕ
object_seq o = o.seq

abbrev pub seqs : List WireObject → List ℕ
seqs os = map object_seq os

-- Numbers that ascend, from above `low` up to `high`.
abbrev pub Ascending : ℕ → List ℕ → ℕ → Type 0
Ascending low [] high = low ≤ high
Ascending low (s ∷ ss) high = (low < s) × Ascending s ss high

-- The objects' sequence numbers ascend, up to the one that was given last.
abbrev pub IsSequenced : ClientSocket → Type 0
IsSequenced c = Ascending 0 (seqs c.objects) c.seq

-- What leaves the sequence numbers alone.
abbrev pub Keeps : ClientSocket → ClientSocket → Type 0
Keeps c c' = (seqs c'.objects ≡ seqs c.objects) × (c'.seq ≡ c.seq)

pub Keeps-trans : (a b c : ClientSocket) → Keeps a b → Keeps b c → Keeps a c
Keeps-trans a b c h k = (k.0 ∙ h.0, k.1 ∙ h.1)

pub Keeps-IsSequenced : (c c' : ClientSocket) → Keeps c c' → IsSequenced c → IsSequenced c'
Keeps-IsSequenced c c' k h = rw (k.0, k.1) h

pub Ascending-le :
    (low : ℕ) (ss : List ℕ) (high next : ℕ)
    → high ≤ next
    → Ascending low ss high
    → Ascending low ss next
Ascending-le low [] high next le h = omega arith
Ascending-le low (s ∷ ss) high next le h = (h.0, Ascending-le s ss high next le h.1)

pub Ascending-append :
    (low : ℕ) (os : List WireObject) (o : WireObject) (high : ℕ)
    → high < o.seq
    → Ascending low (seqs os) high
    → Ascending low (seqs (os ++ o ∷ [])) o.seq
Ascending-append low [] o high lt h = omega arith
Ascending-append low (p ∷ os) o high lt h = (h.0, Ascending-append p.seq os o high lt h.1)

Ascending-bound :
    (low : ℕ) (os : List WireObject) (high : ℕ) → Ascending low (seqs os) high → low ≤ high
Ascending-bound low [] high h = h
Ascending-bound low (o ∷ os) high h = omega (arith, h.0, Ascending-bound o.seq os high h.1)

pub object_for_seq-new :
    (low : ℕ) (os : List WireObject) (high seq : ℕ)
    → Ascending low (seqs os) high
    → high < seq
    → object_for_seq seq os ≡ none
unfolding object_for_seq
object_for_seq-new low [] high seq h lt = refl
object_for_seq-new low (o ∷ os) high seq h lt =
    ground (arith, object_for_seq-new o.seq os high seq h.1 lt, Ascending-bound o.seq os high h.1)

seqs-set_id : (seq id : ℕ) (os : List WireObject) → seqs (set_id seq id os) ≡ seqs os
unfolding set_id
seqs-set_id seq id [] = refl
seqs-set_id seq id (o ∷ os) = ground (arith, seqs-set_id seq id os)

pub on_seq-Keeps : (c : ClientSocket) (seq id : ℕ) → Keeps c (on_seq c seq id)
unfolding on_seq
on_seq-Keeps c seq id = (seqs-set_id seq id c.objects, refl)

pub send_message-Keeps :
    (c : ClientSocket) (bytes fds : List ℕ) → Keeps c (send_message c bytes fds)
unfolding send_message
send_message-Keeps c bytes fds = ground arith

-- An object is the first of its sequence number.
pub object_for_seq-Ascending :
    (low : ℕ) (os : List WireObject) (high i : ℕ) (o : WireObject)
    → Ascending low (seqs os) high
    → get_elem? os i ≡ some o
    → (low < o.seq) × (o.seq ≤ high) × (object_for_seq o.seq os ≡ some o)
unfolding object_for_seq
object_for_seq-Ascending low [] high i o h e = cc
object_for_seq-Ascending low (p ∷ os) high zero o h e =
    ground (arith, e, Ascending-bound p.seq os high h.1)
object_for_seq-Ascending low (p ∷ os) high (suc i) o h e =
    ground (arith, object_for_seq-Ascending p.seq os high i o h.1 e)
