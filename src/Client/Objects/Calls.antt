-- ===== src/Client/Objects/Calls.antt =====
-- What a call does to the sequence numbers of a client's objects.
use hyprwire_debian.Base.{
  ℕ, ◌+◌, ◌%◌, ◌^◌, ◌<◌, ◌≡◌, ◌⊎◌, inl, inr, refl, arith, true, false, not, ◌&&◌, Option, none,
  some, List, [], ltb, ◌==◌, if◌then◌else◌, Bool-cases,
}
use hyprwire_debian.Outcome.{Outcome, done, reject, crash, stuck}
use hyprwire_debian.Outcome.Results.{Results, Results->>=, Results-done, Results-if}
use hyprwire_debian.WireObject.Spec.{
  Method, WireObject, ObjectSpec, ProtocolSpec, Refusal, too_new, get_elem?, is_empty, methods_out,
}
use hyprwire_debian.WireObject.Marshal.{
  VaArg, Call, refused, message, marshal, encode_call, call_method, call,
}
use hyprwire_debian.Client.State.{ClientSocket}
use hyprwire_debian.Client.Operations.{
  send_message, find_spec, find_named, make_object, object_error,
}
use hyprwire_debian.Client.Dispatch.{send_call, after_call, count_seq, finish_call, call_object}
use hyprwire_debian.Client.Objects.{
  Keeps, Keeps-IsSequenced, IsSequenced, Ascending, Ascending-append, Ascending-le, seqs,
}

-- An object that is made takes the number that was given last, which no other has.
make_object-IsSequenced :
    (c : ClientSocket) (protocol_name object_name : List ℕ) (low : ℕ)
    → Ascending 0 (seqs c.objects) low
    → low < c.seq
    → IsSequenced (make_object c protocol_name object_name c.seq).0
unfolding make_object
make_object-IsSequenced c protocol_name object_name low h lt =
    find (find_spec protocol_name c.impls) refl
  where
    old : IsSequenced c
    old = Ascending-le 0 (seqs c.objects) low c.seq (omega arith) h

    find :
        (m : Option ProtocolSpec)
        → find_spec protocol_name c.impls ≡ m
        → IsSequenced (make_object c protocol_name object_name c.seq).0
    find none e = rw (e, make_object) old
    find (some p) e = named (find_named object_name p.objects) refl
      where
        named :
            (m : Option ObjectSpec)
            → find_named object_name p.objects ≡ m
            → IsSequenced (make_object c protocol_name object_name c.seq).0
        named none k = rw (e, k, make_object) old
        named (some spec) k = rw (e, k, make_object) (Ascending-append 0 c.objects _ low lt h)

-- What a call gives to wait for: nothing, or an object of the next sequence number.
abbrev Awaits : Method → ℕ → Call → Type 0
Awaits method seq (refused r) = Unit {0}
Awaits method seq (message bytes fds ret) =
    (ret ≡ 0) ⊎ ((is_empty method.returns_type ≡ false) × (ret ≡ seq))

call_method-Awaits :
    (obj : WireObject) (method : Method) (id : ℕ) (va : List VaArg) (seq : ℕ)
    → Results (Awaits method seq) (call_method false obj method id va seq)
unfolding call_method encode_call
call_method-Awaits obj method id va seq =
    Results-if (Awaits method seq) (ltb obj.version method.since) _ _ tt (
      Results-if (Awaits method seq) (not (is_empty method.returns_type) && false) _ _ tt
        (Results->>= (Awaits method seq) (marshal false method.params va) _ (λ c. awaits)))
  where
    awaits : Awaits method seq (message [] [] (if is_empty method.returns_type then 0 else seq))
    awaits =
        elim (is_empty method.returns_type)
          as (λ b. ((if b then 0 else seq) ≡ 0) ⊎ ((b ≡ false) × ((if b then 0 else seq) ≡ seq))) [
            | true ↦ inl refl
            | false ↦ inr (refl, refl)
          ]

send_call-Keeps :
    (c : ClientSocket) (obj : WireObject) (bytes fds : List ℕ) → Keeps c (send_call c obj bytes fds)
unfolding send_call send_message
send_call-Keeps c obj bytes fds = ground arith

count_seq-IsSequenced :
    (c : ClientSocket) (method : Method)
    → c.seq + 1 < 2 ^ 32
    → IsSequenced c
    → IsSequenced (count_seq c method)
unfolding count_seq
count_seq-IsSequenced c method small h =
    elim (is_empty method.returns_type)
      as (λ b. IsSequenced (if b then c else record c { seq = (c.seq + 1) % 2 ^ 32 })) [
        | true ↦ h
        | false ↦ Ascending-le 0 (seqs c.objects) c.seq ((c.seq + 1) % 2 ^ 32) (omega arith) h
      ]

after_call-IsSequenced :
    (describe : Refusal → List ℕ) (c : ClientSocket) (obj : WireObject) (method : Method) (r : Call)
    → c.seq + 1 < 2 ^ 32
    → IsSequenced c
    → Awaits method ((c.seq + 1) % 2 ^ 32) r
    → IsSequenced (after_call describe (count_seq c method) obj method r).0
unfolding after_call object_error
after_call-IsSequenced describe c obj method (refused r) small h a =
    count_seq-IsSequenced c method small h
after_call-IsSequenced describe c obj method (message bytes fds ret) small h (inl z) = rw z (
    Keeps-IsSequenced (count_seq c method) (send_call (count_seq c method) obj bytes fds)
      (send_call-Keeps (count_seq c method) obj bytes fds) (count_seq-IsSequenced c method small h))
after_call-IsSequenced describe c obj method (message bytes fds ret) small h (inr (full, e)) =
    let counted : count_seq c method ≡ record c { seq = c.seq + 1 } =
      unfold count_seq in ground (arith, full) in
    let s = send_call (record c { seq = c.seq + 1 }) obj bytes fds in
    let kept = send_call-Keeps (record c { seq = c.seq + 1 }) obj bytes fds in
    let is_next : ret ≡ s.seq = rw kept.1 (omega arith) in
    let nonzero : (s.seq == 0) ≡ false = ground (arith, kept.1) in
    rw (counted, is_next, nonzero)
      (make_object-IsSequenced s obj.protocol_name method.returns_type c.seq (rw kept.0 h)
        (rw kept.1 (omega arith)))

finish_call-Results :
    (describe : Refusal → List ℕ) (c : ClientSocket) (obj : WireObject) (method : Method)
    (o : Outcome Call)
    → c.seq + 1 < 2 ^ 32
    → IsSequenced c
    → Results (Awaits method ((c.seq + 1) % 2 ^ 32)) o
    → Results (λ r. IsSequenced r.0) (finish_call describe (count_seq c method) obj method o)
finish_call-Results describe c obj method (done r) small h a =
    after_call-IsSequenced describe c obj method r small h a
finish_call-Results describe c obj method reject small h a = count_seq-IsSequenced c method small h
finish_call-Results describe c obj method crash small h a = tt
finish_call-Results describe c obj method stuck small h a = tt

pub call_object-IsSequenced :
    (describe : Refusal → List ℕ) (c : ClientSocket) (obj : WireObject) (spec : ObjectSpec) (id : ℕ)
    (va : List VaArg) (c' : ClientSocket) (ret : ℕ)
    → c.seq + 1 < 2 ^ 32
    → IsSequenced c
    → call_object describe c obj spec id va ≡ done (c', ret)
    → IsSequenced c'
unfolding call_object
call_object-IsSequenced describe c obj spec id va c' ret small h e =
    Results-done (λ r. IsSequenced r.0) (call_object describe c obj spec id va) (c', ret)
      (found (get_elem? (methods_out false spec) id) refl) e
  where
    made :
        (method : Method)
        → get_elem? (methods_out false spec) id ≡ some method
        → call false (methods_out false spec) obj id va ((c.seq + 1) % 2 ^ 32)
          ≡ call_method false obj method id va ((c.seq + 1) % 2 ^ 32)
    made method k = unfold call in rw (k, call) refl

    call_method_old :
        (method : Method)
        → ltb obj.version method.since ≡ true
        → call_method false obj method id va ((c.seq + 1) % 2 ^ 32)
          ≡ done (refused (too_new id method.since obj.version))
    call_method_old method old = unfold call_method in rw (old, call_method) refl

    found :
        (m : Option Method)
        → get_elem? (methods_out false spec) id ≡ m
        → Results (λ r. IsSequenced r.0) (call_object describe c obj spec id va)
    found none k = unfold object_error in rw (k, call_object) h
    found (some method) k = elim (Bool-cases (ltb obj.version method.since)) [
      | inl old ↦
          rw (k, old, call_object, made method k, call_method_old method old)
            (unfold after_call object_error in h)
      | inr new ↦
          rw (k, new, call_object, made method k)
            (finish_call-Results describe c obj method
              (call_method false obj method id va ((c.seq + 1) % 2 ^ 32)) small h
              (call_method-Awaits obj method id va ((c.seq + 1) % 2 ^ 32)))
    ]
