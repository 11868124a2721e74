-- ===== src/Message/Generic/Ends.antt =====
-- Where no length is near 2^64, the walk over the arguments of GenericProtocolMessage.cpp ends.
use hyprwire_debian.Base.{
  ℕ, zero, suc, ◌+◌, ◌-◌, ◌*◌, ◌%◌, ◌^◌, ◌<◌, ◌≤◌, ◌≡◌, ◌≢◌, refl, ◌∙◌, inl, inr, arith, List, [],
  ◌∷◌, length, add64, add64_lem, ◌==◌, Bool-cases,
}
use hyprwire_debian.Outcome.{stuck, at}
use hyprwire_debian.Outcome.Ends.{
  Ends, Ends->>=, Ends-if, Ends-ne, Ends-weaken, at-inside, at-Ends, expect-Ends, read_u32-Ends,
}
use hyprwire_debian.VarInt.{parse_var_int, parse_var_int_span}
use hyprwire_debian.VarInt.Ends.{NoHuge, Read, span-Read}
use hyprwire_debian.Wire.Magic
use hyprwire_debian.Wire.Magic.{is_word}
use hyprwire_debian.Message.Generic.{
  Cursor, take_fd, take_fds, skip_texts, skip_elements, skip_array, skip_arg, skip_args,
  parse_generic,
}

-- The walk's position moves on, and not far.
abbrev Moved : ℕ → ℕ → Type 0
Moved i j = (i < j) × (j < 2 ^ 63)

take_fd-Ends : (i : ℕ) (fs taken : List ℕ) → Ends (λ d. d.i ≡ i) (take_fd i fs taken)
unfolding take_fd
take_fd-Ends i [] taken = tt
take_fd-Ends i (f ∷ fs) taken = refl

take_fds-Ends : (n : ℕ) (c : Cursor) → Ends (λ d. d.i ≡ c.i) (take_fds n c)
unfolding take_fds
take_fds-Ends zero c = refl
take_fds-Ends (suc n) c =
    Ends->>= (λ d. d.i ≡ c.i) (λ d. d.i ≡ c.i) (take_fd c.i c.fds c.taken) (λ d. take_fds n d)
      (take_fd-Ends c.i c.fds c.taken)
      (λ d e.
        Ends-weaken (λ x. x.i ≡ d.i) (λ x. x.i ≡ c.i) (take_fds n d) (take_fds-Ends n d)
          (λ x k. k ∙ e))

module _ (bytes : List ℕ) (offset : ℕ) (fits : length bytes < 2 ^ 61) (small : NoHuge bytes) where
  skip_texts-Ends :
      (i len n : ℕ)
      → offset + i < length bytes
      → len ≤ 2 ^ 62
      → Ends (λ total. (len ≤ total) × (total ≤ 2 ^ 62)) (skip_texts bytes offset i len n)
  unfolding skip_texts
  skip_texts-Ends i len zero h k = (omega arith, k)
  skip_texts-Ends i len (suc n) h k =
      rw
        (
          add64_lem offset i (omega (arith, h, fits)),
          add64_lem (offset + i) len (omega (arith, h, fits, k)),
        )
        (Ends->>= (Read bytes (offset + i + len)) _ (parse_var_int_span bytes (offset + i + len) _)
          _ (span-Read bytes (offset + i + len) _ small)
          (λ r q.
            let size : add64 len (add64 r.0 r.1) ≡ len + (r.0 + r.1) =
              rw (add64_lem r.0 r.1 (omega (arith, q)))
                (add64_lem len (r.0 + r.1) (omega (arith, q, k))) in
            rw size (
              Ends-weaken _ _ (skip_texts bytes offset i (len + (r.0 + r.1)) n)
                (skip_texts-Ends i (len + (r.0 + r.1)) n h (omega (arith, q, fits)))
                (λ total t. (omega (arith, t.0), t.1)))))

  skip_elements-Ends :
      (t n len : ℕ) (c : Cursor)
      → offset + c.i < length bytes
      → n < 2 ^ 60
      → 0 < len
      → len ≤ 7
      → Ends (λ d. Moved c.i d.i) (skip_elements bytes offset t n len c)
  unfolding skip_elements
  skip_elements-Ends t n len c h hn hl hl' =
      Ends-if (λ d. Moved c.i d.i) (is_word t) _ _
        (let size : add64 c.i (add64 len (4 * n % 2 ^ 64)) ≡ c.i + (len + 4 * n) =
            unfold add64 in omega (arith, h, hn, hl', fits) in
          rw size (omega (arith, hl), omega (arith, h, hn, hl', fits)))
        (Ends-if (λ d. Moved c.i d.i) (t == Magic.varchar) _ _
          (Ends->>= _ (λ d. Moved c.i d.i) (skip_texts bytes offset c.i len n) _
            (skip_texts-Ends c.i len n h (omega (arith, hl')))
            (λ total q.
              rw (add64_lem c.i total (omega (arith, q.1, h, fits)))
                (omega (arith, q.0, hl), omega (arith, q.1, h, fits))))
          (Ends-if (λ d. Moved c.i d.i) (t == Magic.fd) _ _
            (Ends->>= (λ d. d.i ≡ c.i) (λ d. Moved c.i d.i) (take_fds n c) _ (take_fds-Ends n c)
              (λ d e.
                rw (add64_lem c.i len (omega (arith, hl', h, fits)))
                  (omega (arith, hl), omega (arith, hl', h, fits))))
            tt))

  skip_array-Ends :
      (c : Cursor)
      → offset + c.i < length bytes
      → Ends (λ d. Moved c.i d.i) (skip_array bytes offset c)
  unfolding skip_array
  skip_array-Ends c h =
      rw
        (
          add64_lem offset c.i (omega (arith, h, fits)),
          add64_lem (offset + c.i) 1 (omega (arith, h, fits)),
          add64_lem (offset + c.i) 2 (omega (arith, h, fits)),
        )
        (Ends->>= (λ t. Unit) (λ d. Moved c.i d.i) (at bytes (offset + c.i + 1)) _
          (at-Ends bytes (offset + c.i + 1))
          (λ t u.
            Ends->>= (Read bytes (offset + c.i + 2)) (λ d. Moved c.i d.i)
              (parse_var_int_span bytes (offset + c.i + 2) _) _
              (span-Read bytes (offset + c.i + 2) _ small)
              (λ r q. skip_elements-Ends t r.0 (2 + r.1) c h q.1 (omega arith) (omega (arith, q)))))

  skip_arg-Ends :
      (code : ℕ) (c : Cursor)
      → offset + c.i < length bytes
      → Ends (λ d. Moved c.i d.i) (skip_arg bytes offset code c)
  unfolding skip_arg parse_var_int parse_var_int_span
  skip_arg-Ends code c h =
      Ends-if (λ d. Moved c.i d.i) (is_word code) _ _
        (rw (add64_lem c.i 5 (omega (arith, h, fits))) (omega arith, omega (arith, h, fits)))
        (Ends-if (λ d. Moved c.i d.i) (code == Magic.varchar) _ _
          (rw
            (
              add64_lem offset c.i (omega (arith, h, fits)),
              add64_lem (offset + c.i) 1 (omega (arith, h, fits)),
            )
            (Ends->>= (Read bytes (offset + c.i + 1)) (λ d. Moved c.i d.i)
              (parse_var_int_span bytes (offset + c.i + 1) _) _
              (span-Read bytes (offset + c.i + 1) _ small)
              (λ r q.
                rw
                  (
                    add64_lem r.0 r.1 (omega (arith, q)),
                    add64_lem (r.0 + r.1) 1 (omega (arith, q)),
                    add64_lem c.i (r.0 + r.1 + 1) (omega (arith, q, h, fits)),
                  )
                  (omega arith, omega (arith, q, h, fits)))))
          (Ends-if (λ d. Moved c.i d.i) (code == Magic.array) _ _ (skip_array-Ends c h)
            (Ends-if (λ d. Moved c.i d.i) (code == Magic.fd) _ _
              (Ends->>= (λ d. d.i ≡ c.i) (λ d. Moved c.i d.i) (take_fds 1 c) _ (take_fds-Ends 1 c)
                (λ d e.
                  rw (add64_lem c.i 1 (omega (arith, h, fits)))
                    (omega arith, omega (arith, h, fits))))
              tt)))

  -- A position that is not inside is refused, and ends the walk.
  skip_args-Ends :
      (fuel : ℕ) (c : Cursor)
      → c.i < 2 ^ 63
      → offset ≤ length bytes
      → length bytes - (offset + c.i) < fuel
      → Ends (λ d. Unit) (skip_args fuel bytes offset c)
  unfolding skip_args
  skip_args-Ends zero c h k m = omega (arith, m)
  skip_args-Ends (suc fuel) c h k m = rw (add64_lem offset c.i (omega (arith, h, k, fits))) (
      Ends->>= (λ t. offset + c.i < length bytes) (λ d. Unit) (at bytes (offset + c.i)) _
        (at-inside bytes (offset + c.i))
        (λ code inside. elim (Bool-cases (code == Magic.end)) [
          | inl e ↦ rw e tt
          | inr e ↦ rw e (
              Ends->>= (λ d. Moved c.i d.i) (λ d. Unit) (skip_arg bytes offset code c) _
                (skip_arg-Ends code c inside)
                (λ d q. skip_args-Ends fuel d q.1 k (omega (arith, q, m, inside))))
        ]))

  parse_generic-Ends :
      (fuel : ℕ) (fds : List ℕ)
      → offset ≤ length bytes
      → length bytes < fuel
      → Ends (λ d. Unit) (parse_generic fuel bytes fds offset)
  unfolding parse_generic
  parse_generic-Ends fuel fds k m =
      Ends->>= (λ t. Unit) (λ d. Unit) _ _ (expect-Ends bytes (offset + 0) 0x64)
        (λ t u.
          Ends->>= (λ t. Unit) (λ d. Unit) _ _ (expect-Ends bytes (offset + 1) Magic.object)
            (λ t' u'.
              Ends->>= (λ t. Unit) (λ d. Unit) _ _ (read_u32-Ends bytes (offset + 2))
                (λ object v.
                  Ends->>= (λ t. Unit) (λ d. Unit) _ _ (expect-Ends bytes (offset + 6) Magic.uint)
                    (λ t'' u''.
                      Ends->>= (λ t. Unit) (λ d. Unit) _ _ (read_u32-Ends bytes (offset + 7))
                        (λ method w.
                          Ends->>= (λ t. Unit) (λ d. Unit) _ _
                            (skip_args-Ends fuel (record { i = 11; fds = fds; taken = [] })
                              (omega arith) k (omega (arith, m)))
                            (λ c x. tt))))))

-- The walk over a generic message ends on every buffer below 2^61 bytes in which parseVarInt reads
-- no number of 2^60 or more, wherever the message stands in it and whatever it holds: fuel above
-- the buffer's size is enough.
pub parse_generic-returns :
    (bytes fds : List ℕ) (offset fuel : ℕ)
    → length bytes < 2 ^ 61
    → NoHuge bytes
    → offset ≤ length bytes
    → length bytes < fuel
    → parse_generic fuel bytes fds offset ≢ stuck
parse_generic-returns bytes fds offset fuel fits small inside enough =
    Ends-ne (λ d. Unit) _ (parse_generic-Ends bytes offset fits small fuel fds inside enough)
