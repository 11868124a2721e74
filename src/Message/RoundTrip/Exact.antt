-- ===== src/Message/RoundTrip/Exact.antt =====
-- What stands in a buffer that a decoder of numbers takes.
use hyprwire_debian.Base.{
  ℕ, ◌+◌, ◌-◌, ◌≡◌, refl, sym, ap, arith, List, [], ◌∷◌, ◌++◌, All, All-drop, length, drop,
  drop-add, drop_eq, IsByte, IsU32, u32_bytes, u32_of, u32_bytes-of, u32_of-IsU32, ◌∙◌, leb,
}
use hyprwire_debian.Outcome.{Outcome, done, at, ensure, expect, read_u32}
use hyprwire_debian.Outcome.Laws.{>>=-eq-done}
use hyprwire_debian.Message.Numbers.{NewObject, parse_new_object, encode_new_object}

expect-eq-done :
    (bytes : List ℕ) (p code next : ℕ) (u : Unit {0})
    → p + 1 ≡ next
    → expect bytes p code ≡ done u
    → drop p bytes ≡ code ∷ drop next bytes
unfolding expect at
expect-eq-done bytes p code next u at_next h = stands (drop p bytes) refl
  where
    stands : (xs : List ℕ) → drop p bytes ≡ xs → drop p bytes ≡ code ∷ drop next bytes
    stands [] e = absurd (ground (arith, e, h))
    stands (x ∷ xs) e =
        let behind : drop next bytes ≡ xs =
          ap (λ n. drop n bytes) (sym at_next) ∙ drop-add p 1 bytes ∙ ap (drop 1) e in
        let is_code : x ≡ code = ground (arith, e, h) in rw (e, behind, is_code) refl

-- A word of bytes.
record Word (bytes : List ℕ) (p v next : ℕ) : Type 0 where
  small : IsU32 v
  stands : drop p bytes ≡ u32_bytes v ++ drop next bytes

read_u32-eq-done :
    (bytes : List ℕ) (p v next : ℕ)
    → All IsByte bytes
    → p + 4 ≡ next
    → read_u32 bytes p ≡ done v
    → Word bytes p v next
unfolding read_u32
read_u32-eq-done bytes p v next hb at_next h = stands (drop p bytes) refl
  where
    stands : (xs : List ℕ) → drop p bytes ≡ xs → Word bytes p v next
    stands [] e = absurd (ground (arith, e, h))
    stands (a ∷ []) e = absurd (ground (arith, e, h))
    stands (a ∷ b ∷ []) e = absurd (ground (arith, e, h))
    stands (a ∷ b ∷ c ∷ []) e = absurd (ground (arith, e, h))
    stands (a ∷ b ∷ c ∷ d ∷ xs) e =
        let behind : drop next bytes ≡ xs =
          ap (λ n. drop n bytes) (sym at_next) ∙ drop-add p 4 bytes ∙ ap (drop 4) e in
        let are : All IsByte (a ∷ b ∷ c ∷ d ∷ xs) = rw e at (All-drop IsByte p bytes hb) in
        let word = u32_bytes-of a b c d are.0 are.1.0 are.1.1.0 are.1.1.1.0 in
        let is : u32_of a b c d ≡ v = ground (arith, e, h) in
        record {
          small = rw is at (u32_of-IsU32 a b c d are.0 are.1.0 are.1.1.0 are.1.1.1.0);
          stands =
              e
              ∙ ap (λ w. w ++ xs) (sym word)
              ∙ ap (λ n. u32_bytes n ++ xs) is
              ∙ ap (λ t. u32_bytes v ++ t) (sym behind);
        }

-- The reads of a NEW_OBJECT message, put together.
abbrev Stands : List ℕ → ℕ → ℕ → ℕ → Type 0
Stands bytes offset seq id =
    IsU32 seq
    × IsU32 id
    × (drop offset bytes ≡ encode_new_object seq id ++ drop (offset + 12) bytes)

new_object-Stands :
    (bytes : List ℕ) (offset seq id : ℕ) (u0 u1 u4 u6 : Unit {0})
    → All IsByte bytes
    → expect bytes (offset + 0) 11 ≡ done u0
    → expect bytes (offset + 1) 0x10 ≡ done u1
    → read_u32 bytes (offset + 2) ≡ done id
    → expect bytes (offset + 6) 0x10 ≡ done u4
    → read_u32 bytes (offset + 7) ≡ done seq
    → expect bytes (offset + 11) 0 ≡ done u6
    → Stands bytes offset seq id
unfolding encode_new_object
new_object-Stands bytes offset seq id u0 u1 u4 u6 hb e0 e1 e3 e4 e5 e6 =
    let first = expect-eq-done bytes (offset + 0) 11 (offset + 1) u0 (omega arith) e0 in
    let second = expect-eq-done bytes (offset + 1) 0x10 (offset + 2) u1 (omega arith) e1 in
    let id_word = read_u32-eq-done bytes (offset + 2) id (offset + 6) hb (omega arith) e3 in
    let third = expect-eq-done bytes (offset + 6) 0x10 (offset + 7) u4 (omega arith) e4 in
    let seq_word = read_u32-eq-done bytes (offset + 7) seq (offset + 11) hb (omega arith) e5 in
    let last = expect-eq-done bytes (offset + 11) 0 (offset + 12) u6 (omega arith) e6 in
    let start : drop offset bytes ≡ drop (offset + 0) bytes =
      drop_eq bytes {ys = drop (offset + 0) bytes} refl (omega arith) in
    (
      seq_word.small,
      id_word.small,
      rw (start, first, second, id_word.stands, third, seq_word.stands, last) refl,
    )

-- Where the decoder of NEW_OBJECT takes a message from a buffer of bytes, it gives two numbers of
-- 32 bits and the length 12, and what stands there is exactly the encoding of those numbers.
pub parse_new_object-exact :
    (bytes : List ℕ) (offset : ℕ) (msg : NewObject) (len : ℕ)
    → All IsByte bytes
    → parse_new_object bytes offset ≡ done (msg, len)
    → (len ≡ 12)
      × IsU32 msg.seq
      × IsU32 msg.id
      × (drop offset bytes ≡ encode_new_object msg.seq msg.id ++ drop (offset + 12) bytes)
unfolding parse_new_object
parse_new_object-exact bytes offset msg len hb h =
    let (u0, e0, h0) = >>=-eq-done (expect bytes (offset + 0) 11) _ h in
    let (u1, e1, h1) = >>=-eq-done (expect bytes (offset + 1) 0x10) _ h0 in
    let (u2, e2, h2) = >>=-eq-done (ensure (leb 4 (length bytes - offset - 2))) _ h1 in
    let (id, e3, h3) = >>=-eq-done (read_u32 bytes (offset + 2)) _ h2 in
    let (u4, e4, h4) = >>=-eq-done (expect bytes (offset + 6) 0x10) _ h3 in
    let (seq, e5, h5) = >>=-eq-done (read_u32 bytes (offset + 7)) _ h4 in
    let (u6, e6, h6) = >>=-eq-done (expect bytes (offset + 11) 0) _ h5 in
    let stands = new_object-Stands bytes offset seq id u0 u1 u4 u6 hb e0 e1 e3 e4 e5 e6 in
    let r = same seq id stands h6 in (r.0, r.1.0, r.1.1, r.1.2)
  where
    same :
        (seq id : ℕ)
        → Stands bytes offset seq id
        → ◌≡◌ {A = Outcome (NewObject × ℕ)}
            (done (record { seq = seq; id = id }, 12))
            (done (msg, len))
        → (len ≡ 12) × Stands bytes offset msg.seq msg.id
    same seq id stands e =
        let is_seq : seq ≡ msg.seq = cc e in
        let is_id : id ≡ msg.id = cc e in (cc e, rw (is_seq, is_id) at stands)
