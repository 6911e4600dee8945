-- ===== src/Resolver/Bounds.antt =====
-- How far `ares_srv_callback` (service_resolver.cpp) reads.
use bb_monitor.Base.{
  ℕ, zero, suc, ◌+◌, ◌*◌, ◌≤◌, ◌<◌, ◌≡◌, refl, ap, inl, inr, Bool, true, false, some, List, [], ◌∷◌,
  ◌++◌, Bytes, get_elem?, length, ltb, ℤ, arith, Option-cases, Bool-cases,
}
use bb_monitor.Outcome.{Outcome, ok, skipped, undefined, deref, ◌>>=◌}
use bb_monitor.Resolver.{
  Expanded, failed, expanded, SrvRecord, SrvAnswer, Next, stop, next, byte_at, u16_at,
  header_counts, rr_fixed, srv_fixed, parse_questions, parse_srv, parse_data, parse_rr,
  parse_answer, parse_answers, parse_counted, ares_srv_callback,
}

get_elem?-inside :
    {A : Type 0} (xs : List A) (i : ℕ) → i < length xs → (x : A) × (get_elem? xs i ≡ some x)
get_elem?-inside [] i h = absurd (omega (arith, h))
get_elem?-inside (x ∷ xs) zero h = (x, refl)
get_elem?-inside (x ∷ xs) (suc i) h = get_elem?-inside xs i (omega (arith, h))

abbrev is_ok : {A : Type 0} → Outcome A → Bool
is_ok (ok a) = true
is_ok skipped = false
is_ok undefined = false

ok_of-is_ok : {A : Type 0} (m : Outcome A) → is_ok m ≡ true → (a : A) × (m ≡ ok a)
ok_of-is_ok (ok a) h = (a, refl)
ok_of-is_ok skipped h = absurd (cc h)
ok_of-is_ok undefined h = absurd (cc h)

is_ok->>= :
    {A B : Type 0} (m : Outcome A) (f : A → Outcome B)
    → (a : A) × (m ≡ ok a)
    → ((a : A) → is_ok (f a) ≡ true)
    → is_ok (m >>= f) ≡ true
is_ok->>= (ok a) f h k = k a
is_ok->>= skipped f (a, e) k = absurd (cc e)
is_ok->>= undefined f (a, e) k = absurd (cc e)

is_ok-next :
    (n : Next) (v : List SrvRecord) (go : ℕ → SrvRecord → Outcome SrvAnswer)
    → ((behind : ℕ) (rec : SrvRecord) → is_ok (go behind rec) ≡ true)
    → is_ok (elim n as (λ m. Outcome SrvAnswer) [
      | stop status ↦ ok (record { ec = status; records = v })
      | next behind rec ↦ go behind rec
    ])
      ≡ true
is_ok-next (stop status) v go h = refl
is_ok-next (next behind rec) v go h = h behind rec

module _ (memory : Bytes) where
  byte_at-inside : (i : ℕ) → i < length memory → (x : ℕ) × (byte_at memory i ≡ ok x)
  unfolding byte_at
  byte_at-inside i h = let (x, e) = get_elem?-inside memory i h in (x, ap deref e)

  u16_at-inside : (i : ℕ) → i + 2 ≤ length memory → (x : ℕ) × (u16_at memory i ≡ ok x)
  unfolding u16_at
  u16_at-inside i h =
      let (high, e) = byte_at-inside i (omega (arith, h)) in
      let (low, e') = byte_at-inside (i + 1) (omega (arith, h)) in
      (high * 256 + low, rw (e, e') refl)

  header_counts-inside : 12 ≤ length memory → (c : ℕ × ℕ) × (header_counts memory ≡ ok c)
  unfolding header_counts
  header_counts-inside h =
      let (id, e0) = u16_at-inside 0 (omega (arith, h)) in
      let (flags, e2) = u16_at-inside 2 (omega (arith, h)) in
      let (qdcount, e4) = u16_at-inside 4 (omega (arith, h)) in
      let (ancount, e6) = u16_at-inside 6 (omega (arith, h)) in
      let (nscount, e8) = u16_at-inside 8 (omega (arith, h)) in
      let (arcount, e10) = u16_at-inside 10 (omega (arith, h)) in
      ((qdcount, ancount), rw (e0, e2, e4, e6, e8, e10) refl)

  rr_fixed-inside : (i : ℕ) → i + 10 ≤ length memory → (c : ℕ × ℕ) × (rr_fixed memory i ≡ ok c)
  unfolding rr_fixed
  rr_fixed-inside i h =
      let (type, e0) = u16_at-inside i (omega (arith, h)) in
      let (dnsclass, e2) = u16_at-inside (i + 2) (omega (arith, h)) in
      let (ttl_high, e4) = u16_at-inside (i + 4) (omega (arith, h)) in
      let (ttl_low, e6) = u16_at-inside (i + 6) (omega (arith, h)) in
      let (dlen, e8) = u16_at-inside (i + 8) (omega (arith, h)) in
      ((type, dlen), rw (e0, e2, e4, e6, e8) refl)

  srv_fixed-inside : (i : ℕ) → i + 6 ≤ length memory → (c : ℕ × ℕ × ℕ) × (srv_fixed memory i ≡ ok c)
  unfolding srv_fixed
  srv_fixed-inside i h =
      let (prio, e0) = u16_at-inside i (omega (arith, h)) in
      let (weight, e2) = u16_at-inside (i + 2) (omega (arith, h)) in
      let (port, e4) = u16_at-inside (i + 4) (omega (arith, h)) in
      ((prio, weight, port), rw (e0, e2, e4) refl)

module _ (expand_name : Bytes → ℕ → ℕ → Expanded) (memory : Bytes) (alen : ℕ)
    (room : alen + 6 ≤ length memory) where
  parse_srv-inside :
      (cursor dlen : ℕ)
      → cursor ≤ alen
      → is_ok (parse_srv expand_name memory alen cursor dlen) ≡ true
  unfolding parse_srv
  parse_srv-inside cursor dlen h =
      is_ok->>= (srv_fixed memory cursor) _
        (srv_fixed-inside memory cursor (omega (arith, h, room))) (λ c. ground arith)

  parse_data-inside :
      (cursor : ℕ) (c : ℕ × ℕ) → is_ok (parse_data expand_name memory alen cursor c) ≡ true
  parse_data-inside cursor (type, dlen) = elim (Bool-cases (ltb alen (cursor + dlen))) [
    | inl short ↦ ground (arith, short)
    | inr fits ↦ ground (arith, fits, parse_srv-inside cursor dlen (ground (arith, fits)))
  ]

  parse_rr-inside : (cursor : ℕ) → is_ok (parse_rr expand_name memory alen cursor) ≡ true
  unfolding parse_rr
  parse_rr-inside cursor = elim (Bool-cases (ltb alen (cursor + 10))) [
    | inl short ↦ ground (arith, short)
    | inr fits ↦
        let read =
          is_ok->>= (rr_fixed memory cursor) (parse_data expand_name memory alen (cursor + 10))
            (rr_fixed-inside memory cursor (ground (arith, fits, room)))
            (parse_data-inside (cursor + 10)) in
        ground (arith, fits, read)
  ]

  parse_answer-inside : (cursor : ℕ) → is_ok (parse_answer expand_name memory alen cursor) ≡ true
  unfolding parse_answer
  parse_answer-inside cursor =
      elim (expand_name memory alen cursor)
        as (λ x.
          is_ok (elim x [
            | failed status ↦ ok (stop status)
            | expanded name len ↦ parse_rr expand_name memory alen (cursor + len)
          ])
          ≡ true) [ failed status ↦ refl | expanded name len ↦ parse_rr-inside (cursor + len) ]

  parse_answers-inside :
      (ancount cursor : ℕ) (v : List SrvRecord)
      → is_ok (parse_answers expand_name memory alen ancount cursor v) ≡ true
  unfolding parse_answers
  parse_answers-inside zero cursor v = refl
  parse_answers-inside (suc ancount) cursor v =
      is_ok->>= (parse_answer expand_name memory alen cursor) _
        (ok_of-is_ok (parse_answer expand_name memory alen cursor) (parse_answer-inside cursor))
        (λ n.
          is_ok-next n v
            (λ behind rec. parse_answers expand_name memory alen ancount behind (v ++ rec ∷ []))
            (λ behind rec. parse_answers-inside ancount behind (v ++ rec ∷ [])))

  parse_counted-inside :
      (status : ℤ) (c : ℕ × ℕ) → is_ok (parse_counted expand_name memory alen status c) ≡ true
  parse_counted-inside status (qdcount, ancount) =
      elim (Option-cases (parse_questions expand_name memory alen qdcount 12)) [
        | inl e ↦ ground (arith, e)
        | inr (cursor, e) ↦ ground (arith, e, parse_answers-inside ancount cursor [])
      ]

  all_read-inside :
      12 ≤ alen → (status : ℤ) → is_ok (ares_srv_callback expand_name memory alen status) ≡ true
  unfolding ares_srv_callback
  all_read-inside h status =
      let read =
        is_ok->>= (header_counts memory) (parse_counted expand_name memory alen status)
          (header_counts-inside memory (omega (arith, h, room))) (parse_counted-inside status) in
      ground (arith, read)

-- Where the answer has a header of 12 bytes, and six bytes behind its end may be read too, every answer
-- is read without undefined behaviour, whatever counts, lengths and types it holds, and whatever
-- `ares_expand_name` finds in it: no read goes further than six bytes past the end.
pub ares_srv_callback-inside :
    (expand_name : Bytes → ℕ → ℕ → Expanded) (memory : Bytes) (alen : ℕ) (status : ℤ)
    → 12 ≤ alen
    → alen + 6 ≤ length memory
    → (a : SrvAnswer) × (ares_srv_callback expand_name memory alen status ≡ ok a)
ares_srv_callback-inside expand_name memory alen status h room =
    ok_of-is_ok (ares_srv_callback expand_name memory alen status)
      (all_read-inside expand_name memory alen room h status)
