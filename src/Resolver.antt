-- ===== src/Resolver.antt =====
-- libraries/bb_monitor_srv_utils/service_resolver.cpp: answers to queries for the servers of a service.
-- c-ares is a library: `expand_name` is `ares_expand_name`, and its macros are the layout of the DNS.
-- `memory` is what may be read from `abuf` on, and `alen` the length of the answer.
pub mod Bounds
pub mod Sockaddr
mod Tests
use bb_monitor.Base.{
  ℕ, zero, suc, ◌+◌, ◌*◌, Bool, true, false, Option, none, some, List, [], ◌∷◌, ◌++◌, Bytes,
  get_elem?, ltb, ℤ, pos, negsuc, int_eq, ◌==◌,
}
use bb_monitor.Outcome.{Outcome, ok, undefined, deref, ◌>>=◌}

-- A status other than `ARES_SUCCESS`, or the name and the length that it has in the answer.
pub data Expanded : Type 0 where
  failed : ℤ → Expanded
  expanded : Bytes → ℕ → Expanded

pub record SrvRecord : Type 0 where
  pub prio : ℕ
  pub weight : ℕ
  pub fqdn : Bytes
  pub port : ℕ

-- What is posted to the callback.
pub record SrvAnswer : Type 0 where
  pub ec : ℤ
  pub records : List SrvRecord

-- What the body of the loop over the answers does: it posts and returns, or goes on behind a record.
pub data Next : Type 0 where
  stop : ℤ → Next
  next : ℕ → SrvRecord → Next

-- A read outside the memory is undefined.
unfoldable pub byte_at : Bytes → ℕ → Outcome ℕ
byte_at memory i = deref (get_elem? memory i)

-- `DNS__16BIT`
unfoldable pub u16_at : Bytes → ℕ → Outcome ℕ
u16_at memory i = do high ← byte_at memory i; low ← byte_at memory (i + 1); ok (high * 256 + low)

-- The macros `DNS_HEADER_*`: the id, two bytes of flags and four counts, of which two are used.
unfoldable pub header_counts : Bytes → Outcome (ℕ × ℕ)
header_counts memory = do
  id ← u16_at memory 0
  flags ← u16_at memory 2
  qdcount ← u16_at memory 4
  ancount ← u16_at memory 6
  nscount ← u16_at memory 8
  arcount ← u16_at memory 10
  ok (qdcount, ancount)

-- The macros `DNS_RR_*`: type, class, time to live, length of the data.
unfoldable pub rr_fixed : Bytes → ℕ → Outcome (ℕ × ℕ)
rr_fixed memory cursor = do
  type ← u16_at memory cursor
  dnsclass ← u16_at memory (cursor + 2)
  ttl_high ← u16_at memory (cursor + 4)
  ttl_low ← u16_at memory (cursor + 6)
  dlen ← u16_at memory (cursor + 8)
  ok (type, dlen)

unfoldable pub srv_fixed : Bytes → ℕ → Outcome (ℕ × ℕ × ℕ)
srv_fixed memory cursor = do
  prio ← u16_at memory cursor
  weight ← u16_at memory (cursor + 2)
  port ← u16_at memory (cursor + 4)
  ok (prio, weight, port)

module _ (expand_name : Bytes → ℕ → ℕ → Expanded) (memory : Bytes) (alen : ℕ) where
  -- `none` is NULL.
  abbrev pub parse_question : ℕ → Option ℕ
  parse_question cursor = elim (expand_name memory alen cursor) [
    | failed status ↦ none
    | expanded name len ↦ elim (ltb alen (cursor + len + 4)) [
      | true ↦ none
      | false ↦ some (cursor + len + 4)
    ]
  ]

  unfoldable pub parse_questions : ℕ → ℕ → Option ℕ
  parse_questions zero cursor = some cursor
  parse_questions (suc qdcount) cursor = elim (parse_question cursor) [
    | none ↦ none
    | some behind ↦ parse_questions qdcount behind
  ]

  -- The data of a record of type SRV.
  unfoldable pub parse_srv : ℕ → ℕ → Outcome Next
  parse_srv cursor dlen = do
    (prio, weight, port) ← srv_fixed memory cursor
    elim (expand_name memory alen (cursor + 6)) [
      | failed status ↦ ok (stop status)
      | expanded name len ↦
          ok (
            next (cursor + dlen)
              (record { prio = prio; weight = weight; fqdn = name; port = port }))
    ]

  -- What stands behind the fixed part of a record, of a type and a length. 33 is `T_SRV`.
  abbrev pub parse_data : ℕ → ℕ × ℕ → Outcome Next
  parse_data cursor (type, dlen) = elim (ltb alen (cursor + dlen)) [
    | true ↦ ok (stop (negsuc 0))
    | false ↦ elim (type == 33) [ false ↦ ok (stop (negsuc 0)) | true ↦ parse_srv cursor dlen ]
  ]

  -- A record behind its name: a fixed part of 10 bytes, then its data.
  unfoldable pub parse_rr : ℕ → Outcome Next
  parse_rr cursor = elim (ltb alen (cursor + 10)) [
    | true ↦ ok (stop (negsuc 0))
    | false ↦ do fixed ← rr_fixed memory cursor; parse_data (cursor + 10) fixed
  ]

  -- The body of the loop over the answers.
  unfoldable pub parse_answer : ℕ → Outcome Next
  parse_answer cursor = elim (expand_name memory alen cursor) [
    | failed status ↦ ok (stop status)
    | expanded name len ↦ parse_rr (cursor + len)
  ]

  unfoldable pub parse_answers : ℕ → ℕ → List SrvRecord → Outcome SrvAnswer
  parse_answers zero cursor v = ok (record { ec = pos 0; records = v })
  parse_answers (suc ancount) cursor v = do
    n ← parse_answer cursor
    elim n [
      | stop status ↦ ok (record { ec = status; records = v })
      | next behind rec ↦ parse_answers ancount behind (v ++ rec ∷ [])
    ]

  -- A question that is not read is reported with the status of the query, which is success.
  abbrev pub parse_counted : ℤ → ℕ × ℕ → Outcome SrvAnswer
  parse_counted status (qdcount, ancount) = elim (parse_questions qdcount 12) [
    | none ↦ ok (record { ec = status; records = [] })
    | some cursor ↦ parse_answers ancount cursor []
  ]

  unfoldable pub ares_srv_callback : ℤ → Outcome SrvAnswer
  ares_srv_callback status = elim (int_eq status (pos 0)) [
    | false ↦ ok (record { ec = status; records = [] })
    | true ↦ do counts ← header_counts memory; parse_counted status counts
  ]
