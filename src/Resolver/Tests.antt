-- ===== src/Resolver/Tests.antt =====
-- service_resolver.cpp at concrete answers. A name is one byte, which is its own text.
use bb_monitor.Base.{
  ℕ, ◌+◌, ◌≡◌, refl, Option, none, some, List, [], ◌∷◌, ◌++◌, Bytes, codes, get_elem?, ℤ, pos,
  negsuc, arith,
}
use bb_monitor.Outcome.{ok, undefined}
use bb_monitor.Resolver.{
  Expanded, failed, expanded, SrvAnswer, byte_at, u16_at, header_counts, rr_fixed, srv_fixed,
  parse_questions, parse_srv, parse_rr, parse_answer, parse_answers, ares_srv_callback,
}
use bb_monitor.Resolver.Bounds.{ares_srv_callback-inside}
use bb_monitor.Resolver.Sockaddr.{get_sockaddr_by_name}

abbrev expand_name : Bytes → ℕ → ℕ → Expanded
expand_name memory alen cursor = elim (get_elem? memory cursor) [
  | none ↦ failed (pos 8)
  | some c ↦ expanded (c ∷ []) 1
]

-- One answer: the name, type 33, class 1, the time to live, and a length.
abbrev answer_of : ℕ → Bytes
answer_of dlen =
    0 ∷ 7 ∷ 0 ∷ 0 ∷ 0 ∷ 0 ∷ 0 ∷ 1 ∷ 0 ∷ 0 ∷ 0 ∷ 0 ∷ 65 ∷ 0 ∷ 33 ∷ 0 ∷ 1 ∷ 0 ∷ 0 ∷ 0 ∷ 9 ∷ 0 ∷ dlen
    ∷ []

abbrev srv_data : Bytes
srv_data = 0 ∷ 1 ∷ 0 ∷ 2 ∷ 31 ∷ 144 ∷ 66 ∷ []

one_server :
    ares_srv_callback expand_name (answer_of 7 ++ srv_data) 30 (pos 0)
    ≡ ok (record {
      ec = pos 0;
      records = record { prio = 1; weight = 2; fqdn = 66 ∷ []; port = 8080 } ∷ [];
    })
unfolding ares_srv_callback header_counts u16_at byte_at parse_questions parse_answers parse_answer
    parse_rr rr_fixed parse_srv srv_fixed
one_server = refl

-- A record without data at the end of the answer is read all the same.
overread : ares_srv_callback expand_name (answer_of 0) 23 (pos 0) ≡ undefined
unfolding ares_srv_callback header_counts u16_at byte_at parse_questions parse_answers parse_answer
    parse_rr rr_fixed parse_srv srv_fixed
overread = refl

ares_srv_callback-inside_example :
    (a : SrvAnswer) × (ares_srv_callback expand_name
        (answer_of 7 ++ (srv_data ++ srv_data))
        30
        (pos 0)
      ≡ ok a)
ares_srv_callback-inside_example =
    ares_srv_callback-inside expand_name (answer_of 7 ++ (srv_data ++ srv_data)) 30 (pos 0)
      (omega arith) (omega arith)

-- A port beyond 16 bits is taken for another.
large_port :
    get_sockaddr_by_name
      (λ s. s)
      (λ s. s)
      (λ q. record { ec = pos 0; records = [] })
      (λ h. (pos 0, codes "ip" ∷ []))
      (codes "db:65537")
    ≡ (pos 0, (codes "ip", 1) ∷ [])
unfolding get_sockaddr_by_name bb_monitor.Base.Text.cut
large_port = refl
