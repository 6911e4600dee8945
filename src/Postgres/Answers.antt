-- ===== src/Postgres/Answers.antt =====
-- What a statement is answered with (postgres_asio.cpp), however its reply is cut into reads.
use bb_monitor.Base.{
  ℕ, zero, suc, ◌<◌, ◌≡◌, refl, ap, ◌∙◌, Bool, true, false, none, some, List, [], ◌∷◌, ◌++◌, map,
  Bytes, length, arith, append_assoc, append-nil, ltb, ◌&&◌,
}
use bb_monitor.Postgres.{
  Libpq, Connection, Reply, reading, called, polling, Event, readable, busy, answer, fetch, settle,
  fg_socket_rx_cb, run_reads, exec, exec_sync, executor_f,
}

-- A reply from some point on: the reads to come, the results and the connection behind them.
pub data Replies {C R : Type 0} (pq : Libpq C R) : C → List Bytes → List R → C → Type 0 where
  finished :
      (c next : C) → pq.is_busy c ≡ false → pq.get_result c ≡ (none, next) → Replies pq c [] [] next
  fetched :
      (c next behind : C) (r : R) (reads : List Bytes) (rs : List R)
      → pq.is_busy c ≡ false
      → pq.get_result c ≡ (some r, next)
      → Replies pq next reads rs behind
      → Replies pq c reads (r ∷ rs) behind
  waits :
      (c next behind : C) (input : Bytes) (reads : List Bytes) (rs : List R)
      → pq.is_busy c ≡ true
      → pq.consume_input input c ≡ (true, next)
      → Replies pq next reads rs behind
      → Replies pq c (input ∷ reads) rs behind

module _ {C R : Type 0} (pq : Libpq C R) (n : ℕ) where
  -- The events behind what a turn came to.
  abbrev go_on : List Event → Connection C R × Reply R → Connection C R × Reply R
  go_on events (next, reply) = elim reply [
    | reading ↦ run_reads pq n events next
    | called ec r ↦ (next, called ec r)
    | polling ↦ (next, polling)
  ]

  go_on-readable :
      (input : Bytes) (events : List Event) (conn : Connection C R) (c next : C) (old : List R)
      → pq.consume_input input c ≡ (true, next)
      → go_on (readable input ∷ events) (settle pq conn ((c, old), busy))
        ≡ go_on events
            (settle pq (record conn { pg_conn = c; results = old }) (fetch pq n next old))
  unfolding run_reads fg_socket_rx_cb
  go_on-readable input events conn c next old e = ground (arith, e)

  go_on-Replies :
      {c behind : C} {reads : List Bytes} {rs : List R}
      → Replies pq c reads rs behind
      → (m : ℕ) (old : List R) (conn : Connection C R) → length rs < m
      → length rs < n
      → go_on (map readable reads) (settle pq conn (fetch pq m c old))
        ≡ (record conn { pg_conn = behind; results = [] }, answer pq (old ++ rs))
  unfolding fetch
  go_on-Replies (finished c next a b) zero old conn h k = absurd (omega (arith, h))
  go_on-Replies (finished c next a b) (suc m) old conn h k = ground (arith, a, b, append-nil old)
  go_on-Replies (fetched c next behind r reads rs a b d) zero old conn h k =
      absurd (omega (arith, h))
  go_on-Replies (fetched c next behind r reads rs a b d) (suc m) old conn h k = ground (
    arith,
    a,
    b,
    append_assoc old (r ∷ []) rs,
    go_on-Replies d m (old ++ r ∷ []) conn (omega (arith, h)) (omega (arith, k)),
  )
  go_on-Replies (waits c next behind input reads rs a b d) zero old conn h k =
      absurd (omega (arith, h))
  go_on-Replies (waits c next behind input reads rs a b d) (suc m) old conn h k = ground (
    arith,
    a,
    go_on-readable input (map (λ x. readable x) reads) conn c next old b,
    go_on-Replies d n old (record conn { pg_conn = c; results = old }) k k,
  )

-- A statement with its reply, as the server gave it in some reads.
pub record Exchange (R : Type 0) : Type 0 where
  pub statement : Bytes
  pub first_read : Bytes
  pub reads : List Bytes
  pub rs : List R

abbrev pub task_of : {R : Type 0} → Exchange R → Bytes × List Event
task_of x = (x.statement, map (λ input. readable input) (x.first_read ∷ x.reads))

-- The first statement is sent and its reply comes, then the next.
pub data Exchanges {C R : Type 0} (pq : Libpq C R) : C → List (Exchange R) → Type 0 where
  none_left : (c : C) → Exchanges pq c []
  one_more :
      (c sent read behind : C) (x : Exchange R) (xs : List (Exchange R))
      → pq.send_query x.statement c ≡ (true, sent)
      → pq.consume_input x.first_read sent ≡ (true, read)
      → Replies pq read x.reads x.rs behind
      → Exchanges pq behind xs
      → Exchanges pq c (x ∷ xs)

-- Each reply has fewer results than that.
abbrev pub all_shorter : {R : Type 0} → ℕ → List (Exchange R) → Bool
all_shorter n [] = true
all_shorter n (x ∷ xs) = ltb (length x.rs) n && all_shorter n xs

module _ {C R : Type 0} (pq : Libpq C R) (n : ℕ) where
  -- A statement whose reply comes is answered once, by the last of its results, or of those that the
  -- connection still held where it has none; then the connection holds none.
  pub exec_sync-Replies :
      {sent read behind : C} (x : Exchange R) (conn : Connection C R)
      → pq.send_query x.statement conn.pg_conn ≡ (true, sent)
      → pq.consume_input x.first_read sent ≡ (true, read)
      → Replies pq read x.reads x.rs behind
      → length x.rs < n
      → exec_sync pq n x.statement (task_of x).1 conn ≡ (
        record { pg_conn = behind; current_statement = x.statement; results = [] },
        answer pq (conn.results ++ x.rs),
      )
  unfolding exec_sync exec run_reads fg_socket_rx_cb
  exec_sync-Replies {sent = sent} {read = read} x conn a b d h = ground (
    arith,
    a,
    b,
    go_on-Replies pq n d n conn.results
        (record { pg_conn = sent; current_statement = x.statement; results = conn.results }) h h,
  )

  -- A worker answers its tasks in the order in which they were pushed, each once and with the last of
  -- the results of its own statement, however the replies are cut into reads; the connection is left
  -- without results. Each reply has fewer results than the bound on the rounds of the loop.
  pub executor_f-Exchanges :
      {c : C} {xs : List (Exchange R)}
      → Exchanges pq c xs
      → (before : Bytes) → all_shorter n xs ≡ true
      → let done =
          executor_f pq n
            (map task_of xs)
            (record { pg_conn = c; current_statement = before; results = [] }) in
        (done.1 ≡ map (λ x. answer pq x.rs) xs) × (done.0.results ≡ [])
  unfolding executor_f
  executor_f-Exchanges (none_left c) before h = (refl, refl)
  executor_f-Exchanges (one_more c sent read behind x xs a b d rest) before h =
      let here =
        exec_sync-Replies x (record { pg_conn = c; current_statement = before; results = [] }) a b d
          (ground (arith, h)) in
      let (replies, clean) = executor_f-Exchanges rest x.statement (ground (arith, h)) in
      (
        ap (λ s. s.1 ∷ (executor_f pq n (map task_of xs) s.0).1) here
            ∙ ap (λ replies. answer pq x.rs ∷ replies) replies,
        ap (λ s. (executor_f pq n (map task_of xs) s.0).0.results) here ∙ clean,
      )
