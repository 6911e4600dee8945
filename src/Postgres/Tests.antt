-- ===== src/Postgres/Tests.antt =====
-- Statements to a server whose results are numbers, one to a byte; a zero ends a reply.
use bb_monitor.Base.{
  ℕ, zero, suc, ◌≡◌, refl, Bool, true, false, Option, none, some, [], ◌∷◌, ◌++◌, map, Bytes, codes,
  ◌==◌, if◌then◌else◌,
}
use bb_monitor.Postgres.{
  tuples_ok, fatal_error, Libpq, Connection, called, asio_error, status, success, failed, readable,
  exec_sync, executor_f, run_reads, fg_socket_rx_cb, exec, fetch,
}
use bb_monitor.Postgres.Answers.{
  Replies, finished, fetched, waits, Exchange, task_of, Exchanges, none_left, one_more,
  executor_f-Exchanges,
}
use bb_monitor.Postgres.Values.{sql_strip_bad_chars}

abbrev next_result : Bytes → Option ℕ × Bytes
next_result [] = (none, [])
next_result (zero ∷ c) = (none, c)
next_result (suc r ∷ c) = (some r, c)

abbrev nothing_read : Bytes → Bool
nothing_read [] = true
nothing_read (x ∷ c) = false

abbrev numbers : Libpq Bytes ℕ
numbers = record {
  send_query = λ statement c. (true, c);
  consume_input = λ input c. (true, c ++ input);
  is_busy = nothing_read;
  get_result = next_result;
  result_status = λ r. if r == 7 then fatal_error else tuples_ok;
}

abbrev select_one : Exchange ℕ
select_one = record {
  statement = codes "select 1";
  first_read = 3 ∷ [];
  reads = (5 ∷ []) ∷ (0 ∷ []) ∷ [];
  rs = 2 ∷ 4 ∷ [];
}

abbrev bad_statement : Exchange ℕ
bad_statement = record {
  statement = codes "selec";
  first_read = 8 ∷ 0 ∷ [];
  reads = [];
  rs = 7 ∷ [];
}

select_one-Replies : Replies numbers (3 ∷ []) select_one.reads select_one.rs []
select_one-Replies = fetched (3 ∷ []) [] [] 2 select_one.reads (4 ∷ []) refl refl (
    waits [] (5 ∷ []) [] (5 ∷ []) ((0 ∷ []) ∷ []) (4 ∷ []) refl refl (
      fetched (5 ∷ []) [] [] 4 ((0 ∷ []) ∷ []) [] refl refl
        (waits [] (0 ∷ []) [] (0 ∷ []) [] [] refl refl (finished (0 ∷ []) [] refl refl))))

bad_statement-Replies : Replies numbers (8 ∷ 0 ∷ []) [] bad_statement.rs []
bad_statement-Replies =
    fetched (8 ∷ 0 ∷ []) (0 ∷ []) [] 7 [] [] refl refl (finished (0 ∷ []) [] refl refl)

two-Exchanges : Exchanges numbers [] (select_one ∷ bad_statement ∷ [])
two-Exchanges =
    one_more [] [] (3 ∷ []) [] select_one (bad_statement ∷ []) refl refl select_one-Replies (
      one_more [] [] (8 ∷ 0 ∷ []) [] bad_statement [] refl refl bad_statement-Replies
        (none_left []))

executor_f-Exchanges_example :
    let done =
      executor_f numbers 4
        (map task_of (select_one ∷ bad_statement ∷ []))
        (record { pg_conn = []; current_statement = []; results = [] }) in
    (done.1 ≡ called success (some 4) ∷ called (status fatal_error) (some 7) ∷ [])
    × (done.0.results ≡ [])
executor_f-Exchanges_example = executor_f-Exchanges numbers 4 two-Exchanges [] refl

abbrev stale : Connection Bytes ℕ
stale = record { pg_conn = []; current_statement = []; results = 2 ∷ [] }

-- A statement without a result is answered with what an earlier one left.
stale_answer : exec_sync numbers 4 (codes "begin") (readable (0 ∷ []) ∷ []) stale ≡ (
  record { pg_conn = []; current_statement = codes "begin"; results = [] },
  called success (some 2),
)
unfolding exec_sync exec run_reads fg_socket_rx_cb fetch
stale_answer = refl

-- Results that came before an error of the socket stay in the connection.
kept_results :
    exec_sync numbers 4
      (codes "select 1")
      (readable (3 ∷ []) ∷ failed 104 ∷ [])
      (record { pg_conn = []; current_statement = []; results = [] })
    ≡ (
      record { pg_conn = []; current_statement = codes "select 1"; results = 2 ∷ [] },
      called (asio_error 104) none,
    )
unfolding exec_sync exec run_reads fg_socket_rx_cb fetch
kept_results = refl

stripped : sql_strip_bad_chars (34 ∷ 97 ∷ 10 ∷ 98 ∷ []) ≡ codes "ab"
unfolding sql_strip_bad_chars
stripped = refl
