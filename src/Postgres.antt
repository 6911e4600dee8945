-- ===== src/Postgres.antt =====
-- libraries/bb_monitor_srv_utils/postgres_asio.cpp, pg_worker.cpp and pg_utils.cpp: statements to a
-- Postgres server. libpq is the record `Libpq`, with its connections `C` and results `R`.
pub mod Answers
pub mod Values
mod Tests
use bb_monitor.Base.{
  ℕ, zero, suc, Bool, true, false, Option, none, some, List, [], ◌∷◌, ◌++◌, Bytes, if◌then◌else◌,
}

-- `ExecStatusType`
pub data ExecStatus : Type 0 where
  empty_query : ExecStatus
  command_ok : ExecStatus
  tuples_ok : ExecStatus
  copy_out : ExecStatus
  copy_in : ExecStatus
  bad_response : ExecStatus
  nonfatal_error : ExecStatus
  fatal_error : ExecStatus
  copy_both : ExecStatus
  single_tuple : ExecStatus
  unknown : ExecStatus

-- The code that a callback gets: 0, an error of the socket, or a status.
pub data Code : Type 0 where
  success : Code
  asio_error : ℕ → Code
  status : ExecStatus → Code

-- `send_query` and `consume_input` answer with whether they succeeded. What the socket has for
-- `consume_input` to read is an argument.
pub record Libpq (C R : Type 0) : Type 0 where
  pub send_query : Bytes → C → Bool × C
  pub consume_input : Bytes → C → Bool × C
  pub is_busy : C → Bool
  pub get_result : C → Option R × C
  pub result_status : R → ExecStatus

-- `_start_ts` and `_warn_timeout` are for the log only.
pub record Connection (C R : Type 0) : Type 0 where
  pub pg_conn : C
  pub current_statement : Bytes
  pub results : List R

-- What became of a statement: a read is outstanding, or the callback was called. `polling` is a loop
-- that has not ended within its bound.
pub data Reply (R : Type 0) : Type 0 where
  reading : Reply R
  called : Code → Option R → Reply R
  polling : Reply R

-- What `async_read_some` calls back with: an error, or readiness for what is there.
pub data Event : Type 0 where
  failed : ℕ → Event
  readable : Bytes → Event

-- Where the loop over the results stopped.
pub data Stop : Type 0 where
  busy : Stop
  complete : Stop
  bounded : Stop

-- `*_results.rbegin()`
abbrev pub last_result {ℓ} : {R : Type ℓ} → List R → Option R
last_result [] = none
last_result (r ∷ []) = some r
last_result (r ∷ (q ∷ rs)) = last_result (q ∷ rs)

-- The switch on the status.
abbrev pub code_of : ExecStatus → Code
code_of empty_query = success
code_of command_ok = success
code_of tuples_ok = success
code_of copy_out = success
code_of copy_in = success
code_of nonfatal_error = success
code_of copy_both = success
code_of single_tuple = success
code_of bad_response = status bad_response
code_of fatal_error = status fatal_error
code_of unknown = status unknown

-- The blocking connect: `connectdb` is `PQconnectdb`, and `status_of` is `PQstatus`, 0 for `CONNECTION_OK`.
-- The number is the argument of the callback.
abbrev pub bg_connect :
    {C R : Type 0} → (Bytes → C) → (C → ℕ) → Bytes → Connection C R → Connection C R × ℕ
bg_connect connectdb status_of connect_string conn =
    let c = connectdb connect_string in (record conn { pg_conn = c }, status_of c)

module _ {C R : Type 0} (pq : Libpq C R) where
  -- The call of the callback, by the last result.
  abbrev pub answer : List R → Reply R
  answer results = elim (last_result results) [
    | none ↦ called (status fatal_error) none
    | some last ↦ called (code_of (pq.result_status last)) (some last)
  ]

  -- The loop, with a bound on its rounds.
  unfoldable pub fetch : ℕ → C → List R → (C × List R) × Stop
  fetch zero c results = ((c, results), bounded)
  fetch (suc n) c results = elim (pq.is_busy c) [
    | true ↦ ((c, results), busy)
    | false ↦
        let (got, next) = pq.get_result c in
        elim got [ none ↦ ((next, results), complete) | some r ↦ fetch n next (results ++ r ∷ []) ]
  ]

  -- Behind the loop.
  abbrev pub settle : Connection C R → (C × List R) × Stop → Connection C R × Reply R
  settle conn ((c, results), busy) = (record conn { pg_conn = c; results = results }, reading)
  settle conn ((c, results), complete) = (record conn { pg_conn = c; results = [] }, answer results)
  settle conn ((c, results), bounded) = (record conn { pg_conn = c; results = results }, polling)

  module _ (n : ℕ) where
    unfoldable pub fg_socket_rx_cb : Event → Connection C R → Connection C R × Reply R
    fg_socket_rx_cb (failed ec) conn = (conn, called (asio_error ec) none)
    fg_socket_rx_cb (readable input) conn =
        let (res, c) = pq.consume_input input conn.pg_conn in
        elim res [
          | false ↦ (record conn { pg_conn = c }, called (status fatal_error) none)
          | true ↦ settle conn (fetch n c conn.results)
        ]

    -- The events of the socket until the callback is called.
    unfoldable pub run_reads : List Event → Connection C R → Connection C R × Reply R
    run_reads [] conn = (conn, reading)
    run_reads (event ∷ events) conn =
        let (next, reply) = fg_socket_rx_cb event conn in
        elim reply [
          | reading ↦ run_reads events next
          | called ec r ↦ (next, called ec r)
          | polling ↦ (next, polling)
        ]

  unfoldable pub exec : Bytes → Connection C R → Connection C R × Reply R
  exec statement conn =
      let (sent, c) = pq.send_query statement conn.pg_conn in
      let next = record conn { pg_conn = c; current_statement = statement } in
      elim sent [ false ↦ (next, called (status fatal_error) none) | true ↦ (next, reading) ]

  -- The version that waits, with the events of the socket.
  unfoldable pub exec_sync : ℕ → Bytes → List Event → Connection C R → Connection C R × Reply R
  exec_sync n statement events conn =
      let (next, reply) = exec statement conn in
      elim reply [
        | reading ↦ run_reads n events next
        | called ec r ↦ (next, called ec r)
        | polling ↦ (next, polling)
      ]

  -- The tasks of a worker in the order in which they were pushed, each with the events of the socket
  -- meanwhile, and what their callbacks got.
  unfoldable pub executor_f :
      ℕ → List (Bytes × List Event) → Connection C R → Connection C R × List (Reply R)
  executor_f n [] conn = (conn, [])
  executor_f n ((statement, events) ∷ queue) conn =
      let (next, reply) = exec_sync n statement events conn in
      let (last, replies) = executor_f n queue next in (last, reply ∷ replies)
