-- ===== src/ClientSink.antt =====
-- libraries/bb_monitor_client_utils/{bb_metric_sink,bb_log_sink,bb_intake_sink}.cpp: a queue of events
-- that a thread sends in bundles. The three differ in the message type, and the metric sink purges.
-- The body of `_thread` is two steps, before and after the call to the server, because `push_back`
-- and `process` run on other threads while the call is pending.
pub mod Bundles
pub mod Conserved
pub mod Ordered
pub mod Acknowledged
pub mod Eof
mod Tests
use bb_monitor.Base.{
  ℕ, zero, suc, ◌+◌, ◌-◌, Bool, true, false, ◌&&◌, Option, none, some, List, [], ◌∷◌, ◌++◌, length,
  take, drop, ltb, if◌then◌else◌,
}

-- `bundle` is the request of the call that is pending; `none` in a queue is an event without a value.
pub record ClientSink (M : Type 0) : Type 0 where
  pub queue : List (Option M)
  pub in_rpc : List (Option M)
  pub pending_for_delete : List (Option M)
  pub bundle : Option (List M)
  pub next_retry_at : ℕ
  pub next_purge_at : ℕ

pub data Step (M : Type 0) : Type 0 where
  push : Option M → Step M
  process : Step M
  turn : (ℕ → ℕ) → Step M
  answer : Bool → ℕ → Step M

-- What the steps so far have taken in, deleted after handling, thrown away, and had acknowledged.
pub record Ledger (M : Type 0) : Type 0 where
  pub pushed : List (Option M)
  pub processed : List (Option M)
  pub purged : List (Option M)
  pub acked : List M

module _ {M : Type 0} where
  abbrev pub empty_sink : ClientSink M
  empty_sink = record {
    queue = [];
    in_rpc = [];
    pending_for_delete = [];
    bundle = none;
    next_retry_at = 0;
    next_purge_at = 0;
  }

  abbrev pub empty_ledger : Ledger M
  empty_ledger = record { pushed = []; processed = []; purged = []; acked = [] }

  abbrev pub with_value : List M → Option M → List M
  with_value b none = b
  with_value b (some m) = b ++ m ∷ []

  -- The loop that fills a bundle: from the queue, the events of the call and the bundle so far.
  abbrev pub fill :
      ℕ → List (Option M) → List (Option M) → List M → List (Option M) × List (Option M) × List M
  fill batch_size [] in_rpc b = ([], in_rpc, b)
  fill batch_size (e ∷ q) in_rpc b = elim (ltb (length b) batch_size) [
    | true ↦ fill batch_size q (in_rpc ++ e ∷ []) (with_value b e)
    | false ↦ (e ∷ q, in_rpc, b)
  ]

  -- `while (!in_rpc.empty()) _queue.push_front(in_rpc.pop_front_and_get());`
  abbrev pub requeue : List (Option M) → List (Option M) → List (Option M)
  requeue [] q = q
  requeue (e ∷ es) q = requeue es (e ∷ q)

  abbrev pub request : List M → Option (List M)
  request [] = none
  request (m ∷ ms) = some (m ∷ ms)

  abbrev pub collect : ℕ → ClientSink M → ClientSink M
  collect batch_size s =
      let (q, in_rpc, b) = fill batch_size s.queue s.in_rpc [] in
      record s { queue = q; in_rpc = in_rpc; bundle = request b; next_retry_at = 0 }

  -- The purge of the metric sink, with what it throws away.
  abbrev pub purge : ℕ → (ℕ → ℕ) → ClientSink M → List (Option M) × ClientSink M
  purge max_queue now s =
      let surplus = length s.queue - max_queue in
      if ltb s.next_purge_at (now 1)
      then (
        take surplus s.queue,
        record s { queue = drop surplus s.queue; next_purge_at = now 2 + 10000 },
      )
      else ([], s)

  -- Waiting for the next try; only the metric sink has a limit.
  abbrev pub wait : Option ℕ → (ℕ → ℕ) → ClientSink M → List (Option M) × ClientSink M
  wait none now s = ([], s)
  wait (some max_queue) now s = purge max_queue now s

  -- The loop body of `_thread` up to the call, with what is thrown away. While a call is pending the
  -- thread is inside it.
  abbrev pub take_turn : Option ℕ → ℕ → (ℕ → ℕ) → ClientSink M → List (Option M) × ClientSink M
  take_turn max_queue batch_size now s = elim s.bundle [
    | some b ↦ ([], s)
    | none ↦ elim s.queue [
      | [] ↦ ([], s)
      | e ∷ q ↦
          if ltb 0 s.next_retry_at && ltb (now 0) s.next_retry_at
          then wait max_queue now s
          else ([], collect batch_size s)
    ]
  ]

  -- The rest of the loop body, from the status of the call and the clock.
  abbrev pub on_answer : Bool → ℕ → ClientSink M → ClientSink M
  on_answer status_ok now s = elim s.bundle [
    | none ↦ s
    | some b ↦
        if status_ok
        then record s {
          bundle = none;
          in_rpc = [];
          pending_for_delete = s.pending_for_delete ++ s.in_rpc;
        }
        else record s {
          bundle = none;
          in_rpc = [];
          queue = requeue s.in_rpc s.queue;
          next_retry_at = now + 60000;
        }
  ]

  abbrev pub acked_by : Bool → Option (List M) → List M
  acked_by true (some b) = b
  acked_by true none = []
  acked_by false b = []

  unfoldable pub step : Option ℕ → ℕ → Step M → ClientSink M × Ledger M → ClientSink M × Ledger M
  step max_queue batch_size (push e) (s, l) =
      (record s { queue = s.queue ++ e ∷ [] }, record l { pushed = l.pushed ++ e ∷ [] })
  step max_queue batch_size process (s, l) = (
    record s { pending_for_delete = [] },
    record l { processed = l.processed ++ s.pending_for_delete },
  )
  step max_queue batch_size (turn now) (s, l) =
      let (lost, t) = take_turn max_queue batch_size now s in
      (t, record l { purged = l.purged ++ lost })
  step max_queue batch_size (answer status_ok now) (s, l) =
      (on_answer status_ok now s, record l { acked = l.acked ++ acked_by status_ok s.bundle })

  unfoldable pub run :
      Option ℕ → ℕ → List (Step M) → ClientSink M × Ledger M → ClientSink M × Ledger M
  run max_queue batch_size [] p = p
  run max_queue batch_size (a ∷ steps) p =
      run max_queue batch_size steps (step max_queue batch_size a p)

  abbrev pub eof : ClientSink M → Bool
  eof s = elim s.queue [
    | [] ↦ elim s.pending_for_delete [ [] ↦ true | _ ∷ _ ↦ false ]
    | _ ∷ _ ↦ false
  ]

  -- The three sinks; only the metric sink has a limit.
  abbrev pub run_metric_sink : ℕ → List (Step M) → ClientSink M × Ledger M
  run_metric_sink max_queue steps = run (some max_queue) 5000 steps (empty_sink, empty_ledger)

  abbrev pub run_log_sink : List (Step M) → ClientSink M × Ledger M
  run_log_sink steps = run none 1000 steps (empty_sink, empty_ledger)

  abbrev pub run_intake_sink : List (Step M) → ClientSink M × Ledger M
  run_intake_sink steps = run none 1000 steps (empty_sink, empty_ledger)
