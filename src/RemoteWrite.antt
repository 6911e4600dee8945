-- ===== src/RemoteWrite.antt =====
-- libraries/bb_monitor_client_utils/prometheus_sink.cpp and prometheus_sink2.cpp: a queue of metrics that a
-- thread writes in batches to a Prometheus server, again and again while the server does not answer.
-- The two differ in what they read of an event, which is an `Exporter`. The body of `_thread` is two
-- steps, before and after an answer of the server.
pub mod Series
pub mod Conserved
pub mod Batch
pub mod Drained
mod Tests
use bb_monitor.Base.{
  ℕ, zero, suc, ◌+◌, Bool, true, false, ◌&&◌, ◌||◌, not, Option, none, some, List, [], ◌∷◌, ◌++◌,
  length, ltb, is_empty, if◌then◌else◌,
}

-- An answer of the HTTP client: no transport, a status other than ok, or ok.
pub data Answer : Type 0 where
  http_timeout : Answer
  http_error : Answer
  http_ok : Answer

-- What a thread makes of an event at a reading of the clock: the time series that it adds to the
-- request, and whether the event goes into the batch. `sends_empty`: a request without series is sent
-- too; `counts`: the answers are counted.
pub record Exporter (E S : Type 0) : Type 0 where
  pub series : ℕ → E → List S
  pub is_kept : E → Bool
  pub sends_empty : Bool
  pub counts : Bool

-- `request` is the one that waits for an answer.
pub record RemoteSink (E S : Type 0) : Type 0 where
  pub queue : List E
  pub in_batch : List E
  pub request : Option (List S)
  pub pending_for_delete : List E
  pub http_timeouts : ℕ
  pub http_errors : ℕ
  pub http_oks : ℕ

pub data Step (E : Type 0) : Type 0 where
  push : E → Step E
  process : Step E
  turn : ℕ → Step E
  answer : Answer → Step E

-- What the steps so far have taken in and deleted, and the series of the requests that were answered
-- with ok and with an error.
pub record Ledger (E S : Type 0) : Type 0 where
  pub pushed : List E
  pub processed : List E
  pub accepted : List S
  pub refused : List S

module _ {E S : Type 0} where
  abbrev pub empty_sink : RemoteSink E S
  empty_sink = record {
    queue = [];
    in_batch = [];
    request = none;
    pending_for_delete = [];
    http_timeouts = 0;
    http_errors = 0;
    http_oks = 0;
  }

  abbrev pub empty_ledger : Ledger E S
  empty_ledger = record { pushed = []; processed = []; accepted = []; refused = [] }

  abbrev pub eof : RemoteSink E S → Bool
  eof s = is_empty s.queue && is_empty s.pending_for_delete

  -- `while (!in_batch.empty()) pending_for_delete_.push_back(in_batch.pop_front_and_get());`
  abbrev pub release : RemoteSink E S → RemoteSink E S
  release s = record s {
    in_batch = [];
    request = none;
    pending_for_delete = s.pending_for_delete ++ s.in_batch;
  }

  module _ (x : Exporter E S) (batch_size : ℕ) where
    abbrev pub put_in_batch : E → List E → List E
    put_in_batch e in_batch = if x.is_kept e then in_batch ++ e ∷ [] else in_batch

    -- The loop that fills a request: what is left of the queue, the batch, the series.
    unfoldable pub fill : ℕ → List E → List E → List S → List E × List E × List S
    fill now [] in_batch prequest = ([], in_batch, prequest)
    fill now (e ∷ q) in_batch prequest = elim (ltb (length in_batch) batch_size) [
      | true ↦ fill now q (put_in_batch e in_batch) (prequest ++ x.series now e)
      | false ↦ (e ∷ q, in_batch, prequest)
    ]

    abbrev pub send : List S → RemoteSink E S → RemoteSink E S
    send prequest s =
        if x.sends_empty || not (is_empty prequest)
        then record s { request = some prequest }
        else release s

    -- From the test of the queue up to the first call of the server.
    abbrev pub take_turn : ℕ → RemoteSink E S → RemoteSink E S
    take_turn now s = elim s.request [
      | some prequest ↦ s
      | none ↦ elim s.queue [
        | [] ↦ s
        | e ∷ q ↦
            let (left, in_batch, prequest) = fill now (e ∷ q) s.in_batch [] in
            send prequest (record s { queue = left; in_batch = in_batch })
      ]
    ]

    abbrev pub tally : Answer → RemoteSink E S → RemoteSink E S
    tally http_timeout s = record s { http_timeouts = s.http_timeouts + 1 }
    tally http_error s = record s { http_errors = s.http_errors + 1 }
    tally http_ok s = record s { http_oks = s.http_oks + 1 }

    abbrev pub settle : Answer → RemoteSink E S → RemoteSink E S
    settle http_timeout s = s
    settle http_error s = release s
    settle http_ok s = release s

    -- The body of the loop around `perform`, behind the call.
    abbrev pub on_answer : Answer → RemoteSink E S → RemoteSink E S
    on_answer a s = elim s.request [
      | none ↦ s
      | some prequest ↦ settle a (if x.counts then tally a s else s)
    ]

    abbrev pub answered : Answer → Option (List S) → Ledger E S → Ledger E S
    answered http_timeout r l = l
    answered http_error none l = l
    answered http_error (some prequest) l = record l { refused = l.refused ++ prequest }
    answered http_ok none l = l
    answered http_ok (some prequest) l = record l { accepted = l.accepted ++ prequest }

    abbrev pub step : Step E → RemoteSink E S × Ledger E S → RemoteSink E S × Ledger E S
    step (push e) (s, l) =
        (record s { queue = s.queue ++ e ∷ [] }, record l { pushed = l.pushed ++ e ∷ [] })
    step process (s, l) = (
      record s { pending_for_delete = [] },
      record l { processed = l.processed ++ s.pending_for_delete },
    )
    step (turn now) (s, l) = (take_turn now s, l)
    step (answer a) (s, l) = (on_answer a s, answered a s.request l)

    abbrev pub run : List (Step E) → RemoteSink E S × Ledger E S → RemoteSink E S × Ledger E S
    run [] s = s
    run (a ∷ steps) s = run steps (step a s)
