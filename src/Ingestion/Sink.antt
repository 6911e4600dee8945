-- ===== src/Ingestion/Sink.antt =====
-- bb_kafka_sink.h as the calls see it: `push_back`, `topic`, `client_id` and the three counters that
-- the calls touch. `SinkTable` is one of the factory's caches with the sinks that it points to: a
-- `shared_ptr` is a handle, so that a cache and the calls share one sink.
pub mod Updates
use bb_monitor.Base.{
  ℕ, suc, ◌+◌, List, [], ◌∷◌, ◌++◌, Bytes, ℤ, pos, negsuc, zero, Option, none, some, nat_key,
  bytes_key,
}
use bb_monitor.Base.Maps.{lookup, assign}

pub record KRecord (V : Type 0) : Type 0 where
  pub key : Bytes
  pub value : V
  pub event_time : ℤ

pub record Sink (V : Type 0) : Type 0 where
  pub topic : Bytes
  pub customer_id : ℤ
  pub labels : List (Bytes × Bytes)
  pub queue : List (KRecord V)
  pub active_session_count : ℤ
  pub total_session_count : ℕ
  pub timeout_count : ℕ

pub record SinkTable (V : Type 0) : Type 0 where
  pub cache : List (Bytes × ℕ)
  pub sinks : List (ℕ × Sink V)
  pub next : ℕ

-- `metric_gauge::incr(1.0)` and `decr(1.0)`.
abbrev pub incr : ℤ → ℤ
incr (pos n) = pos (suc n)
incr (negsuc zero) = pos 0
incr (negsuc (suc n)) = negsuc n

abbrev pub decr : ℤ → ℤ
decr (pos zero) = negsuc 0
decr (pos (suc n)) = pos n
decr (negsuc n) = negsuc (suc n)

module _ {V : Type 0} where
  abbrev pub new_sink : Bytes → ℤ → List (Bytes × Bytes) → Sink V
  new_sink topic customer_id labels = record {
    topic = topic;
    customer_id = customer_id;
    labels = labels;
    queue = [];
    active_session_count = pos 0;
    total_session_count = 0;
    timeout_count = 0;
  }

  abbrev pub push_back : Bytes → V → ℤ → Sink V → Sink V
  push_back key value ts s = record s {
    queue = s.queue ++ record { key = key; value = value; event_time = ts } ∷ [];
  }

  -- What the calls do to the counters: a streaming session begins and ends, a single call is counted.
  abbrev pub begin_session : Sink V → Sink V
  begin_session s = record s {
    active_session_count = incr s.active_session_count;
    total_session_count = suc s.total_session_count;
  }

  abbrev pub end_session : Sink V → Sink V
  end_session s = record s { active_session_count = decr s.active_session_count }

  abbrev pub count_session : Sink V → Sink V
  count_session s = record s { total_session_count = suc s.total_session_count }

  -- A change through a pointer to the sink.
  unfoldable pub on_sink : ℕ → (Sink V → Sink V) → SinkTable V → SinkTable V
  on_sink h f t = elim (lookup h t.sinks) [
    | none ↦ t
    | some s ↦ record t { sinks = assign h (f s) t.sinks }
  ]

  -- `make_shared<bb_kafka_sink>` and the entry of the cache.
  unfoldable pub open_sink : Bytes → ℤ → List (Bytes × Bytes) → SinkTable V → SinkTable V
  open_sink topic customer_id labels t = record {
    cache = assign topic t.next t.cache;
    sinks = assign t.next (new_sink topic customer_id labels) t.sinks;
    next = suc t.next;
  }
