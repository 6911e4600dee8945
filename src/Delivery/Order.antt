-- ===== src/Delivery/Order.antt =====
-- What reaches librdkafka from the queue of a sink (bb_kafka_sink.h, `process` and `handle_event`).
use bb_monitor.Base.{
  ℕ, suc, ◌+◌, ◌≡◌, ◌≢◌, refl, sym, ap, ◌∙◌, Option, none, some, List, [], ◌∷◌, ◌++◌, Bytes, codes,
  map, arith, ◌⊎◌, inl, inr, Option-cases, length, append_assoc, append-nil,
}
use mathlib.Core.List.{map-append}
use bb_monitor.Base.Maps.{lookup}
use bb_monitor.Ingestion.Sink.{KRecord}
use bb_monitor.Delivery.{
  Outlet, Codecs, OutletStep, push_back, process, report, new_outlet, schema_id, handle_event,
  drain, process_queue, outlet_step, run_outlet,
}
use bb_monitor.Delivery.Producer.{
  Result, done, fatal, ErrorCode, err_no_error, err_queue_full, err_other, Wire,
}
use bb_monitor.Delivery.Ownership.{IsOwned, after_answer, produce-IsOwned, dr_cb-IsOwned, owned}

code-cases : (ec : ErrorCode) → (ec ≡ err_no_error) ⊎ (ec ≢ err_no_error)
code-cases err_no_error = inl refl
code-cases err_queue_full = inr (λ e. cc e)
code-cases (err_other n) = inr (λ e. cc e)

after_answer_failed :
    (ec : ErrorCode) (taken : List Wire) (w : Wire)
    → ec ≢ err_no_error
    → after_answer ec taken w ≡ taken
after_answer_failed err_no_error taken w h = absurd (h refl)
after_answer_failed err_queue_full taken w h = refl
after_answer_failed (err_other n) taken w h = refl

module _ {V : Type 0} (codecs : Codecs V) where
  -- A record as librdkafka is to get it.
  abbrev pub encode : KRecord V → Wire
  encode r = record {
    hash = codecs.partition_hash r.key;
    key = some (codecs.encode_key r.key);
    value = some (codecs.encode_value r.value);
    timestamp = r.event_time;
  }

  -- The records that the steps push.
  abbrev pub pushed_records : List (OutletStep V) → List (KRecord V)
  pushed_records [] = []
  pushed_records (push_back r ∷ steps) = r ∷ pushed_records steps
  pushed_records (process answers ∷ steps) = pushed_records steps
  pushed_records (report i failed ∷ steps) = pushed_records steps

  -- A step that returns leaves the blocks owned.
  handle_event-encode :
      (ec : ErrorCode) (r : KRecord V) (o : Outlet V)
      → IsOwned o.impl
      → (handle_event codecs ec r o ≡ fatal)
        ⊎ ((p : Outlet V) × (handle_event codecs ec r o ≡ done (ec, p))
            × IsOwned p.impl
            × (p.impl.accepted ≡ after_answer ec o.impl.accepted (encode r))
            × (p.queue ≡ o.queue))
  unfolding handle_event
  handle_event-encode ec r o v =
      let key = codecs.encode_key r.key in
      let val = codecs.encode_value r.value in
      let (q, same, owned, log) =
        produce-IsOwned key val (codecs.partition_hash r.key) (length key) (length val) r.event_time
          o.impl v ec in
      elim (schema_id-cases o.key_schema_id (o.topic ++ codes "-key")) [
        | inl e ↦ inl (ground (arith, e))
        | inr (i, e) ↦ elim (schema_id-cases o.val_schema_id (o.topic ++ codes "-value")) [
          | inl f ↦ inl (ground (arith, e, f))
          | inr (j, f) ↦ inr (
            record o { key_schema_id = some i; val_schema_id = some j; impl = q },
            ground (arith, e, f, same),
            owned,
            log,
            refl,
          )
        ]
      ]
    where
      schema_id-cases :
          (id : Option ℕ) (name : Bytes)
          → (schema_id codecs id name ≡ fatal) ⊎ ((i : ℕ) × (schema_id codecs id name ≡ done i))
      schema_id-cases none name = elim (Option-cases (codecs.register_schema name)) [
        | inl e ↦ inl (ground (arith, e))
        | inr (i, e) ↦ inr (i, ground (arith, e))
      ]
      schema_id-cases (some i) name = inr (i, refl)

  -- A run of the loop of `process`: it ends the process, or it returns, with the queue short of what
  -- it has handed over.
  abbrev pub Drained : (ℕ → ErrorCode) → List (KRecord V) → ℕ → Outlet V → Type 0
  Drained answers rs count o =
      (drain codecs answers rs count o ≡ fatal)
      ⊎ ((sent : ℕ) × (p : Outlet V) × (drain codecs answers rs count o ≡ done (count + sent, p))
          × IsOwned p.impl
          × (p.impl.accepted ++ map encode p.queue ≡ o.impl.accepted ++ map encode rs)
          × (length rs ≡ sent + length p.queue)
          × ((p.queue ≡ []) ⊎ (answers sent ≢ err_no_error)))

  pub drain-Drained :
      (answers : ℕ → ErrorCode) (rs : List (KRecord V)) (count : ℕ) (o : Outlet V)
      → o.queue ≡ rs
      → IsOwned o.impl
      → Drained answers rs count o
  unfolding drain
  drain-Drained answers [] count o e v = inr (
    0,
    o,
    ap (λ n. done (n, o)) (omega arith),
    v,
    ap (λ q. o.impl.accepted ++ map encode q) e,
    omega (arith, ap length e),
    inl e,
  )
  drain-Drained answers (r ∷ rs) count o e v = elim (handle_event-encode (answers 0) r o v) [
    | inl ended ↦ inl (ground (arith, ended))
    | inr (p, step, owned, log, kept) ↦ elim (code-cases (answers 0)) [
      | inr failed ↦ inr (
        0,
        p,
        ground (arith, step, failed),
        owned,
        ground (
          arith,
          log,
          kept,
          e,
          after_answer_failed (answers 0) o.impl.accepted (encode r) failed,
        ),
        ground (arith, kept, e),
        inr failed,
      )
      | inl fine ↦
          let next = record p { queue = rs; kafka_processed_count = suc p.kafka_processed_count } in
          elim (drain-Drained (λ i. answers (suc i)) rs (suc count) next refl owned) [
            | inl ended ↦ inl (ground (arith, step, fine, ended))
            | inr (sent, q, rest, its, log', size, stop) ↦ inr (
              suc sent,
              q,
              ground (arith, step, fine, rest),
              its,
              ground (
                arith,
                log',
                log,
                fine,
                append_assoc o.impl.accepted (encode r ∷ []) (map encode rs),
              ),
              omega (arith, size),
              stop,
            )
          ]
    ]
  ]

  -- What librdkafka has taken, and behind it what is queued.
  abbrev pub in_line : Outlet V → List Wire
  in_line o = o.impl.accepted ++ map encode o.queue

  Continues : Result (Outlet V) → List Wire → Type 0
  Continues r line =
      (r ≡ fatal) ⊎ ((p : Outlet V) × (r ≡ done p) × IsOwned p.impl × (in_line p ≡ line))

  outlet_step-Continues :
      (a : OutletStep V) (o : Outlet V)
      → IsOwned o.impl
      → Continues (outlet_step codecs a o) (in_line o ++ map encode (pushed_records (a ∷ [])))
  unfolding outlet_step process_queue Continues
  outlet_step-Continues (push_back r) o v = inr (
    record o { queue = o.queue ++ r ∷ [] },
    refl,
    v,
    ap (λ q. o.impl.accepted ++ q) (map-append encode o.queue (r ∷ []))
        ∙ sym (append_assoc o.impl.accepted (map encode o.queue) (encode r ∷ [])),
  )
  outlet_step-Continues (process answers) o v = elim (drain-Drained answers o.queue 0 o refl v) [
    | inl ended ↦ inl (ground (arith, ended))
    | inr (sent, p, same, owned, line, _, _) ↦
        inr (p, ground (arith, same), owned, line ∙ sym (append-nil (in_line o)))
  ]
  outlet_step-Continues (report i failed) o v = elim (dr_cb-IsOwned i failed o.impl v) [
    | inl ended ↦ inl (ground (arith, ended))
    | inr (q, same, owned, log) ↦ inr (
      record o { impl = q },
      ground (arith, same),
      owned,
      ap (λ l. l ++ map encode o.queue) log ∙ sym (append-nil (in_line o)),
    )
  ]

  pushed_records-cons :
      (a : OutletStep V) (steps : List (OutletStep V))
      → pushed_records (a ∷ steps) ≡ pushed_records (a ∷ []) ++ pushed_records steps
  pushed_records-cons (push_back r) steps = refl
  pushed_records-cons (process answers) steps = refl
  pushed_records-cons (report i failed) steps = refl

  run_outlet-Continues :
      (steps : List (OutletStep V)) (o : Outlet V)
      → IsOwned o.impl
      → Continues (run_outlet codecs steps o) (in_line o ++ map encode (pushed_records steps))
  unfolding run_outlet Continues
  run_outlet-Continues [] o v = inr (o, refl, v, sym (append-nil (in_line o)))
  run_outlet-Continues (a ∷ steps) o v = elim (outlet_step-Continues a o v) [
    | inl ended ↦ inl (ground (arith, ended))
    | inr (p, same, owned, line) ↦ elim (run_outlet-Continues steps p owned) [
      | inl ended ↦ inl (ground (arith, same, ended))
      | inr (q, rest, its, line') ↦ inr (
        q,
        ground (arith, same, rest),
        its,
        line'
            ∙ ap (λ l. l ++ map encode (pushed_records steps)) line
            ∙ append_assoc (in_line o) (map encode (pushed_records (a ∷ [])))
                (map encode (pushed_records steps))
            ∙ ap (λ l. in_line o ++ l)
                (sym (map-append encode (pushed_records (a ∷ [])) (pushed_records steps))
                  ∙ ap (map encode) (sym (pushed_records-cons a steps))),
      )
    ]
  ]

  new_outlet-IsOwned : (topic : Bytes) → IsOwned (new_outlet {V = V} topic).impl
  unfolding lookup
  new_outlet-IsOwned topic = record { exact = λ a. refl; fresh = λ a above. refl }

  -- Whatever the records pushed, librdkafka's answers and its delivery reports, the sink never frees
  -- a block twice or uses a freed one: it is ended by a fatal error, or it goes on, and then the
  -- allocated blocks are exactly those of the messages in flight, each held once.
  pub run_outlet-IsOwned :
      (steps : List (OutletStep V)) (topic : Bytes)
      → (run_outlet codecs steps (new_outlet topic) ≡ fatal)
        ⊎ ((o : Outlet V) × (run_outlet codecs steps (new_outlet topic) ≡ done o) × IsOwned o.impl)
  unfolding Continues
  run_outlet-IsOwned steps topic =
      elim (run_outlet-Continues steps (new_outlet topic) (new_outlet-IsOwned topic)) [
        | inl ended ↦ inl ended
        | inr (o, same, owned, line) ↦ inr (o, same, owned)
      ]

  -- If the sink goes on, librdkafka has taken the encodings of the records that were pushed, in
  -- order, and those that it has not taken are still queued behind: none is lost, repeated or
  -- overtaken, whatever errors there were.
  pub run_outlet_ordered :
      (steps : List (OutletStep V)) (topic : Bytes) (o : Outlet V)
      → run_outlet codecs steps (new_outlet topic) ≡ done o
      → o.impl.accepted ++ map encode o.queue ≡ map encode (pushed_records steps)
  unfolding Continues
  run_outlet_ordered steps topic o h =
      elim (run_outlet-Continues steps (new_outlet topic) (new_outlet-IsOwned topic)) [
        | inl ended ↦ cc (ended, h)
        | inr (p, same, owned, line) ↦
            let this : p ≡ o = ground (arith, same, h) in rw (← this) line
      ]

  -- On a sink whose blocks are those of its messages in flight, `process` ends the process, or it
  -- returns: its count is the number of records that left the
  -- queue, librdkafka has taken their encodings in order, and it stopped because the queue was empty
  -- or the answer to the next record was an error.
  pub process_queue-stops :
      (answers : ℕ → ErrorCode) (o : Outlet V)
      → IsOwned o.impl
      → (process_queue codecs answers o ≡ fatal)
        ⊎ ((sent : ℕ) × (p : Outlet V) × (process_queue codecs answers o ≡ done (sent, p))
            × (length o.queue ≡ sent + length p.queue)
            × (in_line p ≡ in_line o)
            × ((p.queue ≡ []) ⊎ (answers sent ≢ err_no_error)))
  unfolding process_queue
  process_queue-stops answers o v = elim (drain-Drained answers o.queue 0 o refl v) [
    | inl ended ↦ inl ended
    | inr (sent, p, same, owned, line, size, stop) ↦
        inr (sent, p, same ∙ ap (λ n. done (n, p)) (omega arith), size, line, stop)
  ]
