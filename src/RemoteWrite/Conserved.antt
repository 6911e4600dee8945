-- ===== src/RemoteWrite/Conserved.antt =====
-- No event of the sinks of prometheus_sink.cpp and prometheus_sink2.cpp is lost or handled twice.
use bb_monitor.Base.{
  ℕ, ℤ, ◌≡◌, refl, sym, ap, ◌∙◌, Bool, true, Option, none, some, List, [], ◌∷◌, ◌++◌, arith,
  append_assoc, if◌then◌else◌,
}
use bb_monitor.RemoteWrite.{
  Answer, http_timeout, http_error, http_ok, Exporter, RemoteSink, Step, push, process, turn,
  answer, Ledger, empty_sink, empty_ledger, release, fill, put_in_batch, take_turn, on_answer,
  answered, step, run,
}
use bb_monitor.RemoteWrite.Series.{GenericMetric, avro_exporter, generic_exporter, generic_event}
use bb_monitor.Messages.{AvroMetric}

abbrev pub kept : {E : Type 0} → (E → Bool) → List E → List E
kept p [] = []
kept p (e ∷ es) = if p e then e ∷ kept p es else kept p es

kept-append :
    {E : Type 0} (p : E → Bool) (es fs : List E) → kept p (es ++ fs) ≡ kept p es ++ kept p fs
kept-append p [] fs = refl
kept-append p (e ∷ es) fs = ground (arith, kept-append p es fs)

kept_all : {E : Type 0} (es : List E) → kept (λ e. true) es ≡ es
kept_all [] = refl
kept_all (e ∷ es) = ap (λ l. e ∷ l) (kept_all es)

module _ {E S : Type 0} (x : Exporter E S) (batch_size : ℕ) where
  -- The events of the sink that are in a batch or go into one, in the order in which they were pushed.
  abbrev held : RemoteSink E S → List E
  held s = s.pending_for_delete ++ (s.in_batch ++ kept x.is_kept s.queue)

  fill-kept :
      (now : ℕ) (q in_batch : List E) (prequest : List S)
      → (fill x batch_size now q in_batch prequest).1
          ++ kept x.is_kept (fill x batch_size now q in_batch prequest).0
        ≡ in_batch ++ kept x.is_kept q
  unfolding fill
  fill-kept now [] in_batch prequest = refl
  fill-kept now (e ∷ q) in_batch prequest = ground (
    arith,
    fill-kept now q (put_in_batch x batch_size e in_batch) (prequest ++ x.series now e),
    append_assoc in_batch (e ∷ []) (kept x.is_kept q),
  )

  held-release : (s : RemoteSink E S) → held (release s) ≡ held s
  held-release s = append_assoc s.pending_for_delete s.in_batch (kept x.is_kept s.queue)

  held-take_turn : (now : ℕ) (s : RemoteSink E S) → held (take_turn x batch_size now s) ≡ held s
  held-take_turn now s =
      let (left, in_batch, prequest) = fill x batch_size now s.queue s.in_batch [] in
      ground (
        arith,
        fill-kept now s.queue s.in_batch [],
        append_assoc s.pending_for_delete in_batch (kept x.is_kept left),
      )

  held-on_answer : (a : Answer) (s : RemoteSink E S) → held (on_answer x batch_size a s) ≡ held s
  held-on_answer http_timeout s = ground arith
  held-on_answer http_error s = ground (arith, held-release s)
  held-on_answer http_ok s = ground (arith, held-release s)

  pub processed-answered :
      (a : Answer) (r : Option (List S)) (l : Ledger E S)
      → ((answered x batch_size a r l).processed ≡ l.processed)
        × ((answered x batch_size a r l).pushed ≡ l.pushed)
  processed-answered http_timeout r l = (refl, refl)
  processed-answered http_error none l = (refl, refl)
  processed-answered http_error (some r) l = (refl, refl)
  processed-answered http_ok none l = (refl, refl)
  processed-answered http_ok (some r) l = (refl, refl)

  abbrev IsConserved : RemoteSink E S × Ledger E S → Type 0
  IsConserved (s, l) = kept x.is_kept l.pushed ≡ l.processed ++ held s

  step-IsConserved :
      (a : Step E) (p : RemoteSink E S × Ledger E S)
      → IsConserved p
      → IsConserved (step x batch_size a p)
  step-IsConserved (push e) (s, l) h = ground (
    arith,
    h,
    kept-append x.is_kept l.pushed (e ∷ []),
    kept-append x.is_kept s.queue (e ∷ []),
    append_assoc l.processed (held s) (kept x.is_kept (e ∷ [])),
    append_assoc s.pending_for_delete (s.in_batch ++ kept x.is_kept s.queue)
        (kept x.is_kept (e ∷ [])),
    append_assoc s.in_batch (kept x.is_kept s.queue) (kept x.is_kept (e ∷ [])),
  )
  step-IsConserved process (s, l) h =
      h ∙ sym (append_assoc l.processed s.pending_for_delete (s.in_batch ++ kept x.is_kept s.queue))
  step-IsConserved (turn now) (s, l) h =
      h ∙ ap (λ es. l.processed ++ es) (sym (held-take_turn now s))
  step-IsConserved (answer a) (s, l) h =
      ground (arith, h, processed-answered a s.request l, held-on_answer a s)

  run-IsConserved :
      (steps : List (Step E)) (p : RemoteSink E S × Ledger E S)
      → IsConserved p
      → IsConserved (run x batch_size steps p)
  run-IsConserved [] p h = h
  run-IsConserved (a ∷ steps) p h =
      run-IsConserved steps (step x batch_size a p) (step-IsConserved a p h)

module _ {D : Type 0} (is_finite : D → Bool) (to_double : ℤ → D) (batch_size : ℕ) where
  -- Whatever the steps, with timeouts and refused requests, the events pushed to the sink of
  -- prometheus_sink2.cpp are, in their order, those processed, those pending for delete, those of the
  -- batch and those still queued: none is lost, doubled or overtaken.
  pub run-avro_conserved :
      (max_exported_age : ℤ) (steps : List (Step (Option (AvroMetric D))))
      → let (s, l) =
          run
            (avro_exporter is_finite to_double max_exported_age)
            batch_size
            steps
            (empty_sink, empty_ledger) in
        l.pushed ≡ l.processed ++ (s.pending_for_delete ++ (s.in_batch ++ s.queue))
  run-avro_conserved max_exported_age steps =
      let x = avro_exporter is_finite to_double max_exported_age in
      let (s, l) = run x batch_size steps (empty_sink, empty_ledger) in
      sym (kept_all l.pushed)
      ∙ run-IsConserved x batch_size steps (empty_sink, empty_ledger) refl
      ∙ ap (λ q. l.processed ++ (s.pending_for_delete ++ (s.in_batch ++ q))) (kept_all s.queue)

  -- The sink of prometheus_sink.cpp keeps the order too, but only of the events that its `try`
  -- block gets through: an event without a value, or whose reading throws, leaves the queue and is
  -- never pending for delete nor processed.
  pub run-generic_conserved :
      (steps : List (Step (Option (GenericMetric D))))
      → let (s, l) =
          run (generic_exporter is_finite to_double) batch_size steps (empty_sink, empty_ledger) in
        let is_readable : Option (GenericMetric D) → Bool =
          λ e. (generic_event is_finite to_double e).1 in
        kept is_readable l.pushed
        ≡ l.processed ++ (s.pending_for_delete ++ (s.in_batch ++ kept is_readable s.queue))
  run-generic_conserved steps =
      run-IsConserved (generic_exporter is_finite to_double) batch_size steps
        (empty_sink, empty_ledger) refl
