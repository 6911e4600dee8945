-- ===== src/RemoteWrite/Drained.antt =====
-- The sink of prometheus_sink2.cpp gets rid of all events, though the server fails to answer many times.
use bb_monitor.Base.{
  ℕ, zero, suc, ℤ, ◌*◌, ◌≤◌, ◌≡◌, refl, sym, ap, ◌∙◌, Bool, true, false, Option, none, some, List,
  [], ◌∷◌, ◌++◌, length, take, drop, is_empty, arith, append_assoc, append-nil, if◌then◌else◌, ◌⊎◌,
  inl, inr, Bool-cases, length-drop,
}
use mathlib.Core.Path.{subst}
use bb_monitor.RemoteWrite.{
  http_timeout, http_error, http_ok, Exporter, RemoteSink, Step, push, process, turn, answer,
  Ledger, empty_sink, empty_ledger, take_turn, step, run, eof,
}
use bb_monitor.RemoteWrite.Batch.{all_series, take_turn-batch}
use bb_monitor.RemoteWrite.Conserved.{processed-answered, run-avro_conserved}
use bb_monitor.RemoteWrite.Series.{avro_exporter}
use bb_monitor.Messages.{AvroMetric}

-- A turn, a number of timeouts, and an answer, with ok or with an error.
pub record Round : Type 0 where
  pub now : ℕ
  pub timeouts : ℕ
  pub is_fine : Bool

module _ {E : Type 0} where
  abbrev pub answers : ℕ → Bool → List (Step E)
  answers zero is_fine = answer (if is_fine then http_ok else http_error) ∷ []
  answers (suc k) is_fine = answer http_timeout ∷ answers k is_fine

  abbrev pub rounds_of : List Round → List (Step E)
  rounds_of [] = []
  rounds_of (r ∷ rounds) = turn r.now ∷ (answers r.timeouts r.is_fine ++ rounds_of rounds)

  abbrev pub pushes : List E → List (Step E)
  pushes [] = []
  pushes (e ∷ es) = push e ∷ pushes es

module _ {E S : Type 0} (x : Exporter E S) (batch_size : ℕ) where
  nil_of-length : (es : List E) → length es ≤ 0 → es ≡ []
  nil_of-length [] h = refl
  nil_of-length (e ∷ es) h = absurd (omega (arith, h))

  run-append :
      (xs ys : List (Step E)) (p : RemoteSink E S × Ledger E S)
      → run x batch_size (xs ++ ys) p ≡ run x batch_size ys (run x batch_size xs p)
  run-append [] ys p = refl
  run-append (a ∷ xs) ys p = run-append xs ys (step x batch_size a p)

  abbrev IsIdle : RemoteSink E S → Type 0
  IsIdle s = (s.request ≡ none) × (s.in_batch ≡ [])

  run-answers-IsIdle :
      (k : ℕ) (is_fine : Bool) (s : RemoteSink E S) (l : Ledger E S)
      → IsIdle s
      → let t = (run x batch_size (answers k is_fine) (s, l)).0 in IsIdle t × (t.queue ≡ s.queue)
  run-answers-IsIdle zero true s l h = ground (arith, h)
  run-answers-IsIdle zero false s l h = ground (arith, h)
  run-answers-IsIdle (suc k) is_fine s l h =
      let (s1, l1) = step x batch_size (answer http_timeout) (s, l) in
      ground (arith, h, run-answers-IsIdle k is_fine s1 l1)

  run-answers :
      (k : ℕ) (is_fine : Bool) (s : RemoteSink E S) (l : Ledger E S) (prequest : List S)
      → s.request ≡ some prequest
      → let t = (run x batch_size (answers k is_fine) (s, l)).0 in IsIdle t × (t.queue ≡ s.queue)
  run-answers zero true s l r h = ground (arith, h)
  run-answers zero false s l r h = ground (arith, h)
  run-answers (suc k) is_fine s l r h =
      let (s1, l1) = step x batch_size (answer http_timeout) (s, l) in
      ground (arith, h, run-answers k is_fine s1 l1 r (ground (arith, h)))

  module _ (all_kept : (e : E) → x.is_kept e ≡ true) (lazy : x.sends_empty ≡ false) where
    take_turn-next :
        (now : ℕ) (s : RemoteSink E S)
        → IsIdle s
        → let t = take_turn x batch_size now s in
          (t.queue ≡ drop batch_size s.queue) × (IsIdle t ⊎ ((r : List S) × (t.request ≡ some r)))
    take_turn-next now s (idle, no_batch) =
        let next = take_turn-batch x all_kept lazy batch_size now s idle no_batch in
        elim (Bool-cases (is_empty (all_series x now (take batch_size s.queue)))) [
          | inl e ↦ (ground (arith, next, e), inl (ground (arith, next, e, idle, no_batch)))
          | inr e ↦ (
            ground (arith, next, e),
            inr (all_series x now (take batch_size s.queue), ground (arith, next, e)),
          )
        ]

    run-round :
        (r : Round) (s : RemoteSink E S) (l : Ledger E S)
        → IsIdle s
        → let t = (run x batch_size (turn r.now ∷ answers r.timeouts r.is_fine) (s, l)).0 in
          IsIdle t × (t.queue ≡ drop batch_size s.queue)
    run-round r s l idle =
        let s1 = take_turn x batch_size r.now s in
        let (left, next) = take_turn-next r.now s idle in
        elim next [
          | inl idle1 ↦
              let (idle2, same) = run-answers-IsIdle r.timeouts r.is_fine s1 l idle1 in
              (idle2, same ∙ left)
          | inr (prequest, e) ↦
              let (idle2, same) = run-answers r.timeouts r.is_fine s1 l prequest e in
              (idle2, same ∙ left)
        ]

    run-rounds :
        (rounds : List Round) (s : RemoteSink E S) (l : Ledger E S)
        → IsIdle s
        → length s.queue ≤ length rounds * batch_size
        → let t = (run x batch_size (rounds_of rounds) (s, l)).0 in IsIdle t × (t.queue ≡ [])
    run-rounds [] s l idle enough = (idle, nil_of-length s.queue (omega (arith, enough)))
    run-rounds (r ∷ rounds) s l idle enough =
        let p = run x batch_size (turn r.now ∷ answers r.timeouts r.is_fine) (s, l) in
        let (idle1, left) = run-round r s l idle in
        let left_length = ap length left in
        subst (λ t. IsIdle t.0 × (t.0.queue ≡ []))
          (sym (run-append (turn r.now ∷ answers r.timeouts r.is_fine) (rounds_of rounds) (s, l)))
          (run-rounds rounds p.0 p.1 idle1
            (omega (arith, enough, left_length, length-drop batch_size s.queue)))

  pushed-answers :
      (k : ℕ) (is_fine : Bool) (p : RemoteSink E S × Ledger E S)
      → (run x batch_size (answers k is_fine) p).1.pushed ≡ p.1.pushed
  pushed-answers zero true (s, l) = (processed-answered x batch_size http_ok s.request l).1
  pushed-answers zero false (s, l) = (processed-answered x batch_size http_error s.request l).1
  pushed-answers (suc k) is_fine (s, l) =
      pushed-answers k is_fine (step x batch_size (answer http_timeout) (s, l))

  pushed-rounds :
      (rounds : List Round) (p : RemoteSink E S × Ledger E S)
      → (run x batch_size (rounds_of rounds) p).1.pushed ≡ p.1.pushed
  pushed-rounds [] p = refl
  pushed-rounds (r ∷ rounds) p =
      let round = turn r.now ∷ answers r.timeouts r.is_fine in
      ap (λ t. t.1.pushed) (run-append round (rounds_of rounds) p)
      ∙ pushed-rounds rounds (run x batch_size round p)
      ∙ pushed-answers r.timeouts r.is_fine (step x batch_size (turn r.now) p)

  run-pushes :
      (es : List E) (s : RemoteSink E S) (l : Ledger E S)
      → let (t, m) = run x batch_size (pushes es) (s, l) in
        (t.queue ≡ s.queue ++ es)
        × (m.pushed ≡ l.pushed ++ es)
        × (t.request ≡ s.request)
        × (t.in_batch ≡ s.in_batch)
  run-pushes [] s l = ground (arith, append-nil s.queue, append-nil l.pushed)
  run-pushes (e ∷ es) s l =
      let (s1, l1) = step x batch_size (push e) (s, l) in
      ground (
        arith,
        run-pushes es s1 l1,
        append_assoc s.queue (e ∷ []) es,
        append_assoc l.pushed (e ∷ []) es,
      )

module _ {D : Type 0} (is_finite : D → Bool) (to_double : ℤ → D) (max_exported_age : ℤ) where
  -- Events pushed to a new sink of prometheus_sink2.cpp are all processed, in their order, once it has
  -- had as many rounds as the batches that they fill, however often the server did not answer in each,
  -- whether it took the requests or refused them, and whatever the clock read; then `eof` holds.
  pub run-drained :
      (batch_size : ℕ) (es : List (Option (AvroMetric D))) (rounds : List Round)
      → length es ≤ length rounds * batch_size
      → let (s, l) =
          run
            (avro_exporter is_finite to_double max_exported_age)
            batch_size
            (pushes es ++ (rounds_of rounds ++ process ∷ []))
            (empty_sink, empty_ledger) in
        (l.processed ≡ es) × (eof s ≡ true)
  run-drained n es rounds enough =
      let x = avro_exporter is_finite to_double max_exported_age in
      let steps = pushes es ++ (rounds_of rounds ++ process ∷ []) in
      let p = run x n (pushes es) (empty_sink, empty_ledger) in
      let q = run x n (rounds_of rounds) p in
      let (queued, pushed, no_request, no_batch) = run-pushes x n es empty_sink empty_ledger in
      let (idle, empty) =
        run-rounds x n (λ e. refl) refl rounds p.0 p.1 (no_request, no_batch)
          (omega (arith, enough, ap length queued)) in
      let split : run x n steps (empty_sink, empty_ledger) ≡ step x n process q =
        run-append x n (pushes es) (rounds_of rounds ++ process ∷ []) (empty_sink, empty_ledger)
        ∙ run-append x n (rounds_of rounds) (process ∷ []) p in
      let handled =
        subst
          (λ t.
            t.1.pushed ≡ t.1.processed ++ (t.0.pending_for_delete ++ (t.0.in_batch ++ t.0.queue)))
          split (run-avro_conserved is_finite to_double n max_exported_age steps) in
      let all_pushed = pushed-rounds x n rounds p ∙ pushed in
      subst (λ t. (t.1.processed ≡ es) × (eof t.0 ≡ true)) (sym split)
        (ground (
          arith,
          handled,
          all_pushed,
          idle,
          empty,
          append-nil (q.1.processed ++ q.0.pending_for_delete),
        ))
