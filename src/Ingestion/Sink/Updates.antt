-- ===== src/Ingestion/Sink/Updates.antt =====
-- Changes through a pointer to a sink (bb_kafka_sink.h): they compose, and reach one sink only.
use bb_monitor.Base.{
  ℕ, ◌≡◌, ap, ◌∙◌, List, [], ◌++◌, none, some, nat_key, arith, inl, inr, ◌==◌, if◌then◌else◌,
  Option-cases, append-nil, append_assoc,
}
use mathlib.Core.Path.{fun_ext}
use bb_monitor.Base.Maps.{lookup, lookup-assign, lookup-assign_self, assign-assign, assign-lookup}
use bb_monitor.Ingestion.Sink.{Sink, SinkTable, KRecord, on_sink}

module _ {V : Type 0} where
  pub lookup-on_sink :
      (j h : ℕ) (f : Sink V → Sink V) (t : SinkTable V)
      → lookup j (on_sink h f t).sinks ≡ (
          if h == j
          then elim (lookup j t.sinks) [ none ↦ none | some s ↦ some (f s) ]
          else lookup j t.sinks)
  unfolding on_sink
  lookup-on_sink j h f t = elim (Option-cases (lookup h t.sinks)) [
    | inl e ↦ ground (arith, e)
    | inr (s, e) ↦ ground (arith, e, lookup-assign j h (f s) t.sinks)
  ]

  pub on_sink-on_sink :
      (h : ℕ) (f g : Sink V → Sink V) (t : SinkTable V)
      → on_sink h f (on_sink h g t) ≡ on_sink h (λ s. f (g s)) t
  unfolding on_sink
  on_sink-on_sink h f g t = elim (Option-cases (lookup h t.sinks)) [
    | inl e ↦ ground (arith, e)
    | inr (s, e) ↦
        ground
          (arith, e, lookup-assign_self h (g s) t.sinks, assign-assign h (f (g s)) (g s) t.sinks)
  ]

  pub on_sink-unchanged :
      (h : ℕ) (f : Sink V → Sink V) (t : SinkTable V) → ((s : Sink V) → f s ≡ s) → on_sink h f t ≡ t
  unfolding on_sink
  on_sink-unchanged h f t same = elim (Option-cases (lookup h t.sinks)) [
    | inl e ↦ ground (arith, e)
    | inr (s, e) ↦ ground (arith, e, same s, assign-lookup h s t.sinks)
  ]

  -- The records at the end of the queue.
  abbrev pub append_all : List (KRecord V) → Sink V → Sink V
  append_all rs s = record s { queue = s.queue ++ rs }

  pub on_sink-append_nil : (h : ℕ) (t : SinkTable V) → on_sink h (append_all []) t ≡ t
  on_sink-append_nil h t =
      on_sink-unchanged h (append_all []) t (λ s. ground (arith, append-nil s.queue))

  pub on_sink-append_all :
      (h : ℕ) (qs rs : List (KRecord V)) (t : SinkTable V)
      → on_sink h (append_all rs) (on_sink h (append_all qs) t)
        ≡ on_sink h (append_all (qs ++ rs)) t
  on_sink-append_all h qs rs t =
      on_sink-on_sink h (append_all rs) (append_all qs) t
      ∙ ap (λ f. on_sink h f t)
          (fun_ext (λ s. ap (λ q. record s { queue = q }) (append_assoc s.queue qs rs)))
