-- ===== src/RemoteWrite/Batch.antt =====
-- Which events a request of prometheus_sink2.cpp holds.
use bb_monitor.Base.{
  ℕ, zero, suc, ℤ, ◌+◌, ◌≡◌, refl, Bool, true, false, Option, none, some, List, [], ◌∷◌, ◌++◌,
  length, take, drop, length-append, is_empty, arith, append_assoc, append-nil, if◌then◌else◌,
}
use bb_monitor.RemoteWrite.{Exporter, RemoteSink, fill, take_turn}
use bb_monitor.RemoteWrite.Series.{TimeSeries, avro_exporter}
use bb_monitor.Messages.{AvroMetric}

module _ {E S : Type 0} (x : Exporter E S) where
  abbrev pub all_series : ℕ → List E → List S
  all_series now [] = []
  all_series now (e ∷ es) = x.series now e ++ all_series now es

  fill-take :
      (all_kept : (e : E) → x.is_kept e ≡ true) (batch_size now k : ℕ) (q in_batch : List E)
      (prequest : List S)
      → length in_batch + k ≡ batch_size
      → fill x batch_size now q in_batch prequest
        ≡ (drop k q, in_batch ++ take k q, prequest ++ all_series now (take k q))
  unfolding fill
  fill-take all_kept n now zero [] b pr h = ground (arith, append-nil b, append-nil pr)
  fill-take all_kept n now (suc k) [] b pr h = ground (arith, append-nil b, append-nil pr)
  fill-take all_kept n now zero (e ∷ q) b pr h = ground (arith, h, append-nil b, append-nil pr)
  fill-take all_kept n now (suc k) (e ∷ q) b pr h = ground (
    arith,
    h,
    all_kept e,
    length-append b (e ∷ []),
    fill-take all_kept n now k q (b ++ e ∷ []) (pr ++ x.series now e)
        (omega (arith, h, length-append b (e ∷ []))),
    append_assoc b (e ∷ []) (take k q),
    append_assoc pr (x.series now e) (all_series now (take k q)),
  )

  take-nil : (n : ℕ) → (take {A = E} n [] ≡ []) × (drop {A = E} n [] ≡ [])
  take-nil zero = (refl, refl)
  take-nil (suc n) = (refl, refl)

  -- A turn of a sink that is idle.
  abbrev pub take_batch : ℕ → ℕ → RemoteSink E S → RemoteSink E S
  take_batch batch_size now s =
      let prequest = all_series now (take batch_size s.queue) in
      if is_empty prequest
      then record s {
        queue = drop batch_size s.queue;
        pending_for_delete = s.pending_for_delete ++ take batch_size s.queue;
      }
      else record s {
        queue = drop batch_size s.queue;
        in_batch = take batch_size s.queue;
        request = some prequest;
      }

  pub take_turn-batch :
      (all_kept : (e : E) → x.is_kept e ≡ true) (lazy : x.sends_empty ≡ false) (n now : ℕ)
      (s : RemoteSink E S)
      → s.request ≡ none
      → s.in_batch ≡ []
      → take_turn x n now s ≡ take_batch n now s
  take_turn-batch all_kept lazy n now s idle no_batch = ground (
    arith,
    lazy,
    idle,
    no_batch,
    take-nil n,
    fill-take all_kept n now n s.queue [] [] (omega arith),
    append-nil s.pending_for_delete,
  )

module _ {D : Type 0} (is_finite : D → Bool) (to_double : ℤ → D) (max_exported_age : ℤ) where
  -- A turn of an idle sink of prometheus_sink2.cpp takes the first events of the queue, as many as the
  -- batch size, and leaves the others. The request holds the series of exactly these events, in order:
  -- those with a finite value that are not too old. Without any the events are released at once.
  pub take_turn-take :
      (batch_size now : ℕ) (s : RemoteSink (Option (AvroMetric D)) (TimeSeries D))
      → s.request ≡ none
      → s.in_batch ≡ []
      → take_turn (avro_exporter is_finite to_double max_exported_age) batch_size now s
        ≡ take_batch (avro_exporter is_finite to_double max_exported_age) batch_size now s
  take_turn-take n now s idle no_batch =
      take_turn-batch (avro_exporter is_finite to_double max_exported_age) (λ e. refl) refl n now s
        idle no_batch
