-- ===== src/Avro/Metrics.antt =====
-- The records of libraries/bb_monitor_utils/avro/bb_avro_metrics.h, written and read again.
use bb_monitor.Base.{
  ℕ, zero, suc, ◌≡◌, refl, sym, ap, ◌∙◌, true, ◌&&◌, some, List, [], ◌∷◌, ◌++◌, Bytes, append-nil,
  arith, if◌then◌else◌,
}
use bb_monitor.Messages.{AvroValue, null, long, double, position, AvroMetric}
use bb_monitor.Avro.{
  Primitives, Decoder, plain, resolving, bind, field, encode_label, encode_value,
  decode_metric_field, decode_metric, encode_metric,
}
use bb_monitor.Avro.Orders.{names, in_order, set_all, decode_order-in_order, in_turn-in_order}
use bb_monitor.Avro.RoundTrip.{
  is_int64, IsCodec, is_int64_value, all_named, is_complete, written_value, written_labels,
  decode_value-written, decode_labels-written,
}

abbrev set_metric : {D : Type 0} → AvroMetric D → ℕ → AvroMetric D → AvroMetric D
set_metric m zero v = record v { ns = m.ns }
set_metric m (suc zero) v = record v { name = m.name }
set_metric m (suc (suc zero)) v = record v { labels = m.labels }
set_metric m (suc (suc (suc zero))) v = record v { value = m.value }
set_metric m (suc (suc (suc (suc zero)))) v = record v { timestamp = m.timestamp }
set_metric m (suc (suc (suc (suc (suc n))))) v = v

set_all-metric :
    {D : Type 0} (m : AvroMetric D) (fo : List ℕ) (v : AvroMetric D)
    → set_all (set_metric m) fo v ≡ record {
      ns = if names fo 0 then m.ns else v.ns;
      name = if names fo 1 then m.name else v.name;
      labels = if names fo 2 then m.labels else v.labels;
      value = if names fo 3 then m.value else v.value;
      timestamp = if names fo 4 then m.timestamp else v.timestamp;
    }
set_all-metric m [] v = refl
set_all-metric m (zero ∷ fo) v = ground (arith, set_all-metric m fo (set_metric m 0 v))
set_all-metric m (suc zero ∷ fo) v = ground (arith, set_all-metric m fo (set_metric m 1 v))
set_all-metric m (suc (suc zero) ∷ fo) v = ground (arith, set_all-metric m fo (set_metric m 2 v))
set_all-metric m (suc (suc (suc zero)) ∷ fo) v =
    ground (arith, set_all-metric m fo (set_metric m 3 v))
set_all-metric m (suc (suc (suc (suc zero))) ∷ fo) v =
    ground (arith, set_all-metric m fo (set_metric m 4 v))
set_all-metric m (suc (suc (suc (suc (suc n)))) ∷ fo) v = ground (arith, set_all-metric m fo v)

set_all-all_named :
    {D : Type 0} (m : AvroMetric D) (fo : List ℕ) (v : AvroMetric D)
    → all_named 5 fo ≡ true
    → set_all (set_metric m) fo v ≡ m
set_all-all_named m fo v h = ground (arith, h, set_all-metric m fo v)

-- The order of the declaration.
abbrev declared : List ℕ
declared = 0 ∷ 1 ∷ 2 ∷ 3 ∷ 4 ∷ []

module _ {D : Type 0} (p : Primitives D) where
  abbrev pub metric_encoding : Decoder → AvroMetric D → ℕ → Bytes
  metric_encoding decoder m zero = p.encode_string m.ns
  metric_encoding decoder m (suc zero) = p.encode_string m.name
  metric_encoding decoder m (suc (suc zero)) = written_labels p decoder m.labels
  metric_encoding decoder m (suc (suc (suc zero))) = written_value p decoder m.value
  metric_encoding decoder m (suc (suc (suc (suc zero)))) = p.encode_long m.timestamp
  metric_encoding decoder m (suc (suc (suc (suc (suc n))))) = []

  -- What a writer with the orders of the decoder writes.
  abbrev pub written_metric : Decoder → AvroMetric D → Bytes
  written_metric plain m =
      p.encode_string m.ns
      ++ (p.encode_string m.name
          ++ (written_labels p plain m.labels
              ++ (written_value p plain m.value ++ p.encode_long m.timestamp)))
  written_metric (resolving fo) m = in_order (metric_encoding (resolving fo) m) fo.record_order

  written_metric-in_order :
      (m : AvroMetric D) → written_metric plain m ≡ in_order (metric_encoding plain m) declared
  written_metric-in_order m =
      ap
        (λ d.
          p.encode_string m.ns
          ++ (p.encode_string m.name
              ++ (written_labels p plain m.labels ++ (written_value p plain m.value ++ d))))
        (sym (append-nil (p.encode_long m.timestamp)))

  encode_value-written : (x : AvroValue D) → encode_value p x ≡ some (written_value p plain x)
  unfolding encode_value
  encode_value-written null = refl
  encode_value-written (long n) = refl
  encode_value-written (double x) = refl
  encode_value-written (position lat lon) = refl

  -- `encode` of a metric throws for no metric: each getter is called at its own index. It writes what
  -- a decoder that does not resolve reads, the fields in the order of the declaration.
  pub encode_metric-written : (m : AvroMetric D) → encode_metric p m ≡ some (written_metric plain m)
  unfolding encode_metric
  encode_metric-written m =
      ap
        (λ r. bind r (λ value. some (
          p.encode_string m.ns
          ++ (p.encode_string m.name
              ++ (p.encode_array (encode_label p) m.labels
                  ++ (value ++ p.encode_long m.timestamp))))))
        (encode_value-written m.value)

module _ {D : Type 0} {p : Primitives D} (c : IsCodec p) (nought : D) where
  decode_metric_field-encoding :
      (decoder : Decoder) (m : AvroMetric D)
      → is_complete 5 decoder ≡ true
      → (is_int64_value m.value && is_int64 m.timestamp) ≡ true
      → (i : ℕ) (rest : Bytes) (v : AvroMetric D)
      → decode_metric_field p nought decoder i (metric_encoding p decoder m i ++ rest) v
        ≡ some (set_metric m i v, rest)
  decode_metric_field-encoding decoder m h k zero rest v =
      ap (λ r. field r (λ s. record v { ns = s })) (c.string_read m.ns rest)
  decode_metric_field-encoding decoder m h k (suc zero) rest v =
      ap (λ r. field r (λ s. record v { name = s })) (c.string_read m.name rest)
  decode_metric_field-encoding decoder m h k (suc (suc zero)) rest v =
      ap (λ r. field r (λ ls. record v { labels = ls }))
        (decode_labels-written c nought 5 decoder m.labels rest h)
  decode_metric_field-encoding decoder m h k (suc (suc (suc zero))) rest v =
      ap (λ r. field r (λ x. record v { value = x }))
        (decode_value-written c nought 5 decoder m.value rest h (ground (arith, k)))
  decode_metric_field-encoding decoder m h k (suc (suc (suc (suc zero)))) rest v =
      ap (λ r. field r (λ n. record v { timestamp = n }))
        (c.long_read m.timestamp rest (ground (arith, k)))
  decode_metric_field-encoding decoder m h k (suc (suc (suc (suc (suc i))))) rest v = refl

  -- Whatever the record held before, `decode` makes a metric of the bytes that a writer put in front of
  -- other input, and leaves the other input: those of `encode`, for a decoder that does not resolve, or
  -- the fields in the order that a resolving decoder names, where each order names all fields of its
  -- record. The timestamp, and the value where it is a long, fit in 64 bits.
  pub decode_metric-written :
      (decoder : Decoder) (m : AvroMetric D) (rest : Bytes) (v : AvroMetric D)
      → is_complete 5 decoder ≡ true
      → (is_int64_value m.value && is_int64 m.timestamp) ≡ true
      → decode_metric p nought decoder (written_metric p decoder m ++ rest) v ≡ some (m, rest)
  unfolding decode_metric
  decode_metric-written plain m rest v h k =
      ap (λ d. decode_metric p nought plain (d ++ rest) v) (written_metric-in_order p m)
      ∙ in_turn-in_order (decode_metric_field p nought plain) (metric_encoding p plain m)
          (set_metric m) (decode_metric_field-encoding plain m h k) declared rest v
      ∙ ap (λ r. some (r, rest)) (set_all-all_named m declared v refl)
  decode_metric-written (resolving fo) m rest v h k =
      decode_order-in_order (decode_metric_field p nought (resolving fo))
        (metric_encoding p (resolving fo) m) (set_metric m)
        (decode_metric_field-encoding (resolving fo) m h k) fo.record_order rest v
      ∙ ap (λ r. some (r, rest)) (set_all-all_named m fo.record_order v (ground (arith, h)))
