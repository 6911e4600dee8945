-- ===== src/Avro.antt =====
-- libraries/bb_monitor_utils/avro/{bb_avro_metrics,bb_avro_logline,dd_avro_intake}.h: `codec_traits` of the
-- records. The Avro library is the record `Primitives`. `Option` stands for `avro::Exception`.
pub mod Orders
pub mod Intakes
pub mod Loglines
pub mod Metrics
pub mod RoundTrip
pub mod Tests
use bb_monitor.Base.{ℕ, zero, suc, Option, none, some, List, [], ◌∷◌, ◌++◌, Bytes, ℤ, pos}
use bb_monitor.Messages.{
  Label, AvroValue, null, long, double, position, AvroMetric, AvroLogline, AvroIntake,
}

-- `encode` and `decode` of the library, for each type that the records hold. A decoder gives the value
-- and the rest of its input. An array is a `std::vector` of labels.
pub record Primitives (D : Type 0) : Type 0 where
  pub encode_string : Bytes → Bytes
  pub decode_string : Bytes → Option (Bytes × Bytes)
  pub encode_long : ℤ → Bytes
  pub decode_long : Bytes → Option (ℤ × Bytes)
  pub encode_double : D → Bytes
  pub decode_double : Bytes → Option (D × Bytes)
  pub encode_null : Bytes
  pub decode_null : Bytes → Option Bytes
  pub encode_union_index : ℕ → Bytes
  pub decode_union_index : Bytes → Option (ℕ × Bytes)
  pub encode_array : (Label → Bytes) → List Label → Bytes
  pub decode_array : (Bytes → Option (Label × Bytes)) → Bytes → Option (List Label × Bytes)

-- A `ResolvingDecoder` has the order in which the writer's fields come, for each record.
pub record FieldOrder : Type 0 where
  pub label_order : List ℕ
  pub pos_order : List ℕ
  pub record_order : List ℕ

-- `fieldOrder()`, where the decoder is one that resolves.
pub data Decoder : Type 0 where
  plain : Decoder
  resolving : FieldOrder → Decoder

abbrev pub bind {ℓ κ} : {A : Type ℓ} {B : Type κ} → Option A → (A → Option B) → Option B
bind none f = none
bind (some a) f = f a

-- What a decoded field does to the record.
abbrev pub field : {A M : Type 0} → Option (A × Bytes) → (A → M) → Option (M × Bytes)
field none set = none
field (some (a, rest)) set = some (set a, rest)

-- The loop over the field order.
unfoldable pub decode_order :
    {M : Type 0} → (ℕ → Bytes → M → Option (M × Bytes)) → List ℕ → Bytes → M → Option (M × Bytes)
decode_order decode_field [] d v = some (v, d)
decode_order decode_field (it ∷ fo) d v =
    bind (decode_field it d v) (λ p. decode_order decode_field fo p.1 p.0)

-- The record behind another field.
abbrev pub next_field :
    {M : Type 0} → (Bytes → M → Option (M × Bytes)) → Option (M × Bytes) → Option (M × Bytes)
next_field decode p = bind p (λ q. decode q.1 q.0)

abbrev pub idx : {D : Type 0} → AvroValue D → ℕ
idx null = 0
idx (long n) = 1
idx (double x) = 2
idx (position lat lon) = 3

-- The getters throw unless the value has their index.
abbrev pub get_long : {D : Type 0} → AvroValue D → Option ℤ
get_long (long n) = some n
get_long _ = none

abbrev pub get_double : {D : Type 0} → AvroValue D → Option D
get_double (double x) = some x
get_double _ = none

abbrev pub get_position : {D : Type 0} → AvroValue D → Option (D × D)
get_position (position lat lon) = some (lat, lon)
get_position _ = none

module _ {D : Type 0} (p : Primitives D) where
  abbrev pub encode_label : Label → Bytes
  encode_label v = p.encode_string v.key ++ p.encode_string v.value

  -- The cases of the switch, and the statements of the branch without it.
  abbrev pub decode_label_field : ℕ → Bytes → Label → Option (Label × Bytes)
  decode_label_field zero d v = field (p.decode_string d) (λ s. record v { key = s })
  decode_label_field (suc zero) d v = field (p.decode_string d) (λ s. record v { value = s })
  decode_label_field (suc (suc it)) d v = some (v, d)

  unfoldable pub decode_label : Decoder → Bytes → Option (Label × Bytes)
  decode_label plain d =
      next_field (decode_label_field 1) (decode_label_field 0 d (record { key = []; value = [] }))
  decode_label (resolving fo) d =
      decode_order decode_label_field fo.label_order d (record { key = []; value = [] })

  abbrev pub encode_position : D × D → Bytes
  encode_position (lat, lon) = p.encode_double lat ++ p.encode_double lon

  abbrev pub decode_position_field : ℕ → Bytes → D × D → Option ((D × D) × Bytes)
  decode_position_field zero d (lat, lon) = field (p.decode_double d) (λ x. (x, lon))
  decode_position_field (suc zero) d (lat, lon) = field (p.decode_double d) (λ x. (lat, x))
  decode_position_field (suc (suc it)) d v = some (v, d)

  -- From a position that is zero in both.
  unfoldable pub decode_position : D → Decoder → Bytes → Option ((D × D) × Bytes)
  decode_position nought plain d =
      next_field (decode_position_field 1) (decode_position_field 0 d (nought, nought))
  decode_position nought (resolving fo) d =
      decode_order decode_position_field fo.pos_order d (nought, nought)

  -- The switch on the index.
  abbrev pub encode_member : ℕ → AvroValue D → Option Bytes
  encode_member zero v = some p.encode_null
  encode_member (suc zero) v = bind (get_long v) (λ n. some (p.encode_long n))
  encode_member (suc (suc zero)) v = bind (get_double v) (λ x. some (p.encode_double x))
  encode_member (suc (suc (suc zero))) v = bind (get_position v) (λ x. some (encode_position x))
  encode_member (suc (suc (suc (suc n)))) v = some []

  unfoldable pub encode_value : AvroValue D → Option Bytes
  encode_value v =
      bind (encode_member (idx v) v) (λ member. some (p.encode_union_index (idx v) ++ member))

  module _ (nought : D) (decoder : Decoder) where
    -- An index of 4 or more throws.
    abbrev pub decode_member : ℕ → Bytes → Option (AvroValue D × Bytes)
    decode_member zero d = bind (p.decode_null d) (λ rest. some (null, rest))
    decode_member (suc zero) d = field (p.decode_long d) (λ n. long n)
    decode_member (suc (suc zero)) d = field (p.decode_double d) (λ x. double x)
    decode_member (suc (suc (suc zero))) d =
        field (decode_position nought decoder d) (λ (lat, lon). position lat lon)
    decode_member (suc (suc (suc (suc n)))) d = none

    unfoldable pub decode_value : Bytes → Option (AvroValue D × Bytes)
    decode_value d = bind (p.decode_union_index d) (λ q. decode_member q.0 q.1)

    abbrev pub decode_labels : Bytes → Option (List Label × Bytes)
    decode_labels d = p.decode_array (decode_label decoder) d

    abbrev pub decode_metric_field : ℕ → Bytes → AvroMetric D → Option (AvroMetric D × Bytes)
    decode_metric_field zero d v = field (p.decode_string d) (λ s. record v { ns = s })
    decode_metric_field (suc zero) d v = field (p.decode_string d) (λ s. record v { name = s })
    decode_metric_field (suc (suc zero)) d v =
        field (decode_labels d) (λ ls. record v { labels = ls })
    decode_metric_field (suc (suc (suc zero))) d v =
        field (decode_value d) (λ x. record v { value = x })
    decode_metric_field (suc (suc (suc (suc zero)))) d v =
        field (p.decode_long d) (λ n. record v { timestamp = n })
    decode_metric_field (suc (suc (suc (suc (suc it))))) d v = some (v, d)

    abbrev pub decode_logline_field : ℕ → Bytes → AvroLogline → Option (AvroLogline × Bytes)
    decode_logline_field zero d v = field (p.decode_string d) (λ s. record v { id = s })
    decode_logline_field (suc zero) d v = field (p.decode_string d) (λ s. record v { agent = s })
    decode_logline_field (suc (suc zero)) d v =
        field (p.decode_string d) (λ s. record v { host = s })
    decode_logline_field (suc (suc (suc zero))) d v =
        field (p.decode_string d) (λ s. record v { source = s })
    decode_logline_field (suc (suc (suc (suc zero)))) d v =
        field (p.decode_long d) (λ n. record v { timestamp_ns = n })
    decode_logline_field (suc (suc (suc (suc (suc zero))))) d v =
        field (decode_labels d) (λ ls. record v { tags = ls })
    decode_logline_field (suc (suc (suc (suc (suc (suc zero)))))) d v =
        field (p.decode_string d) (λ s. record v { line = s })
    decode_logline_field (suc (suc (suc (suc (suc (suc (suc it))))))) d v = some (v, d)

    abbrev pub decode_intake_field : ℕ → Bytes → AvroIntake → Option (AvroIntake × Bytes)
    decode_intake_field zero d v = field (p.decode_string d) (λ s. record v { agent = s })
    decode_intake_field (suc zero) d v = field (p.decode_string d) (λ s. record v { content = s })
    decode_intake_field (suc (suc zero)) d v =
        field (p.decode_long d) (λ n. record v { timestamp = n })
    decode_intake_field (suc (suc (suc it))) d v = some (v, d)

    unfoldable pub decode_metric : Bytes → AvroMetric D → Option (AvroMetric D × Bytes)
    decode_metric d v = elim decoder [
      | plain ↦ next_field (decode_metric_field 4) (
          next_field (decode_metric_field 3) (
            next_field (decode_metric_field 2)
              (next_field (decode_metric_field 1) (decode_metric_field 0 d v))))
      | resolving fo ↦ decode_order decode_metric_field fo.record_order d v
    ]

    unfoldable pub decode_logline : Bytes → AvroLogline → Option (AvroLogline × Bytes)
    decode_logline d v = elim decoder [
      | plain ↦ next_field (decode_logline_field 6) (
          next_field (decode_logline_field 5) (
            next_field (decode_logline_field 4) (
              next_field (decode_logline_field 3) (
                next_field (decode_logline_field 2)
                  (next_field (decode_logline_field 1) (decode_logline_field 0 d v))))))
      | resolving fo ↦ decode_order decode_logline_field fo.record_order d v
    ]

    unfoldable pub decode_intake : Bytes → AvroIntake → Option (AvroIntake × Bytes)
    decode_intake d v = elim decoder [
      | plain ↦
          next_field (decode_intake_field 2)
            (next_field (decode_intake_field 1) (decode_intake_field 0 d v))
      | resolving fo ↦ decode_order decode_intake_field fo.record_order d v
    ]

  unfoldable pub encode_metric : AvroMetric D → Option Bytes
  encode_metric v = bind (encode_value v.value) (λ value. some (
      p.encode_string v.ns
      ++ (p.encode_string v.name
          ++ (p.encode_array encode_label v.labels ++ (value ++ p.encode_long v.timestamp)))))

  unfoldable pub encode_logline : AvroLogline → Bytes
  encode_logline v =
      p.encode_string v.id
      ++ (p.encode_string v.agent
          ++ (p.encode_string v.host
              ++ (p.encode_string v.source
                  ++ (p.encode_long v.timestamp_ns
                      ++ (p.encode_array encode_label v.tags ++ p.encode_string v.line)))))

  unfoldable pub encode_intake : AvroIntake → Bytes
  encode_intake v =
      p.encode_string v.agent ++ (p.encode_string v.content ++ p.encode_long v.timestamp)
