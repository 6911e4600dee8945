-- ===== src/Avro/Tests.antt =====
-- Runs of the Avro codecs (libraries/bb_monitor_utils/avro) with a library that writes a length in front
-- of a string, a count in front of an array and a number as one element.
use bb_monitor.Base.{
  ℕ, zero, suc, ◌≡◌, refl, ap, ◌∙◌, Option, none, some, List, [], ◌∷◌, ◌++◌, Bytes, append_assoc, ℤ,
  pos, negsuc, codes, length,
}
use bb_monitor.Messages.{Label, null, position, AvroMetric, AvroIntake}
use bb_monitor.Avro.{
  Primitives, FieldOrder, plain, resolving, bind, field, decode_metric, decode_intake, decode_value,
}
use bb_monitor.Avro.RoundTrip.{IsCodec}
use bb_monitor.Avro.Metrics.{written_metric, decode_metric-written}

abbrev take_string : ℕ → Bytes → Option (Bytes × Bytes)
take_string zero d = some ([], d)
take_string (suc n) [] = none
take_string (suc n) (x ∷ d) = field (take_string n d) (λ s. x ∷ s)

take_string-read : (s rest : Bytes) → take_string (length s) (s ++ rest) ≡ some (s, rest)
take_string-read [] rest = refl
take_string-read (x ∷ s) rest = ap (λ r. field r (λ t. x ∷ t)) (take_string-read s rest)

abbrev counted_string : Bytes → Option (Bytes × Bytes)
counted_string [] = none
counted_string (n ∷ d) = take_string n d

abbrev int_elements : ℤ → Bytes
int_elements (pos n) = 0 ∷ n ∷ []
int_elements (negsuc n) = 1 ∷ n ∷ []

abbrev take_int : Bytes → Option (ℤ × Bytes)
take_int (zero ∷ n ∷ d) = some (pos n, d)
take_int (suc k ∷ n ∷ d) = some (negsuc n, d)
take_int _ = none

abbrev take_element : Bytes → Option (ℕ × Bytes)
take_element [] = none
take_element (x ∷ d) = some (x, d)

abbrev elements : (Label → Bytes) → List Label → Bytes
elements encode [] = []
elements encode (l ∷ ls) = encode l ++ elements encode ls

abbrev label_count : List Label → ℕ
label_count [] = 0
label_count (l ∷ ls) = suc (label_count ls)

abbrev take_labels : (Bytes → Option (Label × Bytes)) → ℕ → Bytes → Option (List Label × Bytes)
take_labels decode zero d = some ([], d)
take_labels decode (suc n) d =
    bind (decode d) (λ q. field (take_labels decode n q.1) (λ ls. q.0 ∷ ls))

take_labels-read :
    (encode : Label → Bytes) (decode : Bytes → Option (Label × Bytes))
    → ((l : Label) (rest : Bytes) → decode (encode l ++ rest) ≡ some (l, rest))
    → (ls : List Label) (rest : Bytes)
    → take_labels decode (label_count ls) (elements encode ls ++ rest) ≡ some (ls, rest)
take_labels-read encode decode each [] rest = refl
take_labels-read encode decode each (l ∷ ls) rest =
    ap (take_labels decode (label_count (l ∷ ls)))
      (append_assoc (encode l) (elements encode ls) rest)
    ∙ ap (λ r. bind r (λ q. field (take_labels decode (label_count ls) q.1) (λ more. q.0 ∷ more)))
        (each l (elements encode ls ++ rest))
    ∙ ap (λ r. field r (λ more. l ∷ more)) (take_labels-read encode decode each ls rest)

abbrev counted_labels : (Bytes → Option (Label × Bytes)) → Bytes → Option (List Label × Bytes)
counted_labels decode [] = none
counted_labels decode (n ∷ d) = take_labels decode n d

abbrev pub elementwise : Primitives ℕ
elementwise = record {
  encode_string = λ s. length s ∷ s;
  decode_string = counted_string;
  encode_long = int_elements;
  decode_long = take_int;
  encode_double = λ x. x ∷ [];
  decode_double = take_element;
  encode_null = [];
  decode_null = λ d. some d;
  encode_union_index = λ n. n ∷ [];
  decode_union_index = take_element;
  encode_array = λ encode ls. label_count ls ∷ elements encode ls;
  decode_array = counted_labels;
}

take_int-read : (n : ℤ) (rest : Bytes) → take_int (int_elements n ++ rest) ≡ some (n, rest)
take_int-read (pos n) rest = refl
take_int-read (negsuc n) rest = refl

pub elementwise-IsCodec : IsCodec elementwise
elementwise-IsCodec = record {
  string_read = take_string-read;
  long_read = λ n rest h. take_int-read n rest;
  double_read = λ x rest. refl;
  null_read = λ rest. refl;
  union_index_read = λ n rest. refl;
  array_read = take_labels-read;
}

abbrev shuffled : FieldOrder
shuffled = record {
  label_order = 1 ∷ 0 ∷ [];
  pos_order = 0 ∷ 7 ∷ 1 ∷ [];
  record_order = 4 ∷ 2 ∷ 0 ∷ 6 ∷ 1 ∷ 3 ∷ 5 ∷ [];
}

abbrev host_label : Label
host_label = record { key = codes "host"; value = codes "a" }

abbrev pub located_metric : AvroMetric ℕ
located_metric = record {
  ns = codes "dd";
  name = codes "cpu";
  labels = host_label ∷ [];
  value = position 57 11;
  timestamp = negsuc 4;
}

abbrev pub blank_metric : AvroMetric ℕ
blank_metric = record { ns = []; name = []; labels = []; value = null; timestamp = pos 0 }

abbrev empty_intake : AvroIntake
empty_intake = record { agent = []; content = []; timestamp = pos 0 }

decode_metric-written_example :
    decode_metric elementwise 0
      (resolving shuffled)
      (written_metric elementwise (resolving shuffled) located_metric ++ 9 ∷ [])
      blank_metric
    ≡ some (located_metric, 9 ∷ [])
decode_metric-written_example =
    decode_metric-written elementwise-IsCodec 0 (resolving shuffled) located_metric (9 ∷ [])
      blank_metric refl refl

-- A string of the writer that is cut short is refused.
cut_short : decode_intake elementwise 0 plain (3 ∷ 100 ∷ []) empty_intake ≡ none
unfolding decode_intake
cut_short = refl

-- A union index of 4 is refused.
union_index_too_big : decode_value elementwise 0 plain (4 ∷ 1 ∷ []) ≡ none
unfolding decode_value
union_index_too_big = refl
