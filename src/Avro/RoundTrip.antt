-- ===== src/Avro/RoundTrip.antt =====
-- What `encode` of the records writes (libraries/bb_monitor_utils/avro), `decode` reads again.
use bb_monitor.Base.{
  ℕ, zero, suc, ◌≡◌, refl, ap, Bool, true, ◌&&◌, Option, some, List, [], ◌∷◌, ◌++◌, Bytes,
  append_assoc, arith, ℤ, pos, negsuc, int_leb, ◌^◌, ◌-◌, if◌then◌else◌,
}
use bb_monitor.Messages.{Label, AvroValue, null, long, double, position}
use bb_monitor.Avro.{
  Primitives, Decoder, plain, resolving, field, encode_label, decode_label_field, decode_label,
  encode_position, decode_position_field, decode_position, idx, decode_value, decode_labels,
}
use bb_monitor.Avro.Orders.{names, in_order, set_all, decode_order-in_order}

abbrev pub is_int64 : ℤ → Bool
is_int64 n = int_leb (negsuc (2 ^ 63 - 1)) n && int_leb n (pos (2 ^ 63 - 1))

-- What the library promises of its codecs: a value is read back, in front of any input.
pub record IsCodec {D : Type 0} (p : Primitives D) : Type 0 where
  pub string_read : (s rest : Bytes) → p.decode_string (p.encode_string s ++ rest) ≡ some (s, rest)
  pub long_read :
      (n : ℤ) (rest : Bytes)
      → is_int64 n ≡ true
      → p.decode_long (p.encode_long n ++ rest) ≡ some (n, rest)
  pub double_read :
      (x : D) (rest : Bytes) → p.decode_double (p.encode_double x ++ rest) ≡ some (x, rest)
  pub null_read : (rest : Bytes) → p.decode_null (p.encode_null ++ rest) ≡ some rest
  pub union_index_read :
      (n : ℕ) (rest : Bytes)
      → p.decode_union_index (p.encode_union_index n ++ rest) ≡ some (n, rest)
  pub array_read :
      (encode : Label → Bytes) (decode : Bytes → Option (Label × Bytes))
      → ((l : Label) (rest : Bytes) → decode (encode l ++ rest) ≡ some (l, rest))
      → (ls : List Label) (rest : Bytes)
      → p.decode_array decode (p.encode_array encode ls ++ rest) ≡ some (ls, rest)

-- A member of the union holds a long of 64 bits.
abbrev pub is_int64_value : {D : Type 0} → AvroValue D → Bool
is_int64_value null = true
is_int64_value (long n) = is_int64 n
is_int64_value (double x) = true
is_int64_value (position lat lon) = true

-- An order that is right for its record.
abbrev pub all_named : ℕ → List ℕ → Bool
all_named zero fo = true
all_named (suc n) fo = names fo n && all_named n fo

abbrev pub label_encoding : {D : Type 0} → Primitives D → Label → ℕ → Bytes
label_encoding p l zero = p.encode_string l.key
label_encoding p l (suc zero) = p.encode_string l.value
label_encoding p l (suc (suc n)) = []

abbrev set_label : Label → ℕ → Label → Label
set_label l zero v = record v { key = l.key }
set_label l (suc zero) v = record v { value = l.value }
set_label l (suc (suc n)) v = v

set_all-label :
    (l : Label) (fo : List ℕ) (v : Label)
    → set_all (set_label l) fo v ≡ record {
      key = if names fo 0 then l.key else v.key;
      value = if names fo 1 then l.value else v.value;
    }
set_all-label l [] v = refl
set_all-label l (zero ∷ fo) v = ground (arith, set_all-label l fo (set_label l 0 v))
set_all-label l (suc zero ∷ fo) v = ground (arith, set_all-label l fo (set_label l 1 v))
set_all-label l (suc (suc n) ∷ fo) v = ground (arith, set_all-label l fo v)

abbrev pub position_encoding : {D : Type 0} → Primitives D → D × D → ℕ → Bytes
position_encoding p (lat, lon) zero = p.encode_double lat
position_encoding p (lat, lon) (suc zero) = p.encode_double lon
position_encoding p (lat, lon) (suc (suc n)) = []

abbrev set_position : {D : Type 0} → D × D → ℕ → D × D → D × D
set_position (lat, lon) zero (a, b) = (lat, b)
set_position (lat, lon) (suc zero) (a, b) = (a, lon)
set_position (lat, lon) (suc (suc n)) v = v

set_all-position :
    {D : Type 0} (x : D × D) (fo : List ℕ) (v : D × D)
    → set_all (set_position x) fo v
      ≡ (if names fo 0 then x.0 else v.0, if names fo 1 then x.1 else v.1)
set_all-position (lat, lon) [] (a, b) = refl
set_all-position (lat, lon) (zero ∷ fo) (a, b) =
    ground (arith, set_all-position (lat, lon) fo (lat, b))
set_all-position (lat, lon) (suc zero ∷ fo) (a, b) =
    ground (arith, set_all-position (lat, lon) fo (a, lon))
set_all-position (lat, lon) (suc (suc n) ∷ fo) (a, b) =
    ground (arith, set_all-position (lat, lon) fo (a, b))

-- A decoder whose orders name all fields, of a record with `n` of them.
abbrev pub is_complete : ℕ → Decoder → Bool
is_complete n plain = true
is_complete n (resolving fo) =
    all_named 2 fo.label_order && (all_named 2 fo.pos_order && all_named n fo.record_order)

-- What a writer with the orders of the decoder writes.
module _ {D : Type 0} (p : Primitives D) where
  abbrev pub written_label : Decoder → Label → Bytes
  written_label plain l = encode_label p l
  written_label (resolving fo) l = in_order (label_encoding p l) fo.label_order

  abbrev pub written_position : Decoder → D × D → Bytes
  written_position plain x = encode_position p x
  written_position (resolving fo) x = in_order (position_encoding p x) fo.pos_order

  abbrev pub written_member : Decoder → AvroValue D → Bytes
  written_member decoder null = p.encode_null
  written_member decoder (long n) = p.encode_long n
  written_member decoder (double x) = p.encode_double x
  written_member decoder (position lat lon) = written_position decoder (lat, lon)

  abbrev pub written_value : Decoder → AvroValue D → Bytes
  written_value decoder v = p.encode_union_index (idx v) ++ written_member decoder v

  abbrev pub written_labels : Decoder → List Label → Bytes
  written_labels decoder ls = p.encode_array (written_label decoder) ls

module _ {D : Type 0} {p : Primitives D} (c : IsCodec p) (nought : D) where
  decode_label_field-label_encoding :
      (l : Label) (i : ℕ) (rest : Bytes) (v : Label)
      → decode_label_field p i (label_encoding p l i ++ rest) v ≡ some (set_label l i v, rest)
  decode_label_field-label_encoding l zero rest v =
      ap (λ r. field r (λ s. record v { key = s })) (c.string_read l.key rest)
  decode_label_field-label_encoding l (suc zero) rest v =
      ap (λ r. field r (λ s. record v { value = s })) (c.string_read l.value rest)
  decode_label_field-label_encoding l (suc (suc n)) rest v = refl

  decode_label-written :
      (n : ℕ) (decoder : Decoder) (l : Label) (rest : Bytes)
      → is_complete n decoder ≡ true
      → decode_label p decoder (written_label p decoder l ++ rest) ≡ some (l, rest)
  unfolding decode_label
  decode_label-written n plain l rest h = ground (
    arith,
    append_assoc (p.encode_string l.key) (p.encode_string l.value) rest,
    c.string_read l.key (p.encode_string l.value ++ rest),
    c.string_read l.value rest,
  )
  decode_label-written n (resolving fo) l rest h = ground (
    arith,
    h,
    decode_order-in_order (decode_label_field p) (label_encoding p l) (set_label l)
        (decode_label_field-label_encoding l) fo.label_order rest (record { key = []; value = [] }),
    set_all-label l fo.label_order (record { key = []; value = [] }),
  )

  decode_position_field-position_encoding :
      (x : D × D) (i : ℕ) (rest : Bytes) (v : D × D)
      → decode_position_field p i (position_encoding p x i ++ rest) v
        ≡ some (set_position x i v, rest)
  decode_position_field-position_encoding (lat, lon) zero rest (a, b) =
      ap (λ r. field r (λ x. (x, b))) (c.double_read lat rest)
  decode_position_field-position_encoding (lat, lon) (suc zero) rest (a, b) =
      ap (λ r. field r (λ x. (a, x))) (c.double_read lon rest)
  decode_position_field-position_encoding (lat, lon) (suc (suc n)) rest (a, b) = refl

  decode_position-written :
      (n : ℕ) (decoder : Decoder) (x : D × D) (rest : Bytes)
      → is_complete n decoder ≡ true
      → decode_position p nought decoder (written_position p decoder x ++ rest) ≡ some (x, rest)
  unfolding decode_position
  decode_position-written n plain (lat, lon) rest h = ground (
    arith,
    append_assoc (p.encode_double lat) (p.encode_double lon) rest,
    c.double_read lat (p.encode_double lon ++ rest),
    c.double_read lon rest,
  )
  decode_position-written n (resolving fo) (lat, lon) rest h = ground (
    arith,
    h,
    decode_order-in_order (decode_position_field p) (position_encoding p (lat, lon))
        (set_position (lat, lon)) (decode_position_field-position_encoding (lat, lon)) fo.pos_order
        rest (nought, nought),
    set_all-position (lat, lon) fo.pos_order (nought, nought),
  )

  pub decode_value-written :
      (n : ℕ) (decoder : Decoder) (v : AvroValue D) (rest : Bytes)
      → is_complete n decoder ≡ true
      → is_int64_value v ≡ true
      → decode_value p nought decoder (written_value p decoder v ++ rest) ≡ some (v, rest)
  unfolding decode_value
  decode_value-written n decoder null rest h k = ground (
    arith,
    append_assoc (p.encode_union_index 0) p.encode_null rest,
    c.union_index_read 0 (p.encode_null ++ rest),
    c.null_read rest,
  )
  decode_value-written n decoder (long m) rest h k = ground (
    arith,
    append_assoc (p.encode_union_index 1) (p.encode_long m) rest,
    c.union_index_read 1 (p.encode_long m ++ rest),
    c.long_read m rest k,
  )
  decode_value-written n decoder (double x) rest h k = ground (
    arith,
    append_assoc (p.encode_union_index 2) (p.encode_double x) rest,
    c.union_index_read 2 (p.encode_double x ++ rest),
    c.double_read x rest,
  )
  decode_value-written n decoder (position lat lon) rest h k = ground (
    arith,
    append_assoc (p.encode_union_index 3) (written_position p decoder (lat, lon)) rest,
    c.union_index_read 3 (written_position p decoder (lat, lon) ++ rest),
    decode_position-written n decoder (lat, lon) rest h,
  )

  pub decode_labels-written :
      (n : ℕ) (decoder : Decoder) (ls : List Label) (rest : Bytes)
      → is_complete n decoder ≡ true
      → decode_labels p nought decoder (written_labels p decoder ls ++ rest) ≡ some (ls, rest)
  decode_labels-written n decoder ls rest h =
      c.array_read (written_label p decoder) (decode_label p decoder)
        (λ l more. decode_label-written n decoder l more h) ls rest
