-- ===== src/Avro/Loglines.antt =====
-- The record of libraries/bb_monitor_utils/avro/bb_avro_logline.h, written and read again.
use bb_monitor.Base.{
  ℕ, zero, suc, ◌≡◌, refl, sym, ap, ◌∙◌, true, some, List, [], ◌∷◌, ◌++◌, Bytes, append-nil, arith,
  if◌then◌else◌,
}
use bb_monitor.Messages.{AvroLogline}
use bb_monitor.Avro.{
  Primitives, Decoder, plain, resolving, field, decode_logline_field, decode_logline,
  encode_logline,
}
use bb_monitor.Avro.Orders.{names, in_order, set_all, decode_order-in_order, in_turn-in_order}
use bb_monitor.Avro.RoundTrip.{
  is_int64, IsCodec, all_named, is_complete, written_labels, decode_labels-written,
}

abbrev set_logline : AvroLogline → ℕ → AvroLogline → AvroLogline
set_logline m zero v = record v { id = m.id }
set_logline m (suc zero) v = record v { agent = m.agent }
set_logline m (suc (suc zero)) v = record v { host = m.host }
set_logline m (suc (suc (suc zero))) v = record v { source = m.source }
set_logline m (suc (suc (suc (suc zero)))) v = record v { timestamp_ns = m.timestamp_ns }
set_logline m (suc (suc (suc (suc (suc zero))))) v = record v { tags = m.tags }
set_logline m (suc (suc (suc (suc (suc (suc zero)))))) v = record v { line = m.line }
set_logline m (suc (suc (suc (suc (suc (suc (suc n))))))) v = v

set_all-logline :
    (m : AvroLogline) (fo : List ℕ) (v : AvroLogline)
    → set_all (set_logline m) fo v ≡ record {
      id = if names fo 0 then m.id else v.id;
      agent = if names fo 1 then m.agent else v.agent;
      host = if names fo 2 then m.host else v.host;
      source = if names fo 3 then m.source else v.source;
      timestamp_ns = if names fo 4 then m.timestamp_ns else v.timestamp_ns;
      tags = if names fo 5 then m.tags else v.tags;
      line = if names fo 6 then m.line else v.line;
    }
set_all-logline m [] v = refl
set_all-logline m (zero ∷ fo) v = ground (arith, set_all-logline m fo (set_logline m 0 v))
set_all-logline m (suc zero ∷ fo) v = ground (arith, set_all-logline m fo (set_logline m 1 v))
set_all-logline m (suc (suc zero) ∷ fo) v = ground (arith, set_all-logline m fo (set_logline m 2 v))
set_all-logline m (suc (suc (suc zero)) ∷ fo) v =
    ground (arith, set_all-logline m fo (set_logline m 3 v))
set_all-logline m (suc (suc (suc (suc zero))) ∷ fo) v =
    ground (arith, set_all-logline m fo (set_logline m 4 v))
set_all-logline m (suc (suc (suc (suc (suc zero)))) ∷ fo) v =
    ground (arith, set_all-logline m fo (set_logline m 5 v))
set_all-logline m (suc (suc (suc (suc (suc (suc zero))))) ∷ fo) v =
    ground (arith, set_all-logline m fo (set_logline m 6 v))
set_all-logline m (suc (suc (suc (suc (suc (suc (suc n)))))) ∷ fo) v =
    ground (arith, set_all-logline m fo v)

set_all-all_named :
    (m : AvroLogline) (fo : List ℕ) (v : AvroLogline)
    → all_named 7 fo ≡ true
    → set_all (set_logline m) fo v ≡ m
set_all-all_named m fo v h = ground (arith, h, set_all-logline m fo v)

-- The order of the declaration.
abbrev declared : List ℕ
declared = 0 ∷ 1 ∷ 2 ∷ 3 ∷ 4 ∷ 5 ∷ 6 ∷ []

module _ {D : Type 0} (p : Primitives D) where
  abbrev pub logline_encoding : Decoder → AvroLogline → ℕ → Bytes
  logline_encoding decoder m zero = p.encode_string m.id
  logline_encoding decoder m (suc zero) = p.encode_string m.agent
  logline_encoding decoder m (suc (suc zero)) = p.encode_string m.host
  logline_encoding decoder m (suc (suc (suc zero))) = p.encode_string m.source
  logline_encoding decoder m (suc (suc (suc (suc zero)))) = p.encode_long m.timestamp_ns
  logline_encoding decoder m (suc (suc (suc (suc (suc zero))))) = written_labels p decoder m.tags
  logline_encoding decoder m (suc (suc (suc (suc (suc (suc zero)))))) = p.encode_string m.line
  logline_encoding decoder m (suc (suc (suc (suc (suc (suc (suc n))))))) = []

  abbrev pub written_logline : Decoder → AvroLogline → Bytes
  written_logline plain m = encode_logline p m
  written_logline (resolving fo) m = in_order (logline_encoding (resolving fo) m) fo.record_order

  encode_logline-in_order :
      (m : AvroLogline) → encode_logline p m ≡ in_order (logline_encoding plain m) declared
  unfolding encode_logline
  encode_logline-in_order m =
      ap
        (λ d.
          p.encode_string m.id
          ++ (p.encode_string m.agent
              ++ (p.encode_string m.host
                  ++ (p.encode_string m.source
                      ++ (p.encode_long m.timestamp_ns ++ (written_labels p plain m.tags ++ d))))))
        (sym (append-nil (p.encode_string m.line)))

module _ {D : Type 0} {p : Primitives D} (c : IsCodec p) (nought : D) where
  decode_logline_field-encoding :
      (decoder : Decoder) (m : AvroLogline)
      → is_complete 7 decoder ≡ true
      → is_int64 m.timestamp_ns ≡ true
      → (i : ℕ) (rest : Bytes) (v : AvroLogline)
      → decode_logline_field p nought decoder i (logline_encoding p decoder m i ++ rest) v
        ≡ some (set_logline m i v, rest)
  decode_logline_field-encoding decoder m h k zero rest v =
      ap (λ r. field r (λ s. record v { id = s })) (c.string_read m.id rest)
  decode_logline_field-encoding decoder m h k (suc zero) rest v =
      ap (λ r. field r (λ s. record v { agent = s })) (c.string_read m.agent rest)
  decode_logline_field-encoding decoder m h k (suc (suc zero)) rest v =
      ap (λ r. field r (λ s. record v { host = s })) (c.string_read m.host rest)
  decode_logline_field-encoding decoder m h k (suc (suc (suc zero))) rest v =
      ap (λ r. field r (λ s. record v { source = s })) (c.string_read m.source rest)
  decode_logline_field-encoding decoder m h k (suc (suc (suc (suc zero)))) rest v =
      ap (λ r. field r (λ s. record v { timestamp_ns = s })) (c.long_read m.timestamp_ns rest k)
  decode_logline_field-encoding decoder m h k (suc (suc (suc (suc (suc zero))))) rest v =
      ap (λ r. field r (λ s. record v { tags = s }))
        (decode_labels-written c nought 7 decoder m.tags rest h)
  decode_logline_field-encoding decoder m h k (suc (suc (suc (suc (suc (suc zero)))))) rest v =
      ap (λ r. field r (λ s. record v { line = s })) (c.string_read m.line rest)
  decode_logline_field-encoding decoder m h k (suc (suc (suc (suc (suc (suc (suc n))))))) rest v =
      refl

  -- Whatever the record held before, `decode` makes a logline of the bytes that a writer put in front of
  -- other input, and leaves the other input: those of `encode`, for a decoder that does not resolve, or
  -- the fields in the order that a resolving decoder names, where each order names all fields of its
  -- record. The timestamp fits in 64 bits.
  pub decode_logline-written :
      (decoder : Decoder) (m : AvroLogline) (rest : Bytes) (v : AvroLogline)
      → is_complete 7 decoder ≡ true
      → is_int64 m.timestamp_ns ≡ true
      → decode_logline p nought decoder (written_logline p decoder m ++ rest) v ≡ some (m, rest)
  unfolding decode_logline
  decode_logline-written plain m rest v h k =
      ap (λ d. decode_logline p nought plain (d ++ rest) v) (encode_logline-in_order p m)
      ∙ in_turn-in_order (decode_logline_field p nought plain) (logline_encoding p plain m)
          (set_logline m) (decode_logline_field-encoding plain m h k) declared rest v
      ∙ ap (λ r. some (r, rest)) (set_all-all_named m declared v refl)
  decode_logline-written (resolving fo) m rest v h k =
      decode_order-in_order (decode_logline_field p nought (resolving fo))
        (logline_encoding p (resolving fo) m) (set_logline m)
        (decode_logline_field-encoding (resolving fo) m h k) fo.record_order rest v
      ∙ ap (λ r. some (r, rest)) (set_all-all_named m fo.record_order v (ground (arith, h)))
