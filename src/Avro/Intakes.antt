-- ===== src/Avro/Intakes.antt =====
-- The record of libraries/bb_monitor_utils/avro/dd_avro_intake.h, written and read again.
use bb_monitor.Base.{
  ℕ, zero, suc, ◌≡◌, refl, sym, ap, ◌∙◌, true, some, List, [], ◌∷◌, ◌++◌, Bytes, append-nil, arith,
  if◌then◌else◌,
}
use bb_monitor.Messages.{AvroIntake}
use bb_monitor.Avro.{
  Primitives, Decoder, plain, resolving, field, decode_intake_field, decode_intake, encode_intake,
}
use bb_monitor.Avro.Orders.{names, in_order, set_all, decode_order-in_order, in_turn-in_order}
use bb_monitor.Avro.RoundTrip.{is_int64, IsCodec, all_named, is_complete}

abbrev set_intake : AvroIntake → ℕ → AvroIntake → AvroIntake
set_intake m zero v = record v { agent = m.agent }
set_intake m (suc zero) v = record v { content = m.content }
set_intake m (suc (suc zero)) v = record v { timestamp = m.timestamp }
set_intake m (suc (suc (suc n))) v = v

set_all-intake :
    (m : AvroIntake) (fo : List ℕ) (v : AvroIntake)
    → set_all (set_intake m) fo v ≡ record {
      agent = if names fo 0 then m.agent else v.agent;
      content = if names fo 1 then m.content else v.content;
      timestamp = if names fo 2 then m.timestamp else v.timestamp;
    }
set_all-intake m [] v = refl
set_all-intake m (zero ∷ fo) v = ground (arith, set_all-intake m fo (set_intake m 0 v))
set_all-intake m (suc zero ∷ fo) v = ground (arith, set_all-intake m fo (set_intake m 1 v))
set_all-intake m (suc (suc zero) ∷ fo) v = ground (arith, set_all-intake m fo (set_intake m 2 v))
set_all-intake m (suc (suc (suc n)) ∷ fo) v = ground (arith, set_all-intake m fo v)

set_all-all_named :
    (m : AvroIntake) (fo : List ℕ) (v : AvroIntake)
    → all_named 3 fo ≡ true
    → set_all (set_intake m) fo v ≡ m
set_all-all_named m fo v h = ground (arith, h, set_all-intake m fo v)

-- The order of the declaration.
abbrev declared : List ℕ
declared = 0 ∷ 1 ∷ 2 ∷ []

module _ {D : Type 0} (p : Primitives D) where
  abbrev pub intake_encoding : Decoder → AvroIntake → ℕ → Bytes
  intake_encoding decoder m zero = p.encode_string m.agent
  intake_encoding decoder m (suc zero) = p.encode_string m.content
  intake_encoding decoder m (suc (suc zero)) = p.encode_long m.timestamp
  intake_encoding decoder m (suc (suc (suc n))) = []

  abbrev pub written_intake : Decoder → AvroIntake → Bytes
  written_intake plain m = encode_intake p m
  written_intake (resolving fo) m = in_order (intake_encoding (resolving fo) m) fo.record_order

  encode_intake-in_order :
      (m : AvroIntake) → encode_intake p m ≡ in_order (intake_encoding plain m) declared
  unfolding encode_intake
  encode_intake-in_order m =
      ap (λ d. p.encode_string m.agent ++ (p.encode_string m.content ++ d))
        (sym (append-nil (p.encode_long m.timestamp)))

module _ {D : Type 0} {p : Primitives D} (c : IsCodec p) (nought : D) where
  decode_intake_field-encoding :
      (decoder : Decoder) (m : AvroIntake)
      → is_complete 3 decoder ≡ true
      → is_int64 m.timestamp ≡ true
      → (i : ℕ) (rest : Bytes) (v : AvroIntake)
      → decode_intake_field p nought decoder i (intake_encoding p decoder m i ++ rest) v
        ≡ some (set_intake m i v, rest)
  decode_intake_field-encoding decoder m h k zero rest v =
      ap (λ r. field r (λ s. record v { agent = s })) (c.string_read m.agent rest)
  decode_intake_field-encoding decoder m h k (suc zero) rest v =
      ap (λ r. field r (λ s. record v { content = s })) (c.string_read m.content rest)
  decode_intake_field-encoding decoder m h k (suc (suc zero)) rest v =
      ap (λ r. field r (λ s. record v { timestamp = s })) (c.long_read m.timestamp rest k)
  decode_intake_field-encoding decoder m h k (suc (suc (suc n))) rest v = refl

  -- Whatever the record held before, `decode` makes a intake of the bytes that a writer put in front of
  -- other input, and leaves the other input: those of `encode`, for a decoder that does not resolve, or
  -- the fields in the order that a resolving decoder names, where each order names all fields of its
  -- record. The timestamp fits in 64 bits.
  pub decode_intake-written :
      (decoder : Decoder) (m : AvroIntake) (rest : Bytes) (v : AvroIntake)
      → is_complete 3 decoder ≡ true
      → is_int64 m.timestamp ≡ true
      → decode_intake p nought decoder (written_intake p decoder m ++ rest) v ≡ some (m, rest)
  unfolding decode_intake
  decode_intake-written plain m rest v h k =
      ap (λ d. decode_intake p nought plain (d ++ rest) v) (encode_intake-in_order p m)
      ∙ in_turn-in_order (decode_intake_field p nought plain) (intake_encoding p plain m)
          (set_intake m) (decode_intake_field-encoding plain m h k) declared rest v
      ∙ ap (λ r. some (r, rest)) (set_all-all_named m declared v refl)
  decode_intake-written (resolving fo) m rest v h k =
      decode_order-in_order (decode_intake_field p nought (resolving fo))
        (intake_encoding p (resolving fo) m) (set_intake m)
        (decode_intake_field-encoding (resolving fo) m h k) fo.record_order rest v
      ∙ ap (λ r. some (r, rest)) (set_all-all_named m fo.record_order v (ground (arith, h)))
