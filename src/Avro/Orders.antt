-- ===== src/Avro/Orders.antt =====
-- The fields of a record in the order of a writer (`fieldOrder` in the Avro headers).
use bb_monitor.Base.{
  ℕ, ◌≡◌, refl, ap, ◌∙◌, Bool, false, ◌||◌, Option, none, some, List, [], ◌∷◌, ◌++◌, Bytes,
  append_assoc, ◌==◌,
}
use bb_monitor.Avro.{bind, decode_order, next_field}

-- The order names the field.
abbrev pub names : List ℕ → ℕ → Bool
names [] i = false
names (k ∷ fo) i = k == i || names fo i

-- The encodings of the fields, in an order.
abbrev pub in_order : (ℕ → Bytes) → List ℕ → Bytes
in_order encode [] = []
in_order encode (i ∷ fo) = encode i ++ in_order encode fo

abbrev pub set_all : {M : Type 0} → (ℕ → M → M) → List ℕ → M → M
set_all set [] v = v
set_all set (i ∷ fo) v = set_all set fo (set i v)

-- If each field is decoded in front of more input, so are all in any order.
pub decode_order-in_order :
    {M : Type 0} (decode_field : ℕ → Bytes → M → Option (M × Bytes)) (encode : ℕ → Bytes)
    (set : ℕ → M → M)
    → ((i : ℕ) (rest : Bytes) (v : M) → decode_field i (encode i ++ rest) v ≡ some (set i v, rest))
    → (fo : List ℕ) (rest : Bytes) (v : M)
    → decode_order decode_field fo (in_order encode fo ++ rest) v ≡ some (set_all set fo v, rest)
unfolding decode_order
decode_order-in_order decode_field encode set each [] rest v = refl
decode_order-in_order decode_field encode set each (i ∷ fo) rest v =
    ap (λ d. decode_order decode_field (i ∷ fo) d v)
      (append_assoc (encode i) (in_order encode fo) rest)
    ∙ ap (λ r. bind r (λ p. decode_order decode_field fo p.1 p.0))
        (each i (in_order encode fo ++ rest) v)
    ∙ decode_order-in_order decode_field encode set each fo rest (set i v)

-- The fields one behind another, without an order.
abbrev pub in_turn :
    {M : Type 0}
    → (ℕ → Bytes → M → Option (M × Bytes))
    → List ℕ
    → Option (M × Bytes)
    → Option (M × Bytes)
in_turn decode_field [] r = r
in_turn decode_field (i ∷ fo) r = in_turn decode_field fo (next_field (decode_field i) r)

in_turn-decode_order :
    {M : Type 0} (decode_field : ℕ → Bytes → M → Option (M × Bytes)) (fo : List ℕ)
    (r : Option (M × Bytes))
    → in_turn decode_field fo r ≡ next_field (decode_order decode_field fo) r
unfolding decode_order
in_turn-decode_order decode_field [] none = refl
in_turn-decode_order decode_field [] (some a) = refl
in_turn-decode_order decode_field (i ∷ fo) none = in_turn-decode_order decode_field fo none
in_turn-decode_order decode_field (i ∷ fo) (some a) =
    in_turn-decode_order decode_field fo (decode_field i a.1 a.0)

-- A decoder that does not resolve reads as one that resolves by the order of the declaration.
pub in_turn-in_order :
    {M : Type 0} (decode_field : ℕ → Bytes → M → Option (M × Bytes)) (encode : ℕ → Bytes)
    (set : ℕ → M → M)
    → ((i : ℕ) (rest : Bytes) (v : M) → decode_field i (encode i ++ rest) v ≡ some (set i v, rest))
    → (fo : List ℕ) (rest : Bytes) (v : M)
    → in_turn decode_field fo (some (v, in_order encode fo ++ rest)) ≡ some (set_all set fo v, rest)
in_turn-in_order decode_field encode set each fo rest v =
    in_turn-decode_order decode_field fo (some (v, in_order encode fo ++ rest))
    ∙ decode_order-in_order decode_field encode set each fo rest v
