-- ===== src/PgText/Arrays.antt =====
-- An array as Postgres prints it, as `pg2proto` (grpc_utils.cpp) reads it.
use bb_monitor.Base.{
  ℕ, ◌≡◌, refl, ap, ◌∙◌, Bool, true, false, ◌&&◌, not, List, [], ◌∷◌, ◌++◌, Bytes, is_empty, arith,
  ◌==◌, append-nil,
}
use bb_monitor.Base.Text.{is_free_of}
use bb_monitor.PgText.{
  is_space, ltrim, rtrim, split_string2vector, remove, add_parts, pg2proto_array,
}
use bb_monitor.PgText.RoundTrip.{
  split_string2vector-free, split_string2vector-append, remove-free, remove-append, is_free_of-join,
}

abbrev pub has_no_space : Bytes → Bool
has_no_space [] = true
has_no_space (c ∷ s) = not (is_space c) && has_no_space s

ltrim-has_no_space : (s : Bytes) → has_no_space s ≡ true → ltrim s ≡ s
unfolding ltrim
ltrim-has_no_space [] h = refl
ltrim-has_no_space (c ∷ s) h = ground (arith, h)

rtrim-has_no_space : (s : Bytes) → has_no_space s ≡ true → rtrim s ≡ s
unfolding rtrim
rtrim-has_no_space [] h = refl
rtrim-has_no_space (c ∷ []) h = ground (arith, h)
rtrim-has_no_space (c ∷ (d ∷ s)) h = ground (arith, h, rtrim-has_no_space (d ∷ s))

-- An element is not empty and has no brace, comma or white space.
abbrev pub is_element : Bytes → Bool
is_element s =
    not (is_empty s)
    && (is_free_of 123 s && (is_free_of 125 s && (is_free_of 44 s && has_no_space s)))

abbrev pub all_elements : List Bytes → Bool
all_elements [] = true
all_elements (v ∷ vs) = is_element v && all_elements vs

-- The elements behind others, and with commas between them.
abbrev pub more_elements : List Bytes → Bytes
more_elements [] = []
more_elements (v ∷ vs) = 44 ∷ (v ++ more_elements vs)

abbrev pub printed_elements : List Bytes → Bytes
printed_elements [] = []
printed_elements (v ∷ vs) = v ++ more_elements vs

more_elements-free :
    (c : ℕ) (vs : List Bytes)
    → (44 == c) ≡ false
    → ((v : Bytes) → is_element v ≡ true → is_free_of c v ≡ true)
    → all_elements vs ≡ true
    → is_free_of c (more_elements vs) ≡ true
more_elements-free c [] k free h = refl
more_elements-free c (v ∷ vs) k free h =
    let rest =
      is_free_of-join c v (more_elements vs) (free v (ground (arith, h)))
        (more_elements-free c vs k free (ground (arith, h))) in
    ground (arith, k, rest)

printed_elements-free :
    (c : ℕ) (vs : List Bytes)
    → (44 == c) ≡ false
    → ((v : Bytes) → is_element v ≡ true → is_free_of c v ≡ true)
    → all_elements vs ≡ true
    → is_free_of c (printed_elements vs) ≡ true
printed_elements-free c [] k free h = refl
printed_elements-free c (v ∷ vs) k free h =
    is_free_of-join c v (more_elements vs) (free v (ground (arith, h)))
      (more_elements-free c vs k free (ground (arith, h)))

add_parts-cons :
    (v : Bytes) (rest : List Bytes)
    → is_element v ≡ true
    → add_parts (v ∷ rest) ≡ v ∷ add_parts rest
add_parts-cons v rest h =
    ground
      (arith, h, ltrim-has_no_space v (ground (arith, h)), rtrim-has_no_space v (ground (arith, h)))

add_parts-printed :
    (v : Bytes) (vs : List Bytes)
    → is_element v ≡ true
    → all_elements vs ≡ true
    → add_parts (split_string2vector (v ++ more_elements vs) 44) ≡ v ∷ vs
add_parts-printed v [] h k =
    ap (λ t. add_parts (split_string2vector t 44)) (append-nil v)
    ∙ ap add_parts (split_string2vector-free v 44 (ground (arith, h)))
    ∙ add_parts-cons v [] h
add_parts-printed v (w ∷ vs) h k =
    ap add_parts (split_string2vector-append v 44 (w ++ more_elements vs) (ground (arith, h)))
    ∙ add_parts-cons v (split_string2vector (w ++ more_elements vs) 44) h
    ∙ ap (λ ts. v ∷ ts) (add_parts-printed w vs (ground (arith, k)) (ground (arith, k)))

-- The braces are removed, wherever they stand.
without_braces :
    (s : Bytes)
    → is_free_of 123 s ≡ true
    → is_free_of 125 s ≡ true
    → remove 125 (remove 123 (123 ∷ (s ++ 125 ∷ []))) ≡ s
unfolding remove
without_braces s h k =
    ap (remove 125) (remove-append 123 s (125 ∷ []) ∙ ap (λ t. t ++ 125 ∷ []) (remove-free 123 s h))
    ∙ remove-append 125 s (125 ∷ [])
    ∙ ap (λ t. t ++ []) (remove-free 125 s k)
    ∙ append-nil s

is_element-not_empty : (v t : Bytes) → is_element v ≡ true → is_empty (v ++ t) ≡ false
is_element-not_empty [] t h = absurd (ground (arith, h))
is_element-not_empty (c ∷ v) t h = refl

-- An array that Postgres prints in braces with commas between its elements is read as the list of them,
-- where the elements are not empty and have no brace, comma or white space.
pub pg2proto_array-printed :
    (vs : List Bytes)
    → all_elements vs ≡ true
    → pg2proto_array (123 ∷ (printed_elements vs ++ 125 ∷ [])) ≡ vs
unfolding pg2proto_array remove
pg2proto_array-printed [] h = refl
pg2proto_array-printed (v ∷ vs) h =
    let free : remove 125 (remove 123 (123 ∷ (printed_elements (v ∷ vs) ++ 125 ∷ [])))
        ≡ printed_elements (v ∷ vs) =
      without_braces (printed_elements (v ∷ vs))
        (printed_elements-free 123 (v ∷ vs) refl (λ w k. ground (arith, k)) h)
        (printed_elements-free 125 (v ∷ vs) refl (λ w k. ground (arith, k)) h) in
    ground (
      arith,
      free,
      is_element-not_empty v (more_elements vs) (ground (arith, h)),
      add_parts-printed v vs (ground (arith, h)) (ground (arith, h)),
    )
