-- ===== src/KvFilter/RoundTrip.antt =====
-- What kv_filter.cpp finds in a text that was written as key=value pairs.
use bb_monitor.Base.{
  ℕ, zero, suc, ◌<◌, ◌≤◌, ◌≡◌, refl, ap, Bool, true, ◌&&◌, not, none, some, List, [], ◌∷◌, ◌++◌,
  Bytes, length, length-append, arith, append_assoc, append-nil, ◌==◌, ◌∙◌, false,
}
use bb_monitor.KvFilter.{Kv, KvFilter, contains, find_first_of, match_from, match_code, kv_match}

-- No byte of the text is a separator.
abbrev pub is_plain : Bytes → Bytes → Bool
is_plain separators [] = true
is_plain separators (c ∷ s) = not (contains c separators) && is_plain separators s

abbrev pub all_plain : Bytes → List Kv → Bool
all_plain separators [] = true
all_plain separators (kv ∷ kvs) =
    (is_plain separators kv.key && is_plain separators kv.val) && all_plain separators kvs

-- The pairs, each written with the key's separator, with a term separator between them.
abbrev pub render : ℕ → ℕ → List Kv → Bytes
render term eq [] = []
render term eq (kv ∷ []) = kv.key ++ eq ∷ kv.val
render term eq (kv ∷ (next ∷ kvs)) = kv.key ++ eq ∷ (kv.val ++ term ∷ render term eq (next ∷ kvs))

find_first_of-plain :
    (separators s : Bytes) → is_plain separators s ≡ true → find_first_of separators s ≡ none
unfolding find_first_of
find_first_of-plain separators [] h = refl
find_first_of-plain separators (c ∷ s) h = ground (arith, h, find_first_of-plain separators s)

find_first_of-append :
    (separators s : Bytes) (c : ℕ) (rest : Bytes)
    → is_plain separators s ≡ true
    → contains c separators ≡ true
    → find_first_of separators (s ++ c ∷ rest) ≡ some (s, c, rest)
unfolding find_first_of
find_first_of-append separators [] c rest h k = ground (arith, k)
find_first_of-append separators (x ∷ s) c rest h k =
    ground (arith, h, k, find_first_of-append separators s c rest)

module _ (f : KvFilter) (term : ℕ) (eq_in : contains f.kv_separator f.separators ≡ true)
    (term_in : contains term f.separators ≡ true) where
  match_from-render :
      (n : ℕ) (kvs result : List Kv)
      → all_plain f.separators kvs ≡ true
      → length kvs < n
      → match_from f n (render term f.kv_separator kvs) result ≡ result ++ kvs
  unfolding match_from
  match_from-render zero kvs result h k = absurd (omega (arith, k))
  match_from-render (suc n) [] result h k =
      ground (arith, find_first_of-plain f.separators [] refl, append-nil result)
  match_from-render (suc n) (kv ∷ []) result h k = ground (
    arith,
    h,
    find_first_of-append f.separators kv.key f.kv_separator kv.val,
    eq_in,
    find_first_of-plain f.separators kv.val,
  )
  match_from-render (suc n) (kv ∷ (next ∷ kvs)) result h k =
      let later = render term f.kv_separator (next ∷ kvs) in
      ground (
        arith,
        h,
        eq_in,
        term_in,
        find_first_of-append f.separators kv.key f.kv_separator (kv.val ++ term ∷ later),
        find_first_of-append f.separators kv.val term later,
        match_from-render n (next ∷ kvs) (result ++ kv ∷ []) (ground (arith, h)) (omega (arith, k)),
        append_assoc result (kv ∷ []) (next ∷ kvs),
      )

  length-render : (kvs : List Kv) → length kvs ≤ length (render term f.kv_separator kvs)
  length-render [] = omega arith
  length-render (kv ∷ []) = omega (arith, length-append kv.key (f.kv_separator ∷ kv.val))
  length-render (kv ∷ (next ∷ kvs)) =
      let later = render term f.kv_separator (next ∷ kvs) in
      omega (
        arith,
        length-append kv.key (f.kv_separator ∷ (kv.val ++ term ∷ later)),
        length-append kv.val (term ∷ later),
        length-render (next ∷ kvs),
      )

-- Pairs whose keys and values hold no separator, written with a term separator of the filter between
-- them, are found again: all of them, in order, empty ones too; the code is 1 for no pairs, else 0.
pub kv_match-render :
    (f : KvFilter) (term : ℕ) (kvs : List Kv)
    → contains f.kv_separator f.separators ≡ true
    → contains term f.separators ≡ true
    → all_plain f.separators kvs ≡ true
    → kv_match f (render term f.kv_separator kvs) ≡ (match_code kvs, kvs)
unfolding kv_match
kv_match-render f term kvs eq_in term_in h =
    let s = render term f.kv_separator kvs in
    let found =
      match_from-render f term eq_in term_in (suc (length s)) kvs [] h
        (omega (arith, length-render f term eq_in term_in kvs)) in
    ap (λ r. (match_code r, r)) found

-- The same for pairs between two separators, as in a quoted list.
module _ (f : KvFilter) (term around : ℕ) (eq_in : contains f.kv_separator f.separators ≡ true)
    (term_in : contains term f.separators ≡ true) (around_in : contains around f.separators ≡ true)
    (differs : (around == f.kv_separator) ≡ false) where
  match_from-nil : (n : ℕ) (result : List Kv) → match_from f n [] result ≡ result
  unfolding match_from find_first_of
  match_from-nil zero result = refl
  match_from-nil (suc n) result = refl

  match_from-closed :
      (n : ℕ) (kvs result : List Kv)
      → all_plain f.separators kvs ≡ true
      → length kvs < n
      → match_from f n (render term f.kv_separator kvs ++ around ∷ []) result ≡ result ++ kvs
  unfolding match_from
  match_from-closed zero kvs result h k = absurd (omega (arith, k))
  match_from-closed (suc n) [] result h k = ground (
    arith,
    find_first_of-append f.separators [] around [] refl around_in,
    match_from-nil n result,
    append-nil result,
  )
  match_from-closed (suc n) (kv ∷ []) result h k = ground (
    arith,
    h,
    append_assoc kv.key (f.kv_separator ∷ kv.val) (around ∷ []),
    find_first_of-append f.separators kv.key f.kv_separator (kv.val ++ around ∷ []),
    eq_in,
    find_first_of-append f.separators kv.val around [],
    match_from-nil n (result ++ kv ∷ []),
  )
  match_from-closed (suc n) (kv ∷ (next ∷ kvs)) result h k =
      let later = render term f.kv_separator (next ∷ kvs) in
      ground (
        arith,
        h,
        eq_in,
        term_in,
        append_assoc kv.key (f.kv_separator ∷ (kv.val ++ term ∷ later)) (around ∷ []),
        append_assoc kv.val (term ∷ later) (around ∷ []),
        find_first_of-append f.separators kv.key f.kv_separator
            (kv.val ++ term ∷ (later ++ around ∷ [])),
        find_first_of-append f.separators kv.val term (later ++ around ∷ []),
        match_from-closed n (next ∷ kvs) (result ++ kv ∷ []) (ground (arith, h)) (omega (arith, k)),
        append_assoc result (kv ∷ []) (next ∷ kvs),
      )

  match_from-opened :
      (n : ℕ) (s : Bytes) (result : List Kv)
      → match_from f (suc n) (around ∷ s) result ≡ match_from f n s result
  unfolding match_from
  match_from-opened n s result =
      ground (arith, differs, find_first_of-append f.separators [] around s refl around_in)

  pub kv_match-quoted :
      (kvs : List Kv)
      → all_plain f.separators kvs ≡ true
      → (kv_match f (around ∷ (render term f.kv_separator kvs ++ around ∷ []))).1 ≡ kvs
  unfolding kv_match
  kv_match-quoted kvs h =
      let s = render term f.kv_separator kvs in
      match_from-opened (suc (length (s ++ around ∷ []))) (s ++ around ∷ []) []
      ∙ match_from-closed (suc (length (s ++ around ∷ []))) kvs [] h
          (omega (arith, length-append s (around ∷ []), length-render f term eq_in term_in kvs))
