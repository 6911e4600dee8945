-- ===== src/KvFilter.antt =====
-- libraries/bb_monitor_client_utils/kv_filter.{h,cpp}: key=value pairs in a text. A position in the
-- text is what stands behind it; `cursor` is an `int`, so texts are shorter than 2^31.
pub mod Terminates
pub mod RoundTrip
mod Tests
use bb_monitor.Base.{
  ℕ, zero, suc, Bool, true, false, Option, none, some, List, [], ◌∷◌, ◌++◌, Bytes, codes, length,
  ◌==◌, if◌then◌else◌,
}

pub record Kv : Type 0 where
  pub key : Bytes
  pub val : Bytes

pub record KvFilter : Type 0 where
  pub separators : Bytes
  pub kv_separator : ℕ

abbrev pub kv_filter : Bytes → ℕ → KvFilter
kv_filter term_separators kv_separator = record {
  separators = term_separators ++ kv_separator ∷ [];
  kv_separator = kv_separator;
}

abbrev pub contains : ℕ → Bytes → Bool
contains c [] = false
contains c (d ∷ ds) = if d == c then true else contains c ds

-- `find_first_of`: the text before the first separator, the separator, and the text behind it.
unfoldable pub find_first_of : Bytes → Bytes → Option (Bytes × ℕ × Bytes)
find_first_of separators [] = none
find_first_of separators (c ∷ s) = elim (contains c separators) [
  | true ↦ some ([], c, s)
  | false ↦ elim (find_first_of separators s) [
    | none ↦ none
    | some (before, d, rest) ↦ some (c ∷ before, d, rest)
  ]
]

-- The loop of `match` from a position, with a bound on its rounds.
unfoldable pub match_from : KvFilter → ℕ → Bytes → List Kv → List Kv
match_from f zero s result = result
match_from f (suc n) s result = elim (find_first_of f.separators s) [
  | none ↦ result
  | some (first, c, rest) ↦ elim (c == f.kv_separator) [
    | false ↦ match_from f n rest result
    | true ↦ elim (find_first_of f.separators rest) [
      | none ↦ result ++ record { key = first; val = rest } ∷ []
      | some (second, d, rest') ↦
          match_from f n rest' (result ++ record { key = first; val = second } ∷ [])
    ]
  ]
]

abbrev pub match_code : List Kv → ℕ
match_code [] = 1
match_code (kv ∷ kvs) = 0

pub kv_match : KvFilter → Bytes → ℕ × List Kv
kv_match f s = let result = match_from f (suc (length s)) s [] in (match_code result, result)
