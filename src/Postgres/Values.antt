-- ===== src/Postgres/Values.antt =====
-- libraries/bb_monitor_srv_utils/pg_utils.cpp: the values of a result, and texts without the characters
-- that end a literal of SQL.
use bb_monitor.Base.{
  ℕ, ◌≡◌, refl, Bool, true, false, ◌&&◌, ◌||◌, not, Option, none, some, [], ◌∷◌, Bytes, ℤ, arith,
  ◌==◌, if◌then◌else◌,
}
use bb_monitor.Prometheus.{atoll}

-- `PQfnumber`, `PQgetisnull` and `PQgetvalue` of libpq.
pub record PgResult (R : Type 0) : Type 0 where
  pub fnumber : R → Bytes → Option ℕ
  pub get_is_null : R → ℕ → ℕ → Bool
  pub get_value : R → ℕ → ℕ → Bytes

module _ {R : Type 0} (pq : PgResult R) (pgres : R) (row : ℕ) (column_name : Bytes) where
  -- The value that is read as `read` says. The outer `none` is the exception, the inner one a null.
  abbrev pub pg_get_value_by : {A : Type 0} → (Bytes → A) → Option (Option A)
  pg_get_value_by read = elim (pq.fnumber pgres column_name) [
    | none ↦ none
    | some column_index ↦ some (
        if pq.get_is_null pgres row column_index
        then none
        else some (read (pq.get_value pgres row column_index)))
  ]

  abbrev pub pg_get_string : Option (Option Bytes)
  pg_get_string = pg_get_value_by (λ s. s)

  -- `atoi` and `atol` of a number within their bounds.
  abbrev pub pg_get_int32 : Option (Option ℤ)
  pg_get_int32 = pg_get_value_by atoll

  abbrev pub pg_get_int64 : Option (Option ℤ)
  pg_get_int64 = pg_get_value_by atoll

  -- `val[0]` of an empty text is its end, a zero.
  abbrev pub is_true : Bytes → Bool
  is_true [] = false
  is_true (c ∷ s) = c == 116 || (c == 84 || c == 49)

  abbrev pub pg_get_bool : Option (Option Bool)
  pg_get_bool = pg_get_value_by is_true

-- `"`, `'`, and the ends of line and of field.
abbrev pub is_bad_sql_char : ℕ → Bool
is_bad_sql_char c = c == 34 || (c == 39 || (c == 13 || (c == 10 || c == 9)))

unfoldable pub sql_strip_bad_chars : Bytes → Bytes
sql_strip_bad_chars [] = []
sql_strip_bad_chars (c ∷ s) =
    let rest = sql_strip_bad_chars s in if is_bad_sql_char c then rest else c ∷ rest

abbrev pub has_no_bad_char : Bytes → Bool
has_no_bad_char [] = true
has_no_bad_char (c ∷ s) = not (is_bad_sql_char c) && has_no_bad_char s

-- What is left of a text has none of the characters, and a text without them is left whole.
pub sql_strip_bad_chars_clean :
    (s : Bytes)
    → (has_no_bad_char (sql_strip_bad_chars s) ≡ true)
      × (has_no_bad_char s ≡ true → sql_strip_bad_chars s ≡ s)
unfolding sql_strip_bad_chars
sql_strip_bad_chars_clean [] = (refl, λ h. refl)
sql_strip_bad_chars_clean (c ∷ s) =
    let (clean, whole) = sql_strip_bad_chars_clean s in
    (ground (arith, clean), λ h. ground (arith, h, whole (ground (arith, h))))
