-- ===== src/LogProxy/Line.antt =====
-- programs/client-proxies/bb-monitor-dd-log-proxy/main.cpp, `session::handle_line`: a log message out of
-- a line. `log_id` stands for the MD5 digest of the parts, written as a UUID.
pub mod RoundTrip
pub mod Throws
mod Tests
use bb_monitor.Base.{
  ℕ, zero, suc, Bool, true, false, ◌&&◌, Option, none, some, List, [], ◌∷◌, ◌++◌, map, Bytes, codes,
  ℤ, drop, length, ltb, ◌==◌,
}
use bb_monitor.Base.Text.{cut, until}
use bb_monitor.Messages.{Label, LogLine}
use bb_monitor.KvFilter.{Kv, KvFilter, kv_filter, kv_match}

-- The line is dropped, or inserted as a message, or `substr` throws `std::out_of_range`, which nothing
-- catches.
pub data Handled : Type 0 where
  dropped : Handled
  inserted : LogLine → Handled
  out_of_range : Handled

abbrev pub is_prefix : Bytes → Bytes → Bool
is_prefix [] s = true
is_prefix (c ∷ p) [] = false
is_prefix (c ∷ p) (x ∷ s) = c == x && is_prefix p s

-- `find(pattern)`, as the text behind the first place where the pattern stands.
unfoldable pub search_for : Bytes → Bytes → Option Bytes
search_for p [] = none
search_for p (x ∷ s) = elim (is_prefix p (x ∷ s)) [
  | true ↦ some (drop (length p) (x ∷ s))
  | false ↦ search_for p s
]

abbrev pub dd_kv_parser : KvFilter
dd_kv_parser = kv_filter (codes "\",") 58

abbrev pub kv_label : Kv → Label
kv_label t = record { key = t.key; value = t.val }

-- The next word, and what stands behind it, or the line is dropped.
abbrev pub next_word : Bytes → (Bytes → Bytes → Handled) → Handled
next_word s go = elim (cut 32 s) [ none ↦ dropped | some (word, rest) ↦ go word rest ]

-- `line_.substr(begin + n, end - begin - n)` two places behind a pattern that was found, up to a quote:
-- it throws if the line ends before, and takes the rest of the line if there is no quote.
abbrev pub quoted : Bytes → (Bytes → Handled) → Handled
quoted [] go = out_of_range
quoted (x ∷ []) go = out_of_range
quoted (x ∷ (y ∷ s)) go = go (until 34 s)

module _ (log_id : Bytes → Bytes) where
  -- From the labels in brackets on.
  unfoldable pub handle_labels : ℤ → Bytes → Bytes → Bytes → Handled
  handle_labels now host source rest = elim (search_for (codes "dd ddsource") rest) [
    | none ↦ dropped
    | some s ↦ quoted s (λ ddsource. elim (search_for (codes "dd ddsourcecategory") rest) [
      | none ↦ dropped
      | some t ↦ quoted t (λ ddsource_category. elim (search_for (codes "dd ddtags=") rest) [
        | none ↦ dropped
        | some u ↦ elim (cut 93 u) [
          | none ↦ dropped
          | some (ddtags, line) ↦ inserted (record {
            id = log_id (ddsource ++ (ddsource_category ++ line));
            agent = codes "datadog";
            host = host;
            source = source;
            labels =
                record { key = codes "ddsource"; value = ddsource }
                ∷ record { key = codes "ddsourcecategory"; value = ddsource_category }
                ∷ map kv_label (kv_match dd_kv_parser ddtags).1;
            timestamp_ns = now;
            line = line;
          })
        ]
      ])
    ])
  ]

  unfoldable pub handle_line : ℤ → Bytes → Handled
  handle_line now line = next_word line (λ api_key a. next_word a (λ priority b.
      next_word b (λ collection_time c. next_word c (λ host d. next_word d (λ source e.
        next_word e
          (λ unknown_1 f. next_word f (λ unknown_2 rest. handle_labels now host source rest)))))))
