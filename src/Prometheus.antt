-- ===== src/Prometheus.antt =====
-- libraries/bb_monitor_client_utils/prometheus_utils.cpp and
-- libraries/bb_monitor_srv_utils/avro_prometheus_utils.cpp: the text format of Prometheus. `D` stands
-- for `double`, `atof` for the C function, and `sort` for `std::sort` by the keys (what it promises is
-- Sorted.IsSort). A cursor is an `int`: texts are shorter than 2^31.
pub mod Sorted
pub mod Labels
pub mod Lines
pub mod Reordered
pub mod RoundTrip
mod Tests
use bb_monitor.Base.{
  ℕ, zero, suc, ◌+◌, ◌-◌, ◌*◌, Bool, true, false, ◌&&◌, ◌||◌, Option, none, some, List, [], ◌∷◌,
  ◌++◌, map, Bytes, codes, is_empty, ℤ, pos, negsuc, length, take, ltb, leb, ◌==◌, if◌then◌else◌,
}
use bb_monitor.Base.Text.{cut, drop_all, until}
use bb_monitor.Messages.{Label, Metric, double_value}

-- `find_first_not_of("\" ")`, as what stands from there on.
unfoldable pub drop_quotes : Bytes → Bytes
drop_quotes [] = []
drop_quotes (c ∷ s) = elim (c == 34 || c == 32) [ true ↦ drop_quotes s | false ↦ c ∷ s ]

unfoldable pub parse_bb_metrics_label : Bytes → Label
parse_bb_metrics_label s = elim (cut 61 s) [
  | none ↦ record { key = s; value = [] }
  | some (name, rest) ↦ elim (drop_quotes rest) [
    | [] ↦ record { key = name; value = [] }
    | c ∷ more ↦ elim (cut 34 more) [
      | none ↦ record { key = name; value = [] }
      | some (value, after) ↦ record { key = name; value = c ∷ value }
    ]
  ]
]

-- `std::replace(begin, end, ' ', '_')`
abbrev pub underscored : Bytes → Bytes
underscored = map (λ c. if c == 32 then 95 else c)

-- The label of the Avro version: spaces become underscores.
abbrev pub parse_prometheus_tag : Bytes → Label
parse_prometheus_tag s =
    let l = parse_bb_metrics_label s in
    record { key = underscored l.key; value = underscored l.value }

-- `operator<` of `std::string`.
abbrev pub bytes_lt : Bytes → Bytes → Bool
bytes_lt [] [] = false
bytes_lt [] (y ∷ ys) = true
bytes_lt (x ∷ xs) [] = false
bytes_lt (x ∷ xs) (y ∷ ys) = ltb x y || (x == y && bytes_lt xs ys)

-- `if (label.key().size()) result.push_back(label);`
abbrev pub push_named : List Label → Label → List Label
push_named ls l = elim l.key [ [] ↦ ls | _ ∷ _ ↦ ls ++ l ∷ [] ]

-- The loop over the tags, with a bound on its rounds: `rest` is the text from `cursor` on. What is cut
-- out has the place of the comma for its length, counted from the start of the text.
unfoldable pub tags_from : (Bytes → Label) → ℕ → ℕ → Bytes → List Label → List Label
tags_from parse zero cursor rest ls = ls
tags_from parse (suc n) cursor [] ls = ls
tags_from parse (suc n) cursor (c ∷ rest) ls = elim (cut 44 (c ∷ rest)) [
  | none ↦ push_named ls (parse (c ∷ rest))
  | some (before, after) ↦
      tags_from parse n (cursor + length before + 1) after
        (push_named ls (parse (take (cursor + length before) (c ∷ rest))))
]

abbrev pub job_labels : Bytes → Bytes → List Label
job_labels job_id instance_id =
    record { key = codes "job"; value = job_id }
    ∷ (if is_empty instance_id
        then []
        else record { key = codes "instance"; value = instance_id } ∷ [])

-- `atoll`: white space, a sign, digits. A number beyond 64 bits is undefined in C.
abbrev pub digits : ℕ → Bytes → ℕ
digits n [] = n
digits n (c ∷ s) = elim (leb 48 c && leb c 57) [ true ↦ digits (n * 10 + (c - 48)) s | false ↦ n ]

abbrev pub signed : Bytes → ℤ
signed [] = pos 0
signed (c ∷ s) = elim (c == 45) [
  | true ↦ elim (digits 0 s) [ zero ↦ pos 0 | suc n ↦ negsuc n ]
  | false ↦ pos (elim (c == 43) [ true ↦ digits 0 s | false ↦ digits 0 (c ∷ s) ])
]

abbrev pub atoll : Bytes → ℤ
atoll [] = pos 0
atoll (c ∷ s) = elim (c == 32 || (leb 9 c && leb c 13)) [ true ↦ atoll s | false ↦ signed (c ∷ s) ]

module _ (sort : List Label → List Label) where
  -- `parse_bb_metrics_labels` and `parse_prometheus_tags`, by the function for one tag.
  unfoldable pub parse_labels : (Bytes → Label) → Bytes → Bytes → Bytes → List Label
  parse_labels parse job_id instance_id s =
      sort (tags_from parse (suc (length s)) 0 s [] ++ job_labels job_id instance_id)

  abbrev pub parse_bb_metrics_labels : Bytes → Bytes → Bytes → List Label
  parse_bb_metrics_labels = parse_labels parse_bb_metrics_label

  abbrev pub parse_prometheus_tags : Bytes → Bytes → Bytes → List Label
  parse_prometheus_tags = parse_labels parse_prometheus_tag

module _ {D : Type 0} (atof : Bytes → D) where
  -- The value, the timestamp and the rest of the metric, from the text behind name and tags; `none` is
  -- "no value".
  unfoldable pub sampled : ℤ → Bytes → Bytes → List Label → Bytes → Option (Metric D)
  sampled now job_id name labels rest = elim (drop_all 32 rest) [
    | [] ↦ none
    | c ∷ more ↦
        let value = until 32 (c ∷ more) in
        let ts : Bytes = elim (cut 32 (c ∷ more)) [
          | none ↦ []
          | some (_, after) ↦ drop_all 32 after
        ] in
        some (record {
          ns = job_id;
          name = name;
          labels = labels;
          sample = double_value (atof (until 0 value));
          timestamp = if is_empty ts then now else atoll (until 0 ts);
        })
  ]

module _ {D : Type 0} (atof : Bytes → D) (sort : List Label → List Label) where
  -- The body of the loop over the lines, on a line that is not empty and no comment.
  unfoldable pub parse_line : ℤ → Bytes → Bytes → Bytes → Option (Metric D)
  parse_line now job_id instance_id line = elim (cut 123 line) [
    | some (name, rest) ↦ elim (cut 125 rest) [
      | none ↦ none
      | some (tags, after) ↦
          sampled atof now job_id name (parse_bb_metrics_labels sort job_id instance_id tags) after
    ]
    | none ↦ elim (cut 32 line) [
      | none ↦ none
      | some (name, rest) ↦ sampled atof now job_id name [] rest
    ]
  ]

  -- An empty line and a comment are skipped too.
  abbrev pub on_line : ℤ → Bytes → Bytes → Bytes → Option (Metric D)
  on_line now job_id instance_id [] = none
  on_line now job_id instance_id (c ∷ line) = elim (c == 35) [
    | true ↦ none
    | false ↦ parse_line now job_id instance_id (c ∷ line)
  ]

  -- The loop over the lines, with a bound on its rounds and the readings of the clock, one for each
  -- metric that is pushed.
  unfoldable pub lines_from : ℕ → (ℕ → ℤ) → Bytes → Bytes → Bytes → List (Metric D)
  lines_from zero now job_id instance_id s = []
  lines_from (suc n) now job_id instance_id s = elim (cut 10 s) [
    | none ↦ []
    | some (line, rest) ↦ elim (on_line (now 0) job_id instance_id line) [
      | none ↦ lines_from n now job_id instance_id rest
      | some m ↦ m ∷ lines_from n (λ i. now (suc i)) job_id instance_id rest
    ]
  ]

  unfoldable pub parse_prometheus_line_format_2_bb_metrics :
      (ℕ → ℤ) → Bytes → Bytes → Bytes → List (Metric D)
  parse_prometheus_line_format_2_bb_metrics now job_id instance_id s =
      lines_from (suc (length s)) now job_id instance_id s
