-- ===== src/Prometheus/RoundTrip.antt =====
-- A line of the text format (prometheus_utils.cpp) that was written with name, tags, value and time.
use bb_monitor.Base.{
  Option, none, ◌&&◌, inl, inr, Option-cases, append-nil, append_assoc, ℕ, ◌≡◌, refl, Bool, true,
  false, some, List, [], ◌∷◌, ◌++◌, Bytes, ℤ, arith, ◌==◌, ◌∙◌,
}
use bb_monitor.Base.Text.{cut-append, cut-free, drop_all, until, is_free_of}
use bb_monitor.Messages.{Label, Metric, double_value}
use bb_monitor.Prometheus.{atoll, sampled, parse_line, on_line, job_labels}
use bb_monitor.Prometheus.Labels.{all_tags, render_tags, parse_labels-render}

-- Text that is not empty and has no space.
abbrev pub is_word : Bytes → Bool
is_word [] = false
is_word (c ∷ s) = is_free_of 32 (c ∷ s)

-- A line to be written: the braces with the tags and the time may be missing.
pub record Row : Type 0 where
  pub name : Bytes
  pub labels : Option (List Label)
  pub value : Bytes
  pub ts : Option Bytes

abbrev pub render_braces : Option (List Label) → Bytes
render_braces none = []
render_braces (some ls) = 123 ∷ (render_tags ls ++ 125 ∷ [])

abbrev pub render_time : Option Bytes → Bytes
render_time none = []
render_time (some ts) = 32 ∷ ts

-- name value, name{tags} value, name value time or name{tags} value time
abbrev pub render_row : Row → Bytes
render_row r = r.name ++ (render_braces r.labels ++ 32 ∷ (r.value ++ render_time r.ts))

abbrev pub is_time : Option Bytes → Bool
is_time none = true
is_time (some ts) = is_word ts

-- With braces, there is no `{` in the name and no `}` in the tags; without them, no space in the name,
-- and no `{` in the line.
abbrev pub is_headed : Row → Bool
is_headed r = elim r.labels [
  | none ↦ is_free_of 32 r.name && is_free_of 123 (render_row r)
  | some ls ↦ is_free_of 123 r.name && (all_tags ls && is_free_of 125 (render_tags ls))
]

-- Nor is there a `#` in the name, and value and time are words.
abbrev pub is_row : Row → Bool
is_row r = is_headed r && (is_free_of 35 r.name && (is_word r.value && is_time r.ts))

drop_all-cons : (c : ℕ) (s : Bytes) → (c == 32) ≡ false → drop_all 32 (c ∷ s) ≡ c ∷ s
unfolding drop_all
drop_all-cons c s h = ground (arith, h)

drop_all-space : (s : Bytes) → drop_all 32 (32 ∷ s) ≡ drop_all 32 s
unfolding drop_all
drop_all-space s = refl

abbrev pub time_of : ℤ → Option Bytes → ℤ
time_of now none = now
time_of now (some ts) = atoll (until 0 ts)

module _ {D : Type 0} (atof : Bytes → D) where
  sampled-render :
      (now : ℤ) (job_id name : Bytes) (ls : List Label) (value : Bytes) (ts : Option Bytes)
      → is_word value ≡ true
      → is_time ts ≡ true
      → sampled atof now job_id name ls (value ++ render_time ts)
        ≡ some (record {
          ns = job_id;
          name = name;
          labels = ls;
          sample = double_value (atof (until 0 value));
          timestamp = time_of now ts;
        })
  unfolding sampled
  sampled-render now job_id name ls [] ts h k = cc h
  sampled-render now job_id name ls (c ∷ v) none h k =
      ground (arith, h, append-nil v, drop_all-cons c v, cut-free 32 (c ∷ v) h)
  sampled-render now job_id name ls (c ∷ v) (some []) h k = cc k
  sampled-render now job_id name ls (c ∷ v) (some (d ∷ t)) h k = ground (
    arith,
    h,
    k,
    drop_all-cons c (v ++ 32 ∷ d ∷ t),
    cut-append 32 (c ∷ v) (d ∷ t),
    drop_all-cons d t,
  )

  sampled-space :
      (now : ℤ) (job_id name : Bytes) (ls : List Label) (rest : Bytes)
      → sampled atof now job_id name ls (32 ∷ rest) ≡ sampled atof now job_id name ls rest
  unfolding sampled
  sampled-space now job_id name ls rest = ground (arith, drop_all-space rest)

module _ {D : Type 0} (atof : Bytes → D) (sort : List Label → List Label) where
  abbrev pub row_labels : Bytes → Bytes → Option (List Label) → List Label
  row_labels job_id instance_id none = []
  row_labels job_id instance_id (some ls) = sort (ls ++ job_labels job_id instance_id)

  -- The metric of a line.
  abbrev pub row_metric : ℤ → Bytes → Bytes → Row → Metric D
  row_metric now job_id instance_id r = record {
    ns = job_id;
    name = r.name;
    labels = row_labels job_id instance_id r.labels;
    sample = double_value (atof (until 0 r.value));
    timestamp = time_of now r.ts;
  }

  parse_line-render :
      (now : ℤ) (job_id instance_id : Bytes) (r : Row)
      → is_row r ≡ true
      → parse_line atof sort now job_id instance_id (render_row r)
        ≡ some (row_metric now job_id instance_id r)
  unfolding parse_line
  parse_line-render now job_id instance_id r h = elim (Option-cases r.labels) [
    | inl e ↦
        let behind = r.value ++ render_time r.ts in
        ground (
          arith,
          h,
          e,
          cut-free 123 (render_row r),
          cut-append 32 r.name behind,
          sampled-render atof now job_id r.name [] r.value r.ts,
        )
    | inr (ls, e) ↦
        let behind = r.value ++ render_time r.ts in
        ground (
          arith,
          h,
          e,
          append_assoc (render_tags ls) (125 ∷ []) (32 ∷ behind),
          cut-append 123 r.name (render_tags ls ++ 125 ∷ 32 ∷ behind),
          cut-append 125 (render_tags ls) (32 ∷ behind),
          parse_labels-render sort job_id instance_id ls,
          sampled-space atof now job_id r.name (sort (ls ++ job_labels job_id instance_id)) behind,
          sampled-render atof now job_id r.name (sort (ls ++ job_labels job_id instance_id)) r.value
              r.ts,
        )
  ]

  on_line-cons :
      (now : ℤ) (job_id instance_id name rest : Bytes) (c : ℕ)
      → is_free_of 35 name ≡ true
      → (c == 35) ≡ false
      → on_line atof sort now job_id instance_id (name ++ c ∷ rest)
        ≡ parse_line atof sort now job_id instance_id (name ++ c ∷ rest)
  on_line-cons now job_id instance_id [] rest c h k = ground (arith, k)
  on_line-cons now job_id instance_id (x ∷ name) rest c h k = ground (arith, h)

  on_line-parse_line :
      (now : ℤ) (job_id instance_id : Bytes) (r : Row)
      → is_free_of 35 r.name ≡ true
      → on_line atof sort now job_id instance_id (render_row r)
        ≡ parse_line atof sort now job_id instance_id (render_row r)
  on_line-parse_line now job_id instance_id r h = elim (Option-cases r.labels) [
    | inl e ↦
        rw e (on_line-cons now job_id instance_id r.name (r.value ++ render_time r.ts) 32 h refl)
    | inr (ls, e) ↦ rw e (
        on_line-cons now job_id instance_id r.name
          ((render_tags ls ++ 125 ∷ []) ++ 32 ∷ (r.value ++ render_time r.ts)) 123 h refl)
  ]

  -- A written line is read back, with its braces or without, and with its time or without: the job for
  -- namespace, the name, the value, and the time or else the reading of the clock; the labels are those
  -- of the braces with the labels for job and instance, as `std::sort` orders them, and none if there
  -- are no braces. The name has no `#`, and no `{` before braces; without braces it has no space, and
  -- the line no `{`. The keys of the tags are not empty and have no `=` and no comma; their values are
  -- not empty, do not start with a space, and have no quote and no comma; there is no `}` in the tags.
  -- The value and the time are not empty and have no space.
  pub on_line-render :
      (now : ℤ) (job_id instance_id : Bytes) (r : Row)
      → is_row r ≡ true
      → on_line atof sort now job_id instance_id (render_row r)
        ≡ some (row_metric now job_id instance_id r)
  on_line-render now job_id instance_id r h =
      on_line-parse_line now job_id instance_id r (ground (arith, h))
      ∙ parse_line-render now job_id instance_id r h
