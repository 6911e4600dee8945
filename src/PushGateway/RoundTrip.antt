-- ===== src/PushGateway/RoundTrip.antt =====
-- A text of metric lines that is pushed for a job, and what the pushgateway makes of it.
use bb_monitor.Base.{
  ℕ, zero, suc, ◌<◌, ◌≡◌, refl, ◌∙◌, ◌⊎◌, inl, inr, Bool, true, false, ◌&&◌, Option, none, some,
  List, [], ◌∷◌, ◌++◌, Bytes, bytes_eq, codes, ℤ, length, length-append, arith, drop,
}
use bb_monitor.Base.Text.{cut, cut-append, cut-free, is_free_of}
use bb_monitor.Messages.{Label, Metric}
use bb_monitor.Prometheus.{lines_from, parse_prometheus_line_format_2_bb_metrics}
use bb_monitor.Prometheus.RoundTrip.{Row, render_row, is_row, row_metric, on_line-render}
use bb_monitor.Proxies.{HttpMethod, post, put, HttpRequest, created}
use bb_monitor.WriteProxy.{request_accepted}
use bb_monitor.PushGateway.{target_of, is_job_path, push_by, push_request_handler}

-- The lines, each with its end.
abbrev pub render_rows : List Row → Bytes
render_rows [] = []
render_rows (r ∷ rs) = render_row r ++ 10 ∷ render_rows rs

-- A line that is read back, and that holds no line feed.
abbrev pub all_rows : List Row → Bool
all_rows [] = true
all_rows (r ∷ rs) = (is_row r && is_free_of 10 (render_row r)) && all_rows rs

-- The path of a job, with an instance or without.
abbrev pub job_path : Bytes → Option Bytes → Bytes
job_path job none = codes "/metrics/job/" ++ job
job_path job (some instance_id) =
    codes "/metrics/job/" ++ (job ++ 47 ∷ (codes "instance" ++ 47 ∷ instance_id))

abbrev pub instance_of : Option Bytes → Bytes
instance_of none = []
instance_of (some instance_id) = instance_id

module _ {D : Type 0} (atof : Bytes → D) (sort : List Label → List Label) where
  -- The metrics of the lines, each with its own reading of the clock.
  abbrev pub row_metrics : (ℕ → ℤ) → Bytes → Bytes → List Row → List (Metric D)
  row_metrics now job_id instance_id [] = []
  row_metrics now job_id instance_id (r ∷ rs) =
      row_metric atof sort (now 0) job_id instance_id r
      ∷ row_metrics (λ i. now (suc i)) job_id instance_id rs

  lines_from-render :
      (n : ℕ) (now : ℕ → ℤ) (job_id instance_id : Bytes) (rs : List Row)
      → length (render_rows rs) < n
      → all_rows rs ≡ true
      → lines_from atof sort n now job_id instance_id (render_rows rs)
        ≡ row_metrics now job_id instance_id rs
  unfolding lines_from cut
  lines_from-render zero now job_id instance_id rs h k = absurd (omega (arith, h))
  lines_from-render (suc n) now job_id instance_id [] h k = refl
  lines_from-render (suc n) now job_id instance_id (r ∷ rs) h k =
      let line = on_line-render atof sort (now 0) job_id instance_id r (ground (arith, k)) in
      let found = cut-append 10 (render_row r) (render_rows rs) (ground (arith, k)) in
      let rest =
        lines_from-render n (λ i. now (suc i)) job_id instance_id rs
          (omega (arith, h, length-append (render_row r) (10 ∷ render_rows rs)))
          (ground (arith, k)) in
      ground (arith, found, line, rest)

-- The job is not empty and has no slash.
abbrev pub is_job : Bytes → Bool
is_job [] = false
is_job (c ∷ job) = is_free_of 47 (c ∷ job)

is_job-is_free_of : (job : Bytes) → is_job job ≡ true → is_free_of 47 job ≡ true
is_job-is_free_of [] h = refl
is_job-is_free_of (c ∷ job) h = h

target_of-some :
    (job instance_id : Bytes)
    → is_free_of 47 job ≡ true
    → target_of (job ++ 47 ∷ (codes "instance" ++ 47 ∷ instance_id)) ≡ some (job, instance_id)
target_of-some job instance_id h = ground (
  arith,
  cut-append 47 job (codes "instance" ++ 47 ∷ instance_id) h,
  cut-append 47 (codes "instance") instance_id refl,
)

target_of-none : (job : Bytes) → is_job job ≡ true → target_of job ≡ some (job, [])
target_of-none [] h = absurd (cc h)
target_of-none (c ∷ job) h = ground (arith, cut-free 47 (c ∷ job) h)

is_job_path-job_path :
    (job : Bytes) (instance : Option Bytes)
    → is_job job ≡ true
    → is_job_path (job_path job instance) ≡ true
unfolding bytes_eq
is_job_path-job_path [] instance h = absurd (cc h)
is_job_path-job_path (c ∷ job) none h = ground arith
is_job_path-job_path (c ∷ job) (some instance_id) h = ground arith

target_of-job_path :
    (job : Bytes) (instance : Option Bytes)
    → is_job job ≡ true
    → target_of (drop 13 (job_path job instance)) ≡ some (job, instance_of instance)
target_of-job_path job none h = target_of-none job h
target_of-job_path job (some instance_id) h =
    target_of-some job instance_id (is_job-is_free_of job h)

module _ {D : Type 0} (atof : Bytes → D) (sort : List Label → List Label) (now : ℕ → ℤ) where
  push_request_handler-push_by :
      (req : HttpRequest)
      → is_job_path req.path ≡ true
      → push_request_handler atof sort now req ≡ push_by atof sort now req.method req
  unfolding push_request_handler
  push_request_handler-push_by req h = ground (arith, h)

  -- A text of written lines, each with its end, that is pushed by POST or PUT to the path of a job, with
  -- an instance or without, is inserted line by line and in order, and answered with 201: each metric has
  -- the job for its namespace, the line's name and value, its time or else the clock's reading for this
  -- metric, and the tags of its braces with the labels of job and instance, as `std::sort` orders them
  -- (no labels where there are no braces). The job is not empty and has no slash. No line holds a line
  -- feed. A name has no `#`, and no `{` before braces; without braces it has no space, and the line no
  -- `{`. The keys of the tags are not empty and have no `=` and no comma; their values are not empty, do
  -- not start with a space, and have no quote and no comma; there is no `}` in the tags. Value and time
  -- are not empty and have no space.
  pub push_request_handler-render :
      (method : HttpMethod) (job : Bytes) (instance : Option Bytes) (encoding : Option Bytes)
      (rs : List Row)
      → (method ≡ post) ⊎ (method ≡ put)
      → is_job job ≡ true
      → all_rows rs ≡ true
      → push_request_handler atof sort now (record {
        method = method;
        path = job_path job instance;
        content_encoding = encoding;
        body = render_rows rs;
      })
        ≡ record {
          metrics = row_metrics atof sort now job (instance_of instance) rs;
          response = some created;
          handling = request_accepted;
        }
  unfolding parse_prometheus_line_format_2_bb_metrics
  push_request_handler-render method job instance encoding rs m h k =
      let req : HttpRequest = record {
        method = method;
        path = job_path job instance;
        content_encoding = encoding;
        body = render_rows rs;
      } in
      let lines =
        lines_from-render atof sort (suc (length (render_rows rs))) now job (instance_of instance)
          rs (omega arith) k in
      let target = target_of-job_path job instance h in
      push_request_handler-push_by req (is_job_path-job_path job instance h) ∙ elim m [
        | inl e ↦ ground (arith, e, target, lines)
        | inr e ↦ ground (arith, e, target, lines)
      ]
