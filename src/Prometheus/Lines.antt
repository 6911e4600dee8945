-- ===== src/Prometheus/Lines.antt =====
-- The loop over the lines of prometheus_utils.cpp.
use bb_monitor.Base.{
  ℕ, zero, suc, ◌+◌, ◌<◌, ◌≡◌, refl, ap, ◌∙◌, none, some, List, [], ◌∷◌, ◌++◌, Bytes, ℤ, length,
  length-append, arith, Option-cases, inl, inr,
}
use mathlib.Core.Path.{fun_ext}
use bb_monitor.Base.Text.{cut, length-cut}
use bb_monitor.Messages.{Label, Metric}
use bb_monitor.Prometheus.{on_line, lines_from, parse_prometheus_line_format_2_bb_metrics}

-- A search that succeeds in a text succeeds at the same place in a longer one.
cut-longer :
    (c : ℕ) (s before rest more : Bytes)
    → cut c s ≡ some (before, rest)
    → cut c (s ++ more) ≡ some (before, rest ++ more)
unfolding cut
cut-longer c [] before rest more h = cc h
cut-longer c (x ∷ s) before rest more h = elim (Option-cases (cut c s)) [
  | inl e ↦ ground arith
  | inr ((b, r), e) ↦ ground (arith, e, cut-longer c s b r more e)
]

cut-last : (c : ℕ) (s more : Bytes) → cut c s ≡ none → cut c (s ++ c ∷ more) ≡ some (s, more)
unfolding cut
cut-last c [] more h = ground arith
cut-last c (x ∷ s) more h = ground (arith, h, cut-last c s more)

module _ {D : Type 0} (atof : Bytes → D) (sort : List Label → List Label)
    (job_id instance_id : Bytes) where
  -- Any two bounds above the length of the text give the same metrics.
  pub lines_from_enough :
      (n m : ℕ) (now : ℕ → ℤ) (s : Bytes)
      → length s < n
      → length s < m
      → lines_from atof sort n now job_id instance_id s
        ≡ lines_from atof sort m now job_id instance_id s
  unfolding lines_from
  lines_from_enough zero m now s h k = absurd (omega (arith, h))
  lines_from_enough (suc n) zero now s h k = absurd (omega (arith, k))
  lines_from_enough (suc n) (suc m) now s h k = elim (Option-cases (cut 10 s)) [
    | inl e ↦ ground (arith, e)
    | inr ((line, rest), e) ↦
        let shorter = length-cut 10 s line rest e in
        elim (Option-cases (on_line atof sort (now 0) job_id instance_id line)) [
          | inl f ↦ ground (
            arith,
            e,
            f,
            lines_from_enough n m now rest (omega (arith, h, shorter)) (omega (arith, k, shorter)),
          )
          | inr (x, f) ↦ ground (
            arith,
            e,
            f,
            lines_from_enough n m (λ i. now (suc i)) rest (omega (arith, h, shorter))
                (omega (arith, k, shorter)),
          )
        ]
  ]

  -- The clock's readings that are left after the metrics of a text.
  abbrev pub later : (ℕ → ℤ) → List (Metric D) → ℕ → ℤ
  later now ms i = now (length ms + i)

  later-nil : (now : ℕ → ℤ) → later now [] ≡ now
  later-nil now = fun_ext (λ i. ap now (omega arith))

  later-cons :
      (now : ℕ → ℤ) (m : Metric D) (ms : List (Metric D))
      → later now (m ∷ ms) ≡ later (λ i. now (suc i)) ms
  later-cons now m ms = fun_ext (λ i. ap now (omega arith))

  lines_from-nil : (n : ℕ) (now : ℕ → ℤ) → lines_from atof sort n now job_id instance_id [] ≡ []
  unfolding lines_from cut
  lines_from-nil zero now = refl
  lines_from-nil (suc n) now = refl

  lines_from-append :
      (n k : ℕ) (now : ℕ → ℤ) (s more : Bytes)
      → length s + suc (length more) < n
      → length more < k
      → let first = lines_from atof sort n now job_id instance_id (s ++ 10 ∷ []) in
        lines_from atof sort n now job_id instance_id (s ++ 10 ∷ more)
        ≡ first ++ lines_from atof sort k (later now first) job_id instance_id more
  unfolding lines_from
  lines_from-append zero k now s more h g = absurd (omega (arith, h))
  lines_from-append (suc n) k now s more h g = elim (Option-cases (cut 10 s)) [
    | inl e ↦ elim (Option-cases (on_line atof sort (now 0) job_id instance_id s)) [
      | inl f ↦ ground (
        arith,
        f,
        cut-last 10 s more e,
        cut-last 10 s [] e,
        lines_from-nil n now,
        later-nil now,
        lines_from_enough n k now more (omega (arith, h)) g,
      )
      | inr (m, f) ↦ ground (
        arith,
        f,
        cut-last 10 s more e,
        cut-last 10 s [] e,
        lines_from-nil n (λ i. now (suc i)),
        later-cons now m [],
        later-nil (λ i. now (suc i)),
        lines_from_enough n k (λ i. now (suc i)) more (omega (arith, h)) g,
      )
    ]
    | inr ((line, rest), e) ↦
        let shorter = length-cut 10 s line rest e in
        let fits : length rest + suc (length more) < n = omega (arith, h, shorter) in
        elim (Option-cases (on_line atof sort (now 0) job_id instance_id line)) [
          | inl f ↦ ground (
            arith,
            f,
            cut-longer 10 s line rest (10 ∷ more) e,
            cut-longer 10 s line rest (10 ∷ []) e,
            lines_from-append n k now rest more fits g,
          )
          | inr (m, f) ↦
              let first =
                lines_from atof sort n (λ i. now (suc i)) job_id instance_id (rest ++ 10 ∷ []) in
              ground (
                arith,
                f,
                cut-longer 10 s line rest (10 ∷ more) e,
                cut-longer 10 s line rest (10 ∷ []) e,
                later-cons now m first,
                lines_from-append n k (λ i. now (suc i)) rest more fits g,
              )
        ]
  ]

  -- The parser works line by line: the metrics of a text that is continued behind a line feed are those
  -- of the text up to there, and then those of the continuation, with the clock's readings that follow.
  pub parse_prometheus_line_format_2_bb_metrics-append :
      (now : ℕ → ℤ) (s more : Bytes)
      → let parse = parse_prometheus_line_format_2_bb_metrics atof sort in
        let first = parse now job_id instance_id (s ++ 10 ∷ []) in
        parse now job_id instance_id (s ++ 10 ∷ more)
        ≡ first ++ parse (later now first) job_id instance_id more
  unfolding parse_prometheus_line_format_2_bb_metrics
  parse_prometheus_line_format_2_bb_metrics-append now s more =
      let n = suc (length (s ++ 10 ∷ more)) in
      let size = length-append s (10 ∷ more) in
      let first_size = length-append s (10 ∷ []) in
      let same =
        lines_from_enough n (suc (length (s ++ 10 ∷ []))) now (s ++ 10 ∷ [])
          (omega (arith, size, first_size)) (omega arith) in
      lines_from-append n (suc (length more)) now s more (omega (arith, size)) (omega arith)
      ∙ ap
          (λ first.
            first
            ++ lines_from atof sort (suc (length more)) (later now first) job_id instance_id more)
          same
