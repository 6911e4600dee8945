-- ===== src/Datadog/Points.antt =====
-- The points of a series, as `parse_datadog_series2pb` (pb_json_parsing.cpp) reads them.
use bb_monitor.Base.{
  ◌≡◌, refl, true, Option, none, some, List, [], ◌∷◌, map, Bytes, codes, ℤ, arith, Option-cases,
  inl, inr,
}
use bb_monitor.Messages.{Metric, double_value}
use bb_monitor.Datadog.{Rapidjson, pair_of, as_pair, string_at, array_at, seconds_to_ms}
use bb_monitor.Datadog.Pb.{two_of, array_of_two, pb_point, pb_points, pb_start, pb_serie}

two_of-pair_of : {V D : Type 0} (j : Rapidjson V D) (vs : List V) → two_of j vs ≡ pair_of j vs
two_of-pair_of j [] = refl
two_of-pair_of j (t ∷ []) = refl
two_of-pair_of j (t ∷ (v ∷ [])) = refl
two_of-pair_of j (t ∷ (v ∷ (w ∷ vs))) = ground arith

pub array_of_two-as_pair :
    {V D : Type 0} (j : Rapidjson V D) (pa : V) → array_of_two j pa ≡ as_pair j pa
array_of_two-as_pair j pa = elim (Option-cases (j.as_array pa)) [
  | inl e ↦ ground (arith, e)
  | inr (vs, e) ↦ ground (arith, e, two_of-pair_of j vs)
]

abbrev pub at_point : {D : Type 0} → Metric D → ℤ × D → Metric D
at_point m (n, d) = record m { timestamp = seconds_to_ms n; sample = double_value d }

module _ {V D : Type 0} (j : Rapidjson V D) where
  abbrev pub int_and_double : V × V → Option (ℤ × D)
  int_and_double (t, v) = elim (j.as_int t) [
    | none ↦ none
    | some n ↦ elim (j.as_double v) [ none ↦ none | some d ↦ some (n, d) ]
  ]

  -- A point of a time in seconds and a value.
  abbrev pub time_and_value : V → Option (ℤ × D)
  time_and_value pa = elim (as_pair j pa) [ none ↦ none | some p ↦ int_and_double p ]

  pb_point-at_point :
      (m : Metric D) (pa : V) (q : ℤ × D)
      → time_and_value pa ≡ some q
      → (p : V × V) × (as_pair j pa ≡ some p) × (pb_point j m p ≡ at_point m q)
  pb_point-at_point m pa (n, d) h = elim (Option-cases (as_pair j pa)) [
    | inl e ↦ absurd (ground (arith, h, e))
    | inr ((t, v), e) ↦ ((t, v), e, ground (arith, h, e))
  ]

  pb_points-at_point :
      (points : List V) (m : Metric D) (ps : List (ℤ × D))
      → map time_and_value points ≡ map some ps
      → pb_points j m points ≡ map (at_point m) ps
  unfolding pb_points
  pb_points-at_point [] m [] h = refl
  pb_points-at_point [] m (q ∷ ps) h = absurd (cc h)
  pb_points-at_point (pa ∷ points) m [] h = absurd (cc h)
  pb_points-at_point (pa ∷ points) m (q ∷ ps) h =
      let (p, e, same) = pb_point-at_point m pa q (ground (arith, h)) in
      ground (
        arith,
        e,
        array_of_two-as_pair j pa,
        same,
        pb_points-at_point points (at_point m q) ps (ground (arith, h)),
      )

  -- A series that is an object with a text for a metric name, and whose points are all a time in whole
  -- seconds and a floating-point value, gives one metric for each point, in order, with this time in
  -- milliseconds and this value; namespace, name and labels are those of the series.
  pub pb_serie-at_point :
      (s : V) (raw_name : Bytes) (ps : List (ℤ × D))
      → j.is_object s ≡ true
      → string_at j (codes "metric") s ≡ some raw_name
      → map time_and_value (array_at j (codes "points") s) ≡ map some ps
      → pb_serie j s ≡ map (at_point (pb_start j raw_name s)) ps
  pb_serie-at_point s raw_name ps object name read = ground (
    arith,
    object,
    name,
    pb_points-at_point (array_at j (codes "points") s) (pb_start j raw_name s) ps read,
  )
