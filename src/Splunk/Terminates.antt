-- ===== src/Splunk/Terminates.antt =====
-- The bound on the rounds of `parse_splunk_event` (splunk_utils.cpp) is enough.
use bb_monitor.Base.{
  ℕ, zero, suc, ◌<◌, ◌≡◌, Option, some, List, ◌++◌, Bytes, length, ℤ, arith, Option-cases, inl, inr,
}
use bb_monitor.Messages.{LogLine}
use bb_monitor.Datadog.{Rapidjson}
use bb_monitor.Splunk.{document_lines, events_from}

module _ {V D : Type 0} (j : Rapidjson V D) (parse_stream : Bytes → Option (V × Bytes))
    (members : V → List (Bytes × V)) (stod : Bytes → Option D) (log_id : Bytes → ℤ → Bytes) where
  -- If each document that is read takes a byte of the text, any two bounds above the length of the text
  -- give the same lines.
  pub events_from_enough :
      ((s : Bytes) (d : V) (rest : Bytes)
        → parse_stream s ≡ some (d, rest)
        → length rest < length s)
      → (n m : ℕ) (now : ℕ → ℤ) (s : Bytes) (result : List LogLine) → length s < n
      → length s < m
      → events_from j parse_stream members stod log_id n now s result
        ≡ events_from j parse_stream members stod log_id m now s result
  unfolding events_from
  events_from_enough takes zero m now s result h k = absurd (omega (arith, h))
  events_from_enough takes (suc n) zero now s result h k = absurd (omega (arith, k))
  events_from_enough takes (suc n) (suc m) now s result h k = elim (Option-cases (parse_stream s)) [
    | inl e ↦ ground (arith, e)
    | inr ((d, rest), e) ↦
        let shorter = takes s d rest e in
        elim (Option-cases (document_lines j parse_stream members stod log_id (now 0) d)) [
          | inl e' ↦ ground (arith, e, e')
          | inr (lines, e') ↦ ground (
            arith,
            e,
            e',
            events_from_enough takes n m (λ i. now (suc i)) rest (result ++ lines)
                (omega (arith, h, shorter)) (omega (arith, k, shorter)),
          )
        ]
  ]
