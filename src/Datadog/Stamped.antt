-- ===== src/Datadog/Stamped.antt =====
-- The timestamps of `parse_datadog_check_run2pb` (pb_json_parsing.cpp).
use bb_monitor.Base.{
  ℕ, zero, suc, ◌≡◌, ◌⊎◌, inl, inr, some, List, [], ◌∷◌, Bytes, codes, ℤ, pos, arith, Option-cases,
  get_elem?,
}
use bb_monitor.Messages.{Metric}
use bb_monitor.Datadog.{Rapidjson, int_at}
use bb_monitor.Datadog.Checks.{checks_of, pb_check, pb_checks, parse_datadog_check_run2pb}

module _ {V D : Type 0} (j : Rapidjson V D) where
  timestamp-pb_check :
      (now : ℤ) (c : V) (m : Metric D)
      → pb_check j now c ≡ some m
      → (m.timestamp ≡ pos 1000) ⊎ (m.timestamp ≡ now)
  timestamp-pb_check now c m h = elim (Option-cases (int_at j (codes "timestamp") c)) [
    | inl e ↦ inr (ground (arith, h, e))
    | inr (n, e) ↦ inl (ground (arith, h, e))
  ]

  timestamp-pb_checks :
      (checks : List V) (now : ℕ → ℤ) (i : ℕ) (m : Metric D)
      → get_elem? (pb_checks j now checks) i ≡ some m
      → (m.timestamp ≡ pos 1000) ⊎ (m.timestamp ≡ now i)
  unfolding pb_checks
  timestamp-pb_checks [] now i m h = absurd (cc h)
  timestamp-pb_checks (c ∷ checks) now zero m h = elim (Option-cases (pb_check j (now 0) c)) [
    | inl e ↦ timestamp-pb_checks checks now 0 m (ground (arith, h, e))
    | inr (m1, e) ↦ timestamp-pb_check (now 0) c m (ground (arith, h, e))
  ]
  timestamp-pb_checks (c ∷ checks) now (suc i) m h = elim (Option-cases (pb_check j (now 0) c)) [
    | inl e ↦ timestamp-pb_checks checks now (suc i) m (ground (arith, h, e))
    | inr (m1, e) ↦ timestamp-pb_checks checks (λ k. now (suc k)) i m (ground (arith, h, e))
  ]

  -- Every metric made of a check is stamped one second after the epoch or with the reading of the clock
  -- for it, whatever time the check itself says.
  pub timestamp-parse_datadog_check_run2pb :
      (now : ℕ → ℤ) (buffer : Bytes) (i : ℕ) (m : Metric D)
      → get_elem? (parse_datadog_check_run2pb j now buffer) i ≡ some m
      → (m.timestamp ≡ pos 1000) ⊎ (m.timestamp ≡ now i)
  unfolding parse_datadog_check_run2pb
  timestamp-parse_datadog_check_run2pb now buffer i m h =
      timestamp-pb_checks (checks_of j buffer) now i m h
