-- ===== src/ClientSink/Bundles.antt =====
-- The loops of the client sinks (bb_metric_sink.cpp, bb_log_sink.cpp, bb_intake_sink.cpp): what filling
-- a bundle and putting its events back do to the queue.
use bb_monitor.Base.{
  ℕ, zero, suc, ◌+◌, ◌≡◌, ◌≤◌, refl, ap, ◌∙◌, Option, none, some, List, [], ◌∷◌, ◌++◌, length, take,
  drop, arith, append_assoc, append-nil, length-append,
}
use bb_monitor.ClientSink.{with_value, fill, requeue}

module _ {M : Type 0} where
  -- The values that a list of events carries.
  abbrev pub values : List (Option M) → List M
  values [] = []
  values (none ∷ es) = values es
  values (some m ∷ es) = m ∷ values es

  abbrev pub tally : (Option M → ℕ) → List (Option M) → ℕ
  tally w [] = 0
  tally w (e ∷ es) = w e + tally w es

  pub tally-append :
      (w : Option M → ℕ) (xs ys : List (Option M)) → tally w (xs ++ ys) ≡ tally w xs + tally w ys
  tally-append w [] ys = omega arith
  tally-append w (x ∷ xs) ys = omega (arith, tally-append w xs ys)

  pub tally-requeue :
      (w : Option M → ℕ) (es q : List (Option M)) → tally w (requeue es q) ≡ tally w es + tally w q
  tally-requeue w [] q = omega arith
  tally-requeue w (e ∷ es) q = omega (arith, tally-requeue w es (e ∷ q))

  pub tally-take-drop :
      (w : Option M → ℕ) (n : ℕ) (q : List (Option M))
      → tally w (take n q) + tally w (drop n q) ≡ tally w q
  tally-take-drop w zero q = omega arith
  tally-take-drop w (suc n) [] = omega arith
  tally-take-drop w (suc n) (e ∷ q) = omega (arith, tally-take-drop w n q)

  pub values-append : (xs ys : List (Option M)) → values (xs ++ ys) ≡ values xs ++ values ys
  values-append [] ys = refl
  values-append (none ∷ xs) ys = values-append xs ys
  values-append (some m ∷ xs) ys = ap (λ vs. m ∷ vs) (values-append xs ys)

  -- The events of the call and what is left of the queue are the events there were, in order.
  pub fill_order :
      (n : ℕ) (q in_rpc : List (Option M)) (b : List M)
      → let (rest, taken, _) = fill n q in_rpc b in taken ++ rest ≡ in_rpc ++ q
  fill_order n [] in_rpc b = refl
  fill_order n (e ∷ q) in_rpc b =
      ground
        (arith, fill_order n q (in_rpc ++ e ∷ []) (with_value b e), append_assoc in_rpc (e ∷ []) q)

  pub with_value-values :
      (in_rpc : List (Option M)) (e : Option M) (b : List M)
      → values in_rpc ≡ b
      → values (in_rpc ++ e ∷ []) ≡ with_value b e
  with_value-values in_rpc none b h =
      values-append in_rpc (none ∷ []) ∙ append-nil (values in_rpc) ∙ h
  with_value-values in_rpc (some m) b h =
      values-append in_rpc (some m ∷ []) ∙ ap (λ vs. vs ++ m ∷ []) h

  -- The bundle carries the values of the events of the call.
  pub fill-values :
      (n : ℕ) (q in_rpc : List (Option M)) (b : List M)
      → values in_rpc ≡ b
      → let (_, taken, c) = fill n q in_rpc b in values taken ≡ c
  fill-values n [] in_rpc b h = h
  fill-values n (e ∷ q) in_rpc b h = ground (
    arith,
    h,
    fill-values n q (in_rpc ++ e ∷ []) (with_value b e) (with_value-values in_rpc e b h),
  )

  pub length-with_value : (b : List M) (e : Option M) → length (with_value b e) ≤ suc (length b)
  length-with_value b none = omega arith
  length-with_value b (some m) = omega (arith, length-append b (m ∷ []))

  pub length-fill :
      (n : ℕ) (q in_rpc : List (Option M)) (b : List M)
      → length b ≤ n
      → let (_, _, c) = fill n q in_rpc b in length c ≤ n
  length-fill n [] in_rpc b h = h
  length-fill n (e ∷ q) in_rpc b h =
      ground (arith, h, length-with_value b e, length-fill n q (in_rpc ++ e ∷ []) (with_value b e))
