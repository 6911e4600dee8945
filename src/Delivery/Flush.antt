-- ===== src/Delivery/Flush.antt =====
-- `flush` of a sink (bb_kafka_sink.h): the loop that empties its queue.
use bb_monitor.Base.{
  ℕ, zero, suc, ◌+◌, ◌≤◌, ◌<◌, ◌≡◌, ◌≢◌, refl, sym, ap, ◌∙◌, ◌⊎◌, inl, inr, Bool, true, false, List,
  [], ◌∷◌, ◌++◌, map, length, arith, append-nil,
}
use bb_monitor.Delivery.{Outlet, Codecs, process_queue, outlet_step, poll, eof, flush_queue}
use bb_monitor.Delivery.Producer.{done, fatal, ErrorCode, err_no_error}
use bb_monitor.Delivery.Ownership.{IsOwned, dr_cb-IsOwned}
use bb_monitor.Delivery.Order.{encode, drain-Drained}

List-cases : {A : Type 0} (q : List A) → (q ≡ []) ⊎ ((r : A) × (rs : List A) × (q ≡ r ∷ rs))
List-cases [] = inl refl
List-cases (r ∷ rs) = inr (r, rs, refl)

module _ {V : Type 0} (codecs : Codecs V) where
  eof-cases :
      (o : Outlet V)
      → ((eof codecs o ≡ true) × (o.queue ≡ [])) ⊎ ((eof codecs o ≡ false) × (1 ≤ length o.queue))
  eof-cases o = elim (List-cases o.queue) [
    | inl e ↦ inl (ground (arith, e), e)
    | inr (r, rs, e) ↦ inr (ground (arith, e), ground (arith, e))
  ]

  -- A round that takes its first message leaves a shorter queue.
  shorter :
      (answers : ℕ → ErrorCode) (o p : Outlet V) (sent : ℕ)
      → answers 0 ≡ err_no_error
      → 1 ≤ length o.queue
      → length o.queue ≡ sent + length p.queue
      → (p.queue ≡ []) ⊎ (answers sent ≢ err_no_error)
      → length p.queue < length o.queue
  shorter answers o p sent taken some_left size (inl e) = omega (arith, some_left, ap length e)
  shorter answers o p zero taken some_left size (inr stop) = absurd (stop taken)
  shorter answers o p (suc sent) taken some_left size (inr stop) = omega (arith, size)

  poll-IsOwned :
      (reports : List (ℕ × Bool)) (o : Outlet V)
      → IsOwned o.impl
      → (poll codecs reports o ≡ fatal)
        ⊎ ((p : Outlet V) × (poll codecs reports o ≡ done p)
            × IsOwned p.impl
            × (p.queue ≡ o.queue)
            × (p.impl.accepted ≡ o.impl.accepted))
  unfolding poll outlet_step
  poll-IsOwned [] o v = inr (o, refl, v, refl, refl)
  poll-IsOwned ((i, failed) ∷ reports) o v = elim (dr_cb-IsOwned i failed o.impl v) [
    | inl ended ↦ inl (ground (arith, ended))
    | inr (impl, same, owned, log) ↦ elim (poll-IsOwned reports (record o { impl = impl }) owned) [
      | inl ended ↦ inl (ground (arith, same, ended))
      | inr (p, rest, its, kept, log') ↦ inr (p, ground (arith, same, rest), its, kept, log' ∙ log)
    ]
  ]

  -- On a sink whose blocks are those of its messages in flight, and whose queue is no longer than the
  -- bound, the loop of `flush` ends if librdkafka takes the first message of each round: it ends the
  -- process, or the queue is empty, and librdkafka has taken, behind what it had, the encodings of what
  -- was queued, in order.
  pub flush_queue-drained :
      (n : ℕ) (rounds : ℕ → (ℕ → ErrorCode) × List (ℕ × Bool)) (o : Outlet V)
      → IsOwned o.impl
      → length o.queue ≤ n
      → ((i : ℕ) → (rounds i).0 0 ≡ err_no_error)
      → (flush_queue codecs n rounds o ≡ fatal)
        ⊎ ((p : Outlet V) × (flush_queue codecs n rounds o ≡ done (true, p))
            × (p.queue ≡ [])
            × (p.impl.accepted ≡ o.impl.accepted ++ map (encode codecs) o.queue))
  unfolding flush_queue process_queue
  flush_queue-drained zero rounds o v h taken = elim (eof-cases o) [
    | inl (e, none_left) ↦ inr (
      o,
      ground (arith, e),
      none_left,
      sym (append-nil o.impl.accepted)
          ∙ ap (λ q. o.impl.accepted ++ map (encode codecs) q) (sym none_left),
    )
    | inr (e, some_left) ↦ absurd (omega (arith, h, some_left))
  ]
  flush_queue-drained (suc n) rounds o v h taken = elim (eof-cases o) [
    | inl (e, none_left) ↦ inr (
      o,
      ground (arith, e),
      none_left,
      sym (append-nil o.impl.accepted)
          ∙ ap (λ q. o.impl.accepted ++ map (encode codecs) q) (sym none_left),
    )
    | inr (e, some_left) ↦ elim (drain-Drained codecs (rounds 0).0 o.queue 0 o refl v) [
      | inl ended ↦ inl (ground (arith, e, ended))
      | inr (sent, p, same, owned, line, size, stop) ↦ elim (poll-IsOwned (rounds 0).1 p owned) [
        | inl ended ↦ inl (ground (arith, e, same, ended))
        | inr (q, polled, its, kept, log) ↦
            elim (flush_queue-drained n (λ i. rounds (suc i)) q its
              (omega (
                arith,
                h,
                ap length kept,
                shorter (rounds 0).0 o p sent (taken 0) some_left size stop,
              ))
              (λ i. taken (suc i))) [
                | inl ended ↦ inl (ground (arith, e, same, polled, ended))
                | inr (z, rest, empty, all) ↦ inr (
                  z,
                  ground (arith, e, same, polled, rest),
                  empty,
                  all
                      ∙ ap (λ l. l ++ map (encode codecs) q.queue) log
                      ∙ ap (λ l. p.impl.accepted ++ map (encode codecs) l) kept
                      ∙ line,
                )
              ]
      ]
    ]
  ]
