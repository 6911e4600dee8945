-- ===== src/Delivery/Ownership.antt =====
-- The blocks of memory of a sink's producer (bb_kafka_producer.cpp, bb_kafka_sink.h): each allocated
-- block belongs to one message that librdkafka holds, and is freed once.
use bb_monitor.Base.{
  ℕ, zero, suc, ◌+◌, ◌≡◌, ◌≤◌, refl, Bool, Option, none, some, List, [], ◌∷◌, ◌++◌, Bytes, ℤ, arith,
  ◌==◌, if◌then◌else◌, inl, inr, Option-cases, Bool-cases, nat_key, ◌⊎◌,
}
use bb_monitor.Base.Maps.{lookup, assign, erase, lookup-assign, lookup-erase}
use bb_monitor.Delivery.Producer.{
  done, fatal, ErrorCode, err_no_error, err_queue_full, err_other, free_mode, UserData,
  KafkaProducer, malloc, free, delete_user_data, produce, pick, dr_cb, Wire,
}

abbrev pub counts : ℕ → Option ℕ → ℕ
counts a none = 0
counts a (some b) = if b == a then 1 else 0

-- How often the messages hold the block `a`.
abbrev pub owned : ℕ → List UserData → ℕ
owned a [] = 0
owned a (u ∷ us) = counts a u.key_ptr + (counts a u.val_ptr + owned a us)

abbrev pub present : ℕ → List (ℕ × Bytes) → ℕ
present a blocks = elim (lookup a blocks) [ none ↦ 0 | some content ↦ 1 ]

-- Each allocated block is held by the messages in flight exactly once, each other one not at all.
pub record IsOwned (p : KafkaProducer) : Type 0 where
  pub exact : (a : ℕ) → owned a p.in_flight ≡ present a p.blocks
  pub fresh : (a : ℕ) → p.next ≤ a → lookup a p.blocks ≡ none

abbrev released : Option ℕ → List (ℕ × Bytes) → List (ℕ × Bytes)
released none blocks = blocks
released (some b) blocks = erase b blocks

free-released :
    (ptr : Option ℕ) (p : KafkaProducer) (rest : ℕ → ℕ)
    → ((a : ℕ) → counts a ptr + rest a ≡ present a p.blocks)
    → (free ptr p ≡ done (record p { blocks = released ptr p.blocks }))
      × ((a : ℕ) → rest a ≡ present a (released ptr p.blocks))
free-released none p rest h = (refl, λ a. omega (arith, h a))
free-released (some b) p rest h =
    (ground (arith, h b), λ a. ground (arith, h a, h b, lookup-erase a b p.blocks))

released-fresh :
    (ptr : Option ℕ) (a : ℕ) (blocks : List (ℕ × Bytes))
    → lookup a blocks ≡ none
    → lookup a (released ptr blocks) ≡ none
released-fresh none a blocks h = h
released-fresh (some b) a blocks h = ground (arith, h, lookup-erase a b blocks)

-- Deleting a message that holds its blocks is defined, and leaves the others theirs.
pub delete_user_data-IsOwned :
    (u : UserData) (p : KafkaProducer)
    → ((a : ℕ) → owned a (u ∷ p.in_flight) ≡ present a p.blocks)
    → ((a : ℕ) → p.next ≤ a → lookup a p.blocks ≡ none)
    → (q : KafkaProducer) × (delete_user_data u p ≡ done q) × IsOwned q × (q.accepted ≡ p.accepted)
unfolding delete_user_data
delete_user_data-IsOwned u p h fresh =
    let (one, left) = free-released u.key_ptr p (λ a. counts a u.val_ptr + owned a p.in_flight) h in
    let q = record p { blocks = released u.key_ptr p.blocks } in
    let (two, rest) = free-released u.val_ptr q (λ a. owned a p.in_flight) left in
    (
      record p { blocks = released u.val_ptr (released u.key_ptr p.blocks) },
      ground (arith, one, two),
      record {
        exact = rest;
        fresh = λ a above.
            released-fresh u.val_ptr a (released u.key_ptr p.blocks)
              (released-fresh u.key_ptr a p.blocks (fresh a above));
      },
      refl,
    )

pub owned-append : (a : ℕ) (us vs : List UserData) → owned a (us ++ vs) ≡ owned a us + owned a vs
owned-append a [] vs = omega arith
owned-append a (u ∷ us) vs = omega (arith, owned-append a us vs)

-- The log of what librdkafka has taken, after an answer.
abbrev pub after_answer : ErrorCode → List Wire → Wire → List Wire
after_answer err_no_error taken w = taken ++ w ∷ []
after_answer err_queue_full taken w = taken
after_answer (err_other n) taken w = taken

module _ (key value : Bytes) (hash keysz valuesz : ℕ) (ts : ℤ) (p : KafkaProducer)
    (v : IsOwned p) where
  -- Two new blocks, filled.
  abbrev allocated : KafkaProducer
  allocated = (malloc value (malloc key p).1).1

  abbrev message : UserData
  message = record {
    partition_hash = hash;
    key_ptr = some p.next;
    key_sz = keysz;
    val_ptr = some (suc p.next);
    val_sz = valuesz;
  }

  allocated-lookup :
      (a : ℕ)
      → lookup a allocated.blocks ≡ (
          if suc p.next == a
          then some value
          else if p.next == a
          then some key
          else lookup a p.blocks)
  allocated-lookup a = ground (
    arith,
    lookup-assign a (suc p.next) value (assign p.next key p.blocks),
    lookup-assign a p.next key p.blocks,
  )

  allocated-owned : (a : ℕ) → owned a (message ∷ p.in_flight) ≡ present a allocated.blocks
  allocated-owned a = ground (
    arith,
    allocated-lookup a,
    v.exact a,
    v.fresh p.next (omega arith),
    v.fresh (suc p.next) (omega arith),
  )

  allocated-fresh : (a : ℕ) → allocated.next ≤ a → lookup a allocated.blocks ≡ none
  allocated-fresh a above =
      ground (arith, above, allocated-lookup a, v.fresh a (omega (arith, above)))

  -- `produce` with two new blocks returns librdkafka's answer; librdkafka then holds the message with
  -- both blocks, or they are freed.
  pub produce-IsOwned :
      (ec : ErrorCode)
      → (q : KafkaProducer) × (produce ec hash free_mode
            (some p.next)
            keysz
            (some (suc p.next))
            valuesz
            ts
            allocated
          ≡ done (ec, q))
        × IsOwned q
        × (q.accepted
            ≡ after_answer ec p.accepted
                (record { hash = hash; key = some key; value = some value; timestamp = ts }))
  unfolding produce
  produce-IsOwned err_no_error = (
    _,
    refl,
    record {
      exact = λ a. ground (arith, allocated-owned a, owned-append a p.in_flight (message ∷ []));
      fresh = allocated-fresh;
    },
    ground (arith, allocated-lookup p.next, allocated-lookup (suc p.next)),
  )
  produce-IsOwned err_queue_full =
      let (q, same, owned, log) =
        delete_user_data-IsOwned message allocated allocated-owned allocated-fresh in
      (q, ground (arith, same), owned, log)
  produce-IsOwned (err_other n) =
      let (q, same, owned, log) =
        delete_user_data-IsOwned message allocated allocated-owned allocated-fresh in
      (q, ground (arith, same), owned, log)

owned-pick :
    (a i : ℕ) (us : List UserData) (u : UserData) (rest : List UserData)
    → pick i us ≡ some (u, rest)
    → owned a us ≡ owned a (u ∷ rest)
owned-pick a i [] u rest h = cc
owned-pick a zero (w ∷ us) u rest h = ground arith
owned-pick a (suc i) (w ∷ us) u rest h = elim (Option-cases (pick i us)) [
  | inl e ↦ ground arith
  | inr ((x, xs), e) ↦ ground (arith, owned-pick a i us x xs e)
]

-- A delivery report is handled without touching a block that is not allocated, or ends the process.
pub dr_cb-IsOwned :
    (i : ℕ) (failed : Bool) (p : KafkaProducer)
    → IsOwned p
    → (dr_cb i failed p ≡ fatal)
      ⊎ ((q : KafkaProducer) × (dr_cb i failed p ≡ done q) × IsOwned q × (q.accepted ≡ p.accepted))
unfolding dr_cb
dr_cb-IsOwned i failed p v = elim (Option-cases (pick i p.in_flight)) [
  | inl e ↦ inr (p, ground (arith, e), v, refl)
  | inr ((u, rest), e) ↦ elim (Bool-cases failed) [
    | inl bad ↦ inl (ground (arith, e, bad))
    | inr fine ↦
        let (q, same, owned, log) =
          delete_user_data-IsOwned u (record p { in_flight = rest })
            (λ a. ground (arith, owned-pick a i p.in_flight u rest e, v.exact a)) v.fresh in
        inr (q, ground (arith, e, fine, same), owned, log)
  ]
]
