-- ===== src/Delivery/Producer.antt =====
-- bb_kafka_producer.cpp: `producer_user_data` with its destructor, `produce` and the delivery report.
use bb_monitor.Base.{
  ℕ, zero, suc, ◌+◌, Bool, true, false, Option, none, some, List, [], ◌∷◌, ◌++◌, Bytes, ℤ, nat_key,
  ◌%◌,
}
use bb_monitor.Base.Maps.{lookup, assign, erase}

-- What a call does: it returns, the process is ended by `LOG(FATAL)`, or a block of memory is used
-- that is not allocated.
pub data Result {ℓ} (A : Type ℓ) : Type ℓ where
  done : A → Result A
  fatal : Result A
  undefined : Result A

infixl 5 ◌>>=◌
abbrev pub ◌>>=◌ {ℓ κ} : {A : Type ℓ} {B : Type κ} → Result A → (A → Result B) → Result B
done a >>= f = f a
fatal >>= f = fatal
undefined >>= f = undefined

-- The codes of librdkafka that the code tells apart.
pub data ErrorCode : Type 0 where
  err_no_error err_queue_full : ErrorCode
  err_other : ℕ → ErrorCode

pub data MemoryMode : Type 0 where
  free_mode copy_mode : MemoryMode

-- A pointer is the number of a block, `none` the null pointer.
pub record UserData : Type 0 where
  pub partition_hash : ℕ
  pub key_ptr : Option ℕ
  pub key_sz : ℕ
  pub val_ptr : Option ℕ
  pub val_sz : ℕ

-- What librdkafka was given with a message: the blocks' contents and the time.
pub record Wire : Type 0 where
  pub hash : ℕ
  pub key : Option Bytes
  pub value : Option Bytes
  pub timestamp : ℤ

-- `MyHashPartitionerCb::partitioner_cb`: the partition of a message. librdkafka passes a positive count.
abbrev pub partitioner_cb : ℕ → ℕ → ℕ
partitioner_cb partition_hash partition_cnt = partition_hash % partition_cnt

-- `blocks` are the allocated ones; `in_flight` the messages that librdkafka has taken and not yet
-- reported; `accepted` all that it has taken, in order.
pub record KafkaProducer : Type 0 where
  pub blocks : List (ℕ × Bytes)
  pub next : ℕ
  pub in_flight : List UserData
  pub accepted : List Wire
  pub msg_cnt : ℕ
  pub msg_bytes : ℕ

abbrev pub empty_producer : KafkaProducer
empty_producer = record {
  blocks = [];
  next = 0;
  in_flight = [];
  accepted = [];
  msg_cnt = 0;
  msg_bytes = 0;
}

-- A new block that is filled at once.
abbrev pub malloc : Bytes → KafkaProducer → ℕ × KafkaProducer
malloc content p = (p.next, record p { blocks = assign p.next content p.blocks; next = suc p.next })

-- `if (ptr) free(ptr);`
abbrev pub free : Option ℕ → KafkaProducer → Result KafkaProducer
free none p = done p
free (some a) p = elim (lookup a p.blocks) [
  | none ↦ undefined
  | some content ↦ done (record p { blocks = erase a p.blocks })
]

-- `~producer_user_data`
unfoldable pub delete_user_data : UserData → KafkaProducer → Result KafkaProducer
delete_user_data u p = do q ← free u.key_ptr p; free u.val_ptr q

abbrev pub read : Option ℕ → KafkaProducer → Option Bytes
read none p = none
read (some a) p = lookup a p.blocks

-- `malloc` and `memcpy` of another block.
abbrev pub copy : Option ℕ → KafkaProducer → Result (Option ℕ × KafkaProducer)
copy ptr p = elim (read ptr p) [
  | none ↦ undefined
  | some content ↦ done (some p.next, (malloc content p).1)
]

abbrev pub owned_copy : MemoryMode → Option ℕ → KafkaProducer → Result (Option ℕ × KafkaProducer)
owned_copy free_mode ptr p = done (ptr, p)
owned_copy copy_mode ptr p = copy ptr p

unfoldable pub produce :
    ErrorCode
    → ℕ
    → MemoryMode
    → Option ℕ
    → ℕ
    → Option ℕ
    → ℕ
    → ℤ
    → KafkaProducer
    → Result (ErrorCode × KafkaProducer)
produce ec hash mode key keysz value valuesz timestamp p = do
  k ← owned_copy mode key p
  v ← owned_copy mode value k.1
  let user_data : UserData = record {
    partition_hash = hash;
    key_ptr = k.0;
    key_sz = keysz;
    val_ptr = v.0;
    val_sz = valuesz;
  }
  elim ec [
    | err_no_error ↦ done (
      err_no_error,
      record v.1 {
        in_flight = v.1.in_flight ++ user_data ∷ [];
        accepted =
            v.1.accepted
            ++ record {
              hash = hash;
              key = read k.0 v.1;
              value = read v.0 v.1;
              timestamp = timestamp;
            }
              ∷ [];
        msg_cnt = suc v.1.msg_cnt;
        msg_bytes = v.1.msg_bytes + (valuesz + keysz);
      },
    )
    | err_queue_full ↦ do q ← delete_user_data user_data v.1; done (err_queue_full, q)
    | err_other n ↦ do q ← delete_user_data user_data v.1; done (err_other n, q)
  ]

-- The message that librdkafka reports, by its place among those in flight, and the others.
abbrev pub pick : ℕ → List UserData → Option (UserData × List UserData)
pick i [] = none
pick zero (u ∷ us) = some (u, us)
pick (suc i) (u ∷ us) = elim (pick i us) [ none ↦ none | some r ↦ some (r.0, u ∷ r.1) ]

-- A delivery report; there is none for a message that is not in flight.
unfoldable pub dr_cb : ℕ → Bool → KafkaProducer → Result KafkaProducer
dr_cb i failed p = elim (pick i p.in_flight) [
  | none ↦ done p
  | some r ↦ elim failed [
    | true ↦ fatal
    | false ↦ delete_user_data r.0 (record p { in_flight = r.1 })
  ]
]
