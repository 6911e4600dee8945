-- ===== src/Authorizer/History.antt =====
-- What the records of the auth topic say of one account, against the table that the visitor keeps
-- (grpc_topic_authorizer.cpp, `bg_thread`).
use bb_monitor.Base.{
  ◌≡◌, Bool, false, ◌||◌, Option, none, some, List, [], ◌∷◌, Bytes, ℤ, if◌then◌else◌, arith, int_eq,
  int_eq_iff, int_key, ◌∙◌,
}
use bb_monitor.Base.Maps.{lookup, lookup-assign, lookup-erase}
use bb_monitor.Outcome.{ok, bind-eq-ok}
use bb_monitor.Authorizer.{
  AuthData, Authorizer, AuthRecord, or_empty, remove_account, visit, on_auth_record, load,
}

abbrev flag : Option Bool → Bool
flag none = false
flag (some b) = b

infixl 5 ◌>>=◌
abbrev ◌>>=◌ {ℓ κ} : {A : Type ℓ} {B : Type κ} → Option A → (A → Option B) → Option B
none >>= f = none
some a >>= f = f a

-- The account that a record speaks of, and what it says of it: gone, or these data.
abbrev pub announced : AuthRecord → Option (ℤ × Option AuthData)
announced r = do
  id ← r.id
  tenant_id ← r.tenant_id
  is_disabled ← r.is_disabled
  is_deleted ← r.is_deleted
  api_key ← r.api_key
  hash ← r.secret_access_key_hash
  some (
    id,
    if is_disabled || is_deleted
        then none
        else some (record {
          id = id;
          tenant_id = tenant_id;
          api_key = api_key;
          secret_access_key_hash = hash;
          read_access = flag r.read_access;
          write_access = flag r.write_access;
          topic_name = or_empty r.topic_name;
          kafka_topic = or_empty r.kafka_topic;
        }),
  )

abbrev pub after_record : ℤ → Option AuthRecord → Option AuthData → Option AuthData
after_record id none old = old
after_record id (some r) old = elim (announced r) [
  | none ↦ old
  | some (j, what) ↦ if int_eq j id then what else old
]

-- The last word on account `id`: what the last record that speaks of it says.
abbrev pub last_word : ℤ → List (Option AuthRecord) → Option AuthData → Option AuthData
last_word id [] old = old
last_word id (r ∷ rs) old = last_word id rs (after_record id r old)

pub remove_account-lookup :
    (id j : ℤ) (a : Authorizer)
    → lookup id (remove_account j a).authdata ≡ (if int_eq j id then none else lookup id a.authdata)
unfolding remove_account
remove_account-lookup id j a = ground (arith, int_eq_iff j id, lookup-erase id j a.authdata)

module _ (md5 : Bytes → Bytes) where
  visit-lookup :
      (id : ℤ) (r : AuthRecord) (a : Authorizer) {b : Authorizer}
      → on_auth_record md5 (some r) a ≡ ok b
      → lookup id b.authdata ≡ after_record id (some r) (lookup id a.authdata)
  unfolding on_auth_record visit
  visit-lookup id r a h = grind (arith, remove_account-lookup, lookup-assign)

  on_auth_record-lookup :
      (id : ℤ) (r : Option AuthRecord) (a : Authorizer) {b : Authorizer}
      → on_auth_record md5 r a ≡ ok b
      → lookup id b.authdata ≡ after_record id r (lookup id a.authdata)
  on_auth_record-lookup id none a h = unfold on_auth_record in ground arith
  on_auth_record-lookup id (some r) a h = visit-lookup id r a h

  pub load-lookup :
      (id : ℤ) (rs : List (Option AuthRecord)) (a : Authorizer) {b : Authorizer}
      → load md5 rs a ≡ ok b
      → lookup id b.authdata ≡ last_word id rs (lookup id a.authdata)
  unfolding load
  load-lookup id [] a h = ground arith
  load-lookup id (r ∷ rs) a h =
      let (c, here, later) = bind-eq-ok (on_auth_record md5 r a) (load md5 rs) h in
      load-lookup id rs c later ∙ (λ i. last_word id rs (on_auth_record-lookup id r a here i))

  -- A record that announces the end of an account takes it out of the table, and nothing else.
  pub on_auth_record-removed :
      (id : ℤ) (r : AuthRecord) (a : Authorizer) {b : Authorizer}
      → announced r ≡ some (id, none)
      → on_auth_record md5 (some r) a ≡ ok b
      → b ≡ remove_account id a
  unfolding on_auth_record visit
  on_auth_record-removed id r a e h = ground arith
