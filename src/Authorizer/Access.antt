-- ===== src/Authorizer/Access.antt =====
-- Who is let in: the two queries of grpc_topic_authorizer.cpp against the table of accounts.
use bb_monitor.Base.{
  ◌≡◌, ◌≢◌, ◌⊎◌, inl, inr, refl, ◌∙◌, sym, ap, Bool, true, false, Option, none, some, List, [],
  Bytes, ℤ, if◌then◌else◌, arith, int_key, bytes_key, Option-cases, bytes_eq_iff,
}
use bb_monitor.Base.Maps.{lookup, assign, lookup-assign_self, lookup-assign-assign, lookup-erase}
use bb_monitor.Outcome.{ok}
use bb_monitor.Authorizer.{
  AuthData, Authorizer, AuthRecord, denied, empty_authorizer, index_hash, authorize_read,
  authorize_write, remove_account, topic_and_api_key, visit, on_auth_record, load,
}
use bb_monitor.Authorizer.History.{announced, last_word, load-lookup, on_auth_record-removed}

-- The record that enables an account with the given data.
abbrev pub enrol : AuthData → AuthRecord
enrol ad = record {
  id = some ad.id;
  tenant_id = some ad.tenant_id;
  is_disabled = some false;
  is_deleted = some false;
  api_key = some ad.api_key;
  secret_access_key_hash = some ad.secret_access_key_hash;
  read_access = some ad.read_access;
  write_access = some ad.write_access;
  topic_name = some ad.topic_name;
  kafka_topic = some ad.kafka_topic;
}

module _ (md5 : Bytes → Bytes) where
  -- The account behind a granted query, as the table of accounts has it.
  abbrev pub Backed : (AuthData → Bool) → Bytes → Bytes → Bytes × ℤ → AuthData → Type 0
  Backed access secret topic g ad =
      (ad.topic_name ≡ topic)
      × (access ad ≡ true)
      × ((ad.secret_access_key_hash ≡ []) ⊎ (ad.secret_access_key_hash ≡ md5 secret))
      × (g ≡ (ad.kafka_topic, ad.tenant_id))

  authorize_write-Backed :
      (a : Authorizer) (api_key secret topic : Bytes)
      → authorize_write md5 a api_key secret topic ≢ denied
      → (id : ℤ) × (ad : AuthData) × (lookup id a.authdata ≡ some ad)
        × Backed (λ d. d.write_access) secret topic (authorize_write md5 a api_key secret topic) ad
  unfolding authorize_write
  authorize_write-Backed a api_key secret topic =
      elim (Option-cases (lookup (index_hash md5 topic api_key (md5 secret)) a.apikey2id)) [
        | inl e ↦ λ h. absurd (h (rw (e, authorize_write)))
        | inr (id, e) ↦ elim (Option-cases (lookup id a.authdata)) [
          | inl f ↦ λ h. absurd (h (rw (e, f, authorize_write)))
          | inr (ad, f) ↦ λ h. (
            id,
            ad,
            f,
            ground (
              arith,
              bytes_eq_iff ad.secret_access_key_hash (md5 secret),
              bytes_eq_iff topic ad.topic_name,
            ),
          )
        ]
      ]

  authorize_read-Backed :
      (a : Authorizer) (api_key secret topic : Bytes)
      → authorize_read md5 a api_key secret topic ≢ denied
      → (id : ℤ) × (ad : AuthData) × (lookup id a.authdata ≡ some ad)
        × Backed (λ d. d.read_access) secret topic (authorize_read md5 a api_key secret topic) ad
  unfolding authorize_read
  authorize_read-Backed a api_key secret topic =
      elim (Option-cases (lookup (index_hash md5 topic api_key (md5 secret)) a.apikey2id)) [
        | inl e ↦ λ h. absurd (h (rw (e, authorize_read)))
        | inr (id, e) ↦ elim (Option-cases (lookup id a.authdata)) [
          | inl f ↦ λ h. absurd (h (rw (e, f, authorize_read)))
          | inr (ad, f) ↦ λ h. (
            id,
            ad,
            f,
            ground (
              arith,
              bytes_eq_iff ad.secret_access_key_hash (md5 secret),
              bytes_eq_iff topic ad.topic_name,
            ),
          )
        ]
      ]

  -- Whatever records were loaded, a write is granted only on the last word of some account of the
  -- auth topic: that account is live, is for the topic asked for, may write, carries the digest of
  -- the secret (or none), and the answer is its Kafka topic and tenant.
  pub authorize_write-load :
      (rs : List (Option AuthRecord)) (a : Authorizer) (api_key secret topic : Bytes)
      → load md5 rs empty_authorizer ≡ ok a
      → authorize_write md5 a api_key secret topic ≢ denied
      → (id : ℤ) × (ad : AuthData) × (last_word id rs none ≡ some ad)
        × Backed (λ d. d.write_access) secret topic (authorize_write md5 a api_key secret topic) ad
  unfolding lookup
  authorize_write-load rs a api_key secret topic h granted =
      let (id, ad, found, backed) = authorize_write-Backed a api_key secret topic granted in
      (id, ad, sym (load-lookup md5 id rs empty_authorizer h) ∙ found, backed)

  -- Whatever records were loaded, a read is granted only on the last word of some account of the
  -- auth topic: that account is live, is for the topic asked for, may read, carries the digest of
  -- the secret (or none), and the answer is its Kafka topic and tenant.
  pub authorize_read-load :
      (rs : List (Option AuthRecord)) (a : Authorizer) (api_key secret topic : Bytes)
      → load md5 rs empty_authorizer ≡ ok a
      → authorize_read md5 a api_key secret topic ≢ denied
      → (id : ℤ) × (ad : AuthData) × (last_word id rs none ≡ some ad)
        × Backed (λ d. d.read_access) secret topic (authorize_read md5 a api_key secret topic) ad
  unfolding lookup
  authorize_read-load rs a api_key secret topic h granted =
      let (id, ad, found, backed) = authorize_read-Backed a api_key secret topic granted in
      (id, ad, sym (load-lookup md5 id rs empty_authorizer h) ∙ found, backed)

  stored : AuthData → Authorizer → Authorizer
  stored ad a = record {
    authdata = assign ad.id ad a.authdata;
    apikey2id =
        assign (index_hash md5 ad.topic_name ad.api_key ad.secret_access_key_hash) ad.id
          a.apikey2id;
  }

  on_auth_record-enrol :
      (ad : AuthData) (a : Authorizer) {b : Authorizer}
      → on_auth_record md5 (some (enrol ad)) a ≡ ok b
      → b ≡ stored ad a
  unfolding on_auth_record visit stored
  on_auth_record-enrol ad a h = ground arith

  authorize_write_found :
      (a : Authorizer) (id : ℤ) (ad : AuthData) (api_key secret topic : Bytes)
      → lookup (index_hash md5 topic api_key (md5 secret)) a.apikey2id ≡ some id
      → lookup id a.authdata ≡ some ad
      → ad.secret_access_key_hash ≡ md5 secret
      → ad.topic_name ≡ topic
      → authorize_write md5 a api_key secret topic
        ≡ (if ad.write_access then (ad.kafka_topic, ad.tenant_id) else denied)
  unfolding authorize_write
  authorize_write_found a id ad api_key secret topic e f g t =
      rw (e, f, authorize_write)
        (ground (
          arith,
          bytes_eq_iff ad.secret_access_key_hash (md5 secret),
          bytes_eq_iff topic ad.topic_name,
        ))

  -- After a record that enables an account, its key, its topic and a secret with the stored digest
  -- are answered by its Kafka topic and tenant if it may write, and denied otherwise.
  pub authorize_write-enrol :
      (ad : AuthData) (a : Authorizer) {b : Authorizer} (secret : Bytes)
      → on_auth_record md5 (some (enrol ad)) a ≡ ok b
      → md5 secret ≡ ad.secret_access_key_hash
      → authorize_write md5 b ad.api_key secret ad.topic_name
        ≡ (if ad.write_access then (ad.kafka_topic, ad.tenant_id) else denied)
  unfolding stored
  authorize_write-enrol ad a {b} secret h e = rw (on_auth_record-enrol ad a h) (
      authorize_write_found (stored ad a) ad.id ad ad.api_key secret ad.topic_name
        (rw e (lookup-assign_self _ ad.id a.apikey2id)) (lookup-assign_self ad.id ad a.authdata)
        (sym e) refl)

  -- When the record of an account is replaced by one with another api key, for the same topic and
  -- secret, the old api key goes on being granted what the new record grants.
  pub authorize_write_rotated :
      (old new : AuthData) (a : Authorizer) {b c : Authorizer} (secret : Bytes)
      → on_auth_record md5 (some (enrol old)) a ≡ ok b
      → on_auth_record md5 (some (enrol new)) b ≡ ok c
      → old.id ≡ new.id
      → old.topic_name ≡ new.topic_name
      → old.secret_access_key_hash ≡ new.secret_access_key_hash
      → md5 secret ≡ new.secret_access_key_hash
      → new.write_access ≡ true
      → authorize_write md5 c old.api_key secret old.topic_name ≡ (new.kafka_topic, new.tenant_id)
  unfolding stored
  authorize_write_rotated old new a {b} {c} secret h k same_id same_topic same_hash e w =
      rw (on_auth_record-enrol new b k, on_auth_record-enrol old a h)
        (authorize_write_found (stored new (stored old a)) new.id new old.api_key secret
            old.topic_name
            (rw (e, ← same_id, ← same_hash) (lookup-assign-assign _ _ old.id a.apikey2id))
            (lookup-assign_self new.id new _) (sym e) (sym same_topic)
          ∙ rw w)

  remove_account_missing :
      (id : ℤ) (a : Authorizer) → lookup id a.authdata ≡ none → remove_account id a ≡ a
  unfolding remove_account
  remove_account_missing id a e = ground arith

  authorize_write-remove_account :
      (id : ℤ) (a : Authorizer) (api_key secret topic : Bytes)
      → (authorize_write md5 (remove_account id a) api_key secret topic ≡ denied)
        ⊎ (authorize_write md5 (remove_account id a) api_key secret topic
            ≡ authorize_write md5 a api_key secret topic)
  unfolding authorize_write remove_account
  authorize_write-remove_account id a api_key secret topic =
      let hash = index_hash md5 topic api_key (md5 secret) in
      elim (Option-cases (lookup id a.authdata)) [
        | inl e ↦
            inr
              (ap (λ x. authorize_write md5 x api_key secret topic) (remove_account_missing id a e))
        | inr (ad, e) ↦
            let index = lookup-erase hash (topic_and_api_key ad) a.apikey2id in
            elim (Option-cases (lookup hash a.apikey2id)) [
              | inl f ↦ grind (arith, lookup-erase)
              | inr (j, f) ↦ ground (arith, e, f, index, lookup-erase j id a.authdata)
            ]
      ]

  -- A record that ends an account widens no access: what a write is answered afterwards is a
  -- denial or what it was answered before.
  pub authorize_write_narrows :
      (id : ℤ) (r : AuthRecord) (a : Authorizer) {b : Authorizer} (api_key secret topic : Bytes)
      → announced r ≡ some (id, none)
      → on_auth_record md5 (some r) a ≡ ok b
      → (authorize_write md5 b api_key secret topic ≡ denied)
        ⊎ (authorize_write md5 b api_key secret topic ≡ authorize_write md5 a api_key secret topic)
  authorize_write_narrows id r a api_key secret topic e h =
      rw (on_auth_record-removed md5 id r a e h)
        (authorize_write-remove_account id a api_key secret topic)
