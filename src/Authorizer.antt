-- ===== src/Authorizer.antt =====
-- libraries/bb_monitor_srv_utils/grpc_topic_authorizer.{h,cpp}: the tables of the authorizer, the
-- visitor that keeps them up to date from the auth topic, and the two queries. `md5` is the copied
-- digest routine; the Avro record is what `get_optional` returns for each member.
pub mod History
pub mod Access
pub mod Visitor
mod Tests
use bb_monitor.Base.{
  ◌≡◌, Bool, true, false, ◌&&◌, ◌||◌, not, Option, none, some, List, [], ◌∷◌, ◌++◌, Bytes, codes,
  bytes_eq, is_empty, ℤ, pos, if◌then◌else◌, bytes_key, int_key,
}
use bb_monitor.Base.Maps.{lookup, assign, erase}
use bb_monitor.Outcome.{Outcome, ok, skipped, undefined, ◌>>=◌, need, deref, or_unchanged}

pub record AuthData : Type 0 where
  pub id : ℤ
  pub tenant_id : ℤ
  pub api_key : Bytes
  pub secret_access_key_hash : Bytes
  pub read_access : Bool
  pub write_access : Bool
  pub topic_name : Bytes
  pub kafka_topic : Bytes

pub record Authorizer : Type 0 where
  pub authdata : List (ℤ × AuthData)
  pub apikey2id : List (Bytes × ℤ)

abbrev pub empty_authorizer : Authorizer
empty_authorizer = record { authdata = []; apikey2id = [] }

-- The members that the visitor reads, as optionals.
pub record AuthRecord : Type 0 where
  pub id : Option ℤ
  pub tenant_id : Option ℤ
  pub is_disabled : Option Bool
  pub is_deleted : Option Bool
  pub api_key : Option Bytes
  pub secret_access_key_hash : Option Bytes
  pub read_access : Option Bool
  pub write_access : Option Bool
  pub topic_name : Option Bytes
  pub kafka_topic : Option Bytes

abbrev pub or_empty : Option Bytes → Bytes
or_empty none = []
or_empty (some b) = b

-- The pair that a refused query returns.
abbrev pub denied : Bytes × ℤ
denied = ([], pos 0)

abbrev pub or_denied : Option (Bytes × ℤ) → Bytes × ℤ
or_denied none = denied
or_denied (some g) = g

abbrev pub refuse_if : Bool → Option (Bytes × ℤ) → Option (Bytes × ℤ)
refuse_if true r = none
refuse_if false r = r

-- The text under which the visitor erases an index entry.
abbrev pub topic_and_api_key : AuthData → Bytes
topic_and_api_key ad = ad.topic_name ++ codes "#" ++ ad.api_key

-- The branch of the visitor for a disabled or deleted account.
pub remove_account : ℤ → Authorizer → Authorizer
remove_account id a = elim (lookup id a.authdata) [
  | none ↦ a
  | some ad ↦ record {
    authdata = erase id a.authdata;
    apikey2id = erase (topic_and_api_key ad) a.apikey2id;
  }
]

module _ (md5 : Bytes → Bytes) where
  abbrev pub index_hash : Bytes → Bytes → Bytes → Bytes
  index_hash topic api_key secret_access_key_hash =
      md5 (topic ++ codes "#" ++ api_key ++ codes "#" ++ secret_access_key_hash)

  unfoldable pub authorize_read : Authorizer → Bytes → Bytes → Bytes → Bytes × ℤ
  authorize_read a api_key secret_access_key topic =
      or_denied (elim (lookup (index_hash topic api_key (md5 secret_access_key)) a.apikey2id) [
        | none ↦ none
        | some id ↦ elim (lookup id a.authdata) [
          | none ↦ none
          | some ad ↦
              refuse_if
                (not (is_empty ad.secret_access_key_hash)
                  && not (bytes_eq ad.secret_access_key_hash (md5 secret_access_key)))
                (refuse_if (not (bytes_eq topic ad.topic_name))
                  (refuse_if (not ad.read_access) (some (ad.kafka_topic, ad.tenant_id))))
        ]
      ])

  unfoldable pub authorize_write : Authorizer → Bytes → Bytes → Bytes → Bytes × ℤ
  authorize_write a api_key secret_access_key topic =
      or_denied (elim (lookup (index_hash topic api_key (md5 secret_access_key)) a.apikey2id) [
        | none ↦ none
        | some id ↦ elim (lookup id a.authdata) [
          | none ↦ none
          | some ad ↦
              refuse_if
                (not (is_empty ad.secret_access_key_hash)
                  && not (bytes_eq ad.secret_access_key_hash (md5 secret_access_key)))
                (refuse_if (not (bytes_eq topic ad.topic_name))
                  (refuse_if (not ad.write_access) (some (ad.kafka_topic, ad.tenant_id))))
        ]
      ])

  -- The body of the visitor's `try`.
  pub visit : AuthRecord → Authorizer → Outcome Authorizer
  unfolding remove_account
  visit r a = do
    id ← need r.id
    tenant_id ← need r.tenant_id
    is_disabled ← need r.is_disabled
    is_deleted ← need r.is_deleted
    api_key ← need r.api_key
    secret_access_key_hash ← need r.secret_access_key_hash
    topic_name ← deref r.topic_name
    let hash = index_hash topic_name api_key secret_access_key_hash
    if is_disabled || is_deleted then ok (remove_account id a) else do
      read_access ← deref r.read_access
      write_access ← deref r.write_access
      ok (record {
        authdata =
            assign id
              (record {
                id = id;
                tenant_id = tenant_id;
                api_key = api_key;
                secret_access_key_hash = secret_access_key_hash;
                read_access = read_access;
                write_access = write_access;
                topic_name = topic_name;
                kafka_topic = or_empty r.kafka_topic;
              })
              a.authdata;
        apikey2id = assign hash id a.apikey2id;
      })

  -- One record of the auth topic; `none` is one whose members cannot be read (the `catch`).
  pub on_auth_record : Option AuthRecord → Authorizer → Outcome Authorizer
  on_auth_record none a = ok a
  on_auth_record (some r) a = or_unchanged a (visit r a)

  -- The records in the order in which the consumer hands them over.
  pub load : List (Option AuthRecord) → Authorizer → Outcome Authorizer
  load [] a = ok a
  load (r ∷ rs) a = do b ← on_auth_record r a; load rs b
