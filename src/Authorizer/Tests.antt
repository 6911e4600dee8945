-- ===== src/Authorizer/Tests.antt =====
-- The authorizer (grpc_topic_authorizer.cpp) on concrete records, with the identity for the digest.
use bb_monitor.Base.{
  ◌≡◌, ◌⊎◌, ◌↔◌, refl, true, none, some, [], ◌∷◌, Bytes, codes, ℤ, pos, bytes_key, int_key,
  bytes_eq, arith,
}
use bb_monitor.Base.Maps.{lookup, assign, erase}
use bb_monitor.Outcome.{ok, undefined}
use bb_monitor.Authorizer.{
  AuthData, AuthRecord, Authorizer, empty_authorizer, denied, authorize_read, authorize_write,
  visit, on_auth_record, load,
}
use bb_monitor.Authorizer.History.{last_word}
use bb_monitor.Authorizer.Access.{
  enrol, Backed, authorize_read-load, authorize_write-load, authorize_write_rotated,
  authorize_write_narrows,
}
use bb_monitor.Authorizer.Visitor.{Dereferences, on_auth_record_undefined}

abbrev digest : Bytes → Bytes
digest b = b

abbrev acme : AuthData
acme = record {
  id = pos 7;
  tenant_id = pos 3;
  api_key = codes "key";
  secret_access_key_hash = codes "s3";
  read_access = true;
  write_access = true;
  topic_name = codes "metrics";
  kafka_topic = codes "acme-metrics";
}

abbrev acme_rotated : AuthData
acme_rotated = record acme { api_key = codes "new" }

abbrev acme_deleted : AuthRecord
acme_deleted = record (enrol acme) { is_deleted = some true }

abbrev after_acme : Authorizer
after_acme = record {
  authdata = (pos 7, acme) ∷ [];
  apikey2id = (codes "metrics#key#s3", pos 7) ∷ [];
}

abbrev after_rotation : Authorizer
after_rotation = record {
  authdata = (pos 7, acme_rotated) ∷ [];
  apikey2id = (codes "metrics#key#s3", pos 7) ∷ (codes "metrics#new#s3", pos 7) ∷ [];
}

abbrev after_deletion : Authorizer
after_deletion = record { authdata = []; apikey2id = (codes "metrics#key#s3", pos 7) ∷ [] }

acme_enrolled : on_auth_record digest (some (enrol acme)) empty_authorizer ≡ ok after_acme
unfolding on_auth_record visit assign
acme_enrolled = refl

rotation_read : on_auth_record digest (some (enrol acme_rotated)) after_acme ≡ ok after_rotation
unfolding on_auth_record visit assign bytes_eq
rotation_read = refl

deletion_read : on_auth_record digest (some acme_deleted) after_acme ≡ ok after_deletion
unfolding on_auth_record visit lookup erase bytes_eq
deletion_read = refl

acme_loaded : load digest (some (enrol acme) ∷ []) empty_authorizer ≡ ok after_acme
unfolding load on_auth_record visit assign
acme_loaded = refl

acme_writes :
    authorize_write digest after_acme (codes "key") (codes "s3") (codes "metrics")
    ≡ (codes "acme-metrics", pos 3)
unfolding authorize_write lookup bytes_eq
acme_writes = refl

acme_reads :
    authorize_read digest after_acme (codes "key") (codes "s3") (codes "metrics")
    ≡ (codes "acme-metrics", pos 3)
unfolding authorize_read lookup bytes_eq
acme_reads = refl

wrong_secret :
    authorize_write digest after_acme (codes "key") (codes "s4") (codes "metrics") ≡ denied
unfolding authorize_write lookup bytes_eq
wrong_secret = refl

authorize_write-load_example :
    (id : ℤ) × (ad : AuthData) × (last_word id (some (enrol acme) ∷ []) none ≡ some ad)
    × Backed digest
        (λ d. d.write_access)
        (codes "s3")
        (codes "metrics")
        (authorize_write digest after_acme (codes "key") (codes "s3") (codes "metrics"))
        ad
authorize_write-load_example =
    authorize_write-load digest (some (enrol acme) ∷ []) after_acme (codes "key") (codes "s3")
      (codes "metrics") acme_loaded (λ e. ground (arith, acme_writes, e))

authorize_read-load_example :
    (id : ℤ) × (ad : AuthData) × (last_word id (some (enrol acme) ∷ []) none ≡ some ad)
    × Backed digest
        (λ d. d.read_access)
        (codes "s3")
        (codes "metrics")
        (authorize_read digest after_acme (codes "key") (codes "s3") (codes "metrics"))
        ad
authorize_read-load_example =
    authorize_read-load digest (some (enrol acme) ∷ []) after_acme (codes "key") (codes "s3")
      (codes "metrics") acme_loaded (λ e. ground (arith, acme_reads, e))

authorize_write_rotated_example :
    authorize_write digest after_rotation (codes "key") (codes "s3") (codes "metrics")
    ≡ (codes "acme-metrics", pos 3)
authorize_write_rotated_example =
    authorize_write_rotated digest acme acme_rotated empty_authorizer {b = after_acme}
      {c = after_rotation} (codes "s3") acme_enrolled rotation_read refl refl refl refl refl

authorize_write_narrows_example :
    (authorize_write digest after_deletion (codes "key") (codes "s3") (codes "metrics") ≡ denied)
    ⊎ (authorize_write digest after_deletion (codes "key") (codes "s3") (codes "metrics")
        ≡ authorize_write digest after_acme (codes "key") (codes "s3") (codes "metrics"))
authorize_write_narrows_example =
    authorize_write_narrows digest (pos 7) acme_deleted after_acme {b = after_deletion}
      (codes "key") (codes "s3") (codes "metrics") refl deletion_read

on_auth_record_undefined_example :
    (on_auth_record digest (some (record (enrol acme) { topic_name = none })) after_acme
      ≡ undefined)
    ↔ Dereferences (record (enrol acme) { topic_name = none })
on_auth_record_undefined_example =
    on_auth_record_undefined digest (record (enrol acme) { topic_name = none }) after_acme
