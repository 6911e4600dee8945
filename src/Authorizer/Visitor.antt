-- ===== src/Authorizer/Visitor.antt =====
-- Two things that the visitor of grpc_topic_authorizer.cpp does besides keeping the accounts: which
-- records it cannot handle, and what it leaves in the index of api keys.
use bb_monitor.Base.{
  ◌≡◌, ◌≢◌, ◌⊎◌, ◌↔◌, inl, inr, Option, none, some, Bytes, ℤ, arith, bytes_key, int_key,
  bytes_eq_iff, Option-cases,
}
use bb_monitor.Base.Maps.{lookup, lookup-erase, lookup-erase_self}
use bb_monitor.Outcome.{ok, undefined}
use bb_monitor.Authorizer.{
  AuthData, Authorizer, AuthRecord, topic_and_api_key, remove_account, visit, on_auth_record,
}
use bb_monitor.Authorizer.History.{announced, on_auth_record-removed}

-- The record has the six members that the visitor tests, and lacks one that it dereferences.
abbrev pub Dereferences : AuthRecord → Type 0
Dereferences r =
    (id : ℤ) × (what : Option AuthData) × (announced r ≡ some (id, what))
    × ((r.topic_name ≡ none) ⊎ ((what ≢ none) × ((r.read_access ≡ none) ⊎ (r.write_access ≡ none))))

module _ (md5 : Bytes → Bytes) where
  -- The visitor dereferences an empty optional exactly on the records that have the six tested
  -- members and lack the topic name, or, for an account that is not ended, an access flag.
  pub on_auth_record_undefined :
      (r : AuthRecord) (a : Authorizer)
      → (on_auth_record md5 (some r) a ≡ undefined) ↔ Dereferences r
  unfolding on_auth_record visit
  on_auth_record_undefined r a = (
    λ u. elim (Option-cases (announced r)) [
      | inl e ↦ absurd (ground arith)
      | inr ((id, what), e) ↦ (id, what, e, ground arith)
    ],
    λ (id, what, e, d). ground arith,
  )

  -- Ending an account leaves its entry in the index of api keys, unless the entry's digest is itself
  -- the text of topic and api key: the entry is erased under that text, and stored under a digest.
  pub on_auth_record_stale :
      (id : ℤ) (ad : AuthData) (r : AuthRecord) (a : Authorizer) {b : Authorizer} (hash : Bytes)
      → announced r ≡ some (id, none)
      → lookup id a.authdata ≡ some ad
      → on_auth_record md5 (some r) a ≡ ok b
      → topic_and_api_key ad ≢ hash
      → (lookup hash b.apikey2id ≡ lookup hash a.apikey2id) × (lookup id b.authdata ≡ none)
  on_auth_record_stale id ad r a hash e f h ne = rw (on_auth_record-removed md5 id r a e h) (
      unfold remove_account in
      (
        ground (
          arith,
          f,
          lookup-erase hash (topic_and_api_key ad) a.apikey2id,
          bytes_eq_iff (topic_and_api_key ad) hash,
        ),
        ground (arith, f, lookup-erase_self id a.authdata),
      ))
