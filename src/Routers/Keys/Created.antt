-- ===== src/Routers/Keys/Created.antt =====
-- src/llm_gateway/routers/keys.py: authentication after `create_key`.
use myown_llm_gateway.Base.{
  ℕ, String, Bool, false, none, some, List, [], ◌∷◌, ◌++◌, filter, str_eq, if◌then◌else◌, ◌≡◌, ◌≢◌,
  refl, arith, ◌∙◌, ap, eq_iff, eq_refl,
}
use myown_llm_gateway.Base.Text.{Text}
use myown_llm_gateway.Core.Exceptions.{ok, raise, invalid_virtual_key}
use myown_llm_gateway.Core.Security.{is_expired, check_record, authenticate_virtual_key}
use myown_llm_gateway.Storage.Orm.{ApiKey, Database}
use myown_llm_gateway.Storage.Repositories.{first, get_key_by_hash, create_audit_log}
use myown_llm_gateway.Routers.Keys.{KeyCreate, new_row, create_key}

-- The first of the matching rows, when a row is added at the end.
first-filter_append :
    (p : ApiKey → Bool) (ks : List ApiKey) (k : ApiKey)
    → first (filter p (ks ++ k ∷ []))
      ≡ (elim (first (filter p ks)) [ none ↦ if p k then some k else none | some x ↦ some x ])
first-filter_append p [] k = ground arith
first-filter_append p (x ∷ ks) k = ground (arith, first-filter_append p ks k)

first-filter_append_other :
    (p : ApiKey → Bool) (ks : List ApiKey) (k : ApiKey)
    → p k ≡ false
    → first (filter p (ks ++ k ∷ [])) ≡ first (filter p ks)
first-filter_append_other p [] k ne = ground arith
first-filter_append_other p (x ∷ ks) k ne = ground (arith, first-filter_append_other p ks k ne)

check_record-new_row :
    (hash : Text → String) (stored : ℕ → ℕ) (payload : KeyCreate) (raw_key : Text)
    (id now later : ℕ)
    → let key = new_row hash stored payload raw_key id now in
      check_record (some key) later ≡ (
        if is_expired key.expires_at later
        then raise (invalid_virtual_key "Virtual API key has expired.")
        else ok key)
unfolding check_record
check_record-new_row hash stored payload raw_key id now later = refl

-- After `create_key` with a raw key whose hash no row has, the raw key authenticates as the new
-- row, with the id and the expiry of the response, until it expires, and then is rejected as
-- expired; a raw key with another hash authenticates as before.
pub authenticate-create_key :
    (hash : Text → String) (stored : ℕ → ℕ) (payload : KeyCreate) (raw_key other : Text)
    (now later : ℕ) (db : Database)
    → get_key_by_hash (hash raw_key) db ≡ none
    → hash other ≢ hash raw_key
    → let (created, db') = create_key hash stored payload raw_key now db in
      let row = new_row hash stored payload raw_key created.id now in
      (authenticate_virtual_key hash raw_key (λ h. get_key_by_hash h db') later ≡ (
        if is_expired created.expires_at later
        then raise (invalid_virtual_key "Virtual API key has expired.")
        else ok row))
      × (authenticate_virtual_key hash other (λ h. get_key_by_hash h db') later
          ≡ authenticate_virtual_key hash other (λ h. get_key_by_hash h db) later)
unfolding authenticate_virtual_key get_key_by_hash create_key create_audit_log
authenticate-create_key hash stored payload raw_key other now later db fresh ne = (
  ap (λ o. check_record o later)
        (first-filter_append (λ k. str_eq k.hashed_key (hash raw_key)) db.api_keys row
          ∙ rw fresh (rw (eq_refl (hash raw_key)) refl))
      ∙ check_record-new_row hash stored payload raw_key db.next_key_id now later,
  ap (λ o. check_record o later)
      (first-filter_append_other (λ k. str_eq k.hashed_key (hash other)) db.api_keys row
        (ground (arith, eq_iff (hash raw_key) (hash other)))),
)
  where
    row : ApiKey
    row = new_row hash stored payload raw_key db.next_key_id now
