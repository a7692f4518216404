-- ===== src/Auth/Sessions.antt =====
-- What `verify_api_key` accepts, and what a request that it accepts may act as.
use mathlib.Core.Option
use automem.Common.{
  ap, ◌≡◌, refl, ◌⊎◌, inl, inr, true, false, Option, none, some, List, arith, Option-cases,
  first-test, first-update,
}
use automem.Text.{Text, text, ◌==◌, elem, truthy, eq_sound}
use automem.Http.{ok, Result-cases}
use automem.Auth.{Auth, enforce_user_identity}
use automem.Auth.Identity.{enforce_user_identity-ok}
use automem.Auth.Keys.{ApiKey, fetch_api_key}
use automem.Auth.Verify.{
  admin_auth, admit, auth_of_key, touch_api_key, verify_api_key, verify_row, is_admin_key,
  compare_digest,
}

-- The row that a token opens: found under the token's hash, active, and the rights are its rights.
pub record Grants (hash_token : Text → Text) (token : Text) (table : List ApiKey) (auth : Auth)
    : Type 0 where
  pub key : ApiKey
  pub found : fetch_api_key hash_token token table ≡ some key
  pub hashed : key.token_hash ≡ hash_token token
  pub active : key.status ≡ text "active"
  pub user : auth.user_id ≡ key.user_id
  pub scopes : auth.scopes ≡ key.scopes
  pub projects : auth.project_ids ≡ key.project_ids
  pub admin : auth.is_admin ≡ elem (text "admin") key.scopes

admit-ok : (key : ApiKey) (auth : Auth) → admit key ≡ ok auth → auth ≡ auth_of_key key
unfolding admit
admit-ok key auth e = ground arith

module _ (hash_token : Text → Text) (admin_key now : Text) where
  fetch-hashed :
      (token : Text) (table : List ApiKey) {key : ApiKey}
      → fetch_api_key hash_token token table ≡ some key
      → key.token_hash ≡ hash_token token
  unfolding fetch_api_key
  fetch-hashed token table {key} e =
      eq_sound key.token_hash (hash_token token)
        (first-test (λ row. row.token_hash == hash_token token) table e)

  -- What `is_admin_key` answers.
  is_admin_key-true :
      (token : Text)
      → is_admin_key admin_key token ≡ ok true
      → (token ≡ admin_key) × (truthy (some admin_key) ≡ true)
  unfolding is_admin_key compare_digest
  is_admin_key-true token e = ground (arith, eq_sound token admin_key)

  -- Past the administrator's key, a token is let in by an active row.
  verify_row-ok :
      (token : Text) (table : List ApiKey) (auth : Auth)
      → (verify_row hash_token now token table).0 ≡ ok auth
      → (key : ApiKey) × (fetch_api_key hash_token token table ≡ some key)
        × (key.status ≡ text "active")
        × (admit key ≡ ok auth)
  unfolding verify_row
  verify_row-ok token table auth e = elim (Option-cases (fetch_api_key hash_token token table)) [
    | inl n ↦ absurd (ground (arith, n))
    | inr (key, f) ↦
        (key, f, ground (arith, f, eq_sound key.status (text "active")), ground (arith, f))
  ]

  verify_opens :
      (token : Text) (table : List ApiKey) (auth : Auth)
      → (verify_api_key hash_token admin_key now (some token) table).0 ≡ ok auth
      → (token ≡ admin_key) × (truthy (some admin_key) ≡ true) × (auth ≡ admin_auth)
        ⊎ ((key : ApiKey) × (fetch_api_key hash_token token table ≡ some key)
            × (key.status ≡ text "active")
            × (admit key ≡ ok auth))
  unfolding verify_api_key
  verify_opens token table auth e = elim (Result-cases (is_admin_key admin_key token)) [
    | inr (fault, raised) ↦ absurd (ground (arith, raised))
    | inl (true, t) ↦
        let (same, nonempty) = is_admin_key-true token t in inl (same, nonempty, ground (arith, t))
    | inl (false, t) ↦ inr (verify_row-ok token table auth (ground (arith, t)))
  ]

  -- Whoever is let in holds the administrator's key, which is not empty, or the token of an active row
  -- and has the rights of that row.
  pub verify_api_key-ok :
      (token : Text) (table : List ApiKey) (auth : Auth)
      → (verify_api_key hash_token admin_key now (some token) table).0 ≡ ok auth
      → (token ≡ admin_key) × (truthy (some admin_key) ≡ true) × (auth ≡ admin_auth)
        ⊎ Grants hash_token token table auth
  verify_api_key-ok token table auth e = elim (verify_opens token table auth e) [
    | inl a ↦ inl a
    | inr (key, f, active, rights) ↦ inr (record {
      key = key;
      found = f;
      hashed = fetch-hashed token table f;
      active = active;
      user = ap (λ (a : Auth). a.user_id) (admit-ok key auth rights);
      scopes = ap (λ (a : Auth). a.scopes) (admit-ok key auth rights);
      projects = ap (λ (a : Auth). a.project_ids) (admit-ok key auth rights);
      admin = ap (λ (a : Auth). a.is_admin) (admit-ok key auth rights);
    })
  ]

  -- A request that is let in without administrator's rights acts only for the user of the active row
  -- that its token opens.
  pub session_acts_for_key_user :
      (token : Text) (table : List ApiKey) (auth : Auth) (asked answer : Option Text)
      → (verify_api_key hash_token admin_key now (some token) table).0 ≡ ok auth
      → auth.is_admin ≡ false
      → enforce_user_identity auth asked ≡ ok answer
      → (key : ApiKey) × (fetch_api_key hash_token token table ≡ some key)
        × (key.status ≡ text "active")
        × (answer ≡ key.user_id)
        × (truthy answer ≡ true)
  session_acts_for_key_user token table auth asked answer e h k =
      elim (verify_api_key-ok token table auth e) [
        | inl (_, _, a) ↦ absurd (ground (arith, a))
        | inr g ↦
            let (same, nonempty, _) = enforce_user_identity-ok auth asked answer h k in
            (g.key, g.found, g.active, cc (same, g.user), nonempty)
      ]

  -- What a token opens, but for the time of its last use.
  abbrev pub opened : Text → List ApiKey → Option ApiKey
  opened token table =
      Option.map {A = ApiKey} (λ k. record k { last_used_at = none })
        (fetch_api_key hash_token token table)

  opened-touch :
      (key_id token : Text) (table : List ApiKey)
      → opened token (touch_api_key now key_id table) ≡ opened token table
  unfolding fetch_api_key touch_api_key
  opened-touch key_id token table =
      rw
        (first-update (λ row. row.key_id == key_id) (λ row. row.token_hash == hash_token token)
          (λ row. record row { last_used_at = some now }) (λ _ _. refl) table)
        (ground arith)

  verify_row_keeps :
      (header : Text) (table : List ApiKey) (token : Text)
      → opened token (verify_row hash_token now header table).1 ≡ opened token table
  unfolding verify_row
  verify_row_keeps header table token =
      elim (Option-cases (fetch_api_key hash_token header table)) [
        | inl n ↦ ground (arith, n)
        | inr (key, f) ↦ ground (arith, f, opened-touch key.key_id token table)
      ]

  -- Verifying a key, accepted or not, changes nothing of what any token opens but the time of the last
  -- use.
  verify_api_key_keeps :
      (header : Option Text) (table : List ApiKey) (token : Text)
      → opened token (verify_api_key hash_token admin_key now header table).1 ≡ opened token table
  unfolding verify_api_key
  verify_api_key_keeps none table token = refl
  verify_api_key_keeps (some header) table token =
      elim (Result-cases (is_admin_key admin_key header)) [
        | inr (fault, raised) ↦ rw (raised, verify_api_key) refl
        | inl (true, t) ↦ rw (t, verify_api_key) refl
        | inl (false, t) ↦ rw (t, verify_api_key) (verify_row_keeps header table token)
      ]
