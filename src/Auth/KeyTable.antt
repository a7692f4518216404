-- ===== src/Auth/KeyTable.antt =====
-- The table `api_keys` as the bootstrap, the creation and the use of keys leave it.
use automem.Common.{
  true, ℕ, ◌+◌, ◌≡◌, ◌≢◌, refl, inl, inr, false, Option, none, some, List, [], ◌∷◌, ◌++◌, arith,
  Bool-cases, Option-cases, first, first-append, All, All-append, All-update, All-first, All-map_of,
  UniqueBy, UniqueBy-update, UniqueBy-append_one,
}
use automem.Text.{is_ascii, Text, text, ◌==◌, elem, truthy, eq_sound, eq_refl}
use automem.Http.{ok, err, key_without_user}
use automem.Auth.{Auth}
use automem.Auth.Keys.{
  ApiKey, SeedItem, Bootstrap, items, clashes, insert_key, insert_or_ignore, unbound, seed_row,
  seed_item, seed_items, seed_agent_keys, create_agent_key, new_key, new_token, fetch_api_key,
}
use automem.Auth.Verify.{
  compare_digest, is_admin_key, verify_row, auth_of_key, admit, touch_api_key, verify_api_key,
}

-- Key ids and token hashes are unique, and a key is an administrator's or some user's.
pub record IsWellKept (table : List ApiKey) : Type 0 where
  pub ids : UniqueBy (λ (k : ApiKey). k.key_id) table
  pub hashes : UniqueBy (λ (k : ApiKey). k.token_hash) table
  pub bound : All (λ (k : ApiKey). unbound k.scopes k.user_id ≡ false) table

none-clashes :
    (key : ApiKey) (table : List ApiKey)
    → first (clashes key) table ≡ none
    → All (λ (row : ApiKey). (row.key_id ≢ key.key_id) × (row.token_hash ≢ key.token_hash)) table
unfolding first
none-clashes key [] h = tt
none-clashes key (row ∷ rows) h = (
  (λ e. ground (arith, eq_refl key.key_id), λ e. ground (arith, eq_refl key.token_hash)),
  none-clashes key rows (ground arith),
)

first_by_hash :
    (hash : Text) (table : List ApiKey)
    → All (λ (row : ApiKey). row.token_hash ≢ hash) table
    → first (λ (row : ApiKey). row.token_hash == hash) table ≡ none
unfolding first
first_by_hash hash [] h = refl
first_by_hash hash (row ∷ rows) h =
    ground (arith, eq_sound row.token_hash hash, first_by_hash hash rows h.1, h.0)

append-IsWellKept :
    (key : ApiKey) (table : List ApiKey)
    → unbound key.scopes key.user_id ≡ false
    → first (clashes key) table ≡ none
    → IsWellKept table
    → IsWellKept (table ++ key ∷ [])
append-IsWellKept key table b h w =
    let free = none-clashes key table h in
    record {
      ids = UniqueBy-append_one _ table key w.ids (All-map_of _ _ (λ row p. p.0) table free);
      hashes = UniqueBy-append_one _ table key w.hashes (All-map_of _ _ (λ row p. p.1) table free);
      bound = All-append _ table (key ∷ []) w.bound (b, tt);
    }

insert_or_ignore-IsWellKept :
    (key : ApiKey) (table : List ApiKey)
    → unbound key.scopes key.user_id ≡ false
    → IsWellKept table
    → IsWellKept (insert_or_ignore key table)
unfolding insert_or_ignore
insert_or_ignore-IsWellKept key table b w = elim (Option-cases (first (clashes key) table)) [
  | inl n ↦ rw (n, insert_or_ignore) (append-IsWellKept key table b n w)
  | inr (row, f) ↦ rw (f, insert_or_ignore) w
]

pub touch_api_key-IsWellKept :
    (now key_id : Text) (table : List ApiKey)
    → IsWellKept table
    → IsWellKept (touch_api_key now key_id table)
unfolding touch_api_key
touch_api_key-IsWellKept now key_id table w = record {
  ids = UniqueBy-update _ _ _ (λ _ _. refl) table w.ids;
  hashes = UniqueBy-update _ _ _ (λ _ _. refl) table w.hashes;
  bound = All-update _ _ _ (λ _ _ h. h) table w.bound;
}

module _ (hash_token : Text → Text) where
  seed_item-IsWellKept :
      (suffix now : Text) (item : Option SeedItem) (table : List ApiKey)
      → IsWellKept table
      → IsWellKept (seed_item hash_token suffix now item table)
  unfolding seed_item
  seed_item-IsWellKept suffix now none table w = w
  seed_item-IsWellKept suffix now (some item) table w = elim (Bool-cases (truthy item.token)) [
    | inl t ↦ elim (Bool-cases (unbound item.scopes item.user_id)) [
      | inl u ↦ rw (t, u) w
      | inr u ↦
          rw (t, u) (insert_or_ignore-IsWellKept (seed_row hash_token suffix now item) table u w)
    ]
    | inr t ↦ rw t w
  ]

  seed_items-IsWellKept :
      (suffix : ℕ → Text) (n : ℕ) (now : Text) (list : List (Option SeedItem)) (table : List ApiKey)
      → IsWellKept table
      → IsWellKept (seed_items hash_token suffix n now list table)
  unfolding seed_items
  seed_items-IsWellKept suffix n now [] table w = w
  seed_items-IsWellKept suffix n now (item ∷ rest) table w =
      seed_items-IsWellKept suffix (n + 1) now rest (seed_item hash_token (suffix n) now item table)
        (seed_item-IsWellKept (suffix n) now item table w)

  -- The bootstrap keeps ids and hashes unique and adds no key that is bound to no user and no
  -- administrator's, whatever `AGENT_KEYS_JSON` holds.
  pub seed_agent_keys-IsWellKept :
      (suffix : ℕ → Text) (now : Text) (raw : Bootstrap) (table : List ApiKey)
      → IsWellKept table
      → IsWellKept (seed_agent_keys hash_token suffix now raw table)
  unfolding seed_agent_keys
  seed_agent_keys-IsWellKept suffix now (items list) table w =
      seed_items-IsWellKept suffix 0 now list table w
  seed_agent_keys-IsWellKept suffix now _ table w = w

  module _ (random_id random_token now agent_id label : Text) (scopes : List Text)
      (user_id : Option Text) (project_ids : List Text) (given : Option Text)
      (table : List ApiKey) where
    abbrev created : ApiKey
    created =
        new_key hash_token random_id random_token now agent_id label scopes user_id project_ids
          given

    abbrev Creates : Text → List ApiKey → Type 0
    Creates token after =
        create_agent_key hash_token random_id random_token now agent_id label scopes user_id
          project_ids given table
        ≡ ok (token, after)

    -- What a successful creation leaves: the new row is the last.
    created_last :
        (token : Text) (after : List ApiKey)
        → Creates token after
        → (token ≡ new_token hash_token random_token given)
          × (after ≡ table ++ created ∷ [])
          × (first (clashes created) table ≡ none)
          × (unbound scopes user_id ≡ false)
    unfolding create_agent_key insert_key
    created_last token after e = ground arith

    -- A key that was created keeps the table in order.
    pub create_agent_key-IsWellKept :
        (token : Text) (after : List ApiKey)
        → Creates token after
        → IsWellKept table
        → IsWellKept after
    create_agent_key-IsWellKept token after e w =
        let (_, last, free, bound) = created_last token after e in
        rw last (append-IsWellKept created table bound free w)

    fetch-created :
        (token : Text) (after : List ApiKey)
        → Creates token after
        → fetch_api_key hash_token token after ≡ some created
    unfolding fetch_api_key first
    fetch-created token after e =
        let (given_token, last, free, _) = created_last token after e in
        rw (given_token, last)
          (rw first-append (
            rw
              (first_by_hash _ table
                (All-map_of _ _ (λ row p. p.1) table (none-clashes created table free)))
              (rw eq_refl)))

    not_admin_key :
        (admin_key token : Text)
        → token ≢ admin_key
        → (truthy (some admin_key) ≡ true → (is_ascii token ≡ true) × (is_ascii admin_key ≡ true))
        → is_admin_key admin_key token ≡ ok false
    unfolding is_admin_key compare_digest
    not_admin_key admin_key token other ascii = elim (Bool-cases (truthy (some admin_key))) [
      | inl set ↦ ground (arith, set, (ascii set).0, (ascii set).1, eq_sound token admin_key)
      | inr unset ↦ rw unset refl
    ]

    -- The token that a creation returns opens the new key, and is let in as the user and with the
    -- scopes that the creation was given, unless it is the administrator's key; if an administrator's
    -- key is set, it and the token have to be ASCII texts.
    pub verify-create_agent_key :
        (admin_key later token : Text) (after : List ApiKey)
        → Creates token after
        → token ≢ admin_key
        → (truthy (some admin_key) ≡ true → (is_ascii token ≡ true) × (is_ascii admin_key ≡ true))
        → (auth : Auth) × ((verify_api_key hash_token admin_key later (some token) after).0
            ≡ ok auth)
          × (auth.user_id ≡ user_id)
          × (auth.scopes ≡ scopes)
          × (auth.is_admin ≡ elem (text "admin") scopes)
    unfolding verify_api_key verify_row admit
    verify-create_agent_key admin_key later token after e other ascii = (
      auth_of_key created,
      ground (
        arith,
        not_admin_key admin_key token other ascii,
        fetch-created token after e,
        created_last token after e,
        eq_refl (text "active"),
      ),
      refl,
      refl,
      refl,
    )

bound_of_fetch :
    (hash_token : Text → Text) (token : Text) (table : List ApiKey) (key : ApiKey)
    → IsWellKept table
    → fetch_api_key hash_token token table ≡ some key
    → unbound key.scopes key.user_id ≡ false
unfolding fetch_api_key
bound_of_fetch hash_token token table key w f = All-first _ _ table w.bound f

-- On a table in order nobody is refused with 403 for a key without a user.
verify_api_key-ne-key_without_user :
    (hash_token : Text → Text) (admin_key now : Text) (header : Option Text) (table : List ApiKey)
    → IsWellKept table
    → (verify_api_key hash_token admin_key now header table).0 ≢ err key_without_user
unfolding verify_api_key verify_row admit is_admin_key compare_digest
verify_api_key-ne-key_without_user hash_token admin_key now none table w e = cc
verify_api_key-ne-key_without_user hash_token admin_key now (some token) table w e =
    elim (Option-cases (fetch_api_key hash_token token table)) [
      | inl n ↦ ground (arith, n)
      | inr (key, f) ↦ ground (arith, f, bound_of_fetch hash_token token table key w f)
    ]
