-- ===== src/Keys/Ownership.antt =====
-- What the dashboard's functions do to keys, and for whom.
use api_provider.Prelude.{
  ℕ, ◌+◌, ◌≤◌, ◌≡◌, refl, sym, ap, ◌∙◌, String, Bool, true, false, not, ◌&&◌, Option, none, some,
  List, arith,
}
use api_provider.Prelude.Tests.{ltb, leb, leb→le, is_some}
use api_provider.Prelude.Lists.{filter, length, take}
use mathlib.Core.Bool.{and-eq-true_iff}
use api_provider.Text.{utf16_size, trim, collapse}
use api_provider.Number.{Number}
use Prim.Native.String.{◌++◌ as str_append}
use api_provider.Endpoints.{ApiEndpoint, clean_endpoints}
use api_provider.Env.{Env}
use api_provider.Result.{
  ok, >>=-eq-ok, require-eq-ok, or_throw, or_throw-eq-ok, ok-injective, ok-cancel,
}
use api_provider.Schema.{ApiKey, PlaygroundToken, State}
use api_provider.Audit.{write_audit}
use api_provider.Session.{Auth, require_user_id}
use api_provider.Convex.Docs.{Doc}
use api_provider.Convex.Database.{Database}
use api_provider.Convex.Queries.{get-new}
use api_provider.Keys.{
  NewKey, stored_key, of_user, is_active, drop_oldest, has_access, has_passed, owned_key,
  insert_key, insert_within, insert_playground_token, max_active_keys_per_user,
  max_total_keys_per_user,
}
use api_provider.Keys.Expiry.{clean_expires_at}
use api_provider.Keys.Format.{
  key_start, playground_token_start, clean_key_name, max_key_name_length, key_prefix,
  playground_token_ttl_ms,
}
use api_provider.Keys.Actions.{
  Created, Token, hash_secret, store_key, store_token, create, create_playground_token,
}

clean_key_name-bounds :
    (name cleaned : String)
    → clean_key_name name ≡ ok cleaned
    → (1 ≤ utf16_size cleaned) × (utf16_size cleaned ≤ max_key_name_length)
unfolding clean_key_name
clean_key_name-bounds name cleaned h =
    let size = utf16_size (collapse false (trim name)) in
    let (fits, h') = require-eq-ok (leb 1 size && leb size max_key_name_length) _ _ h in
    let (some_left, few) = (and-eq-true_iff (leb 1 size) (leb size max_key_name_length)).0 fits in
    let same = ap utf16_size (ok-cancel h') in
    (omega (arith, leb→le _ _ some_left, same), omega (arith, leb→le _ _ few, same))

not-true : (b : Bool) → not b ≡ true → b ≡ false
not-true true h = cc
not-true false h = refl

module _ ⦃db : Database⦄ where
  open db use {Table, get, query, insert, new_id, creation_time}

  insert_key-stored :
      (args : NewKey) (now : ℕ) (t t' : State) (key_id : ℕ)
      → insert_key args now t ≡ ok (key_id, t')
      → (k : Doc ApiKey) × (get key_id t'.api_keys ≡ some k) × (k.value ≡ stored_key args)
  unfolding insert_key insert_within write_audit
  insert_key-stored args now t t' key_id h =
      let all = take (max_total_keys_per_user + 1) (query (of_user args.user_id) t.api_keys) in
      let (access, h1) = require-eq-ok (has_access (get args.user_id t.users) now) _ _ h in
      let (total, h2) = require-eq-ok (ltb (length all) max_total_keys_per_user) _ _ h1 in
      let (active, h3) =
        require-eq-ok (ltb (length (filter is_active all)) max_active_keys_per_user) _ _ h2 in
      let (same_id, same) = ok-injective h3 in
      (
        record {
          id = new_id t.api_keys;
          created = creation_time t.api_keys;
          value = stored_key args;
        },
        ap (λ i. get i t'.api_keys) (sym same_id)
            ∙ ap (λ (x : State). get (new_id t.api_keys) x.api_keys) (sym same)
            ∙ get-new (stored_key args) t.api_keys,
        refl,
      )

  -- A key as it was made and stored.
  pub record Made (env : Env) (user_id : ℕ) (cleaned : String) (t' : State) (made : Created)
      : Type 0 where
    pub key : Doc ApiKey
    pub stored : get made.id t'.api_keys ≡ some key
    pub owned : key.value.user_id ≡ user_id
    pub hashed : hash_secret env made.secret ≡ ok key.value.key_hash
    pub shown : key.value.key_prefix ≡ key_prefix made.secret
    pub in_force : key.value.revoked_at ≡ none
    pub named : key.value.name ≡ cleaned

  store_key-Made :
      (env : Env) (user_id : ℕ) (cleaned : String) (endpoints : List ApiEndpoint)
      (expires_at : Option ℕ) (random : String) (now : ℕ) (t t' : State) (made : Created)
      → store_key env user_id cleaned endpoints expires_at random now t ≡ ok (made, t')
      → Made env user_id cleaned t' made
  unfolding store_key
  store_key-Made env user_id cleaned endpoints expires_at random now t t' made h =
      let secret = str_append key_start random in
      let (hash, hashed, h1) = >>=-eq-ok (hash_secret env secret) _ h in
      let args : NewKey = record {
        user_id = user_id;
        name = cleaned;
        key_prefix = key_prefix secret;
        key_hash = hash;
        endpoints = endpoints;
        expires_at = expires_at;
      } in
      let ((key_id, t1), inserted, h2) = >>=-eq-ok (insert_key args now t) _ h1 in
      let (same_made, same) = ok-injective h2 in
      let (k, there, value) = insert_key-stored args now t t1 key_id inserted in
      record {
        key = k;
        stored =
            ap (λ (m : Created). get m.id t'.api_keys) (sym same_made)
            ∙ ap (λ (x : State). get key_id x.api_keys) (sym same)
            ∙ there;
        owned = ap (λ (v : ApiKey). v.user_id) value;
        hashed =
            ap (λ (m : Created). hash_secret env m.secret) (sym same_made)
            ∙ hashed
            ∙ ap (λ (v : ApiKey). ok v.key_hash) (sym value);
        shown =
            ap (λ (v : ApiKey). v.key_prefix) value
            ∙ ap (λ (m : Created). key_prefix m.secret) same_made;
        in_force = ap (λ (v : ApiKey). v.revoked_at) value;
        named = ap (λ (v : ApiKey). v.name) value;
      }

  -- A key that `create` returns is stored for the user who has signed in, under the hash of the
  -- secret that is returned, in force, with a name of 1 to 100 characters.
  pub create_lem :
      (env : Env) (auth : Auth) (chosen : String) (scope : Option (List String))
      (expiry : Option Number) (random : String) (now : ℕ) (s t t' : State) (made : Created)
      → create env auth chosen scope expiry random now s t ≡ ok (made, t')
      → (user_id : ℕ) × (require_user_id auth now s ≡ ok user_id)
        × (k : Doc ApiKey) × (get made.id t'.api_keys ≡ some k)
        × (k.value.user_id ≡ user_id)
        × (hash_secret env made.secret ≡ ok k.value.key_hash)
        × (k.value.key_prefix ≡ key_prefix made.secret)
        × (k.value.revoked_at ≡ none)
        × (1 ≤ utf16_size k.value.name)
        × (utf16_size k.value.name ≤ max_key_name_length)
  unfolding create
  create_lem env auth chosen scope expiry random now s t t' made h =
      let (user_id, signed_in, h1) = >>=-eq-ok (require_user_id auth now s) _ h in
      let (cleaned, named, h2) = >>=-eq-ok (clean_key_name chosen) _ h1 in
      let (endpoints, scoped, h3) = >>=-eq-ok (clean_endpoints _) _ h2 in
      let (expires_at, expires, h4) = >>=-eq-ok (clean_expires_at expiry now) _ h3 in
      let m = store_key-Made env user_id cleaned endpoints expires_at random now t t' made h4 in
      let (some_name, short) = clean_key_name-bounds chosen cleaned named in
      let size = ap utf16_size m.named in
      (
        user_id,
        signed_in,
        m.key,
        m.stored,
        m.owned,
        m.hashed,
        m.shown,
        m.in_force,
        omega (arith, some_name, size),
        omega (arith, short, size),
      )

  insert_playground_token-stored :
      (args : PlaygroundToken) (now : ℕ) (t t' : State)
      → insert_playground_token args now t ≡ ok t'
      → (row : Doc PlaygroundToken) × (get row.id t'.playground_tokens ≡ some row)
        × (row.value ≡ args)
  unfolding insert_playground_token
  insert_playground_token-stored args now t t' h =
      let left = drop_oldest args.api_key_id t.playground_tokens in
      let (access, h1) = require-eq-ok (has_access (get args.user_id t.users) now) _ _ h in
      (
        record { id = new_id left; created = creation_time left; value = args },
        ap (λ (x : State). get (new_id left) x.playground_tokens) (sym (ok-cancel h1))
            ∙ get-new args left,
        refl,
      )

  store_token_lem :
      (env : Env) (key_id user_id : ℕ) (random : String) (now : ℕ) (t t' : State) (made : Token)
      → store_token env key_id user_id random now t ≡ ok (made, t')
      → (row : Doc PlaygroundToken) × (get row.id t'.playground_tokens ≡ some row)
        × (row.value.api_key_id ≡ key_id)
        × (row.value.user_id ≡ user_id)
        × (hash_secret env made.token ≡ ok row.value.token_hash)
        × (row.value.expires_at ≡ now + playground_token_ttl_ms)
  unfolding store_token
  store_token_lem env key_id user_id random now t t' made h =
      let token = str_append playground_token_start random in
      let (hash, hashed, h1) = >>=-eq-ok (hash_secret env token) _ h in
      let args : PlaygroundToken = record {
        token_hash = hash;
        api_key_id = key_id;
        user_id = user_id;
        expires_at = now + playground_token_ttl_ms;
      } in
      let (t1, inserted, h2) = >>=-eq-ok (insert_playground_token args now t) _ h1 in
      let (same_made, same) = ok-injective h2 in
      let (row, there, value) = insert_playground_token-stored args now t t1 inserted in
      (
        row,
        ap (λ (x : State). get row.id x.playground_tokens) (sym same) ∙ there,
        ap (λ (v : PlaygroundToken). v.api_key_id) value,
        ap (λ (v : PlaygroundToken). v.user_id) value,
        ap (λ (m : Token). hash_secret env m.token) (sym same_made)
            ∙ hashed
            ∙ ap (λ (v : PlaygroundToken). ok v.token_hash) (sym value),
        ap (λ (v : PlaygroundToken). v.expires_at) value,
      )

  -- A playground token that is returned is stored, for fifteen minutes, under the hash of its text. It
  -- is for a key that belongs to the user who has signed in and was neither revoked nor expired.
  pub create_playground_token_lem :
      (env : Env) (auth : Auth) (key_id : ℕ) (random : String) (now : ℕ) (s t t' : State)
      (made : Token)
      → create_playground_token env auth key_id random now s t ≡ ok (made, t')
      → (user_id : ℕ) × (require_user_id auth now s ≡ ok user_id)
        × (k : Doc ApiKey) × (owned_key key_id user_id s ≡ some k)
        × (is_some k.value.revoked_at ≡ false)
        × (has_passed k.value.expires_at now ≡ false)
        × (row : Doc PlaygroundToken) × (get row.id t'.playground_tokens ≡ some row)
        × (row.value.api_key_id ≡ key_id)
        × (row.value.user_id ≡ user_id)
        × (hash_secret env made.token ≡ ok row.value.token_hash)
        × (row.value.expires_at ≡ now + playground_token_ttl_ms)
  unfolding create_playground_token
  create_playground_token_lem env auth key_id random now s t t' made h =
      let (user_id, signed_in, h1) = >>=-eq-ok (require_user_id auth now s) _ h in
      let (k, found, h2) = >>=-eq-ok (or_throw (owned_key key_id user_id s) _) _ h1 in
      let (live, h3) = require-eq-ok (not (is_some k.value.revoked_at)) _ _ h2 in
      let (fresh, h4) = require-eq-ok (not (has_passed k.value.expires_at now)) _ _ h3 in
      let (row, there, of_key, of_owner, hashed, lasts) =
        store_token_lem env key_id user_id random now t t' made h4 in
      (
        user_id,
        signed_in,
        k,
        or_throw-eq-ok _ _ found,
        not-true _ live,
        not-true _ fresh,
        row,
        there,
        of_key,
        of_owner,
        hashed,
        lasts,
      )
