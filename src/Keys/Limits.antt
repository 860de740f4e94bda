-- ===== src/Keys/Limits.antt =====
-- The number of keys of an account and of playground tokens of a key.
use api_provider.Prelude.{
  ℕ, ◌+◌, ◌≤◌, ◌<◌, ◌≡◌, sym, ap, ◌∙◌, subst, inl, inr, List, [], ◌∷◌, ◌++◌, arith,
}
use mathlib.Core.List.{append-nil}
use api_provider.Prelude.Tests.{ltb, ltb→lt, ◌==◌, Bool-cases}
use api_provider.Prelude.Lists.{
  filter, length, take, take-short, length-append, filter-append, length-filter-le,
}
use api_provider.Result.{ok, ok-injective}
use api_provider.Schema.{ApiKey, State}
use api_provider.Audit.{write_audit}
use api_provider.Convex.Docs.{Doc}
use api_provider.Convex.Database.{Database}
use api_provider.Convex.Queries.{query-insert}
use api_provider.Keys.{
  NewKey, stored_key, of_user, is_active, insert_key, insert_within, has_access,
  max_active_keys_per_user, max_total_keys_per_user,
}

-- Within the limits of an account.
abbrev Within : List (Doc ApiKey) → Type 0
Within ks =
    (length ks ≤ max_total_keys_per_user)
    × (length (filter is_active ks) ≤ max_active_keys_per_user)

one_more :
    (ks : List (Doc ApiKey)) (d : Doc ApiKey)
    → length ks < max_total_keys_per_user
    → length (filter is_active ks) < max_active_keys_per_user
    → Within (ks ++ d ∷ [])
one_more ks d total active = (
  omega (arith, total, length-append ks (d ∷ [])),
  rw (filter-append is_active ks (d ∷ [])) (
      omega (
        arith,
        active,
        length-append (filter is_active ks) (filter is_active (d ∷ [])),
        length-filter-le is_active (d ∷ []),
      )),
)

module _ ⦃db : Database⦄ where
  open db use {Table, get, query, insert, new_id, creation_time}

  abbrev keys_of : ℕ → State → List (Doc ApiKey)
  keys_of user_id s = query (of_user user_id) s.api_keys

  -- Every account has at most 200 keys, at most 25 of which are not revoked.
  abbrev pub KeysBounded : State → Type 0
  KeysBounded s = (user_id : ℕ) → Within (keys_of user_id s)

  insert_within-room :
      (args : NewKey) (now : ℕ) (s s' : State) (key_id : ℕ) (all : List (Doc ApiKey))
      → insert_within args now s all ≡ ok (key_id, s')
      → (s'.api_keys ≡ insert (stored_key args) s.api_keys)
        × (length all < max_total_keys_per_user)
        × (length (filter is_active all) < max_active_keys_per_user)
  unfolding insert_within write_audit
  insert_within-room args now s s' key_id all h =
      elim (Bool-cases (ltb (length all) max_total_keys_per_user)) [
        | inl total ↦
            elim (Bool-cases (ltb (length (filter is_active all)) max_active_keys_per_user)) [
              | inl active ↦
                  let (same_id, same) = ok-injective (rw (total, active) at h) in
                  (
                    ap (λ (x : State). x.api_keys) (sym same),
                    ltb→lt (length all) max_total_keys_per_user total,
                    ltb→lt (length (filter is_active all)) max_active_keys_per_user active,
                  )
              | inr full ↦ cc (rw (total, full) at h)
            ]
        | inr full ↦ cc (rw full at h)
      ]

  insert_key-room :
      (args : NewKey) (now : ℕ) (s s' : State) (key_id : ℕ)
      → insert_key args now s ≡ ok (key_id, s')
      → (s'.api_keys ≡ insert (stored_key args) s.api_keys)
        × (length (keys_of args.user_id s) < max_total_keys_per_user)
        × (length (filter is_active (keys_of args.user_id s)) < max_active_keys_per_user)
  unfolding insert_key
  insert_key-room args now s s' key_id h =
      elim (Bool-cases (has_access (get args.user_id s.users) now)) [
        | inl access ↦
            let all = take (max_total_keys_per_user + 1) (keys_of args.user_id s) in
            let (inserted, total, active) =
              insert_within-room args now s s' key_id all (rw access at h) in
            let whole : all ≡ keys_of args.user_id s =
              take-short (max_total_keys_per_user + 1) (keys_of args.user_id s)
                (omega (arith, total)) in
            (inserted, (rw whole at total), (rw whole at active))
        | inr none_left ↦ cc (rw none_left at h)
      ]

  -- Creating a key keeps every account within 200 keys and 25 keys that are not revoked.
  pub insert_key-KeysBounded :
      (args : NewKey) (now : ℕ) (s s' : State) (key_id : ℕ)
      → KeysBounded s
      → insert_key args now s ≡ ok (key_id, s')
      → KeysBounded s'
  insert_key-KeysBounded args now s s' key_id bounded h user_id =
      let (inserted, total, active) = insert_key-room args now s s' key_id h in
      let new : Doc ApiKey = record {
        id = new_id s.api_keys;
        created = creation_time s.api_keys;
        value = stored_key args;
      } in
      let all =
        ap (query (of_user user_id)) inserted
        ∙ query-insert (of_user user_id) (stored_key args) s.api_keys in
      elim (Bool-cases (args.user_id == user_id)) [
        | inl same ↦
            let is_user : args.user_id ≡ user_id = ground (arith, same) in
            subst Within (sym all) (
              rw same (
                subst (λ i. Within (keys_of i s ++ new ∷ [])) is_user
                  (one_more (keys_of args.user_id s) new total active)))
        | inr other ↦
            subst Within (sym all) (rw (other, append-nil (keys_of user_id s)) (bounded user_id))
      ]
