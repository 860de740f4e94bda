-- ===== src/Platform/SiteKey.antt =====
-- The rotation of the site key.
use mathlib.Core.Option.{some-injective}
use api_provider.Prelude.{
  ℕ, ◌≡◌, sym, ap, ◌∙◌, inl, inr, String, true, false, some, List, [], ◌∷◌, arith,
}
use api_provider.Prelude.Tests.{Bool-cases, Option-cases}
use api_provider.Prelude.Lists.{All}
use api_provider.Result.{ok, >>=-eq-ok, ok-cancel}
use api_provider.Schema.{ApiKey, State}
use api_provider.Convex.Docs.{Doc, find, find-All, find-select}
use api_provider.Convex.Database.{Database}
use api_provider.Convex.Queries.{unique, get-patch, get-patch-other, get-patch-same, get-id}
use api_provider.Keys.{of_user, revoke_at}
use api_provider.Gateway.Credential.{has_key_hash}
use api_provider.Platform.{PlatformKey, is_replaced, revoke_replaced, upsert_row, upsert_key}

of_user_refl : (user_id : ℕ) (k : ApiKey) → k.user_id ≡ user_id → of_user user_id k ≡ true
of_user_refl user_id k owner = ground arith

module _ ⦃db : Database⦄ where
  open db use {Table, docs, get, query, patch}

  still_revoked :
      (hash : String) (now i : ℕ) (t : Table ApiKey) (d : Doc ApiKey)
      → get i (patch i (revoke_at now) t) ≡ some d
      → ¬ (is_replaced hash d.value ≡ true)
  still_revoked hash now i t d h stray = elim (Option-cases (get i t)) [
    | inl missing ↦ cc (h, (rw missing at (get-patch i i (revoke_at now) t)))
    | inr (e, there) ↦
        let same = some-injective _ _ (sym (get-patch-same i (revoke_at now) t e there) ∙ h) in
        ground (arith, same, stray)
  ]

  -- A replaced key that is in force after the loop was so before it, and the loop did not see it.
  revoke_replaced_lem :
      (hash : String) (now : ℕ) (ks : List (Doc ApiKey)) (t : Table ApiKey) (i : ℕ) (d : Doc ApiKey)
      → get i (revoke_replaced hash now ks t) ≡ some d
      → is_replaced hash d.value ≡ true
      → (get i t ≡ some d) × All (λ k. k.id ≡ i → is_replaced hash k.value ≡ false) ks
  unfolding revoke_replaced
  revoke_replaced_lem hash now [] t i d h stray = (h, tt)
  revoke_replaced_lem hash now (k ∷ ks) t i d h stray =
      elim (Bool-cases (is_replaced hash k.value)) [
        | inl replaced ↦
            let (after, unseen) =
              revoke_replaced_lem hash now ks (patch k.id (revoke_at now) t) i d (rw replaced at h)
                stray in
            let apart : k.id ≡ i → ⊥ =
              λ same. still_revoked hash now i t d (rw (← same) (rw (← same) at after)) stray in
            (
              sym (get-patch-other k.id i (revoke_at now) t (λ e. apart (sym e))) ∙ after,
              (λ same. absurd (apart same), unseen),
            )
        | inr kept ↦
            let (before, unseen) = revoke_replaced_lem hash now ks t i d (rw kept at h) stray in
            (before, (λ same. kept, unseen))
      ]

  all_replaced :
      (hash : String) (now user_id : ℕ) (t : Table ApiKey) (i : ℕ) (k : Doc ApiKey)
      → get i (revoke_replaced hash now (query (of_user user_id) t) t) ≡ some k
      → k.value.user_id ≡ user_id
      → is_replaced hash k.value ≡ false
  all_replaced hash now user_id t i k there owner = elim (Bool-cases (is_replaced hash k.value)) [
    | inr kept ↦ kept
    | inl stray ↦
        let (before, unseen) =
          revoke_replaced_lem hash now (query (of_user user_id) t) t i k there stray in
        let listed : find i (query (of_user user_id) t) ≡ some k =
          rw (db.query-docs (of_user user_id) t) (
            find-select (of_user user_id) i (docs t) k (sym (db.get-docs i t) ∙ before)
              (of_user_refl user_id k.value owner)) in
        find-All _ i (query (of_user user_id) t) k unseen listed (get-id i t k before)
  ]

  -- After a site key has been registered, it is the only one of its account that is in force: every
  -- other site key of the account is revoked or has the same hash.
  pub upsert_key-replaces :
      (args : PlatformKey) (now : ℕ) (s s' : State) (i : ℕ) (k : Doc ApiKey)
      → upsert_key args now s ≡ ok s'
      → args.is_site_key ≡ true
      → get i s'.api_keys ≡ some k
      → k.value.user_id ≡ args.user_id
      → is_replaced args.key_hash k.value ≡ false
  unfolding upsert_key
  upsert_key-replaces args now s s' i k call site there owner =
      let (existing, is_existing, call1) =
        >>=-eq-ok (unique (has_key_hash args.key_hash) s.api_keys) _ call in
      let (t, inserted, call2) = >>=-eq-ok (upsert_row args existing s.api_keys) _ call1 in
      let same = ok-cancel (rw site at call2) in
      all_replaced args.key_hash now args.user_id t i k
        (ap (λ (x : State). get i x.api_keys) same ∙ there) owner
