-- ===== src/Admin/Lockout.antt =====
-- What disabling an account stops.
use api_provider.Prelude.{
  ℕ, ◌≡◌, refl, sym, ap, ◌∙◌, inl, inr, true, Option, some, List, [], ◌∷◌, arith,
}
use api_provider.Prelude.Tests.{Bool-cases, is_some}
use api_provider.Env.{Env}
use api_provider.Plans.{User}
use api_provider.Result.{ok, >>=-eq-ok, ok-injective, or_throw}
use api_provider.Schema.{ApiKey, State}
use api_provider.Audit.{write_audit}
use api_provider.Convex.Docs.{Doc}
use api_provider.Convex.Database.{Database}
use api_provider.Convex.Queries.{get-patch-same}
use api_provider.Keys.{revoke_active, delete_playground_tokens, of_user}
use api_provider.Admin.{locked_at, revoke_each, lock_user}
use api_provider.Gateway.Credential.{Args, Response, Principal}
use api_provider.Gateway.Authorize.{authorize}
use api_provider.Gateway.Authorize.Outcomes.{Counted}
use api_provider.Gateway.Authorize.Served.{served}

module _ ⦃db : Database⦄ where
  open db use {get, query, patch}

  revoke_active-users :
      (now : ℕ) (k : Doc ApiKey) (s : State) → (revoke_active now k s).users ≡ s.users
  revoke_active-users now k s = ground arith

  revoke_each-users :
      (now : ℕ) (ks : List (Doc ApiKey)) (s : State) → (revoke_each now ks s).users ≡ s.users
  unfolding revoke_each delete_playground_tokens
  revoke_each-users now [] s = refl
  revoke_each-users now (k ∷ ks) s =
      revoke_each-users now ks (delete_playground_tokens k.id (revoke_active now k s))
      ∙ revoke_active-users now k s

  pub lock_user-disabled :
      (user_id now : ℕ) (s s' : State) (n : ℕ)
      → lock_user user_id now s ≡ ok (n, s')
      → (u : Doc User) × (get user_id s'.users ≡ some u) × (is_some u.value.disabled_at ≡ true)
  unfolding lock_user write_audit
  lock_user-disabled user_id now s s' n h =
      let (user, found, h') = >>=-eq-ok (or_throw (get user_id s.users) _) _ h in
      let there : get user_id s.users ≡ some user = ground (arith, found) in
      let locked : State = record s { users = patch user_id (locked_at now) s.users } in
      let ks = query (of_user user_id) s.api_keys in
      elim (Bool-cases user.value.is_system) [
        | inl system ↦ cc (rw system at h')
        | inr ordinary ↦
            let (same_n, same) = ok-injective (rw ordinary at h') in
            (
              record user { value = locked_at now user.value },
              ap (λ (x : State). get user_id x.users) (sym same)
                  ∙ ap (get user_id) (revoke_each-users now ks locked)
                  ∙ get-patch-same user_id (locked_at now) s.users user there,
              refl,
            )
      ]

  -- After an account has been locked, no request is counted for any of its keys.
  pub lock_user_stops :
      (user_id now : ℕ) (s s' t : State) (n : ℕ) (env : Env) (args : Args) (later : ℕ)
      (answer : Response) (p : Principal)
      → lock_user user_id now s ≡ ok (n, s')
      → authorize env args later s' ≡ ok (answer, t)
      → Counted answer p
      → ¬ (p.user_id ≡ user_id)
  lock_user_stops user_id now s s' t n env args later answer p h call counted same =
      let (u, there, disabled) = lock_user-disabled user_id now s s' n h in
      let (a, admits, is_p, found) = served env args later s' t answer p call counted in
      let is_user : a.key.value.user_id ≡ user_id =
        sym (ap (λ (q : Principal). q.user_id) is_p) ∙ same in
      let same_user : ◌≡◌ {A = Option (Doc User)} (some a.owner) (some u) =
        sym admits.owned ∙ ap (λ i. get i s'.users) is_user ∙ there in
      ground (arith, same_user, admits.enabled)
