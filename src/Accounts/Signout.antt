-- ===== src/Accounts/Signout.antt =====
-- Who has no session any more.
use mathlib.Core.Bool.{false≢true}
use mathlib.Core.Option.{some-injective}
use api_provider.Prelude.{ℕ, ◌≡◌, sym, ap, ◌∙◌, true, false, ◌&&◌, Option, some, arith}
use api_provider.Prelude.Tests.{is_some, and_then-eq-some, only_if-eq-some}
use api_provider.Plans.{User}
use api_provider.Result.{ok}
use api_provider.Schema.{State}
use api_provider.Convex.Docs.{Doc}
use api_provider.Convex.Database.{Database}
use api_provider.Session.{
  Auth, AuthSession, is_session_active, is_current, is_usable, current_user_id,
}
use api_provider.Admin.{lock_user}
use api_provider.Admin.Lockout.{lock_user-disabled}

module _ ⦃db : Database⦄ where
  open db use {get}

  disabled_inactive :
      (session : ℕ → Option AuthSession) (user_id session_id now : ℕ) (s : State) (u : Doc User)
      → get user_id s.users ≡ some u
      → is_some u.value.disabled_at ≡ true
      → is_session_active session user_id session_id now s ≡ false
  unfolding is_session_active
  disabled_inactive session user_id session_id now s u there disabled =
      ap (λ o. is_current user_id now (session session_id) && is_usable o) there
      ∙ ground (arith, disabled)

  -- After an account has been locked, no session of it is active, whenever it expires.
  pub lock_user_signs_out :
      (user_id now : ℕ) (s s' : State) (n : ℕ) (auth : Auth) (later : ℕ)
      → lock_user user_id now s ≡ ok (n, s')
      → ¬ (current_user_id auth later s' ≡ some user_id)
  unfolding current_user_id
  lock_user_signs_out user_id now s s' n auth later call signed_in =
      let (u, there, disabled) = lock_user-disabled user_id now s s' n call in
      let (i, is_user, h1) = and_then-eq-some auth.user_id _ signed_in in
      let (session_id, is_session, h2) = and_then-eq-some auth.session_id _ h1 in
      let (active, same) =
        only_if-eq-some (is_session_active auth.session i session_id later s') _ h2 in
      let inactive = disabled_inactive auth.session user_id session_id later s' u there disabled in
      false≢true (
        sym inactive
        ∙ ap (λ j. is_session_active auth.session j session_id later s')
            (sym (some-injective _ _ same))
        ∙ active)
