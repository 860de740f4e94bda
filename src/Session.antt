-- ===== src/Session.antt =====
-- lib/session.ts. The sessions and who has signed in are the auth library's: `Auth` has the ids that
-- `getAuthUserId` and `getAuthSessionId` give, and the table of sessions.
use api_provider.Prelude.{ℕ, Bool, false, not, ◌&&◌, Option, none, some}
use api_provider.Prelude.Tests.{leb, ◌==◌, is_some, and_then, only_if}
use api_provider.Plans.{User}
use api_provider.Result.{Result, convex_error, or_throw}
use api_provider.Schema.{State}
use api_provider.Convex.Docs.{Doc}
use api_provider.Convex.Database.{Database}

pub record AuthSession : Type 0 where
  pub user_id : ℕ
  pub expiration_time : ℕ

pub record Auth : Type 0 where
  pub user_id : Option ℕ
  pub session_id : Option ℕ
  pub session : ℕ → Option AuthSession

abbrev pub is_usable : Option (Doc User) → Bool
is_usable none = false
is_usable (some user) = not (is_some user.value.disabled_at) && not user.value.is_system

abbrev pub is_current : ℕ → ℕ → Option AuthSession → Bool
is_current user_id now none = false
is_current user_id now (some session) =
    session.user_id == user_id && not (leb session.expiration_time now)

module _ ⦃db : Database⦄ where
  open db use {get}

  unfoldable pub is_session_active : (ℕ → Option AuthSession) → ℕ → ℕ → ℕ → State → Bool
  is_session_active session user_id session_id now s =
      is_current user_id now (session session_id) && is_usable (get user_id s.users)

  unfoldable pub current_user_id : Auth → ℕ → State → Option ℕ
  unfolding is_session_active
  current_user_id auth now s = and_then auth.user_id (λ user_id.
      and_then auth.session_id (λ session_id.
        only_if (is_session_active auth.session user_id session_id now s) (some user_id)))

  unfoldable pub require_user_id : Auth → ℕ → State → Result ℕ
  unfolding current_user_id
  require_user_id auth now s =
      or_throw (current_user_id auth now s) (convex_error "You need to sign in.")
