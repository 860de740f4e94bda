-- ===== src/Accounts.antt =====
-- users.ts. What the auth library does with accounts and passwords is a parameter.
pub mod Signout
pub mod Passwords
use api_provider.Prelude.{ℕ, String, Bool, ◌&&◌, Option, none, some}
use api_provider.Prelude.Tests.{leb, get_or}
use api_provider.Text.{utf16_size, trim}
use api_provider.Plans.{User}
use api_provider.Result.{Result, convex_error, ok, ◌>>=◌, ◌>>◌, require, or_throw}
use api_provider.Schema.{State}
use api_provider.Session.{Auth, current_user_id, require_user_id}
use api_provider.Convex.Docs.{Doc}
use api_provider.Convex.Database.{Database}

abbrev pub max_name_length : ℕ
max_name_length = 120

-- The signed-in developer.
pub record Viewer : Type 0 where
  pub id : ℕ
  pub name : String
  pub email : String
  pub created_at : ℕ

abbrev pub view : Doc User → Viewer
view u = record {
  id = u.id;
  name = get_or u.value.name "";
  email = get_or u.value.email "";
  created_at = u.created;
}

abbrev pub with_profile : String → ℕ → User → User
with_profile cleaned now u = record u { name = some cleaned; updated_at = some now }

module _ ⦃db : Database⦄ where
  open db use {get, patch}

  unfoldable pub viewer : Auth → ℕ → State → Option Viewer
  viewer auth now s = elim (current_user_id auth now s) [
    | none ↦ none
    | some user_id ↦ elim (get user_id s.users) [ none ↦ none | some u ↦ some (view u) ]
  ]

  unfoldable pub update_profile : Auth → String → ℕ → State → Result State
  update_profile auth chosen now s = do
    user_id ← require_user_id auth now s
    let cleaned : String = trim chosen
    require (leb 1 (utf16_size cleaned) && leb (utf16_size cleaned) max_name_length)
        (convex_error "Name must be 1 to 120 characters.")
    ok (record s { users = patch user_id (with_profile cleaned now) s.users })
