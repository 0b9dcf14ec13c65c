-- ===== src/Accounts.antt =====
-- Users, their sessions and the look-ups of both (api/app/services/user.py,
-- api/app/core/security.py, api/app/crud/user.py, api/app/crud/user_session.py,
-- api/app/models/user.py, api/app/models/user_session.py, api/app/models/role.py). The requests on
-- users stand in Accounts/Requests, the check of the token of a request in Accounts/Auth. Hashes of
-- passwords and random tokens are arguments. `lower` works on ASCII letters.
pub mod Requests
pub mod Roles
pub mod Auth
pub mod Tokens
pub mod Logins
use pressure_platform.Prelude.{
  ℕ, ◌+◌, Bool, true, false, ◌&&◌, ◌||◌, not, Option, none, some, List, [], ◌∷◌, ◌++◌, length,
  if◌then◌else◌, ◌==◌, ltb, leb, any, find, keep, update_where,
}
use mathlib.Core.Option
use pressure_platform.Prelude.Text.{Text, codes, text_eq, is_empty, strip, lower, contains}
use pressure_platform.Store.{Audit, Code, Error, Result, ok, err, and_then}

pub record User : Type 0 where
  pub id : ℕ
  pub username : Text
  pub password : Text
  pub real_name : Text
  pub role_id : ℕ
  pub token : Text
  pub effect_time : ℕ
  pub expire_time : ℕ

pub record UserSession : Type 0 where
  pub id : ℕ
  pub user_id : ℕ
  pub token : Text
  pub effect_time : ℕ
  pub expire_time : ℕ

pub record Role : Type 0 where
  pub id : ℕ
  pub name : Text
  pub code : Text
  pub description : Text
  pub builtin : ℕ
  pub audit : Audit

pub record RolePermission : Type 0 where
  pub role_id : ℕ
  pub permission_code : Text

pub record AccountDb : Type 0 where
  pub users : List User
  pub sessions : List UserSession
  pub next_session_id : ℕ
  pub roles : List Role
  pub next_role_id : ℕ
  pub permissions : List RolePermission

-- The `UserContext` of a request, with its role.
pub record CurrentUser : Type 0 where
  pub id : ℕ
  pub username : Text
  pub real_name : Text
  pub role_id : ℕ
  pub role_code : Text
  pub role_name : Text

-- What a call takes from outside: bcrypt, the token that `generate_token` returns, the clock, and
-- the moment that `token_expire_time` returns.
pub record Security : Type 0 where
  pub hash_password : Text → Text
  pub verify_password : Text → Text → Bool
  pub token : Text
  pub now : ℕ
  pub expire : ℕ

-- `scalar_one_or_none` on the rows that pass a test.
abbrev pub only_row {ℓ} : {A : Type ℓ} → List A → Result (Option A)
only_row [] = ok none
only_row (x ∷ []) = ok (some x)
only_row (x ∷ y ∷ ys) =
    err (Error.other (codes "Multiple rows were found when one or none was required"))

abbrev pub one_or_none {ℓ} : {A : Type ℓ} → (A → Bool) → List A → Result (Option A)
one_or_none p xs = only_row (keep p xs)

abbrev pub user_by_id : ℕ → AccountDb → Option User
user_by_id id s = find (λ u. u.id == id) s.users

abbrev pub user_by_username : Text → AccountDb → Result (Option User)
user_by_username name s = one_or_none (λ u. text_eq u.username name) s.users

abbrev pub user_by_token : Text → AccountDb → Result (Option User)
user_by_token token s = one_or_none (λ u. text_eq u.token token) s.users

abbrev pub session_by_token : Text → AccountDb → Result (Option UserSession)
session_by_token token s = one_or_none (λ x. text_eq x.token token) s.sessions

abbrev pub set_user : ℕ → (User → User) → AccountDb → AccountDb
set_user id f s = record s { users = update_where (λ u. u.id == id) f s.users }

abbrev pub delete_by_user_id : ℕ → AccountDb → AccountDb
delete_by_user_id id s = record s { sessions = keep (λ x. not (x.user_id == id)) s.sessions }

abbrev pub failed {ℓ} : {A : Type ℓ} → Code → Result A
failed code = err (Error.mysterious code none)

abbrev pub failed_with {ℓ} : {A : Type ℓ} → Code → Text → Result A
failed_with code message = err (Error.mysterious code (some message))

-- `_HAS_UPPER`, `_HAS_LOWER` and `_HAS_DIGIT`
abbrev pub has_between : ℕ → ℕ → Text → Bool
has_between low high = any (λ c. leb low c && leb c high)

-- `check_password_strength`: `none` for a password that passes, the reason for any other.
unfoldable pub check_password_strength : Text → Text → Option Text
check_password_strength password username =
    if is_empty password
    then some (codes "密码不能为空")
    else if ltb (length password) 8
    then some (codes "密码长度不能少于 8 位")
    else if ltb 64 (length password)
    then some (codes "密码长度不能超过 64 位")
    else if not (has_between 65 90 password)
    then some (codes "密码必须包含大写字母 A-Z")
    else if not (has_between 97 122 password)
    then some (codes "密码必须包含小写字母 a-z")
    else if not (has_between 48 57 password)
    then some (codes "密码必须包含数字 0-9")
    else if not (is_empty username)
        && (contains (lower username) (lower password)
            || contains (lower password) (lower username))
    then some (codes "密码不能包含用户名")
    else none

-- `_can_manage_users`
unfoldable pub can_manage_users : CurrentUser → AccountDb → Bool
can_manage_users current s =
    text_eq current.role_code (codes "admin")
    || (not (current.role_id == 0)
        && any (λ p. p.role_id == current.role_id && text_eq p.permission_code (codes "user"))
            s.permissions)
