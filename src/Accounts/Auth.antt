-- ===== src/Accounts/Auth.antt =====
-- The check of the token of a request (api/app/deps/auth.py).
use pressure_platform.Prelude.{ℕ, ◌||◌, Option, none, some, [], if◌then◌else◌, ◌==◌, ltb, find}
use mathlib.Core.Option
use pressure_platform.Prelude.Text.{Text, codes, is_empty, strip}
use pressure_platform.Store.{Code, Result, ok, and_then}
use pressure_platform.Accounts.{
  User, UserSession, Role, AccountDb, CurrentUser, user_by_id, user_by_token, session_by_token,
  failed,
}

-- `_extract_token`, where a missing header is the empty text.
abbrev pub extract_token : Option Text → Text
extract_token none = []
extract_token (some header) = strip header

-- The user of a session, with the moment when the token expires.
abbrev pub session_holder : Option UserSession → AccountDb → Option (User × ℕ)
session_holder none s = none
session_holder (some x) s = Option.map (λ u. (u, x.expire_time)) (user_by_id x.user_id s)

-- The user of the session, or else the one whose own row holds the token.
abbrev pub token_holder : Text → Option (User × ℕ) → AccountDb → Result (Option (User × ℕ))
token_holder token (some h) s = ok (some h)
token_holder token none s =
    and_then (user_by_token token s) (λ found. ok (Option.map (λ u. (u, u.expire_time)) found))

abbrev pub context_with : User → Option Role → CurrentUser
context_with u none = record {
  id = u.id;
  username = u.username;
  real_name = u.real_name;
  role_id = 0;
  role_code = codes "user";
  role_name = codes "普通用户";
}
context_with u (some r) = record {
  id = u.id;
  username = u.username;
  real_name = u.real_name;
  role_id = r.id;
  role_code = r.code;
  role_name = r.name;
}

-- `user.role_id` may be 0, for no role.
unfoldable pub context_of : User → AccountDb → CurrentUser
context_of u s =
    context_with u (if u.role_id == 0 then none else find (λ r. r.id == u.role_id) s.roles)

abbrev pub admit_holder : ℕ → Option (User × ℕ) → AccountDb → Result CurrentUser
admit_holder now none s = failed Code.user_not_exist
admit_holder now (some (u, expire)) s =
    if ltb expire now || ltb u.expire_time now
    then failed Code.user_token_expire
    else ok (context_of u s)

-- The dependency of every request that wants a user: the context of the token, if it is in force.
unfoldable pub get_current_user_dep : Option Text → ℕ → AccountDb → Result CurrentUser
get_current_user_dep header now s =
    let token = extract_token header in
    if is_empty token
    then failed Code.user_not_login
    else and_then (session_by_token token s) (λ session.
      and_then (token_holder token (session_holder session s) s)
        (λ holder. admit_holder now holder s))
