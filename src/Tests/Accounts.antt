-- ===== src/Tests/Accounts.antt =====
-- Tests of users and sessions (api/app/services/user.py, api/app/deps/auth.py).
use Prim.Native.String.{String}
use pressure_platform.Prelude.{
  ℕ, ◌+◌, ◌≡◌, refl, true, false, none, some, [], ◌∷◌, ◌++◌, ◌==◌, any, All, arith,
}
use pressure_platform.Prelude.Text.{codes, text_eq, contains, join, lower, strip}
use pressure_platform.Store.{Code, Error, ok, err}
use pressure_platform.Accounts.{
  User, UserSession, AccountDb, CurrentUser, Security, check_password_strength,
}
use pressure_platform.Accounts.Requests.{UpdatePasswordParam, refuse_change, update_password, login}
use pressure_platform.Accounts.Auth.{extract_token, context_of, get_current_user_dep}
use pressure_platform.Accounts.Tokens.{get_current_user_dep-update_password}
use pressure_platform.Accounts.Logins.{login-update_password, get_current_user_dep-login}
use pressure_platform.Accounts.Roles.{
  RoleParam, role_by_id, normalize_permissions, all_permission_codes, add_role, delete_role,
}
use pressure_platform.Accounts.Roles.Retried.{add_role-retried}
use pressure_platform.Accounts.Roles.Deleted.{delete_role_lem}
use pressure_platform.Tests.Samples.{audit, user}

-- A hash that marks the end of the password.
abbrev security : String → ℕ → Security
security token now = record {
  hash_password = λ p. p ++ (0 ∷ []);
  verify_password = λ p h. text_eq (p ++ (0 ∷ [])) h;
  token = codes token;
  now = now;
  expire = now + 100;
}

abbrev user_row : ℕ → String → String → User
user_row id name token = record {
  id = id;
  username = codes name;
  password = codes "Old2Secret" ++ (0 ∷ []);
  real_name = codes name;
  role_id = id;
  token = codes token;
  effect_time = 0;
  expire_time = 500;
}

abbrev session_row : ℕ → String → UserSession
session_row id token = record {
  id = id;
  user_id = id;
  token = codes token;
  effect_time = 0;
  expire_time = 500;
}

abbrev two_users : AccountDb
two_users = record {
  users = user_row 1 "admin" "own1" ∷ user_row 2 "zoe" "own2" ∷ [];
  sessions = session_row 1 "tab1" ∷ session_row 2 "tab2" ∷ [];
  next_session_id = 3;
  roles =
      record {
        id = 1;
        name = codes "超级管理员";
        code = codes "admin";
        description = [];
        builtin = 1;
        audit = audit;
      }
      ∷ [];
  next_role_id = 3;
  permissions = [];
}

abbrev zoe : CurrentUser
zoe = record {
  id = 2;
  username = codes "zoe";
  real_name = codes "zoe";
  role_id = 0;
  role_code = codes "user";
  role_name = codes "普通用户";
}

abbrev change : UpdatePasswordParam
change = record { id = none; old_password = codes "Old2Secret"; new_password = codes "New3Secret" }

strong : check_password_strength (codes "New3Secret") (codes "zoe") ≡ none
unfolding check_password_strength contains lower
strong = refl

named_password :
    check_password_strength (codes "New3SecretZOE") (codes "zoe") ≡ some (codes "密码不能包含用户名")
unfolding check_password_strength contains lower
named_password = refl

before_change : get_current_user_dep (some (codes "tab2")) 20 two_users ≡ ok zoe
unfolding get_current_user_dep context_of strip
before_change = refl

session_lost :
    get_current_user_dep
      (some (codes "tab2"))
      20
      (update_password (security "fresh" 10) change zoe two_users).1
    ≡ err (Error.mysterious Code.user_not_exist none)
unfolding get_current_user_dep update_password context_of refuse_change check_password_strength
    contains lower strip
session_lost = refl

changed : (update_password (security "fresh" 10) change zoe two_users).0 ≡ ok true
unfolding update_password refuse_change check_password_strength contains lower
changed = refl

trimmed : extract_token (some (codes "tab3")) ≡ codes "tab3"
unfolding strip
trimmed = refl

other_token : text_eq (codes "fresh") (extract_token (some (codes "tab1"))) ≡ false
unfolding strip
other_token = refl

abbrev admin : CurrentUser
admin = record {
  id = 1;
  username = codes "admin";
  real_name = codes "admin";
  role_id = 1;
  role_code = codes "admin";
  role_name = codes "超级管理员";
}

admin_stays :
    get_current_user_dep
      (some (codes "tab1"))
      20
      (update_password (security "fresh" 10) change zoe two_users).1
    ≡ ok admin
unfolding get_current_user_dep update_password context_of refuse_change check_password_strength
    contains lower strip
admin_stays = refl

get_current_user_dep-update_password_example : (1 == 2) ≡ false
get_current_user_dep-update_password_example =
    get_current_user_dep-update_password (security "fresh" 10) change zoe two_users
      (some (codes "tab1")) 20 admin changed other_token admin_stays

login-update_password_example :
    (login
      (security "tab3" 30)
      (codes "zoe")
      (codes "New3Secret")
      (update_password (security "fresh" 10) change zoe two_users).1).0
    ≡ ok (codes "tab3")
login-update_password_example =
    login-update_password (security "fresh" 10) (security "tab3" 30) change zoe
      (user_row 2 "zoe" "own2") two_users changed refl refl refl refl

admitted :
    (login (security "tab3" 30) (codes "zoe") (codes "Old2Secret") two_users).0 ≡ ok (codes "tab3")
unfolding login
admitted = refl

get_current_user_dep-login_example :
    (c : CurrentUser) × (get_current_user_dep
        (some (codes "tab3"))
        60
        (login (security "tab3" 30) (codes "zoe") (codes "Old2Secret") two_users).1
      ≡ ok c)
    × (c.id ≡ 2)
get_current_user_dep-login_example =
    get_current_user_dep-login (security "tab3" 30) (codes "zoe") (codes "Old2Secret")
      (user_row 2 "zoe" "own2") 60 two_users admitted refl refl trimmed refl refl (omega arith)

abbrev spare_role : AccountDb
spare_role = record two_users {
  roles =
      record {
        id = 4;
        name = codes "spare";
        code = codes "spare";
        description = [];
        builtin = 0;
        audit = audit;
      }
      ∷ two_users.roles;
  permissions = record { role_id = 4; permission_code = codes "jar" } ∷ [];
}

deleted : (delete_role 4 spare_role).0 ≡ ok true
unfolding delete_role
deleted = refl

delete_role_lem_example :
    let after = (delete_role 4 spare_role).1 in
    (role_by_id 4 after ≡ none)
    × (any (λ p. p.role_id == 4) after.permissions ≡ false)
    × (after.users ≡ spare_role.users)
    × All (λ (u : User). context_of u after ≡ context_of u spare_role) spare_role.users
delete_role_lem_example = delete_role_lem 4 spare_role deleted

abbrev unknown_permission : RoleParam
unknown_permission = record {
  name = some (codes "spare");
  code = none;
  description = none;
  permissions = some (codes "fly" ∷ []);
}

abbrev known_permission : RoleParam
known_permission = record unknown_permission { permissions = some (codes "jar" ∷ []) }

abbrev refusal : Error
refusal = Error.mysterious Code.param_wrong (some (codes "权限编码不存在: fly"))

fly_refused : normalize_permissions (codes "fly" ∷ []) ≡ err refusal
unfolding normalize_permissions all_permission_codes join
fly_refused = refl

add_role-retried_example :
    let after = (add_role (codes "role_1") unknown_permission user 30 two_users).1 in
    ((add_role (codes "role_1") unknown_permission user 30 two_users).0 ≡ err refusal)
    × (add_role (codes "role_1") known_permission user 40 after
        ≡ (err (Error.mysterious Code.fail (some (codes "角色编码已存在"))), after))
unfolding strip
add_role-retried_example =
    add_role-retried (codes "role_1") unknown_permission known_permission (codes "fly" ∷ []) refusal
      user 30 40 two_users refl refl refl refl refl fly_refused
