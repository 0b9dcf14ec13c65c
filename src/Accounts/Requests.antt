-- ===== src/Accounts/Requests.antt =====
-- The log-in, the change of a password and the deletion of a user (api/app/services/user.py).
use pressure_platform.Prelude.{
  ℕ, ◌+◌, Bool, true, false, ◌&&◌, ◌||◌, not, Option, none, some, [], ◌∷◌, ◌++◌, if◌then◌else◌,
  ◌==◌, keep, update_where,
}
use pressure_platform.Prelude.Text.{Text, codes, text_eq, is_empty}
use pressure_platform.Store.{Code, Error, Result, ok, err}
use pressure_platform.Accounts.{
  User, AccountDb, CurrentUser, Security, user_by_id, user_by_username, set_user, delete_by_user_id,
  failed, failed_with, check_password_strength, can_manage_users,
}

-- The log-in writes the times of the user's row and adds a session.
abbrev pub logged_in : Security → User → AccountDb → AccountDb
logged_in sec user s = record s {
  users =
      update_where (λ u. u.id == user.id)
        (λ u. record u { effect_time = sec.now; expire_time = sec.expire }) s.users;
  sessions =
      s.sessions
      ++ (record {
        id = s.next_session_id;
        user_id = user.id;
        token = sec.token;
        effect_time = sec.now;
        expire_time = sec.expire;
      }
          ∷ []);
  next_session_id = s.next_session_id + 1;
}

abbrev pub admit : Security → Text → Option User → AccountDb → Result Text × AccountDb
admit sec password none s = (failed Code.user_not_exist, s)
admit sec password (some user) s =
    if sec.verify_password password user.password
    then (ok sec.token, logged_in sec user s)
    else (failed Code.user_password_error, s)

unfoldable pub login : Security → Text → Text → AccountDb → Result Text × AccountDb
login sec username password s =
    if is_empty username || is_empty password
    then (failed Code.param_missing, s)
    else elim (user_by_username username s) [
      | err e ↦ (err e, s)
      | ok found ↦ admit sec password found s
    ]

pub record UpdatePasswordParam : Type 0 where
  pub id : Option ℕ
  pub old_password : Text
  pub new_password : Text

abbrev pub target_of : UpdatePasswordParam → CurrentUser → ℕ
target_of param current = elim param.id [ none ↦ current.id | some id ↦ id ]

-- The checks of a change by the user's own hand, or of one by another user.
unfoldable pub refuse_change :
    Security → UpdatePasswordParam → CurrentUser → User → AccountDb → Option Error
refuse_change sec param current user s =
    if target_of param current == current.id
    then (if is_empty param.old_password
        then some (Error.mysterious Code.param_missing none)
        else if text_eq param.old_password param.new_password
        then some (Error.mysterious Code.fail (some (codes "新密码不能与旧密码相同")))
        else if sec.verify_password param.old_password user.password
        then none
        else some (Error.mysterious Code.user_password_error none))
    else if can_manage_users current s
    then none
    else some (Error.mysterious Code.fail (some (codes "无权重置其他用户密码")))

-- The new password, and the token that `_refresh_token` writes.
abbrev pub renewed : Security → Text → User → User
renewed sec password u = record u {
  password = sec.hash_password password;
  token = sec.token;
  effect_time = sec.now;
  expire_time = sec.expire;
}

abbrev pub change_password : Security → Text → User → AccountDb → Result Bool × AccountDb
change_password sec password user s = elim (check_password_strength password user.username) [
  | some reason ↦ (failed_with Code.user_password_too_weak reason, s)
  | none ↦ (ok true, set_user user.id (renewed sec password) (delete_by_user_id user.id s))
]

unfoldable pub update_password :
    Security → UpdatePasswordParam → CurrentUser → AccountDb → Result Bool × AccountDb
update_password sec param current s =
    if is_empty param.new_password
    then (failed Code.param_missing, s)
    else elim (user_by_id (target_of param current) s) [
      | none ↦ (failed Code.user_not_exist, s)
      | some user ↦ elim (refuse_change sec param current user s) [
        | some e ↦ (err e, s)
        | none ↦ change_password sec param.new_password user s
      ]
    ]

-- The sessions of a deleted user stay.
unfoldable pub delete_user : ℕ → CurrentUser → AccountDb → Result Bool × AccountDb
delete_user id current s = elim (user_by_id id s) [
  | none ↦ (ok false, s)
  | some user ↦
      if text_eq user.username (codes "admin")
      then (failed_with Code.fail (codes "初始管理员不可删除"), s)
      else if not (user.id == current.id) && not (can_manage_users current s)
      then (failed_with Code.fail (codes "无权删除其他用户"), s)
      else (ok true, record s { users = keep (λ u. not (u.id == id)) s.users })
]
