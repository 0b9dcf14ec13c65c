-- ===== src/Accounts/Roles.antt =====
-- Roles and their permissions (api/app/services/role.py, api/app/crud/role.py,
-- api/app/core/permissions.py).
pub mod Deleted
pub mod Retried
use pressure_platform.Prelude.{
  ℕ, ◌+◌, suc, ◌≡◌, refl, ◌∙◌, ap, Bool, true, false, ◌&&◌, ◌||◌, not, Option, none, some, List, [],
  ◌∷◌, ◌++◌, map, if◌then◌else◌, ◌==◌, ltb, any, find, keep, update_where, count_where, is_nil,
  sort_by, inl, inr, Bool-cases, Option-cases, arith,
}
use mathlib.Core.Option
use pressure_platform.Prelude.Text.{Text, codes, text_eq, is_empty, or_else, strip, join}
use pressure_platform.Store.{
  UserContext, Code, Error, Result, ok, err, Result-cases, stamp_create, stamp_modify,
}
use pressure_platform.Accounts.{
  User, Role, RolePermission, AccountDb, one_or_none, failed, failed_with,
}
use pressure_platform.Accounts.Auth.{context_with, context_of}

-- `ALL_PERMISSION_CODES`
unfoldable pub all_permission_codes : List Text
all_permission_codes =
    codes "testcase"
    ∷ codes "case-generation"
    ∷ codes "jmx"
    ∷ codes "csv"
    ∷ codes "jar"
    ∷ codes "execution"
    ∷ codes "report"
    ∷ codes "node"
    ∷ codes "config"
    ∷ codes "user"
    ∷ codes "role"
    ∷ codes "audit"
    ∷ []

abbrev text_leb : Text → Text → Bool
text_leb [] t = true
text_leb (_ ∷ _) [] = false
text_leb (a ∷ s) (b ∷ t) = ltb a b || (a == b && text_leb s t)

abbrev without_repeats : List Text → List Text
without_repeats [] = []
without_repeats (c ∷ cs) =
    let rest = without_repeats cs in if any (text_eq c) cs then rest else c ∷ rest

-- `_normalize_permissions`
unfoldable pub normalize_permissions : List Text → Result (List Text)
normalize_permissions permissions =
    let normalized = sort_by text_leb (without_repeats permissions) in
    let invalid = keep (λ c. not (any (text_eq c) all_permission_codes)) normalized in
    if is_nil invalid
    then ok normalized
    else failed_with Code.param_wrong (codes "权限编码不存在: " ++ join 44 invalid)

abbrev pub role_by_id : ℕ → AccountDb → Option Role
role_by_id id s = find (λ r. r.id == id) s.roles

abbrev pub role_by_code : Text → AccountDb → Result (Option Role)
role_by_code code s = one_or_none (λ r. text_eq r.code code) s.roles

abbrev pub replace_permissions : ℕ → List Text → AccountDb → AccountDb
replace_permissions id permissions s = record s {
  permissions =
      keep (λ p. not (p.role_id == id)) s.permissions
      ++ map (λ c. record { role_id = id; permission_code = c }) permissions;
}

pub record RoleParam : Type 0 where
  pub name : Option Text
  pub code : Option Text
  pub description : Option Text
  pub permissions : Option (List Text)

abbrev pub text_or_empty : Option Text → Text
text_or_empty none = []
text_or_empty (some t) = t

abbrev pub new_role : Text → RoleParam → UserContext → ℕ → AccountDb → Role
new_role code param user now s = record {
  id = s.next_role_id;
  name = text_or_empty param.name;
  code = code;
  description = text_or_empty param.description;
  builtin = 0;
  audit = stamp_create user now;
}

abbrev pub add_role_row : Text → RoleParam → UserContext → ℕ → AccountDb → AccountDb
add_role_row code param user now s = record s {
  roles = s.roles ++ (new_role code param user now s ∷ []);
  next_role_id = suc s.next_role_id;
}

-- The permissions of a role that has been stored already.
abbrev pub give_permissions : ℕ → Option (List Text) → AccountDb → Result ℕ × AccountDb
give_permissions id none s = (ok id, s)
give_permissions id (some permissions) s = elim (normalize_permissions permissions) [
  | err e ↦ (err e, s)
  | ok normalized ↦ (ok id, replace_permissions id normalized s)
]

-- `drawn` is the code of a role that comes without one, from `uuid4`.
unfoldable pub add_role : Text → RoleParam → UserContext → ℕ → AccountDb → Result ℕ × AccountDb
add_role drawn param user now s =
    let code = or_else (strip (text_or_empty param.code)) drawn in
    if is_empty (text_or_empty param.name)
    then (failed Code.param_missing, s)
    else elim (role_by_code code s) [
      | err e ↦ (err e, s)
      | ok (some _) ↦ (failed_with Code.fail (codes "角色编码已存在"), s)
      | ok none ↦
          give_permissions s.next_role_id param.permissions (add_role_row code param user now s)
    ]

-- A code that is sent must be the role's own, or nobody's.
abbrev code_taken : Option Text → Role → AccountDb → Result Bool
code_taken none r s = ok false
code_taken (some code) r s =
    if text_eq code r.code
    then ok false
    else elim (role_by_code code s) [ err e ↦ err e | ok none ↦ ok false | ok (some _) ↦ ok true ]

abbrev or_old : Option Text → Text → Text
or_old none t = t
or_old (some new) t = new

abbrev changed_role : RoleParam → UserContext → ℕ → Role → Role
changed_role param user now r = record r {
  name = or_old param.name r.name;
  code = or_old param.code r.code;
  description = or_old param.description r.description;
  audit = stamp_modify user now r.audit;
}

abbrev set_role : ℕ → (Role → Role) → AccountDb → AccountDb
set_role id f s = record s { roles = update_where (λ r. r.id == id) f s.roles }

abbrev write_role :
    ℕ → RoleParam → UserContext → ℕ → Option (List Text) → AccountDb → Result Bool × AccountDb
write_role id param user now none s = (ok true, set_role id (changed_role param user now) s)
write_role id param user now (some permissions) s = elim (normalize_permissions permissions) [
  | err e ↦ (err e, s)
  | ok normalized ↦
      (ok true, replace_permissions id normalized (set_role id (changed_role param user now) s))
]

-- What raises leaves the tables as they were: nothing has been committed by then.
unfoldable pub update_role : ℕ → RoleParam → UserContext → ℕ → AccountDb → Result Bool × AccountDb
update_role id param user now s = elim (role_by_id id s) [
  | none ↦ (ok false, s)
  | some r ↦
      if text_eq r.code (codes "admin")
      then (failed_with Code.fail (codes "超级管理员角色不可修改"), s)
      else elim (code_taken param.code r s) [
        | err e ↦ (err e, s)
        | ok taken ↦
            if taken
            then (failed_with Code.fail (codes "角色编码已存在"), s)
            else write_role id param user now param.permissions s
      ]
]

unfoldable pub delete_role : ℕ → AccountDb → Result Bool × AccountDb
delete_role id s = elim (role_by_id id s) [
  | none ↦ (ok false, s)
  | some r ↦
      if not (r.builtin == 0) || text_eq r.code (codes "admin")
      then (failed_with Code.fail (codes "内置角色不可删除"), s)
      else if ltb 0 (count_where (λ u. u.role_id == id) s.users)
      then (failed_with Code.fail (codes "该角色已有用户绑定，不可删除"), s)
      else (
        ok true,
        record s {
          roles = keep (λ r. not (r.id == id)) s.roles;
          permissions = keep (λ p. not (p.role_id == id)) s.permissions;
        },
      )
]

unfoldable pub update_permissions : ℕ → List Text → AccountDb → Result Bool × AccountDb
update_permissions id permissions s = elim (role_by_id id s) [
  | none ↦ (failed_with Code.fail (codes "角色不存在"), s)
  | some r ↦
      if text_eq r.code (codes "admin")
      then (failed_with Code.fail (codes "超级管理员角色默认拥有全部权限"), s)
      else elim (normalize_permissions permissions) [
        | err e ↦ (err e, s)
        | ok normalized ↦ (ok true, replace_permissions id normalized s)
      ]
]
