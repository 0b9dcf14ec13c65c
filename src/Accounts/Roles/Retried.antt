-- ===== src/Accounts/Roles/Retried.antt =====
-- What a refused request leaves of a new role (`add_role` of api/app/services/role.py).
use pressure_platform.Prelude.{ℕ, ◌≡◌, refl, ap, ◌∙◌, List, some, none, false}
use pressure_platform.Prelude.Text.{Text, codes, text_eq, text_eq_refl, is_empty, or_else, strip}
use pressure_platform.Store.{UserContext, Code, Error, ok, err}
use pressure_platform.Accounts.{Role, AccountDb}
use pressure_platform.Accounts.Logins.{one_or_none-append}
use pressure_platform.Accounts.Roles.{
  RoleParam, text_or_empty, normalize_permissions, role_by_code, give_permissions, new_role,
  add_role_row, add_role,
}

-- The code under which a request adds its role.
abbrev pub code_of : Text → RoleParam → Text
code_of drawn param = or_else (strip (text_or_empty param.code)) drawn

add_role-refused :
    (drawn : Text) (param : RoleParam) (permissions : List Text) (e : Error) (user : UserContext)
    (now : ℕ) (s : AccountDb)
    → is_empty (text_or_empty param.name) ≡ false
    → role_by_code (code_of drawn param) s ≡ ok none
    → param.permissions ≡ some permissions
    → normalize_permissions permissions ≡ err e
    → add_role drawn param user now s ≡ (err e, add_role_row (code_of drawn param) param user now s)
unfolding add_role
add_role-refused drawn param permissions e user now s named fresh given refused =
    rw (add_role, named, fresh, given, give_permissions, refused) refl

add_role-taken :
    (drawn : Text) (param : RoleParam) (user : UserContext) (now : ℕ) (r : Role) (s : AccountDb)
    → is_empty (text_or_empty param.name) ≡ false
    → role_by_code (code_of drawn param) s ≡ ok (some r)
    → add_role drawn param user now s
      ≡ (err (Error.mysterious Code.fail (some (codes "角色编码已存在"))), s)
unfolding add_role
add_role-taken drawn param user now r s named found = rw (add_role, named, found) refl

-- A request for a new role with permissions that are refused raises that refusal, and leaves the
-- role in the table all the same: the request repeated with the same code and other permissions,
-- whatever they are, is refused since the code exists.
pub add_role-retried :
    (drawn : Text) (param retry : RoleParam) (permissions : List Text) (e : Error)
    (user : UserContext) (now later : ℕ) (s : AccountDb)
    → is_empty (text_or_empty param.name) ≡ false
    → is_empty (text_or_empty retry.name) ≡ false
    → role_by_code (code_of drawn param) s ≡ ok none
    → code_of drawn retry ≡ code_of drawn param
    → param.permissions ≡ some permissions
    → normalize_permissions permissions ≡ err e
    → let after = (add_role drawn param user now s).1 in
      ((add_role drawn param user now s).0 ≡ err e)
      × (add_role drawn retry user later after
          ≡ (err (Error.mysterious Code.fail (some (codes "角色编码已存在"))), after))
add_role-retried drawn param retry permissions e user now later s named again fresh same given
      refused =
    let stored = add_role-refused drawn param permissions e user now s named fresh given refused in
    let code = code_of drawn param in
    let after = add_role_row code param user now s in
    let r = new_role code param user now s in
    let found =
      ap (λ k. role_by_code k after) same
      ∙ one_or_none-append (λ r. text_eq r.code code) s.roles r fresh (text_eq_refl code) in
    rw stored (refl, add_role-taken drawn retry user later r after again found)
