-- ===== src/Accounts/Roles/Deleted.antt =====
-- What the deletion of a role leaves (`delete_role` of api/app/services/role.py).
use pressure_platform.Prelude.{
  ℕ, ◌≡◌, refl, ap, true, false, ◌||◌, not, none, List, [], ◌∷◌, if◌then◌else◌, ◌==◌, ltb, any,
  find, keep, count_where, inl, inr, Bool-cases, Option-cases, All, All-map, arith,
}
use pressure_platform.Prelude.Text.{codes, text_eq}
use pressure_platform.Store.{ok}
use pressure_platform.Accounts.{User, Role, RolePermission, AccountDb}
use pressure_platform.Accounts.Auth.{context_with, context_of}
use pressure_platform.Accounts.Roles.{role_by_id, delete_role}

-- The tables without a role and its permissions.
abbrev without_role : ℕ → AccountDb → AccountDb
without_role id s = record s {
  roles = keep (λ r. not (r.id == id)) s.roles;
  permissions = keep (λ p. not (p.role_id == id)) s.permissions;
}

delete_role-without :
    (id : ℕ) (s : AccountDb)
    → (delete_role id s).0 ≡ ok true
    → ((delete_role id s).1 ≡ without_role id s) × (count_where (λ u. u.role_id == id) s.users ≡ 0)
unfolding delete_role
delete_role-without id s h = elim (Option-cases (role_by_id id s)) [
  | inl e ↦ absurd (ground (arith, e, h))
  | inr (r, e) ↦ elim (Bool-cases (not (r.builtin == 0) || text_eq r.code (codes "admin"))) [
    | inl f ↦ absurd (ground (arith, e, f, h))
    | inr f ↦ elim (Bool-cases (ltb 0 (count_where (λ u. u.role_id == id) s.users))) [
      | inl g ↦ absurd (ground (arith, e, f, g, h))
      | inr g ↦ (rw (delete_role, e, f, g) refl, ground (arith, g))
    ]
  ]
]

unbound-All :
    (id : ℕ) (us : List User)
    → count_where (λ u. u.role_id == id) us ≡ 0
    → All (λ (u : User). (u.role_id == id) ≡ false) us
unbound-All id [] h = tt
unbound-All id (u ∷ us) h = elim (Bool-cases (u.role_id == id)) [
  | inl e ↦ absurd (ground (arith, e, h))
  | inr e ↦ (e, unbound-All id us (ground (arith, e, h)))
]

find-other :
    (id k : ℕ) (rs : List Role)
    → (k == id) ≡ false
    → find (λ r. r.id == k) (keep (λ r. not (r.id == id)) rs) ≡ find (λ r. r.id == k) rs
find-other id k [] other = refl
find-other id k (r ∷ rs) other = ground (arith, other, find-other id k rs other)

find-gone :
    (id : ℕ) (rs : List Role) → find (λ r. r.id == id) (keep (λ r. not (r.id == id)) rs) ≡ none
find-gone id [] = refl
find-gone id (r ∷ rs) = ground (arith, find-gone id rs)

revoked :
    (id : ℕ) (ps : List RolePermission)
    → any (λ p. p.role_id == id) (keep (λ p. not (p.role_id == id)) ps) ≡ false
revoked id [] = refl
revoked id (p ∷ ps) = ground (arith, revoked id ps)

context_of-without :
    (id : ℕ) (s : AccountDb) (u : User)
    → (u.role_id == id) ≡ false
    → context_of u (without_role id s) ≡ context_of u s
unfolding context_of
context_of-without id s u other =
    ap (λ found. context_with u (if u.role_id == 0 then none else found))
      (find-other id u.role_id s.roles other)

-- After a deletion of a role that returned true, neither the role nor a permission of it is left,
-- the users are the same, and each of them gets the context in requests that he got before: no user
-- loses a role by it.
pub delete_role_lem :
    (id : ℕ) (s : AccountDb)
    → (delete_role id s).0 ≡ ok true
    → let after = (delete_role id s).1 in
      (role_by_id id after ≡ none)
      × (any (λ p. p.role_id == id) after.permissions ≡ false)
      × (after.users ≡ s.users)
      × All (λ (u : User). context_of u after ≡ context_of u s) s.users
delete_role_lem id s h =
    let (written, unbound) = delete_role-without id s h in
    rw written (
      find-gone id s.roles,
      revoked id s.permissions,
      refl,
      All-map _ _ s.users (context_of-without id s) (unbound-All id s.users unbound),
    )
