-- ===== src/Accounts/Tokens.antt =====
-- Which tokens are let in after a change of a password (`update_password` and `login` of
-- api/app/services/user.py, `get_current_user_dep` of api/app/deps/auth.py).
use pressure_platform.Prelude.{
  ℕ, ◌≡◌, refl, sym, ◌∙◌, ap, Bool, true, false, not, Option, none, some, List, [], ◌∷◌, arith,
  if◌then◌else◌, ◌==◌, ltb, ◌||◌, ==_iff, inl, inr, Bool-cases, Option-cases, All, All-keep,
  All-map, keep-All, keep, find, update_where, find-holds,
}
use pressure_platform.Prelude.Text.{Text, text_eq, is_empty}
use pressure_platform.Store.{ok, Result-cases}
use pressure_platform.Accounts.{
  User, UserSession, AccountDb, CurrentUser, Security, only_row, one_or_none, user_by_id,
  user_by_token, session_by_token, set_user, delete_by_user_id, check_password_strength,
}
use pressure_platform.Accounts.Requests.{
  UpdatePasswordParam, refuse_change, renewed, target_of, change_password, update_password,
}
use pressure_platform.Accounts.Auth.{
  extract_token, session_holder, token_holder, context_of, admit_holder, get_current_user_dep,
}

only_row-All {ℓ} :
    {A : Type ℓ} (P : A → Type 0) (xs : List A) (x : A) → only_row xs ≡ ok (some x) → All P xs → P x
only_row-All P [] x h all = absurd (ground (arith, h))
only_row-All P (y ∷ []) x h all = let same : y ≡ x = ground (arith, h) in rw (← same) all.0
only_row-All P (y ∷ z ∷ xs) x h all = absurd (ground (arith, h))

-- What is found by a test has what all rows have, and passes the test.
one_or_none-All {ℓ} :
    {A : Type ℓ} (P : A → Type 0) (p : A → Bool) (xs : List A) (x : A)
    → one_or_none p xs ≡ ok (some x)
    → All P xs
    → P x × (p x ≡ true)
one_or_none-All P p xs x h all = (
  only_row-All P (keep p xs) x h (All-keep P p xs all),
  only_row-All (λ y. p y ≡ true) (keep p xs) x h (keep-All p xs),
)

pub context_of-id : (u : User) (s : AccountDb) → (context_of u s).id ≡ u.id
unfolding context_of
context_of-id u s =
    elim (Option-cases (if u.role_id == 0 then none else find (λ r. r.id == u.role_id) s.roles)) [
      | inl e ↦ rw e refl
      | inr (r, e) ↦ rw e refl
    ]

admit_holder-id :
    (now : ℕ) (h : Option (User × ℕ)) (s : AccountDb) (c : CurrentUser)
    → admit_holder now h s ≡ ok c
    → (u : User) × (e : ℕ) × (h ≡ some (u, e)) × (c.id ≡ u.id)
admit_holder-id now none s c r = absurd (ground (arith, r))
admit_holder-id now (some (u, expire)) s c r =
    elim (Bool-cases (ltb expire now || ltb u.expire_time now)) [
      | inl e ↦ absurd (ground (arith, e, r))
      | inr e ↦
          let same : context_of u s ≡ c = ground (arith, e, r) in
          (u, expire, refl, rw (← same) (context_of-id u s))
    ]

-- No session belongs to the user with this key, and no row of that user holds the token.
record IsStranger (token : Text) (id : ℕ) (s : AccountDb) : Type 0 where
  sessions : All (λ (x : UserSession). (x.user_id == id) ≡ false) s.sessions
  users : All (λ (u : User). (u.id == id) ≡ true → text_eq u.token token ≡ false) s.users

session_holder-id :
    (token : Text) (id : ℕ) (s : AccountDb) (found : Option UserSession) (u : User) (e : ℕ)
    → IsStranger token id s
    → session_by_token token s ≡ ok found
    → session_holder found s ≡ some (u, e)
    → (u.id == id) ≡ false
session_holder-id token id s none u e v f h = absurd (ground (arith, h))
session_holder-id token id s (some x) u e v f h = elim (Option-cases (user_by_id x.user_id s)) [
  | inl g ↦ absurd (ground (arith, g, h))
  | inr (w, g) ↦
      let other =
        (one_or_none-All (λ y. (y.user_id == id) ≡ false) (λ y. text_eq y.token token) s.sessions x
          f v.sessions).0 in
      let key = find-holds (λ y. y.id == x.user_id) s.users w g in
      let same : w ≡ u = ground (arith, g, h) in rw (← same) (ground (arith, other, key))
]

token_holder-id :
    (token : Text) (id : ℕ) (s : AccountDb) (found : Option UserSession) (u : User) (e : ℕ)
    → IsStranger token id s
    → session_by_token token s ≡ ok found
    → token_holder token (session_holder found s) s ≡ ok (some (u, e))
    → (u.id == id) ≡ false
token_holder-id token id s found u e v f h = elim (Option-cases (session_holder found s)) [
  | inr ((w, k), g) ↦ session_holder-id token id s found u e v f (ground (arith, g, h))
  | inl g ↦ elim (Result-cases (user_by_token token s)) [
    | inr (x, r) ↦ absurd (ground (arith, g, r, h))
    | inl (none, r) ↦ absurd (ground (arith, g, r, h))
    | inl (some w, r) ↦
        let (silent, holds) =
          one_or_none-All (λ y. (y.id == id) ≡ true → text_eq y.token token ≡ false)
            (λ y. text_eq y.token token) s.users w r v.users in
        let same : w ≡ u = ground (arith, g, r, h) in
        rw (← same) (elim (Bool-cases (w.id == id)) [
          | inl k ↦ absurd (ground (arith, silent k, holds))
          | inr k ↦ k
        ])
  ]
]

-- A stranger's token lets nobody in as the user with the key.
IsStranger-get_current_user_dep :
    (header : Option Text) (id now : ℕ) (s : AccountDb) (c : CurrentUser)
    → IsStranger (extract_token header) id s
    → get_current_user_dep header now s ≡ ok c
    → (c.id == id) ≡ false
unfolding get_current_user_dep
IsStranger-get_current_user_dep header id now s c v h =
    let token = extract_token header in
    elim (Bool-cases (is_empty token)) [
      | inl e ↦ absurd (ground (arith, e, h))
      | inr e ↦ elim (Result-cases (session_by_token token s)) [
        | inr (x, f) ↦ absurd (ground (arith, e, f, h))
        | inl (found, f) ↦ elim (Result-cases (token_holder token (session_holder found s) s)) [
          | inr (x, g) ↦ absurd (ground (arith, e, f, g, h))
          | inl (holder, g) ↦
              let (u, expire, k, same) =
                admit_holder-id now holder s c (ground (arith, e, f, g, h)) in
              rw same (token_holder-id token id s found u expire v f (g ∙ ap (λ o. ok o) k))
        ]
      ]
    ]

-- A change that returned has found the user, accepted the password and written both tables.
pub record IsChanged (sec : Security) (param : UpdatePasswordParam) (id : ℕ) (s after : AccountDb)
    : Type 0 where
  pub user : User
  pub found : user_by_id id s ≡ some user
  pub given : is_empty param.new_password ≡ false
  pub written : after ≡ set_user id (renewed sec param.new_password) (delete_by_user_id id s)

change_password-IsChanged :
    (sec : Security) (param : UpdatePasswordParam) (id : ℕ) (user : User) (s : AccountDb)
    → user_by_id id s ≡ some user
    → is_empty param.new_password ≡ false
    → (change_password sec param.new_password user s).0 ≡ ok true
    → IsChanged sec param id s (change_password sec param.new_password user s).1
change_password-IsChanged sec param id user s found given h =
    elim (Option-cases (check_password_strength param.new_password user.username)) [
      | inr (reason, e) ↦ absurd (ground (arith, e, h))
      | inl e ↦
          let key : user.id ≡ id =
            (==_iff user.id id).0 (find-holds (λ u. u.id == id) s.users user found) in
          record {
            user = user;
            found = found;
            given = given;
            written = rw (change_password, e, key) refl;
          }
    ]

pub update_password-IsChanged :
    (sec : Security) (param : UpdatePasswordParam) (current : CurrentUser) (s : AccountDb)
    → (update_password sec param current s).0 ≡ ok true
    → IsChanged sec param (target_of param current) s (update_password sec param current s).1
unfolding update_password
update_password-IsChanged sec param current s h =
    let id = target_of param current in
    elim (Bool-cases (is_empty param.new_password)) [
      | inl e ↦ absurd (ground (arith, e, h))
      | inr e ↦ elim (Option-cases (user_by_id id s)) [
        | inl f ↦ absurd (ground (arith, e, f, h))
        | inr (user, f) ↦ elim (Option-cases (refuse_change sec param current user s)) [
          | inr (x, g) ↦ absurd (ground (arith, e, f, g, h))
          | inl g ↦
              let same : update_password sec param current s
                  ≡ change_password sec param.new_password user s =
                rw (update_password, e, f, g) refl in
              rw same
                (change_password-IsChanged sec param id user s f e (ap (λ p. p.0) (sym same) ∙ h))
        ]
      ]
    ]

renewed-users :
    (sec : Security) (password token : Text) (id : ℕ) (us : List User)
    → text_eq sec.token token ≡ false
    → All
        (λ (u : User). (u.id == id) ≡ true → text_eq u.token token ≡ false)
        (update_where (λ u. u.id == id) (renewed sec password) us)
renewed-users sec password token id [] other = tt
renewed-users sec password token id (u ∷ us) other = elim (Bool-cases (u.id == id)) [
  | inl e ↦ rw e (λ _. other, renewed-users sec password token id us other)
  | inr e ↦ rw e (λ k. absurd (ground (arith, e, k)), renewed-users sec password token id us other)
]

-- After a change of a password that returned true, no token but the one that the change drew lets a
-- request in as that user, at any time: all earlier sessions and tokens of the user have ended.
pub get_current_user_dep-update_password :
    (sec : Security) (param : UpdatePasswordParam) (current : CurrentUser) (s : AccountDb)
    (header : Option Text) (now : ℕ) (c : CurrentUser)
    → (update_password sec param current s).0 ≡ ok true
    → text_eq sec.token (extract_token header) ≡ false
    → get_current_user_dep header now (update_password sec param current s).1 ≡ ok c
    → (c.id == target_of param current) ≡ false
get_current_user_dep-update_password sec param current s header now c h other =
    let id = target_of param current in
    let changed = update_password-IsChanged sec param current s h in
    rw changed.written (λ r.
      IsStranger-get_current_user_dep header id now _ c
        (record {
          sessions =
              All-map _ _ _ (λ x k. ground (arith, k))
                (keep-All (λ x. not (x.user_id == id)) s.sessions);
          users = renewed-users sec param.new_password (extract_token header) id s.users other;
        })
        r)
