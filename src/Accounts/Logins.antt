-- ===== src/Accounts/Logins.antt =====
-- What a log-in gives (`login` and `update_password` of api/app/services/user.py,
-- `get_current_user_dep` of api/app/deps/auth.py).
use pressure_platform.Prelude.{
  ℕ, ◌≡◌, ◌≤◌, refl, ◌∙◌, ap, Bool, true, false, Option, none, some, List, [], ◌∷◌, ◌++◌, arith,
  ◌==◌, ltb, ◌||◌, inl, inr, Bool-cases, keep, update_where, find-holds, find-update_found,
}
use pressure_platform.Prelude.Text.{Text, text_eq, text_eq_refl, is_empty}
use pressure_platform.Store.{ok}
use pressure_platform.Accounts.{
  User, UserSession, AccountDb, CurrentUser, Security, only_row, one_or_none, user_by_id,
  user_by_username, session_by_token, set_user, delete_by_user_id,
}
use pressure_platform.Accounts.Requests.{
  UpdatePasswordParam, logged_in, renewed, target_of, update_password, login,
}
use pressure_platform.Accounts.Auth.{extract_token, context_of, get_current_user_dep}
use pressure_platform.Accounts.Tokens.{context_of-id, update_password-IsChanged}

keep-update_where {ℓ} :
    {A : Type ℓ} (p w : A → Bool) (f : A → A) (xs : List A)
    → ((y : A) → p (f y) ≡ p y)
    → keep p (update_where w f xs) ≡ update_where w f (keep p xs)
keep-update_where p w f [] keeps = refl
keep-update_where p w f (x ∷ xs) keeps = ground (arith, keeps x, keep-update_where p w f xs keeps)

only_row-update_where {ℓ} :
    {A : Type ℓ} (w : A → Bool) (f : A → A) (ys : List A) (x : A)
    → only_row ys ≡ ok (some x)
    → w x ≡ true
    → only_row (update_where w f ys) ≡ ok (some (f x))
only_row-update_where w f [] x h own = absurd (ground (arith, h))
only_row-update_where w f (y ∷ []) x h own =
    let same : y ≡ x = ground (arith, h) in rw (same, own) refl
only_row-update_where w f (y ∷ z ∷ ys) x h own = absurd (ground (arith, h))

only_row-none {ℓ} : {A : Type ℓ} (ys : List A) → only_row ys ≡ ok none → ys ≡ []
only_row-none [] h = refl
only_row-none (y ∷ []) h = absurd (ground (arith, h))
only_row-none (y ∷ z ∷ ys) h = absurd (ground (arith, h))

keep-append_one {ℓ} :
    {A : Type ℓ} (p : A → Bool) (xs : List A) (y : A)
    → p y ≡ true
    → keep p (xs ++ (y ∷ [])) ≡ keep p xs ++ (y ∷ [])
keep-append_one p [] y h = rw h refl
keep-append_one p (x ∷ xs) y h = ground (arith, keep-append_one p xs y h)

-- A row that is added is found by a test that no other row passes.
pub one_or_none-append {ℓ} :
    {A : Type ℓ} (p : A → Bool) (xs : List A) (y : A)
    → one_or_none p xs ≡ ok none
    → p y ≡ true
    → one_or_none p (xs ++ (y ∷ [])) ≡ ok (some y)
one_or_none-append p xs y h own = rw (keep-append_one p xs y own, only_row-none (keep p xs) h) refl

-- After a change of a password that returned true, the user logs in with the new password, if the
-- user's name is not empty and no other user has it, and if bcrypt accepts a password against its
-- hash.
pub login-update_password :
    (sec again : Security) (param : UpdatePasswordParam) (current : CurrentUser) (user : User)
    (s : AccountDb)
    → (update_password sec param current s).0 ≡ ok true
    → again.verify_password param.new_password (sec.hash_password param.new_password) ≡ true
    → user_by_id (target_of param current) s ≡ some user
    → user_by_username user.username s ≡ ok (some user)
    → is_empty user.username ≡ false
    → (login again user.username param.new_password (update_password sec param current s).1).0
      ≡ ok again.token
unfolding login
login-update_password sec again param current user s h verified found alone named =
    let id = target_of param current in
    let changed = update_password-IsChanged sec param current s h in
    let p = λ (u : User). text_eq u.username user.username in
    let kept : user_by_username user.username
          (set_user id (renewed sec param.new_password) (delete_by_user_id id s))
        ≡ ok (some (renewed sec param.new_password user)) =
      ap only_row
        (keep-update_where p (λ u. u.id == id) (renewed sec param.new_password) s.users (λ y. refl))
      ∙ only_row-update_where (λ u. u.id == id) (renewed sec param.new_password) _ user alone
          (find-holds (λ u. u.id == id) s.users user found) in
    rw changed.written (ground (arith, verified, changed.given, named, kept))

login-logged_in :
    (sec : Security) (username password : Text) (user : User) (s : AccountDb)
    → (login sec username password s).0 ≡ ok sec.token
    → user_by_username username s ≡ ok (some user)
    → (login sec username password s).1 ≡ logged_in sec user s
unfolding login
login-logged_in sec username password user s h found =
    elim (Bool-cases (is_empty username || is_empty password)) [
      | inl e ↦ absurd (ground (arith, e, h))
      | inr e ↦ elim (Bool-cases (sec.verify_password password user.password)) [
        | inl v ↦ rw (e, found, v) refl
        | inr v ↦ absurd (ground (arith, e, found, v, h))
      ]
    ]

-- A session of a user lets requests in as long as neither of the two has expired.
get_current_user_dep-session :
    (header : Option Text) (now : ℕ) (x : UserSession) (u : User) (s : AccountDb)
    → is_empty (extract_token header) ≡ false
    → session_by_token (extract_token header) s ≡ ok (some x)
    → user_by_id x.user_id s ≡ some u
    → now ≤ x.expire_time
    → now ≤ u.expire_time
    → get_current_user_dep header now s ≡ ok (context_of u s)
unfolding get_current_user_dep
get_current_user_dep-session header now x u s given session holder first second =
    let live : (ltb x.expire_time now || ltb u.expire_time now) ≡ false = ground arith in
    rw (given, session, holder, live) refl

-- The token that a log-in returns lets requests in as the user who has logged in, until the token
-- expires. The user's name is held by that user only, the key finds the user, and the token is not
-- empty, has no blanks at its ends and is none of a session.
pub get_current_user_dep-login :
    (sec : Security) (username password : Text) (user : User) (now : ℕ) (s : AccountDb)
    → (login sec username password s).0 ≡ ok sec.token
    → user_by_username username s ≡ ok (some user)
    → user_by_id user.id s ≡ some user
    → extract_token (some sec.token) ≡ sec.token
    → is_empty sec.token ≡ false
    → session_by_token sec.token s ≡ ok none
    → now ≤ sec.expire
    → (c : CurrentUser) × (get_current_user_dep
          (some sec.token)
          now
          (login sec username password s).1
        ≡ ok c)
      × (c.id ≡ user.id)
get_current_user_dep-login sec username password user now s h found own trimmed given fresh valid =
    let after = logged_in sec user s in
    let times = λ (u : User). record u { effect_time = sec.now; expire_time = sec.expire } in
    let session : UserSession = record {
      id = s.next_session_id;
      user_id = user.id;
      token = sec.token;
      effect_time = sec.now;
      expire_time = sec.expire;
    } in
    let opened : session_by_token sec.token after ≡ ok (some session) =
      one_or_none-append (λ x. text_eq x.token sec.token) s.sessions session fresh
        (text_eq_refl sec.token) in
    let holder : user_by_id user.id after ≡ some (times user) =
      find-update_found (λ u. u.id == user.id) times s.users user (λ u. refl) own in
    rw (login-logged_in sec username password user s h found) (
      context_of (times user) after,
      get_current_user_dep-session (some sec.token) now session (times user) after
          (rw trimmed given) (rw trimmed opened) holder valid valid,
      context_of-id (times user) after,
    )
