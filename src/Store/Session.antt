-- ===== src/Store/Session.antt =====
-- A service call on a session: it sees the tables, leaves them changed, and returns or raises. The
-- tables come back after a raise too: what a call has written before it raises stays written, since
-- the modelled calls commit before the steps that can still raise.
use pressure_platform.Prelude.{Bool, Option, none, some, if◌then◌else◌, ◌≡◌, ◌⊎◌, refl, inl, inr}
use pressure_platform.Store.Codes.{Error}
use pressure_platform.Store.Rows.{Db}

pub data Result {ℓ} (A : Type ℓ) : Type ℓ where
  ok : A → Result A
  err : Error → Result A

-- Run a fallible step, and go on with its value.
abbrev pub and_then {ℓ κ} : {A : Type ℓ} {B : Type κ} → Result A → (A → Result B) → Result B
and_then (ok a) f = f a
and_then (err e) f = err e

pub Result-cases {ℓ} :
    {A : Type ℓ} (r : Result A) → ((a : A) × (r ≡ ok a)) ⊎ ((e : Error) × (r ≡ err e))
Result-cases (ok a) = inl (a, refl)
Result-cases (err e) = inr (e, refl)

abbrev pub Action : Type 0 → Type 0
Action A = Db → Result A × Db

module _ {A : Type 0} where
  abbrev pub pure : A → Action A
  pure a db = (ok a, db)

  abbrev pub raise : Error → Action A
  raise e db = (err e, db)

  -- A read of the tables.
  abbrev pub gets : (Db → A) → Action A
  gets f db = (ok (f db), db)

  abbrev pub or_raise : Option A → Error → Action A
  or_raise none e = raise e
  or_raise (some a) _ = pure a

  -- A call of code that keeps no table, by its outcome.
  abbrev pub lift : Result A → Action A
  lift r db = (r, db)

-- What follows a step, by its outcome.
abbrev pub resume : {A B : Type 0} → Result A → (A → Action B) → Action B
resume (ok a) f db = f a db
resume (err e) f db = (err e, db)

infixl 5 ◌>>=◌ ◌>>◌
abbrev pub ◌>>=◌ : {A B : Type 0} → Action A → (A → Action B) → Action B
◌>>=◌ m f db = let (r, after) = m db in resume r f after

abbrev pub ◌>>◌ : {A B : Type 0} → Action A → Action B → Action B
m >> k = m >>= λ _. k

abbrev pub modify : (Db → Db) → Action Unit
modify f db = (ok tt, f db)

abbrev pub raise_if : Bool → Error → Action Unit
raise_if c e db = (if c then err e else ok tt, db)

-- `if c: m`
abbrev pub when : Bool → Action Unit → Action Unit
when c m = if c then m else pure tt
