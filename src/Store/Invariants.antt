-- ===== src/Store/Invariants.antt =====
-- Calls that keep a property of the tables, step by step.
use pressure_platform.Prelude.{◌≡◌, refl}
use pressure_platform.Store.Rows.{Db}
use pressure_platform.Store.Session.{Result, ok, err, Action, resume, ◌>>=◌}

-- Whatever the call returns or raises, the property holds afterwards.
abbrev pub Keeps : {A : Type 0} → (Db → Type 0) → Action A → Type 0
Keeps P m = (db : Db) → P db → P (m db).1

resume_after :
    {A B : Type 0} (P : Db → Type 0) (r : Result A) (f : A → Action B) (after : Db)
    → ((a : A) → r ≡ ok a → Keeps P (f a))
    → P after
    → P (resume r f after).1
resume_after P (ok a) f after hf p = hf a refl after p
resume_after P (err e) f after hf p = p

-- A step and what follows it, where the latter may use what the step returns.
pub bind_returns :
    {A B : Type 0} (P : Db → Type 0) (m : Action A) (f : A → Action B) (db : Db)
    → P (m db).1
    → ((a : A) → (m db).0 ≡ ok a → Keeps P (f a))
    → P ((m >>= f) db).1
bind_returns P m f db p hf = resume_after P (m db).0 f (m db).1 hf p

pub bind-Keeps :
    {A B : Type 0} (P : Db → Type 0) (m : Action A) (f : A → Action B)
    → Keeps P m
    → ((a : A) → Keeps P (f a))
    → Keeps P (m >>= f)
bind-Keeps P m f hm hf db p = bind_returns P m f db (hm db p) (λ a _. hf a)
