-- ===== src/Store/Stamps.antt =====
-- The audit columns of every table (AuditMixin in api/app/db/base.py), the user of a request
-- (api/app/core/context.py) and the stamps of api/app/core/audit.py. A time is the number of
-- seconds of the local clock; the clock is an argument of every operation that reads it.
use pressure_platform.Prelude.{ℕ}
use pressure_platform.Prelude.Text.{Text, or_else, str}

pub record Audit : Type 0 where
  pub creator_id : Text
  pub creator : Text
  pub modifier_id : Text
  pub modifier : Text
  pub create_time : ℕ
  pub modify_time : ℕ

pub record UserContext : Type 0 where
  pub id : ℕ
  pub username : Text
  pub real_name : Text

-- The audit columns of a new row.
unfoldable pub stamp_create : UserContext → ℕ → Audit
stamp_create user now = record {
  creator_id = str user.id;
  creator = or_else user.real_name user.username;
  modifier_id = str user.id;
  modifier = or_else user.real_name user.username;
  create_time = now;
  modify_time = now;
}

-- `update`: only the modifier's columns change.
unfoldable pub stamp_modify : UserContext → ℕ → Audit → Audit
stamp_modify user now a = record a {
  modifier = or_else user.real_name user.username;
  modifier_id = str user.id;
  modify_time = now;
}
