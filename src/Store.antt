-- ===== src/Store.antt =====
-- The database as the services see it: the tables as lists of rows, the error codes, the audit
-- columns, and a session as a state passed through fallible steps.
mod Codes
mod Stamps
mod Rows
mod Session
mod Tables
mod Invariants
pub use Codes.*
pub use Stamps.*
pub use Rows.*
pub use Invariants.*
pub use Tables.*
pub use Session.*
