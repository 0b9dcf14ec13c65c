-- ===== src/Store/Tables.antt =====
-- Reading and writing rows by their keys: `db.get`, and the assignment to a column of a row that a
-- session holds, which every later read of that row sees.
use pressure_platform.Prelude.{ℕ, Option, find, update_where, ◌==◌}
use pressure_platform.Store.Rows.{Db, TestCase, Jmx, Report, ExecutionQueue}

abbrev pub get_testcase : ℕ → Db → Option TestCase
get_testcase id db = find (λ t. t.id == id) db.testcases

-- `jmx_crud.get_by_test_case_id`
abbrev pub get_jmx_of : ℕ → Db → Option Jmx
get_jmx_of test_case_id db = find (λ j. j.test_case_id == test_case_id) db.jmxs

abbrev pub get_report : ℕ → Db → Option Report
get_report id db = find (λ r. r.id == id) db.reports

abbrev pub get_queue : ℕ → Db → Option ExecutionQueue
get_queue id db = find (λ q. q.id == id) db.queues

abbrev pub set_testcase : ℕ → (TestCase → TestCase) → Db → Db
set_testcase id f db = record db { testcases = update_where (λ t. t.id == id) f db.testcases }

abbrev pub set_report : ℕ → (Report → Report) → Db → Db
set_report id f db = record db { reports = update_where (λ r. r.id == id) f db.reports }

abbrev pub set_queue : ℕ → (ExecutionQueue → ExecutionQueue) → Db → Db
set_queue id f db = record db { queues = update_where (λ q. q.id == id) f db.queues }
