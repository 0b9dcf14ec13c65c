-- ===== src/Metrics/Rows.antt =====
-- One row of JMeter's log of samples, and the window that it falls into
-- (`_append_metric_row` and its helpers, api/app/services/report_metrics.py).
use pressure_platform.Prelude.{
  ℕ, zero, suc, ◌+◌, ◌*◌, ◌/◌, Bool, ◌||◌, Option, none, some, List, [], ◌∷◌, ◌++◌, if◌then◌else◌,
  ◌==◌, max, min, any,
}
use pressure_platform.Prelude.Text.{
  Text, codes, text_eq, is_empty, or_else, strip, lower, parse_int,
}
use pressure_platform.Prelude.Int.{ℤ, pos, negsuc, neg, pos_part, leb_ℤ, ltb_ℤ}

abbrev pub Bytes : Type 0
Bytes = List ℕ

-- A row by its columns.
abbrev pub Row : Type 0
Row = List (Text × Text)

-- The numbers of `run_meta.json`.
pub record RunMeta : Type 0 where
  pub slave_count : Option ℤ
  pub per_slave_threads : Option ℤ
  pub total_threads : Option ℤ

pub record Bucket : Type 0 where
  pub elapsed : List ℤ
  pub fail : ℕ
  pub threads : ℕ
  pub thread_names : List Text
  pub count : ℕ

-- The windows by their first millisecond.
abbrev pub Buckets : Type 0
Buckets = List (ℕ × Bucket)

-- `csv.reader` on one line: fields between commas, quoted ones with doubled quotes. A carriage
-- return outside quotes is an error. The characters of a field are gathered in reverse.
pub data CsvState : Type 0 where
  start_field in_field in_quoted quote_in_quoted : CsvState

abbrev snoc_reverse : Text → Text → Text
snoc_reverse [] acc = acc
snoc_reverse (c ∷ s) acc = snoc_reverse s (c ∷ acc)

abbrev field_done : Text → Option (List Text) → Option (List Text)
field_done field none = none
field_done field (some fields) = some (snoc_reverse field [] ∷ fields)

abbrev csv_from : CsvState → Text → Text → Option (List Text)
csv_from state field [] = some (snoc_reverse field [] ∷ [])
csv_from CsvState.in_quoted field (c ∷ s) =
    let quote = csv_from CsvState.quote_in_quoted field s in
    let more = csv_from CsvState.in_quoted (c ∷ field) s in if c == 34 then quote else more
csv_from CsvState.start_field field (c ∷ s) =
    let quote = csv_from CsvState.in_quoted field s in
    let comma = csv_from CsvState.start_field [] s in
    let more = csv_from CsvState.in_field (c ∷ field) s in
    if c == 34
    then quote
    else if c == 44
    then field_done field comma
    else if c == 13 || c == 10
    then none
    else more
csv_from CsvState.in_field field (c ∷ s) =
    let comma = csv_from CsvState.start_field [] s in
    let more = csv_from CsvState.in_field (c ∷ field) s in
    if c == 44 then field_done field comma else if c == 13 || c == 10 then none else more
csv_from CsvState.quote_in_quoted field (c ∷ s) =
    let quote = csv_from CsvState.in_quoted (c ∷ field) s in
    let comma = csv_from CsvState.start_field [] s in
    let more = csv_from CsvState.in_field (c ∷ field) s in
    if c == 34
    then quote
    else if c == 44
    then field_done field comma
    else if c == 13 || c == 10
    then none
    else more

-- `next(csv.reader([line]))`; `none` stands for the `csv.Error`.
unfoldable pub csv_values : Text → Option (List Text)
csv_values line = csv_from CsvState.start_field [] line

-- `row.get(key)`: of two columns with one name the last counts.
abbrev or_found : Option Text → Bool → Text → Option Text
or_found (some v) here w = some v
or_found none here w = if here then some w else none

unfoldable pub get : Text → Row → Option Text
get key [] = none
get key ((k, v) ∷ row) = or_found (get key row) (text_eq k key) v

abbrev text_or : Option Text → Text → Text
text_or none t = t
text_or (some s) t = or_else s t

-- `int(meta.get(key) or default)`
abbrev pub meta_int : Option ℤ → ℤ → ℤ
meta_int none default = default
meta_int (some (pos zero)) default = default
meta_int (some (pos (suc n))) default = pos (suc n)
meta_int (some (negsuc n)) default = negsuc n

abbrev times : ℤ → ℕ → ℤ
times (pos a) n = pos (a * n)
times (negsuc a) n = neg (suc a * n)

abbrev min_ℤ : ℤ → ℤ → ℤ
min_ℤ a b = if leb_ℤ a b then a else b

-- `if total_threads > 0: threads = min(threads, total_threads)`
abbrev capped : ℤ → ℤ → ℤ
capped total threads = if ltb_ℤ (pos 0) total then min_ℤ threads total else threads

-- The same for a number of threads that is not negative.
abbrev pub capped_count : Option RunMeta → ℕ → ℕ
capped_count none threads = threads
capped_count (some meta) threads =
    if ltb_ℤ (pos 0) (meta_int meta.total_threads (pos 0))
    then min threads (pos_part (meta_int meta.total_threads (pos 0)))
    else threads

abbrev shared_out : RunMeta → ℤ → ℤ
shared_out meta raw =
    if leb_ℤ (meta_int meta.per_slave_threads (pos 0)) (pos 0)
      || leb_ℤ raw (meta_int meta.per_slave_threads (pos 0))
    then times raw (pos_part (meta_int meta.slave_count (pos 1)))
    else raw

-- `_normalize_threads`: a file with no numbers is an empty `run_meta`, which is false.
unfoldable pub normalize_threads : ℤ → Option RunMeta → ℤ
normalize_threads raw none = raw
normalize_threads raw (some meta) =
    if leb_ℤ (meta_int meta.slave_count (pos 1)) (pos 1)
    then raw
    else capped (meta_int meta.total_threads (pos 0)) (shared_out meta raw)

abbrev pub new_metric_bucket : Bucket
new_metric_bucket = record { elapsed = []; fail = 0; threads = 0; thread_names = []; count = 0 }

-- What a row says of its sample.
pub record Sample : Type 0 where
  pub timestamp_ms : ℕ
  pub elapsed : ℤ
  pub success : Bool
  pub threads : ℤ
  pub thread_name : Text

infixl 5 ◌>>=◌
abbrev ◌>>=◌ : {A B : Type 0} → Option A → (A → Option B) → Option B
none >>= f = none
some a >>= f = f a

-- A text that is neither missing nor empty.
abbrev given : Option Text → Option Text
given none = none
given (some []) = none
given (some (c ∷ s)) = some (c ∷ s)

-- `timestamp_ms <= 0` is no sample.
abbrev positive : ℤ → Option ℕ
positive (pos zero) = none
positive (pos (suc n)) = some (suc n)
positive (negsuc n) = none

-- The reading of a row: `none` where the source returns `None`.
unfoldable pub sample_of : Row → Option RunMeta → Option Sample
unfolding normalize_threads get
sample_of row run_meta = do
  timestamp_raw ← given (get (codes "timeStamp") row)
  elapsed_raw ← given (get (codes "elapsed") row)
  success_raw ← given (get (codes "success") row)
  timestamp ← parse_int timestamp_raw
  elapsed ← parse_int elapsed_raw
  raw_threads ←
      parse_int (
        text_or (get (codes "allThreads") row) (text_or (get (codes "grpThreads") row) (codes "0")))
  timestamp_ms ← positive timestamp
  some (record {
    timestamp_ms = timestamp_ms;
    elapsed = elapsed;
    success = text_eq (lower success_raw) (codes "true");
    threads = normalize_threads raw_threads run_meta;
    thread_name = strip (text_or (get (codes "threadName") row) []);
  })

-- `ms // (window_sec * 1000) * (window_sec * 1000)`
abbrev pub bucket_key : ℕ → ℕ → ℕ
bucket_key window_sec ms = ms / (window_sec * 1000) * (window_sec * 1000)

abbrev add_name : Text → List Text → List Text
add_name name names = if is_empty name || any (text_eq name) names then names else name ∷ names

-- The window with one sample more.
abbrev pub add_sample : Sample → Bucket → Bucket
add_sample sample b = record {
  elapsed = b.elapsed ++ (sample.elapsed ∷ []);
  fail = if sample.success then b.fail else b.fail + 1;
  threads = max b.threads (pos_part sample.threads);
  thread_names = add_name sample.thread_name b.thread_names;
  count = b.count + 1;
}

-- `buckets.setdefault(key, _new_metric_bucket())`, and a change of that window.
unfoldable pub update_bucket : ℕ → (Bucket → Bucket) → Buckets → Buckets
update_bucket key f [] = (key, f new_metric_bucket) ∷ []
update_bucket key f ((k, b) ∷ buckets) =
    let rest = update_bucket key f buckets in if k == key then (k, f b) ∷ buckets else (k, b) ∷ rest

-- `_append_metric_row`: the key of the window, if the row has a sample, and the windows.
unfoldable pub append_metric_row : Buckets → Row → ℕ → Option RunMeta → Option ℕ × Buckets
unfolding sample_of
append_metric_row buckets row window_sec run_meta = elim (sample_of row run_meta) [
  | none ↦ (none, buckets)
  | some sample ↦ (
    some (bucket_key window_sec sample.timestamp_ms),
    update_bucket (bucket_key window_sec sample.timestamp_ms) (add_sample sample) buckets,
  )
]

-- `int(row.get("timeStamp") or 0)`; `none` stands for the exception.
unfoldable pub timestamp_or_zero : Row → Option ℤ
unfolding get
timestamp_or_zero row = parse_int (text_or (get (codes "timeStamp") row) (codes "0"))
