-- ===== src/Metrics.antt =====
-- The metrics of a run (api/app/services/report_metrics.py): the rows of JMeter's log of samples,
-- gathered in time windows while the file grows. Left out are the figures that Python rounds as
-- floats (rates, averages, percentiles and the peak) and the time of day that a window shows.
-- `bytes.decode` is an argument. A field of more than 131,072 characters, which Python's `csv`
-- refuses, is read here.
pub mod Rows
pub mod Chunks
pub mod Consistent
pub mod Shown
use pressure_platform.Prelude.{
  ℕ, zero, suc, ◌+◌, ◌-◌, ◌*◌, ◌/◌, Bool, true, false, not, ◌&&◌, ◌||◌, Option, none, some, List,
  [], ◌∷◌, ◌++◌, if◌then◌else◌, ◌==◌, ltb, leb, length, max, min, any, keep, map, find, is_nil,
  elem, insert_by, sort_by,
}
use mathlib.Core.List.{reverse}
use pressure_platform.Prelude.Text.{Text, is_empty}
use pressure_platform.Metrics.Rows.{
  Bytes, Row, RunMeta, Bucket, Buckets, csv_values, append_metric_row, capped_count,
  timestamp_or_zero, bucket_key,
}
use pressure_platform.Prelude.Int.{ℤ, pos, negsuc}

-- What the rows of a file leave: the fields of `_IncrementalMetricState` that reading a line sees.
pub record Tally : Type 0 where
  pub header : Option (List Text)
  pub buckets : Buckets
  pub dirty_keys : List ℕ
  pub latest_key : ℕ
  pub finalized_before_ms : ℕ

pub record IncrementalMetricState : Type 0 where
  pub offset : ℕ
  pub pending_bytes : Bytes
  pub file_identity : Option (ℕ × ℕ)
  pub tally : Tally

-- A file as one refresh finds it.
pub record File : Type 0 where
  pub identity : ℕ × ℕ
  pub content : Bytes

abbrev pub no_rows : Tally
no_rows = record {
  header = none;
  buckets = [];
  dirty_keys = [];
  latest_key = 0;
  finalized_before_ms = 0;
}

-- A new state, and what `_reset_incremental_metric_state` leaves, apart from the identity.
abbrev pub fresh_state : Option (ℕ × ℕ) → IncrementalMetricState
fresh_state identity = record {
  offset = 0;
  pending_bytes = [];
  file_identity = identity;
  tally = no_rows;
}

-- `payload.split(b"\n")`, the last piece apart.
abbrev pub push_head : ℕ → List Bytes × Bytes → List Bytes × Bytes
push_head c ([], rest) = ([], c ∷ rest)
push_head c (line ∷ lines, rest) = ((c ∷ line) ∷ lines, rest)

unfoldable pub cut_lines : Bytes → List Bytes × Bytes
cut_lines [] = ([], [])
cut_lines (c ∷ s) =
    let (lines, rest) = cut_lines s in
    if c == 10 then ([] ∷ lines, rest) else push_head c (lines, rest)

-- `rstrip(b"\r")`
abbrev drop_cr : Bytes → Bytes
drop_cr [] = []
drop_cr (c ∷ s) = if c == 13 then drop_cr s else c ∷ s

unfoldable pub rstrip_cr : Bytes → Bytes
rstrip_cr s = reverse (drop_cr (reverse s))

abbrev pub add_key : ℕ → List ℕ → List ℕ
add_key k keys = if elem k keys then keys else k ∷ keys

-- The rows of one window grew.
abbrev pub touched : Option ℕ × Buckets → Tally → Tally
touched (none, buckets) t = record t { buckets = buckets }
touched (some key, buckets) t = record t {
  buckets = buckets;
  dirty_keys = add_key key t.dirty_keys;
  latest_key = max t.latest_key key;
}

-- A row whose window is finalized, or that has no readable time, is passed over; so is one with a
-- negative time, whose window would come before every finalized one.
unfoldable pub read_row : ℕ → Option RunMeta → Row → Tally → Tally
read_row window_sec run_meta row t = elim (timestamp_or_zero row) [
  | none ↦ t
  | some z ↦ elim z [
    | negsuc _ ↦ t
    | pos ms ↦
        if ltb (bucket_key window_sec ms) t.finalized_before_ms
        then t
        else touched (append_metric_row t.buckets row window_sec run_meta) t
  ]
]

-- `dict(zip(header, values))` for lists of one length.
unfoldable pub zip_row : List Text → List Text → Row
zip_row (k ∷ header) (v ∷ values) = (k, v) ∷ zip_row header values
zip_row _ _ = []

abbrev pub read_values : ℕ → Option RunMeta → Option (List Text) → List Text → Tally → Tally
read_values window_sec run_meta none values t = record t { header = some values }
read_values window_sec run_meta (some header) values t =
    if length values == length header
    then read_row window_sec run_meta (zip_row header values) t
    else t

abbrev pub drop : ℕ → Bytes → Bytes
drop zero s = s
drop (suc n) [] = []
drop (suc n) (c ∷ s) = drop n s

-- `state.file_identity is not None and (… != identity or stat.st_size < state.offset)`
abbrev pub is_replaced : Option (ℕ × ℕ) → File → ℕ → Bool
is_replaced none file offset = false
is_replaced (some (dev, ino)) file offset =
    not (dev == file.identity.0 && ino == file.identity.1) || ltb (length file.content) offset

unfoldable pub opened : File → IncrementalMetricState → IncrementalMetricState
opened file s =
    if is_replaced s.file_identity file s.offset
    then fresh_state (some file.identity)
    else record s { file_identity = some file.identity }

module _ (decode : Bytes → Text) (window_sec : ℕ) (run_meta : Option RunMeta) where
  -- The body of the loop over the lines.
  unfoldable pub read_line : Bytes → Tally → Tally
  read_line line t =
      if is_empty (decode (rstrip_cr line))
      then t
      else elim (csv_values (decode (rstrip_cr line))) [
        | none ↦ t
        | some values ↦ read_values window_sec run_meta t.header values t
      ]

  unfoldable pub read_lines : List Bytes → Tally → Tally
  unfolding read_line
  read_lines [] t = t
  read_lines (line ∷ lines) t = read_lines lines (read_line line t)

  -- What one chunk of the file adds.
  unfoldable pub feed : Bytes → IncrementalMetricState → IncrementalMetricState
  unfolding read_lines
  feed chunk s =
      let (lines, rest) = cut_lines (s.pending_bytes ++ chunk) in
      record s { pending_bytes = rest; tally = read_lines lines s.tally }

  -- Reads what the file has beyond the offset.
  unfoldable pub read_on : Bytes → IncrementalMetricState → IncrementalMetricState
  unfolding feed
  read_on content s =
      let chunk = drop s.offset content in
      if is_nil chunk then s else feed chunk (record s { offset = s.offset + length chunk })

  -- `_parse_incremental_jtl_metrics` on the state; without a file it is left alone.
  unfoldable pub parse_incremental : Option File → IncrementalMetricState → IncrementalMetricState
  unfolding read_on opened
  parse_incremental none s = s
  parse_incremental (some file) s = read_on file.content (opened file s)

-- The columns of a window's row, as far as they are whole numbers.
pub record Metric : Type 0 where
  pub bucket_start_ms : ℕ
  pub threads : ℕ
  pub sample_count : ℕ
  pub fail_count : ℕ

abbrev pub metric_for : Option RunMeta → ℕ → Bucket → Metric
metric_for run_meta key b = record {
  bucket_start_ms = key;
  threads = capped_count run_meta (max b.threads (length b.thread_names));
  sample_count = b.count;
  fail_count = b.fail;
}

-- `_bucket_to_metric`: a window without samples has no row.
unfoldable pub bucket_to_metric : Option RunMeta → ℕ → Bucket → Option Metric
bucket_to_metric run_meta key b = if b.count == 0 then none else some (metric_for run_meta key b)

-- `buckets[key]`; `none` stands for the `KeyError`.
unfoldable pub get_bucket : ℕ → Buckets → Option Bucket
get_bucket key [] = none
get_bucket key ((k, b) ∷ buckets) =
    let rest = get_bucket key buckets in if k == key then some b else rest

abbrev pub and_metric : Option Metric → Option (List Metric) → Option (List Metric)
and_metric m none = none
and_metric none (some ms) = some ms
and_metric (some m) (some ms) = some (m ∷ ms)

unfoldable pub metrics_of : Option RunMeta → List ℕ → Buckets → Option (List Metric)
unfolding bucket_to_metric get_bucket
metrics_of run_meta [] buckets = some []
metrics_of run_meta (key ∷ keys) buckets =
    let rest = metrics_of run_meta keys buckets in
    elim (get_bucket key buckets) [
      | none ↦ none
      | some b ↦ and_metric (bucket_to_metric run_meta key b) rest
    ]

-- `_metrics_from_buckets` on the windows that have changed.
unfoldable pub dirty_metrics : Option RunMeta → Tally → Option (List Metric)
unfolding metrics_of
dirty_metrics run_meta t = metrics_of run_meta (sort_by leb t.dirty_keys) t.buckets

abbrev pub has_metric : List Metric → ℕ → Bool
has_metric metrics key = any (λ m. m.bucket_start_ms == key) metrics

-- `_ack_incremental_jtl_metrics`: windows more than one before the latest are final, and forgotten.
unfoldable pub ack_incremental : ℕ → List Metric → Tally → Tally
ack_incremental window_sec metrics t =
    let keep_from = t.latest_key - window_sec * 1000 in
    record t {
      dirty_keys = keep (λ key. not (has_metric metrics key)) t.dirty_keys;
      finalized_before_ms = max t.finalized_before_ms keep_from;
      buckets = keep (λ entry. not (ltb entry.0 keep_from)) t.buckets;
    }
