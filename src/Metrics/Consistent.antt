-- ===== src/Metrics/Consistent.antt =====
-- The invariant of the windows of a running report (`_parse_incremental_jtl_metrics`,
-- `_metrics_from_buckets` and `_ack_incremental_jtl_metrics`,
-- api/app/services/report_metrics.py).
use pressure_platform.Prelude.{
  ℕ, ◌≤◌, ◌≡◌, refl, true, Option, none, some, List, [], ◌∷◌, ◌++◌, arith, ◌==◌, ltb, inl, inr,
  Bool-cases, Option-cases, is_some, is_nil, length, length-append, All, All-map, elem,
}
use pressure_platform.Prelude.Text.{Text, is_empty}
use pressure_platform.Prelude.Int.{ℤ, pos, negsuc}
use pressure_platform.Metrics.Rows.{
  Bytes, Row, RunMeta, Bucket, Buckets, Sample, new_metric_bucket, add_sample, update_bucket,
  sample_of, append_metric_row, timestamp_or_zero, bucket_key, csv_values,
}
use pressure_platform.Metrics.{
  Tally, IncrementalMetricState, File, fresh_state, cut_lines, touched, add_key, read_row,
  read_values, read_line, read_lines, feed, drop, is_replaced, opened, read_on, parse_incremental,
  get_bucket, rstrip_cr, zip_row, no_rows,
}

abbrev pub HasBucket : Buckets → ℕ → Type 0
HasBucket buckets key = is_some (get_bucket key buckets) ≡ true

-- A window holds a sample at least, counts its samples, and no more failures than samples.
pub record IsCounted (b : Bucket) : Type 0 where
  pub elapsed : length b.elapsed ≡ b.count
  pub fail : b.fail ≤ b.count
  pub some_sample : 1 ≤ b.count

pub record IsConsistent (t : Tally) : Type 0 where
  pub dirty : All (HasBucket t.buckets) t.dirty_keys
  pub counted : All (λ entry. IsCounted entry.1) t.buckets

get_bucket-update_same :
    (key : ℕ) (f : Bucket → Bucket) (buckets : Buckets)
    → HasBucket (update_bucket key f buckets) key
unfolding get_bucket update_bucket
get_bucket-update_same key f [] = ground arith
get_bucket-update_same key f ((k, b) ∷ buckets) =
    ground (arith, get_bucket-update_same key f buckets)

get_bucket-update_other :
    (key other : ℕ) (f : Bucket → Bucket) (buckets : Buckets)
    → HasBucket buckets other
    → HasBucket (update_bucket key f buckets) other
unfolding get_bucket update_bucket
get_bucket-update_other key other f [] h = ground arith
get_bucket-update_other key other f ((k, b) ∷ buckets) h =
    ground (arith, get_bucket-update_other key other f buckets)

add_sample-IsCounted :
    (sample : Sample) (b : Bucket)
    → (length b.elapsed ≡ b.count)
    → b.fail ≤ b.count
    → IsCounted (add_sample sample b)
add_sample-IsCounted sample b e f = record {
  elapsed = omega (arith, length-append b.elapsed (sample.elapsed ∷ []));
  fail = ground arith;
  some_sample = omega arith;
}

update_bucket-IsCounted :
    (key : ℕ) (sample : Sample) (buckets : Buckets)
    → All (λ entry. IsCounted entry.1) buckets
    → All (λ entry. IsCounted entry.1) (update_bucket key (add_sample sample) buckets)
unfolding update_bucket
update_bucket-IsCounted key sample [] h =
    (add_sample-IsCounted sample new_metric_bucket refl (omega arith), tt)
update_bucket-IsCounted key sample ((k, b) ∷ buckets) h = elim (Bool-cases (k == key)) [
  | inl e ↦ rw e (add_sample-IsCounted sample b h.0.elapsed h.0.fail, h.1)
  | inr e ↦ rw e (h.0, update_bucket-IsCounted key sample buckets h.1)
]

add_key-All {ℓ} :
    (P : ℕ → Type ℓ) (k : ℕ) (keys : List ℕ) → P k → All P keys → All P (add_key k keys)
add_key-All P k keys h hs = elim (Bool-cases (elem k keys)) [
  | inl e ↦ rw e hs
  | inr e ↦ rw e (h, hs)
]

touched-IsConsistent :
    (window_sec : ℕ) (run_meta : Option RunMeta) (row : Row) (t : Tally)
    → IsConsistent t
    → IsConsistent (touched (append_metric_row t.buckets row window_sec run_meta) t)
unfolding append_metric_row
touched-IsConsistent window_sec run_meta row t c = elim (Option-cases (sample_of row run_meta)) [
  | inl e ↦ rw (append_metric_row, e) c
  | inr (sample, e) ↦
      let key = bucket_key window_sec sample.timestamp_ms in
      rw (append_metric_row, e)
        (record {
          dirty =
              add_key-All (HasBucket (update_bucket key (add_sample sample) t.buckets)) key
                t.dirty_keys (get_bucket-update_same key (add_sample sample) t.buckets)
                (All-map _ _ t.dirty_keys
                  (λ k. get_bucket-update_other key k (add_sample sample) t.buckets) c.dirty);
          counted = update_bucket-IsCounted key sample t.buckets c.counted;
        })
]

read_row-IsConsistent :
    (window_sec : ℕ) (run_meta : Option RunMeta) (row : Row) (t : Tally)
    → IsConsistent t
    → IsConsistent (read_row window_sec run_meta row t)
unfolding read_row
read_row-IsConsistent window_sec run_meta row t c = at_time (timestamp_or_zero row) refl
  where
    at_time :
        (z : Option ℤ)
        → timestamp_or_zero row ≡ z
        → IsConsistent (read_row window_sec run_meta row t)
    at_time none e = rw (read_row, e) c
    at_time (some (negsuc n)) e = rw (read_row, e) c
    at_time (some (pos ms)) e =
        elim (Bool-cases (ltb (bucket_key window_sec ms) t.finalized_before_ms)) [
          | inl f ↦ rw (read_row, e, f) c
          | inr f ↦ rw (read_row, e, f) (touched-IsConsistent window_sec run_meta row t c)
        ]

read_values-IsConsistent :
    (window_sec : ℕ) (run_meta : Option RunMeta) (header : Option (List Text)) (values : List Text)
    (t : Tally)
    → IsConsistent t
    → IsConsistent (read_values window_sec run_meta header values t)
read_values-IsConsistent window_sec run_meta none values t c = record {
  dirty = c.dirty;
  counted = c.counted;
}
read_values-IsConsistent window_sec run_meta (some header) values t c =
    elim (Bool-cases (length values == length header)) [
      | inl e ↦ rw e (read_row-IsConsistent window_sec run_meta (zip_row header values) t c)
      | inr e ↦ rw e c
    ]

pub no_rows-IsConsistent : IsConsistent no_rows
no_rows-IsConsistent = record { dirty = tt; counted = tt }

module _ (decode : Bytes → Text) (window_sec : ℕ) (run_meta : Option RunMeta) where
  read_line-IsConsistent :
      (line : Bytes) (t : Tally)
      → IsConsistent t
      → IsConsistent (read_line decode window_sec run_meta line t)
  unfolding read_line
  read_line-IsConsistent line t c = elim (Bool-cases (is_empty (decode (rstrip_cr line)))) [
    | inl e ↦ rw e c
    | inr e ↦ elim (Option-cases (csv_values (decode (rstrip_cr line)))) [
      | inl f ↦ rw (e, f) c
      | inr (values, f) ↦
          rw (e, f) (read_values-IsConsistent window_sec run_meta t.header values t c)
    ]
  ]

  read_lines-IsConsistent :
      (lines : List Bytes) (t : Tally)
      → IsConsistent t
      → IsConsistent (read_lines decode window_sec run_meta lines t)
  unfolding read_lines
  read_lines-IsConsistent [] t c = c
  read_lines-IsConsistent (line ∷ lines) t c =
      read_lines-IsConsistent lines _ (read_line-IsConsistent line t c)

  read_on-IsConsistent :
      (content : Bytes) (s : IncrementalMetricState)
      → IsConsistent s.tally
      → IsConsistent (read_on decode window_sec run_meta content s).tally
  unfolding read_on feed
  read_on-IsConsistent content s c = elim (Bool-cases (is_nil (drop s.offset content))) [
    | inl e ↦ rw e c
    | inr e ↦
        rw e (
          read_lines-IsConsistent (cut_lines (s.pending_bytes ++ drop s.offset content)).0 s.tally
            c)
  ]

  pub parse-IsConsistent :
      (file : Option File) (s : IncrementalMetricState)
      → IsConsistent s.tally
      → IsConsistent (parse_incremental decode window_sec run_meta file s).tally
  unfolding parse_incremental opened
  parse-IsConsistent none s c = c
  parse-IsConsistent (some file) s c =
      elim (Bool-cases (is_replaced s.file_identity file s.offset)) [
        | inl e ↦ rw e (
            read_on-IsConsistent file.content (fresh_state (some file.identity))
              no_rows-IsConsistent)
        | inr e ↦
            rw e (
              read_on-IsConsistent file.content (record s { file_identity = some file.identity }) c)
      ]
