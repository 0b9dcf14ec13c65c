-- ===== src/Metrics/Shown.antt =====
-- The rows that the windows of a running report show (`_metrics_from_buckets` and
-- `_ack_incremental_jtl_metrics`, api/app/services/report_metrics.py), and histories of refreshes.
use pressure_platform.Prelude.{
  ℕ, ◌≤◌, ◌≡◌, refl, sym, ap, ◌∙◌, true, false, not, Bool, Option, some, List, [], ◌∷◌, arith, map,
  ◌==◌, leb, inl, inr, Bool-cases, Option-cases, All, All-map, All-keep, elem, keep, sort_by,
  any-sort_by, All-sort_by,
}
use pressure_platform.Prelude.Text.{Text}
use pressure_platform.Metrics.Rows.{Bytes, RunMeta, Bucket, Buckets}
use pressure_platform.Metrics.{
  Tally, IncrementalMetricState, File, Metric, parse_incremental, get_bucket, metric_for,
  bucket_to_metric, metrics_of, dirty_metrics, has_metric, ack_incremental,
}
use pressure_platform.Metrics.Consistent.{HasBucket, IsCounted, IsConsistent, parse-IsConsistent}

-- A window's row: at least one sample, and no more failures than samples.
pub record IsMetric (m : Metric) : Type 0 where
  pub sample_count : 1 ≤ m.sample_count
  pub fail_count : m.fail_count ≤ m.sample_count

get_bucket-IsCounted :
    (key : ℕ) (buckets : Buckets) (b : Bucket)
    → All (λ entry. IsCounted entry.1) buckets
    → get_bucket key buckets ≡ some b
    → IsCounted b
unfolding get_bucket
get_bucket-IsCounted key [] b h e = ground arith
get_bucket-IsCounted key ((k, c) ∷ buckets) b h e = elim (Bool-cases (k == key)) [
  | inl f ↦ let same : c ≡ b = ground (arith, rw (get_bucket, f) at e) in rw (← same) h.0
  | inr f ↦ get_bucket-IsCounted key buckets b h.1 (rw (get_bucket, f) at e)
]

-- What the windows of some keys show.
record Shows (run_meta : Option RunMeta) (keys : List ℕ) (buckets : Buckets) : Type 0 where
  metrics : List Metric
  found : metrics_of run_meta keys buckets ≡ some metrics
  starts : map (λ m. m.bucket_start_ms) metrics ≡ keys
  bounds : All IsMetric metrics

metrics_of-Shows :
    (run_meta : Option RunMeta) (keys : List ℕ) (buckets : Buckets)
    → All (HasBucket buckets) keys
    → All (λ entry. IsCounted entry.1) buckets
    → Shows run_meta keys buckets
unfolding metrics_of bucket_to_metric
metrics_of-Shows run_meta [] buckets hk hb = record {
  metrics = [];
  found = refl;
  starts = refl;
  bounds = tt;
}
metrics_of-Shows run_meta (key ∷ keys) buckets hk hb =
    let rest = metrics_of-Shows run_meta keys buckets hk.1 hb in
    elim (Option-cases (get_bucket key buckets)) [
      | inl e ↦ absurd (ground (arith, hk.0))
      | inr (b, e) ↦
          let counted = get_bucket-IsCounted key buckets b hb e in
          let nonempty : (b.count == 0) ≡ false = ground (arith, counted.some_sample) in
          record {
            metrics = metric_for run_meta key b ∷ rest.metrics;
            found = rw (metrics_of, e, nonempty, rest.found) refl;
            starts = ap (◌∷◌ key) rest.starts;
            bounds = (
              record { sample_count = counted.some_sample; fail_count = counted.fail },
              rest.bounds,
            );
          }
    ]

-- The rows that are written show every window that has changed, in order, each with a sample at
-- least and no more failures than samples: the look-up of a window never fails.
pub dirty_metrics_lem :
    (run_meta : Option RunMeta) (t : Tally)
    → IsConsistent t
    → (metrics : List Metric) × (dirty_metrics run_meta t ≡ some metrics)
      × (map (λ m. m.bucket_start_ms) metrics ≡ sort_by leb t.dirty_keys)
      × All IsMetric metrics
unfolding dirty_metrics
dirty_metrics_lem run_meta t c =
    let shown =
      metrics_of-Shows run_meta (sort_by leb t.dirty_keys) t.buckets
        (All-sort_by leb (HasBucket t.buckets) t.dirty_keys c.dirty) c.counted in
    (shown.metrics, shown.found, shown.starts, shown.bounds)

has_metric-map :
    (k : ℕ) (metrics : List Metric)
    → has_metric metrics k ≡ elem k (map (λ m. m.bucket_start_ms) metrics)
has_metric-map k [] = refl
has_metric-map k (m ∷ metrics) = ground (arith, has_metric-map k metrics)

elem_self : (keys : List ℕ) → All (λ k. elem k keys ≡ true) keys
elem_self [] = tt
elem_self (k ∷ keys) = (ground arith, All-map _ _ keys (λ x h. ground (arith, h)) (elem_self keys))

keep-none {ℓ} :
    {A : Type ℓ} (p : A → Bool) (xs : List A)
    → All (λ x. p x ≡ true) xs
    → keep (λ x. not (p x)) xs ≡ []
keep-none p [] h = refl
keep-none p (x ∷ xs) h = rw (h.0) (keep-none p xs h.1)

-- Once the rows have been written and acknowledged no window counts as changed.
ack_incremental-dirty :
    (window_sec : ℕ) (run_meta : Option RunMeta) (t : Tally) (metrics : List Metric)
    → IsConsistent t
    → dirty_metrics run_meta t ≡ some metrics
    → (ack_incremental window_sec metrics t).dirty_keys ≡ []
unfolding ack_incremental
ack_incremental-dirty window_sec run_meta t metrics c e =
    let (shown, found, starts, _) = dirty_metrics_lem run_meta t c in
    let same : shown ≡ metrics = ground arith in
    keep-none (has_metric metrics) t.dirty_keys (
      All-map _ _ t.dirty_keys
        (λ k h.
          has_metric-map k metrics
          ∙ ap (λ ms. elem k (map (λ m. m.bucket_start_ms) ms)) (sym same)
          ∙ ap (elem k) starts
          ∙ any-sort_by leb (λ x. x == k) t.dirty_keys
          ∙ h)
        (elem_self t.dirty_keys))

ack-IsCounted :
    (window_sec : ℕ) (metrics : List Metric) (t : Tally)
    → All (λ entry. IsCounted entry.1) t.buckets
    → All (λ entry. IsCounted entry.1) (ack_incremental window_sec metrics t).buckets
unfolding ack_incremental
ack-IsCounted window_sec metrics t h = All-keep (λ entry. IsCounted entry.1) _ t.buckets h

ack-IsConsistent :
    (window_sec : ℕ) (run_meta : Option RunMeta) (t : Tally) (metrics : List Metric)
    → IsConsistent t
    → dirty_metrics run_meta t ≡ some metrics
    → IsConsistent (ack_incremental window_sec metrics t)
ack-IsConsistent window_sec run_meta t metrics c e = record {
  dirty = rw (ack_incremental-dirty window_sec run_meta t metrics c e) tt;
  counted = ack-IsCounted window_sec metrics t c.counted;
}

-- One step of the refresh of a running report: a reading of the file, or the acknowledgement of
-- the rows that the windows then show.
module _ (decode : Bytes → Text) (window_sec : ℕ) (run_meta : Option RunMeta) where
  pub data Refresh : IncrementalMetricState → IncrementalMetricState → Type 0 where
    read :
        (file : Option File) (s : IncrementalMetricState)
        → Refresh s (parse_incremental decode window_sec run_meta file s)
    ack :
        (metrics : List Metric) (s : IncrementalMetricState)
        → dirty_metrics run_meta s.tally ≡ some metrics
        → Refresh s (record s { tally = ack_incremental window_sec metrics s.tally })

  pub data Refreshes : IncrementalMetricState → IncrementalMetricState → Type 0 where
    none_yet : (s : IncrementalMetricState) → Refreshes s s
    once_more : (a b c : IncrementalMetricState) → Refreshes a b → Refresh b c → Refreshes a c

  Refresh-IsConsistent :
      (a b : IncrementalMetricState) → Refresh a b → IsConsistent a.tally → IsConsistent b.tally
  Refresh-IsConsistent _ _ (read file s) c = parse-IsConsistent decode window_sec run_meta file s c
  Refresh-IsConsistent _ _ (ack metrics s e) c =
      ack-IsConsistent window_sec run_meta s.tally metrics c e

  -- In every history of readings of the file and acknowledgements of the rows that were shown,
  -- whatever the file holds and however it changes, every window that counts as changed is in the
  -- table of windows, and each window there has counted its samples and their failures, if that is
  -- so at the start.
  pub Refreshes-IsConsistent :
      (a b : IncrementalMetricState) → Refreshes a b → IsConsistent a.tally → IsConsistent b.tally
  Refreshes-IsConsistent _ _ (none_yet s) c = c
  Refreshes-IsConsistent _ _ (once_more a b d before step) c =
      Refresh-IsConsistent b d step (Refreshes-IsConsistent a b before c)
