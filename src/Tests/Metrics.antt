-- ===== src/Tests/Metrics.antt =====
-- The theorems on metrics, on a log of two samples that is read in two steps.
use pressure_platform.Prelude.{◌≡◌, refl, none, some, List, [], ◌∷◌, ◌++◌, All, map, leb, sort_by}
use pressure_platform.Prelude.Text.{Text, codes, parse_int, strip, lower}
use pressure_platform.Metrics.Rows.{
  Bytes, csv_values, timestamp_or_zero, append_metric_row, update_bucket,
}
use pressure_platform.Metrics.{
  IncrementalMetricState, Metric, fresh_state, parse_incremental, dirty_metrics, cut_lines,
  rstrip_cr, read_row, zip_row,
}
use pressure_platform.Metrics.Chunks.{file_of, parse_incremental-grown}
use pressure_platform.Metrics.Consistent.{IsConsistent, no_rows-IsConsistent, parse-IsConsistent}
use pressure_platform.Metrics.Shown.{
  IsMetric, dirty_metrics_lem, Refresh, Refreshes, Refreshes-IsConsistent,
}

abbrev as_text : Bytes → Text
as_text bytes = bytes

abbrev part_1 : Bytes
part_1 = codes "timeStamp,elapsed,success\n7000,12,true\n80"

abbrev part_2 : Bytes
part_2 = codes "00,30,false\n"

abbrev at_once : IncrementalMetricState
at_once =
    parse_incremental as_text 5 none (some (file_of (1, 2) (part_1 ++ part_2))) (fresh_state none)

-- The two samples fall into one window, and one of them failed.
counted_together :
    dirty_metrics none at_once.tally
    ≡ some (record { bucket_start_ms = 5000; threads = 0; sample_count = 2; fail_count = 1 } ∷ [])
unfolding dirty_metrics parse_incremental cut_lines rstrip_cr csv_values read_row timestamp_or_zero
    parse_int strip zip_row append_metric_row update_bucket lower
counted_together = refl

parse_incremental-grown_example :
    parse_incremental as_text 5 none
      (some (file_of (1, 2) (part_1 ++ part_2)))
      (parse_incremental as_text 5 none (some (file_of (1, 2) part_1)) (fresh_state none))
    ≡ at_once
parse_incremental-grown_example =
    parse_incremental-grown as_text 5 none (1, 2) [] part_1 part_2 (fresh_state none) refl refl

at_once-IsConsistent : IsConsistent at_once.tally
at_once-IsConsistent =
    parse-IsConsistent as_text 5 none (some (file_of (1, 2) (part_1 ++ part_2))) (fresh_state none)
      no_rows-IsConsistent

Refreshes-IsConsistent_example : IsConsistent at_once.tally
Refreshes-IsConsistent_example =
    Refreshes-IsConsistent as_text 5 none (fresh_state none) at_once
      (Refreshes.once_more (fresh_state none) (fresh_state none) at_once
        (Refreshes.none_yet (fresh_state none))
        (Refresh.read (some (file_of (1, 2) (part_1 ++ part_2))) (fresh_state none)))
      no_rows-IsConsistent

dirty_metrics_lem_example :
    (metrics : List Metric) × (dirty_metrics none at_once.tally ≡ some metrics)
    × (map (λ m. m.bucket_start_ms) metrics ≡ sort_by leb at_once.tally.dirty_keys)
    × All IsMetric metrics
dirty_metrics_lem_example = dirty_metrics_lem none at_once.tally at_once-IsConsistent
