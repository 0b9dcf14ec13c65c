-- ===== src/Tests/Params.antt =====
-- Run parameters and parameter files on concrete inputs (api/app/services/testcase.py).
use pressure_platform.Prelude.{
  ℕ, ◌++◌, ◌≡◌, ◌≤◌, ◌↔◌, refl, true, none, some, List, [], ◌∷◌, arith, All, ◌+◌, ◌^◌,
}
use mathlib.Core.List.{flatten}
use pressure_platform.Prelude.Text.{codes, parse_int, strip}
use pressure_platform.Prelude.Int.{pos}
use pressure_platform.Store.{ThreadGroupRunOverride, Error, ok, err}
use pressure_platform.RunParams.{
  parse_run_int, check_run_int, validate_override, validate_overrides, validate_run_params,
  float_shift, ceil_div, prepare_thread_group_overrides, GroupName, validate_thread_group_overrides,
  validate_thread_group_pacing,
}
use pressure_platform.RunParams.Validation.{
  validate_run_params_sound, IsSmall, AreShares, validate_overrides_suffices, IsCurrent,
  validate_thread_group_overrides_iff,
}
use pressure_platform.CsvSplit.{split_lines, every_nth, tabulate, split_csv_lines_for_slaves}
use pressure_platform.CsvSplit.Slices.{
  flatten-split_lines, IsCut, IsDealt, split_csv_lines_for_slaves-IsDealt,
}

-- An override with seven threads.
abbrev seven : ThreadGroupRunOverride
seven = record {
  key = some (codes "thread_group:0");
  name = codes "g";
  enabled = none;
  mode = codes "custom";
  num_threads = some (codes "7");
  ramp_time = none;
  pacing_ms = some (pos 20);
}

validate_run_params_sound_example :
    (parse_int (codes "10") ≡ some (pos 10))
    × (parse_int (codes " 0 ") ≡ some (pos 0))
    × (parse_int (codes "60") ≡ some (pos 60))
    × (1 ≤ 10)
    × (1 ≤ 60)
    × (validate_overrides (seven ∷ []) ≡ ok tt)
unfolding validate_run_params validate_overrides validate_override parse_run_int check_run_int
    parse_int strip
validate_run_params_sound_example =
    validate_run_params_sound (codes "10") (codes " 0 ") (codes "60") (seven ∷ []) 10 0 60 refl

-- Above 2 ^ 53 a share may be too small, and a number of 401 digits is no float at all.
inexact_share : ceil_div (2 ^ 55 + 1) 2 ≡ ok (2 ^ 54)
unfolding ceil_div float_shift
inexact_share = refl

exact_share : ceil_div (2 ^ 53 + 2) 3 ≡ ok 3002399751580332
unfolding ceil_div float_shift
exact_share = refl

no_float :
    ceil_div (10 ^ 400) 2
    ≡ err (Error.other (codes "integer division result too large for a float"))
unfolding ceil_div float_shift
no_float = refl

seven-IsSmall : All IsSmall (seven ∷ [])
unfolding parse_int strip
seven-IsSmall = ((λ n h. let same : 7 ≡ n = ground (arith, h) in omega (arith, same)), tt)

validate_overrides_suffices_example :
    (outs : List ThreadGroupRunOverride) × (prepare_thread_group_overrides (seven ∷ []) 3 ≡ ok outs)
    × AreShares 3 (seven ∷ []) outs
    × (validate_thread_group_pacing outs ≡ ok tt)
unfolding validate_overrides validate_override parse_run_int check_run_int parse_int strip
validate_overrides_suffices_example =
    validate_overrides_suffices 3 (seven ∷ []) (refl, tt) seven-IsSmall refl

abbrev group : GroupName
group = record { key = codes "thread_group:0"; name = codes "g" }

validate_thread_group_overrides_iff_example :
    (validate_thread_group_overrides (group ∷ []) (seven ∷ []) ≡ ok tt)
    ↔ All (IsCurrent (group ∷ [])) (seven ∷ [])
validate_thread_group_overrides_iff_example =
    validate_thread_group_overrides_iff (group ∷ []) (seven ∷ [])

-- Three lines of one byte and a line end.
abbrev file : List ℕ
file = 97 ∷ 10 ∷ 98 ∷ 10 ∷ 99 ∷ 10 ∷ []

flatten-split_lines_example : flatten (split_lines file) ≡ file
flatten-split_lines_example = flatten-split_lines file

two_slices :
    split_csv_lines_for_slaves file 2 true
    ≡ (97 ∷ 10 ∷ 98 ∷ 10 ∷ []) ∷ (97 ∷ 10 ∷ 99 ∷ 10 ∷ []) ∷ []
unfolding split_csv_lines_for_slaves flatten split_lines every_nth tabulate
two_slices = refl

split_csv_lines_for_slaves-IsDealt_example :
    (header : List ℕ) × (rows : List (List ℕ)) × IsCut true (split_lines file) header rows
    × (header ++ flatten rows ≡ file)
    × IsDealt 2 header rows (split_csv_lines_for_slaves file 2 true)
split_csv_lines_for_slaves-IsDealt_example =
    split_csv_lines_for_slaves-IsDealt file 2 true (omega arith)
