-- ===== src/CsvSplit.antt =====
-- Slices of a parameter file for the pressure nodes (`_split_csv_lines_for_slaves`,
-- api/app/services/testcase.py). A file is the list of its bytes.
pub mod Slices
use pressure_platform.Prelude.{
  ℕ, zero, suc, ◌-◌, Bool, true, false, ◌&&◌, List, [], ◌∷◌, ◌++◌, map, if◌then◌else◌, ltb, ◌==◌,
  length, is_nil, max,
}
use mathlib.Core.List.{flatten}

abbrev pub Bytes : Type 0
Bytes = List ℕ

abbrev push_byte : ℕ → List Bytes → List Bytes
push_byte c [] = (c ∷ []) ∷ []
push_byte c (l ∷ ls) = (c ∷ l) ∷ ls

-- `bytes.splitlines(keepends=True)`: a line ends after "\n", after "\r\n", or after a lone "\r".
unfoldable pub split_lines : Bytes → List Bytes
split_lines [] = []
split_lines (c ∷ []) = (c ∷ []) ∷ []
split_lines (c ∷ d ∷ rest) =
    let lines = split_lines (d ∷ rest) in
    if c == 10
    then (c ∷ []) ∷ lines
    else if c == 13
    then (if d == 10 then push_byte c lines else (c ∷ []) ∷ lines)
    else push_byte c lines

-- `rows[i::n]`, for `n` at least 1: skip `i` rows, take one, and go on `n - 1` rows later.
unfoldable pub every_nth {ℓ} : {A : Type ℓ} → ℕ → ℕ → List A → List A
every_nth n i [] = []
every_nth n zero (x ∷ xs) = x ∷ every_nth n (n - 1) xs
every_nth n (suc i) (x ∷ xs) = every_nth n i xs

-- `[f(i) for i in range(n)]`, from `i` on.
unfoldable pub tabulate {ℓ} : {A : Type ℓ} → ℕ → ℕ → (ℕ → A) → List A
tabulate i zero f = []
tabulate i (suc n) f = f i ∷ tabulate (suc i) n f

abbrev pub header_of : Bool → List Bytes → Bytes
header_of keep_first_line [] = []
header_of keep_first_line (line ∷ lines) =
    if keep_first_line && ltb 1 (length (line ∷ lines)) then line else []

abbrev rows_of : Bool → List Bytes → List Bytes
rows_of keep_first_line [] = []
rows_of keep_first_line (line ∷ lines) =
    if keep_first_line && ltb 1 (length (line ∷ lines)) then lines else line ∷ lines

-- One slice for each slave; `slave_count` is the number of nodes of the run, at least 1.
unfoldable pub split_csv_lines_for_slaves : Bytes → ℕ → Bool → List Bytes
unfolding split_lines every_nth tabulate
split_csv_lines_for_slaves source slave_count keep_first_line =
    let lines = split_lines source in
    let header = header_of keep_first_line lines in
    let rows = rows_of keep_first_line lines in
    if is_nil lines
    then tabulate 0 (max slave_count 1) (λ _. [])
    else if is_nil rows
    then tabulate 0 (max slave_count 1) (λ _. header)
    else tabulate 0 slave_count (λ i. header ++ flatten (every_nth slave_count i rows))
