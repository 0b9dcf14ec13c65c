-- ===== src/CsvSplit/Slices.antt =====
-- The rows and the bytes of a parameter file in its slices
-- (`_split_csv_lines_for_slaves`, api/app/services/testcase.py).
use pressure_platform.Prelude.{
  ℕ, zero, suc, ◌+◌, ◌-◌, ◌*◌, ◌≤◌, ◌<◌, ◌≡◌, refl, ap, ◌∙◌, Bool, true, false, some, ◌⊎◌, List, [],
  ◌∷◌, ◌++◌, arith, length, get_elem?, max, is_nil-eq-nil, is_nil, Bool-cases, inl, inr,
}
use mathlib.Core.List.{flatten}
use pressure_platform.CsvSplit.{
  Bytes, push_byte, split_lines, every_nth, tabulate, header_of, rows_of,
  split_csv_lines_for_slaves,
}

flatten-push_byte : (c : ℕ) (ls : List Bytes) → flatten (push_byte c ls) ≡ c ∷ flatten ls
unfolding flatten
flatten-push_byte c [] = refl
flatten-push_byte c (l ∷ ls) = refl

-- The lines with their ends, one after the other, are the file.
pub flatten-split_lines : (bytes : Bytes) → flatten (split_lines bytes) ≡ bytes
unfolding split_lines flatten
flatten-split_lines [] = refl
flatten-split_lines (c ∷ []) = refl
flatten-split_lines (c ∷ d ∷ rest) =
    ground (arith, flatten-split_lines (d ∷ rest), flatten-push_byte c (split_lines (d ∷ rest)))

module _ {ℓ} {A : Type ℓ} where
  get_elem?-every_nth :
      (n i j k : ℕ) (xs : List A)
      → 0 < n
      → k ≡ i + n * j
      → get_elem? (every_nth n i xs) j ≡ get_elem? xs k
  unfolding every_nth
  get_elem?-every_nth n i j k [] pos e = refl
  get_elem?-every_nth n zero zero zero (x ∷ xs) pos e = refl
  get_elem?-every_nth n zero zero (suc k) (x ∷ xs) pos e = absurd (omega arith)
  get_elem?-every_nth n zero (suc j) zero (x ∷ xs) pos e = absurd (omega arith)
  get_elem?-every_nth n zero (suc j) (suc k) (x ∷ xs) pos e =
      get_elem?-every_nth n (n - 1) j k xs pos (omega arith)
  get_elem?-every_nth n (suc i) j zero (x ∷ xs) pos e = absurd (omega arith)
  get_elem?-every_nth n (suc i) j (suc k) (x ∷ xs) pos e =
      get_elem?-every_nth n i j k xs pos (omega arith)

  length-every_nth_bounds :
      (n i : ℕ) (xs : List A)
      → i < n
      → (length xs ≤ i + n * length (every_nth n i xs))
        × (n * length (every_nth n i xs) + i < length xs + n)
  unfolding every_nth
  length-every_nth_bounds n i [] h = omega arith
  length-every_nth_bounds n zero (x ∷ xs) h =
      omega (arith, length-every_nth_bounds n (n - 1) xs (omega arith))
  length-every_nth_bounds n (suc i) (x ∷ xs) h =
      omega (arith, length-every_nth_bounds n i xs (omega arith))

times_lt : (n a b : ℕ) → a < b → n * a + n ≤ n * b
times_lt n a b h = grind arith

-- The arithmetic of two slices of `len` rows, with `a` and `b` rows.
no_more :
    (len n i j a b : ℕ)
    → i ≤ j
    → j < n
    → (len ≤ i + n * a) × (n * a + i < len + n)
    → (len ≤ j + n * b) × (n * b + j < len + n)
    → (b ≤ a) × (a ≤ b + 1)
no_more len n i j a b h lt p q =
    (grind (arith, times_lt n a b), grind (arith, times_lt n (b + 1) a))

-- Two slices of `n` differ by one row at most, the earlier one having the more.
pub every_nth_even :
    (n i j : ℕ) (rows : List Bytes)
    → i ≤ j
    → j < n
    → (length (every_nth n j rows) ≤ length (every_nth n i rows))
      × (length (every_nth n i rows) ≤ length (every_nth n j rows) + 1)
every_nth_even n i j rows h lt =
    no_more (length rows) n i j (length (every_nth n i rows)) (length (every_nth n j rows)) h lt
      (length-every_nth_bounds n i rows (omega arith)) (length-every_nth_bounds n j rows lt)

module _ {A : Type 0} (f : ℕ → A) where
  length-tabulate : (i n : ℕ) → length (tabulate i n f) ≡ n
  unfolding tabulate
  length-tabulate i zero = refl
  length-tabulate i (suc n) = ap suc (length-tabulate (suc i) n)

  get_elem?-tabulate : (i n k : ℕ) → k < n → get_elem? (tabulate i n f) k ≡ some (f (i + k))
  unfolding tabulate
  get_elem?-tabulate i zero k h = absurd (omega (arith, h))
  get_elem?-tabulate i (suc n) zero h = ground arith
  get_elem?-tabulate i (suc n) (suc k) h =
      ground (arith, get_elem?-tabulate (suc i) n k (omega (arith, h)))

  get_elem?-tabulate_from_zero : (n k : ℕ) → k < n → get_elem? (tabulate 0 n f) k ≡ some (f k)
  get_elem?-tabulate_from_zero n k h =
      get_elem?-tabulate 0 n k h ∙ ap (λ i. some (f i)) (omega arith)

-- The header and the rows of a file of these lines: the first line is a header if it is to be kept
-- and is not the only one.
pub data IsCut (keep_first_line : Bool) (lines : List Bytes) (header : Bytes) (rows : List Bytes)
    : Type 0 where
  plain :
      (keep_first_line ≡ false) ⊎ (length lines ≤ 1)
      → header ≡ []
      → rows ≡ lines
      → IsCut keep_first_line lines header rows
  headed :
      keep_first_line ≡ true
      → 1 < length lines
      → lines ≡ header ∷ rows
      → IsCut keep_first_line lines header rows

-- `n` slices that begin with the header; row `j` of slice `i` is row `i + n * j` of the file, and a
-- slice has no row where the file has none. Of two slices the earlier one has as many rows as the
-- later one, or one more.
pub record IsDealt (n : ℕ) (header : Bytes) (rows slices : List Bytes) : Type 0 where
  pub dealt : ℕ → List Bytes
  pub count : length slices ≡ n
  pub slice : (i : ℕ) → i < n → get_elem? slices i ≡ some (header ++ flatten (dealt i))
  pub row : (i j : ℕ) → i < n → get_elem? (dealt i) j ≡ get_elem? rows (i + n * j)
  pub even :
      (i j : ℕ)
      → i ≤ j
      → j < n
      → (length (dealt j) ≤ length (dealt i)) × (length (dealt i) ≤ length (dealt j) + 1)

rows_of-IsCut :
    (keep_first_line : Bool) (lines : List Bytes)
    → IsCut keep_first_line lines (header_of keep_first_line lines) (rows_of keep_first_line lines)
rows_of-IsCut keep_first_line [] = IsCut.plain (inr (omega arith)) refl refl
rows_of-IsCut false (line ∷ lines) = IsCut.plain (inl refl) refl refl
rows_of-IsCut true (line ∷ []) = IsCut.plain (inr (omega arith)) refl refl
rows_of-IsCut true (line ∷ next ∷ lines) = IsCut.headed refl (omega arith) (ground arith)

IsCut-flatten :
    (keep_first_line : Bool) (lines : List Bytes) (header : Bytes) (rows : List Bytes)
    → IsCut keep_first_line lines header rows
    → header ++ flatten rows ≡ flatten lines
unfolding flatten
IsCut-flatten keep_first_line lines header rows (plain reason none same) = rw (none, same) refl
IsCut-flatten keep_first_line lines header rows (headed kept several same) = rw same refl

every_nth-IsDealt :
    (n : ℕ) (header : Bytes) (rows : List Bytes)
    → 0 < n
    → IsDealt n header rows (tabulate 0 n (λ i. header ++ flatten (every_nth n i rows)))
every_nth-IsDealt n header rows pos =
    let f = λ (i : ℕ). header ++ flatten (every_nth n i rows) in
    record {
      dealt = λ i. every_nth n i rows;
      count = length-tabulate f 0 n;
      slice = λ i h. get_elem?-tabulate_from_zero f n i h;
      row = λ i j h. get_elem?-every_nth n i j (i + n * j) rows pos refl;
      even = λ i j h lt. every_nth_even n i j rows h lt;
    }

no_rows-IsDealt :
    (n : ℕ) → 0 < n → IsDealt n [] [] (tabulate 0 (max n 1) (λ _. let none : Bytes = [] in none))
unfolding flatten
no_rows-IsDealt n pos =
    let same : max n 1 ≡ n = omega (arith, pos) in
    rw same (record {
      dealt = λ _. [];
      count = length-tabulate _ 0 n;
      slice = λ i h. get_elem?-tabulate_from_zero _ n i h;
      row = λ i j h. refl;
      even = λ i j h lt. (omega arith, omega arith);
    })

rows-nil :
    (keep_first_line : Bool) (lines : List Bytes)
    → is_nil lines ≡ false
    → is_nil (rows_of keep_first_line lines) ≡ false
rows-nil keep_first_line [] h = ground arith
rows-nil keep_first_line (line ∷ lines) h = ground arith

-- For one node or more, the file is a header, if its first line is kept as one, and rows, and the
-- nodes are dealt the rows in turn: each slice is the header and the rows of one node, in the order
-- of the file, so each row stands in exactly one slice.
pub split_csv_lines_for_slaves-IsDealt :
    (source : Bytes) (slave_count : ℕ) (keep_first_line : Bool)
    → 0 < slave_count
    → (header : Bytes) × (rows : List Bytes) × IsCut keep_first_line
        (split_lines source)
        header
        rows
      × (header ++ flatten rows ≡ source)
      × IsDealt slave_count header rows
          (split_csv_lines_for_slaves source slave_count keep_first_line)
unfolding split_csv_lines_for_slaves
split_csv_lines_for_slaves-IsDealt source n keep_first_line pos =
    let lines = split_lines source in
    let header = header_of keep_first_line lines in
    let rows = rows_of keep_first_line lines in
    let cut = rows_of-IsCut keep_first_line lines in
    (
      header,
      rows,
      cut,
      IsCut-flatten keep_first_line lines header rows cut ∙ flatten-split_lines source,
      elim (Bool-cases (is_nil lines)) [
        | inl e ↦ let none = is_nil-eq-nil lines e in rw (e, none) (no_rows-IsDealt n pos)
        | inr e ↦ rw (e, rows-nil keep_first_line lines e) (every_nth-IsDealt n header rows pos)
      ],
    )
