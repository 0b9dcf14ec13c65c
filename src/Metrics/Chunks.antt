-- ===== src/Metrics/Chunks.antt =====
-- Reading a growing file in steps (`_parse_incremental_jtl_metrics`,
-- api/app/services/report_metrics.py).
use pressure_platform.Prelude.{
  ℕ, suc, ◌+◌, ◌≤◌, ◌≡◌, refl, sym, ap, ◌∙◌, false, Option, none, some, List, [], ◌∷◌, ◌++◌, arith,
  ◌==◌, inl, inr, Bool-cases, length, length-append,
}
use mathlib.Core.List.{append_assoc, append-nil}
use pressure_platform.Prelude.Text.{Text}
use pressure_platform.Metrics.Rows.{Bytes, RunMeta}
use pressure_platform.Metrics.{
  Tally, IncrementalMetricState, File, push_head, cut_lines, read_line, read_lines, feed, drop,
  is_replaced, opened, read_on, parse_incremental,
}

-- The lines of one part put before the lines of what follows.
abbrev then_lines : List Bytes × Bytes → Bytes → List Bytes × Bytes
then_lines (lines, rest) b = let (more, last) = cut_lines (rest ++ b) in (lines ++ more, last)

cut_lines-push :
    (c : ℕ) (p : List Bytes × Bytes) (b : Bytes)
    → (c == 10) ≡ false
    → then_lines (push_head c p) b ≡ push_head c (then_lines p b)
unfolding cut_lines
cut_lines-push c ([], rest) b e = rw e refl
cut_lines-push c (line ∷ lines, rest) b e = refl

-- To cut two parts one after the other is to cut them as one text.
cut_lines-append : (a b : Bytes) → cut_lines (a ++ b) ≡ then_lines (cut_lines a) b
unfolding cut_lines
cut_lines-append [] b = refl
cut_lines-append (c ∷ a) b = elim (Bool-cases (c == 10)) [
  | inl e ↦ rw (e, cut_lines-append a b) refl
  | inr e ↦ rw (e, cut_lines-append a b) (sym (cut_lines-push c (cut_lines a) b e))
]

drop-append : (c a : Bytes) → drop (length c) (c ++ a) ≡ a
drop-append [] a = refl
drop-append (x ∷ c) a = drop-append c a

abbrev pub file_of : ℕ × ℕ → Bytes → File
file_of identity content = record { identity = identity; content = content }

-- A file that has grown is not replaced.
is_replaced-longer :
    (known : Option (ℕ × ℕ)) (identity : ℕ × ℕ) (c a b : Bytes) (offset : ℕ)
    → offset ≡ length c
    → is_replaced known (file_of identity (c ++ a)) offset ≡ false
    → is_replaced known (file_of identity (c ++ (a ++ b))) offset ≡ false
is_replaced-longer none identity c a b offset e same = refl
is_replaced-longer (some (dev, ino)) identity c a b offset e same =
    ground (arith, length-append c (a ++ b))

is_replaced-known :
    (known : Option (ℕ × ℕ)) (identity : ℕ × ℕ) (content : Bytes) (offset : ℕ)
    → known ≡ some identity
    → offset ≤ length content
    → is_replaced known (file_of identity content) offset ≡ false
is_replaced-known known identity content offset e le = rw e (ground arith)

module _ (decode : Bytes → Text) (window_sec : ℕ) (run_meta : Option RunMeta) where
  read_lines-append :
      (xs ys : List Bytes) (t : Tally)
      → read_lines decode window_sec run_meta (xs ++ ys) t
        ≡ read_lines decode window_sec run_meta ys (read_lines decode window_sec run_meta xs t)
  unfolding read_lines
  read_lines-append [] ys t = refl
  read_lines-append (x ∷ xs) ys t =
      read_lines-append xs ys (read_line decode window_sec run_meta x t)

  -- Two chunks one after the other are read like one.
  pub feed-append :
      (a b : Bytes) (s : IncrementalMetricState)
      → feed decode window_sec run_meta b (feed decode window_sec run_meta a s)
        ≡ feed decode window_sec run_meta (a ++ b) s
  unfolding feed
  feed-append a b s =
      rw (← append_assoc s.pending_bytes a b, cut_lines-append (s.pending_bytes ++ a) b)
        (rw
          (read_lines-append (cut_lines (s.pending_bytes ++ a)).0
            (cut_lines ((cut_lines (s.pending_bytes ++ a)).1 ++ b)).0 s.tally)
          refl)

  -- What reading on comes to when the offset is the end of what was read before.
  abbrev grown : Bytes → IncrementalMetricState → IncrementalMetricState
  grown [] s = s
  grown (c ∷ a) s =
      feed decode window_sec run_meta (c ∷ a) (record s { offset = s.offset + length (c ∷ a) })

  read_on-append :
      (c a : Bytes) (s : IncrementalMetricState)
      → s.offset ≡ length c
      → read_on decode window_sec run_meta (c ++ a) s ≡ grown a s
  unfolding read_on
  read_on-append c [] s e = rw (e, drop-append c []) refl
  read_on-append c (x ∷ a) s e = rw (e, drop-append c (x ∷ a)) refl

  offset-grown : (a : Bytes) (s : IncrementalMetricState) → (grown a s).offset ≡ s.offset + length a
  unfolding feed
  offset-grown [] s = omega arith
  offset-grown (x ∷ a) s = refl

  identity-grown :
      (a : Bytes) (s : IncrementalMetricState) → (grown a s).file_identity ≡ s.file_identity
  unfolding feed
  identity-grown [] s = refl
  identity-grown (x ∷ a) s = refl

  feed-offset :
      (c : Bytes) (s : IncrementalMetricState) (n : ℕ)
      → feed decode window_sec run_meta c (record s { offset = n })
        ≡ record (feed decode window_sec run_meta c s) { offset = n }
  unfolding feed
  feed-offset c s n = refl

  grown-append : (a b : Bytes) (s : IncrementalMetricState) → grown b (grown a s) ≡ grown (a ++ b) s
  grown-append [] b s = refl
  grown-append (x ∷ a) [] s = rw (append-nil a) refl
  grown-append (x ∷ a) (y ∷ b) s =
      let end = s.offset + suc (length (a ++ (y ∷ b))) in
      let sum : s.offset + suc (length a) + suc (length b) ≡ end =
        omega (arith, length-append a (y ∷ b)) in
      rw (feed-offset (x ∷ a) s (s.offset + suc (length a))) (
        rw sum (
          feed-offset (y ∷ b) (feed decode window_sec run_meta (x ∷ a) s) end
          ∙ ap (λ (t : IncrementalMetricState). record t { offset = end })
              (feed-append (x ∷ a) (y ∷ b) s)
          ∙ sym (feed-offset (x ∷ (a ++ (y ∷ b))) s end)))

  parse-opened :
      (identity : ℕ × ℕ) (c a : Bytes) (s : IncrementalMetricState)
      → s.offset ≡ length c
      → is_replaced s.file_identity (file_of identity (c ++ a)) s.offset ≡ false
      → parse_incremental decode window_sec run_meta (some (file_of identity (c ++ a))) s
        ≡ grown a (record s { file_identity = some identity })
  unfolding parse_incremental opened
  parse-opened identity c a s e same =
      rw same (read_on-append c a (record s { file_identity = some identity }) e)

  parse-known :
      (identity : ℕ × ℕ) (c a : Bytes) (s : IncrementalMetricState)
      → s.offset ≡ length c
      → s.file_identity ≡ some identity
      → parse_incremental decode window_sec run_meta (some (file_of identity (c ++ a))) s
        ≡ grown a s
  parse-known identity c a s e known =
      parse-opened identity c a s e (
        is_replaced-known s.file_identity identity (c ++ a) s.offset known
          (omega (arith, length-append c a)))
      ∙ ap (λ i. grown a (record s { file_identity = i })) (sym known)

  -- Reading a file that has grown by `a` and then by `b` since the state's offset leaves what one
  -- reading of all that leaves, if the state is about that file.
  pub parse_incremental-grown :
      (identity : ℕ × ℕ) (c a b : Bytes) (s : IncrementalMetricState)
      → s.offset ≡ length c
      → is_replaced s.file_identity (file_of identity (c ++ a)) s.offset ≡ false
      → parse_incremental decode window_sec run_meta
          (some (file_of identity (c ++ (a ++ b))))
          (parse_incremental decode window_sec run_meta (some (file_of identity (c ++ a))) s)
        ≡ parse_incremental decode window_sec run_meta (some (file_of identity (c ++ (a ++ b)))) s
  parse_incremental-grown identity c a b s e same =
      let s1 : IncrementalMetricState = record s { file_identity = some identity } in
      let mid = grown a s1 in
      let ends : mid.offset ≡ length (c ++ a) =
        omega (arith, offset-grown a s1, length-append c a) in
      rw (parse-opened identity c a s e same) (
        rw
          (parse-opened identity c (a ++ b) s e
            (is_replaced-longer s.file_identity identity c a b s.offset e same))
          (rw (← append_assoc c a b) (
            rw (parse-known identity (c ++ a) b mid ends (identity-grown a s1))
              (grown-append a b s1))))
