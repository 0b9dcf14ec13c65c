-- ===== src/RunParams/Validation.antt =====
-- What passes the checks of the run parameters (api/app/services/testcase.py).
use pressure_platform.Prelude.{
  ℕ, ◌+◌, ◌*◌, ◌-◌, ◌/◌, ◌^◌, ◌≤◌, ◌<◌, ◌≡◌, refl, ap, ◌↔◌, ◌⊎◌, inl, inr, true, false, some, List,
  [], ◌∷◌, arith, All, Option-cases, Bool-cases, ltb, not, ◌&&◌, ◌++◌,
}
use pressure_platform.Prelude.Text.{
  Text, codes, is_empty, strip, parse_int, str, eq_of_text_eq, text_eq_refl,
}
use pressure_platform.Prelude.Int.{ℤ, pos, negsuc}
use pressure_platform.Store.{ok, Result-cases, ThreadGroupRunOverride}
use pressure_platform.RunParams.{
  label_prefix, override_label, text_of, is_custom, check_run_int, parse_run_int, validate_override,
  validate_overrides, validate_run_params, ceil_div, prepare_override,
  prepare_thread_group_overrides, GroupName, group_by_key, validate_group,
  validate_thread_group_overrides, has_negative_pacing, validate_thread_group_pacing,
}

check_run_int_lem :
    (z : ℤ) (field : Text) (minimum n : ℕ)
    → check_run_int z field minimum ≡ ok n
    → (z ≡ pos n) × (minimum ≤ n)
unfolding check_run_int
check_run_int_lem (pos m) field minimum n h = ground arith
check_run_int_lem (negsuc m) field minimum n h = ground arith

parse_run_int_lem :
    (raw field : Text) (minimum n : ℕ)
    → parse_run_int raw field minimum ≡ ok n
    → (parse_int raw ≡ some (pos n)) × (minimum ≤ n)
unfolding parse_run_int
parse_run_int_lem raw field minimum n h = elim (Option-cases (parse_int raw)) [
  | inl e ↦ cc (rw (e, parse_run_int) at h)
  | inr (z, e) ↦
      let found = check_run_int_lem z field minimum n (rw (e, parse_run_int) at h) in
      (cc (found.0), found.1)
]

-- Accepted run parameters are what the three texts say, and there is at least one thread and one
-- second; every override passed its own check.
pub validate_run_params_sound :
    (num_threads ramp_time duration : Text) (overrides : List ThreadGroupRunOverride) (n r d : ℕ)
    → validate_run_params num_threads ramp_time duration overrides ≡ ok (n, r, d)
    → (parse_int num_threads ≡ some (pos n))
      × (parse_int ramp_time ≡ some (pos r))
      × (parse_int duration ≡ some (pos d))
      × (1 ≤ n)
      × (1 ≤ d)
      × (validate_overrides overrides ≡ ok tt)
unfolding validate_run_params
validate_run_params_sound num_threads ramp_time duration overrides n r d h = ground (
  arith,
  parse_run_int_lem num_threads (codes "并发数") 1 n,
  parse_run_int_lem ramp_time (codes "启动时间") 0 r,
  parse_run_int_lem duration (codes "运行时间") 1 d,
)

-- Below 2 ^ 53 the division is exact: `k` shares hold all threads, and fewer than `k` too many.
ceil_div_exact :
    (n k : ℕ)
    → n < 2 ^ 53
    → 0 < k
    → (share : ℕ) × (ceil_div n k ≡ ok share) × (n ≤ share * k) × (share * k < n + k)
unfolding ceil_div
ceil_div_exact n k small some_node =
    let test : ltb n (2 ^ 53) ≡ true = ground arith in
    ((n + k - 1) / k, rw (ceil_div, test) refl, grind arith, grind arith)

-- What the preparation makes of one override: a custom number of threads becomes the share of one
-- node when several nodes run, which is the least share with which the nodes run all threads, and
-- nothing else changes.
pub data IsShare (slave_count : ℕ) (item out : ThreadGroupRunOverride) : Type 0 where
  kept :
      (is_custom item ≡ false) ⊎ ((slave_count ≤ 1) ⊎ (is_empty (text_of item.num_threads) ≡ true))
      → out ≡ item
      → IsShare slave_count item out
  divided :
      (n share : ℕ)
      → 1 < slave_count
      → parse_int (text_of item.num_threads) ≡ some (pos n)
      → n ≤ share * slave_count
      → share * slave_count < n + slave_count
      → out ≡ record item { num_threads = some (str share) }
      → IsShare slave_count item out

abbrev pub AreShares : ℕ → List ThreadGroupRunOverride → List ThreadGroupRunOverride → Type 0
AreShares k [] [] = Unit
AreShares k [] (_ ∷ _) = ⊥
AreShares k (_ ∷ _) [] = ⊥
AreShares k (item ∷ items) (out ∷ outs) = IsShare k item out × AreShares k items outs

-- The number of threads, if there is one, is one that a float holds exactly.
abbrev pub IsSmall : ThreadGroupRunOverride → Type 0
IsSmall item = (n : ℕ) → parse_int (text_of item.num_threads) ≡ some (pos n) → n < 2 ^ 53

-- A custom override that passed its check has a readable number of threads, or none.
validated_threads :
    (item : ThreadGroupRunOverride)
    → validate_override item ≡ ok tt
    → is_custom item ≡ true
    → is_empty (text_of item.num_threads) ≡ false
    → (n : ℕ) × (parse_int (text_of item.num_threads) ≡ some (pos n)) × (1 ≤ n)
unfolding validate_override
validated_threads item h custom given =
    let field = label_prefix (override_label item) ++ codes "并发数" in
    elim (Result-cases (parse_run_int (text_of item.num_threads) field 1)) [
      | inl (n, e) ↦
          let found = parse_run_int_lem (text_of item.num_threads) field 1 n e in
          (n, found.0, found.1)
      | inr (reason, e) ↦ absurd (ground arith)
    ]

parse_run_int_ok :
    (raw field : Text) (minimum n : ℕ)
    → parse_int raw ≡ some (pos n)
    → minimum ≤ n
    → parse_run_int raw field minimum ≡ ok n
unfolding parse_run_int check_run_int
parse_run_int_ok raw field minimum n e h = rw (parse_run_int, e) (ground arith)

whole :
    (k : ℕ) (item : ThreadGroupRunOverride)
    → (is_custom item && (ltb 1 k && not (is_empty (text_of item.num_threads)))) ≡ false
    → (is_custom item ≡ false) ⊎ ((k ≤ 1) ⊎ (is_empty (text_of item.num_threads) ≡ true))
whole k item h = elim (Bool-cases (is_custom item)) [
  | inr e ↦ inl e
  | inl e ↦ inr (elim (Bool-cases (ltb 1 k)) [
    | inr f ↦ inl (ground (arith, f))
    | inl f ↦ inr (ground (arith, e, f, h))
  ])
]

prepare_override_total :
    (k : ℕ) (item : ThreadGroupRunOverride)
    → IsSmall item
    → validate_override item ≡ ok tt
    → (out : ThreadGroupRunOverride) × (prepare_override k item ≡ ok out) × IsShare k item out
unfolding prepare_override
prepare_override_total k item small h =
    elim (Bool-cases (is_custom item && (ltb 1 k && not (is_empty (text_of item.num_threads))))) [
      | inl e ↦
          let field = codes "线程组「" ++ (override_label item ++ codes "」并发数") in
          let (n, parsed, some_thread) = validated_threads item h (ground arith) (ground arith) in
          let several : 1 < k = ground arith in
          let (share, divides, enough, spare) =
            ceil_div_exact n k (small n parsed) (omega (arith, several)) in
          (
            record item { num_threads = some (str share) },
            rw (
              e,
              parse_run_int_ok (text_of item.num_threads) field 1 n parsed some_thread,
              divides,
            ),
            IsShare.divided n share several parsed enough spare refl,
          )
      | inr e ↦ (item, rw e, IsShare.kept (whole k item e) refl)
    ]

prepare_thread_group_overrides_total :
    (k : ℕ) (items : List ThreadGroupRunOverride)
    → All IsSmall items
    → validate_overrides items ≡ ok tt
    → (outs : List ThreadGroupRunOverride) × (prepare_thread_group_overrides items k ≡ ok outs)
      × AreShares k items outs
unfolding validate_overrides prepare_thread_group_overrides
prepare_thread_group_overrides_total k [] small h = ([], refl, tt)
prepare_thread_group_overrides_total k (item ∷ items) small h =
    let (out, made, share) = prepare_override_total k item small.0 (ground (arith, h)) in
    let (outs, rest, shares) =
      prepare_thread_group_overrides_total k items small.1 (ground (arith, h)) in
    (out ∷ outs, rw (made, rest), (share, shares))

validated_pacing :
    (item : ThreadGroupRunOverride)
    → validate_override item ≡ ok tt
    → is_custom item ≡ true
    → has_negative_pacing item ≡ false
unfolding validate_override check_run_int
validated_pacing item h custom = ground arith

share_pacing :
    {k : ℕ} {item out : ThreadGroupRunOverride}
    → IsShare k item out
    → has_negative_pacing out ≡ has_negative_pacing item
share_pacing (kept reason e) = ap has_negative_pacing e
share_pacing (divided n share several parsed enough spare e) = ap has_negative_pacing e

shares_pacing :
    (k : ℕ) (items outs : List ThreadGroupRunOverride)
    → All (λ item. is_custom item ≡ true) items
    → validate_overrides items ≡ ok tt
    → AreShares k items outs
    → validate_thread_group_pacing outs ≡ ok tt
unfolding validate_overrides validate_thread_group_pacing
shares_pacing k [] [] custom h shares = refl
shares_pacing k [] (out ∷ outs) custom h shares = absurd shares
shares_pacing k (item ∷ items) [] custom h shares = absurd shares
shares_pacing k (item ∷ items) (out ∷ outs) custom h shares =
    ground
      (arith, validated_pacing item, share_pacing shares.0, shares_pacing k items outs custom.1)

-- Custom overrides that pass the first check, with numbers of threads below 2 ^ 53, are not refused
-- later by their numbers: the preparation for any number of nodes returns their shares, each the
-- least with which the nodes run all threads, and the pacing check accepts those.
pub validate_overrides_suffices :
    (k : ℕ) (items : List ThreadGroupRunOverride)
    → All (λ item. is_custom item ≡ true) items
    → All IsSmall items
    → validate_overrides items ≡ ok tt
    → (outs : List ThreadGroupRunOverride) × (prepare_thread_group_overrides items k ≡ ok outs)
      × AreShares k items outs
      × (validate_thread_group_pacing outs ≡ ok tt)
validate_overrides_suffices k items custom small h =
    let (outs, made, shares) = prepare_thread_group_overrides_total k items small h in
    (outs, made, shares, shares_pacing k items outs custom h shares)

-- The override names no group, or a group of the script that still has the name it was given.
pub data IsCurrent (groups : List GroupName) (item : ThreadGroupRunOverride) : Type 0 where
  unnamed : is_empty (strip (text_of item.key)) ≡ true → IsCurrent groups item
  same :
      (g : GroupName)
      → group_by_key groups (strip (text_of item.key)) ≡ some g
      → (is_empty (strip item.name) ≡ true) ⊎ (strip item.name ≡ g.name)
      → IsCurrent groups item

validate_group_sound :
    (groups : List GroupName) (item : ThreadGroupRunOverride)
    → validate_group groups item ≡ ok tt
    → IsCurrent groups item
unfolding validate_group
validate_group_sound groups item h = elim (Bool-cases (is_empty (strip (text_of item.key)))) [
  | inl e ↦ unnamed e
  | inr e ↦ elim (Option-cases (group_by_key groups (strip (text_of item.key)))) [
    | inl missing ↦ absurd (ground arith)
    | inr (g, found) ↦ same g found (elim (Bool-cases (is_empty (strip item.name))) [
      | inl bare ↦ inl bare
      | inr named ↦ inr (eq_of_text_eq _ _ (ground arith))
    ])
  ]
]

validate_group_complete :
    (groups : List GroupName) (item : ThreadGroupRunOverride)
    → IsCurrent groups item
    → validate_group groups item ≡ ok tt
unfolding validate_group
validate_group_complete groups item (unnamed e) = rw e
validate_group_complete groups item (same g found named) = ground (arith, text_eq_refl g.name)

-- The overrides are accepted exactly if each of them is current: its key is blank, or belongs to a
-- group of the script whose name is the override's, unless the override has no name.
pub validate_thread_group_overrides_iff :
    (groups : List GroupName) (items : List ThreadGroupRunOverride)
    → (validate_thread_group_overrides groups items ≡ ok tt) ↔ All (IsCurrent groups) items
unfolding validate_thread_group_overrides
validate_thread_group_overrides_iff groups [] = ((λ _. tt), (λ _. refl))
validate_thread_group_overrides_iff groups (item ∷ items) = (
  (λ h. (
    validate_group_sound groups item (ground arith),
    (validate_thread_group_overrides_iff groups items).0 (
        rw (validate_group_complete groups item (validate_group_sound groups item (ground arith)))
          at h),
  )),
  (λ all.
      rw (validate_group_complete groups item all.0)
        ((validate_thread_group_overrides_iff groups items).1 all.1)),
)
