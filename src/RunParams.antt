-- ===== src/RunParams.antt =====
-- Checks and shares of the run parameters (api/app/services/testcase.py, lines 665 to 748).
-- Numbers arrive as text. `math.ceil(a / b)` divides floats of 53 bits: the quotient is exact for
-- numbers below 2 ^ 53, rounded above, and an `OverflowError` from 2 ^ 1024 on.
pub mod Validation
use pressure_platform.Prelude.{
  ℕ, zero, suc, ◌+◌, ◌-◌, ◌*◌, ◌/◌, ◌%◌, ◌^◌, ◌==◌, ◌||◌, Bool, true, false, not, ◌&&◌, Option,
  none, some, List, [], ◌∷◌, ◌++◌, if◌then◌else◌, ltb, leb, find,
}
use pressure_platform.Prelude.Text.{Text, codes, text_eq, is_empty, or_else, strip, parse_int, str}
use pressure_platform.Prelude.Int.{ℤ, pos, pos_part, ltb_ℤ}
use pressure_platform.Store.{
  Code, Error, Result, ok, err, and_then, RunParam, ThreadGroupRunOverride,
}

infixl 5 ◌>>=◌ ◌>>◌
abbrev ◌>>=◌ {ℓ κ} : {A : Type ℓ} {B : Type κ} → Result A → (A → Result B) → Result B
m >>= f = and_then m f

abbrev ◌>>◌ {ℓ κ} : {A : Type ℓ} {B : Type κ} → Result A → Result B → Result B
m >> k = m >>= λ _. k

-- `value or ""` on an optional text.
abbrev pub text_of : Option Text → Text
text_of none = []
text_of (some t) = t

abbrev pub number_error : Text → ℕ → Error
number_error field minimum =
    Error.mysterious Code.param_wrong
      (some (field ++ (if ltb 0 minimum then codes "必须是正整数" else codes "必须大于等于 0 的整数")))

-- The second half of `_parse_run_int`, and all of it for a value that is an `int` already.
unfoldable pub check_run_int : ℤ → Text → ℕ → Result ℕ
check_run_int parsed field minimum =
    if ltb_ℤ parsed (pos minimum) then err (number_error field minimum) else ok (pos_part parsed)

-- `_parse_run_int`; `parse_int` strips the text first.
unfoldable pub parse_run_int : Text → Text → ℕ → Result ℕ
unfolding check_run_int
parse_run_int raw field minimum = elim (parse_int raw) [
  | none ↦ err (number_error field minimum)
  | some parsed ↦ check_run_int parsed field minimum
]

abbrev pub is_custom : ThreadGroupRunOverride → Bool
is_custom item = text_eq item.mode (codes "custom")

abbrev override_label : ThreadGroupRunOverride → Text
override_label item = or_else item.name (text_of item.key)

abbrev label_prefix : Text → Text
label_prefix label = if is_empty label then codes "线程组" else codes "线程组「" ++ (label ++ codes "」")

-- `if value not in (None, ""): _parse_run_int(value, …)`
abbrev check_optional : Option Text → Text → ℕ → Result (Unit {0})
check_optional value field minimum =
    if is_empty (text_of value) then ok tt else parse_run_int (text_of value) field minimum >> ok tt

abbrev check_pacing : Option ℤ → Text → Result (Unit {0})
check_pacing none field = ok tt
check_pacing (some z) field = check_run_int z field 0 >> ok tt

-- One round of the loop of `_validate_run_params`.
unfoldable pub validate_override : ThreadGroupRunOverride → Result (Unit {0})
validate_override item =
    let prefix = label_prefix (override_label item) in
    if is_custom item
    then (check_optional item.num_threads (prefix ++ codes "并发数") 1
        >> check_optional item.ramp_time (prefix ++ codes "启动时间") 0
        >> check_pacing item.pacing_ms (prefix ++ codes "Pacing"))
    else ok tt

unfoldable pub validate_overrides : List ThreadGroupRunOverride → Result (Unit {0})
validate_overrides [] = ok tt
validate_overrides (item ∷ items) = validate_override item >> validate_overrides items

-- The totals: concurrency, ramp time and duration.
unfoldable pub validate_run_params :
    Text → Text → Text → List ThreadGroupRunOverride → Result (ℕ × ℕ × ℕ)
validate_run_params num_threads ramp_time duration overrides = do
  parsed_num_threads ← parse_run_int num_threads (codes "并发数") 1
  parsed_ramp_time ← parse_run_int ramp_time (codes "启动时间") 0
  parsed_duration ← parse_run_int duration (codes "运行时间") 1
  validate_overrides overrides
  ok (parsed_num_threads, parsed_ramp_time, parsed_duration)

-- The whole number nearest to `a / b`, of two equally near ones the even one.
abbrev round_div : ℕ → ℕ → ℕ
round_div a b =
    let q = a / b in
    let r = a % b in if ltb (2 * r) b || (2 * r == b && q % 2 == 0) then q else q + 1

-- How often a number is halved until it has 53 bits.
unfoldable pub float_shift : ℕ → ℕ → ℕ
float_shift zero q = 0
float_shift (suc rounds) q =
    let rest = float_shift rounds (q / 2) in if ltb q (2 ^ 53) then 0 else suc rest

-- The float nearest to `a / b`, in units of 2 ^ -53, for `a` not below `b`. After 1100 halvings a
-- number that still has more than 53 bits is past the largest float.
abbrev float_div : ℕ → ℕ → ℕ
float_div a b =
    let unit = 2 ^ float_shift 1100 (a * 2 ^ 53 / b) in round_div (a * 2 ^ 53) (b * unit) * unit

-- `math.ceil(a / b)`, for `b` at least 1. Below 2 ^ 53 the float of a quotient that is not whole
-- lies between the same two whole numbers as the quotient.
unfoldable pub ceil_div : ℕ → ℕ → Result ℕ
unfolding float_shift
ceil_div a b =
    if ltb a (2 ^ 53)
    then ok ((a + b - 1) / b)
    else if ltb a b
    then ok 1
    else if ltb (float_div a b) (2 ^ 1077)
    then ok ((float_div a b + 2 ^ 53 - 1) / 2 ^ 53)
    else err (Error.other (codes "integer division result too large for a float"))

-- One round of the loop of `_prepare_thread_group_overrides`.
unfoldable pub prepare_override : ℕ → ThreadGroupRunOverride → Result ThreadGroupRunOverride
prepare_override slave_count item =
    if is_custom item && (ltb 1 slave_count && not (is_empty (text_of item.num_threads)))
    then (parse_run_int (text_of item.num_threads)
          (codes "线程组「" ++ (override_label item ++ codes "」并发数")) 1
        >>= λ thread_count. ceil_div thread_count slave_count >>= λ share.
            ok (record item { num_threads = some (str share) }))
    else ok item

unfoldable pub prepare_thread_group_overrides :
    List ThreadGroupRunOverride → ℕ → Result (List ThreadGroupRunOverride)
unfolding prepare_override
prepare_thread_group_overrides [] slave_count = ok []
prepare_thread_group_overrides (item ∷ items) slave_count = do
  prepared ← prepare_override slave_count item
  rest ← prepare_thread_group_overrides items slave_count
  ok (prepared ∷ rest)

-- What `list_thread_groups` says of a group, as far as the check reads it.
pub record GroupName : Type 0 where
  pub key : Text
  pub name : Text

-- `groups_by_key.get(key)`: of two groups with one key the later one stands in the dictionary.
abbrev pub group_by_key : List GroupName → Text → Option GroupName
group_by_key [] key = none
group_by_key (g ∷ groups) key = elim (group_by_key groups key) [
  | some later ↦ some later
  | none ↦ if text_eq g.key key then some g else none
]

abbrev expired_error : Text → Error
expired_error what = Error.mysterious Code.fail (some (codes "线程组配置已过期，请重新打开执行配置: " ++ what))

unfoldable pub validate_group : List GroupName → ThreadGroupRunOverride → Result (Unit {0})
validate_group groups item =
    let key = strip (text_of item.key) in
    let name = strip item.name in
    if is_empty key then ok tt else elim (group_by_key groups key) [
      | none ↦ err (expired_error key)
      | some current ↦
          if not (is_empty name) && not (text_eq name current.name)
          then err (expired_error (name ++ (codes " -> " ++ current.name)))
          else ok tt
    ]

unfoldable pub validate_thread_group_overrides :
    List GroupName → List ThreadGroupRunOverride → Result (Unit {0})
unfolding validate_group
validate_thread_group_overrides groups [] = ok tt
validate_thread_group_overrides groups (item ∷ items) =
    validate_group groups item >> validate_thread_group_overrides groups items

-- `int(override.get("pacing_ms") or 0) < 0`
abbrev pub has_negative_pacing : ThreadGroupRunOverride → Bool
has_negative_pacing item = elim item.pacing_ms [ none ↦ false | some z ↦ ltb_ℤ z (pos 0) ]

unfoldable pub validate_thread_group_pacing : List ThreadGroupRunOverride → Result (Unit {0})
validate_thread_group_pacing [] = ok tt
validate_thread_group_pacing (item ∷ items) =
    if has_negative_pacing item
    then err (Error.mysterious Code.fail (some (codes "Pacing 必须大于等于 0: " ++ override_label item)))
    else validate_thread_group_pacing items
