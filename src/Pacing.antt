-- ===== src/Pacing.antt =====
-- Pacing timers (api/app/core/jmeter_pacing.py): a timer at the start of the scope of each thread
-- group that an override gives a pacing. The Groovy text of the timers, one constant of the source,
-- is the argument `script`.
pub mod Absent
use pressure_platform.Prelude.{
  ℕ, zero, suc, ◌+◌, ◌==◌, Bool, true, false, not, ◌&&◌, Option, none, some, List, [], ◌∷◌, ◌++◌,
  ◌≡◌, refl, All, if◌then◌else◌, arith, Bool-cases, inl, inr,
}
use pressure_platform.Prelude.Text.{Text, codes, text_eq, is_empty, or_else, str}
use pressure_platform.Prelude.Int.{ℤ, pos, negsuc, pos_part}
use pressure_platform.Store.{ThreadGroupRunOverride}
use pressure_platform.ThreadGroups.{
  Attrs, Element, Elements, element, no_more, more, attr_text, is_enabled, thread_group_type,
  GroupType, override_key, or_override, key_of, next_index,
}

-- `as_bool(item.get("enabled", True))`: the dictionary comes from `model_dump`, so the key is always
-- there, and an absent value is `None`, which reads as false.
abbrev pub counts_as_enabled : ThreadGroupRunOverride → Bool
counts_as_enabled item = elim item.enabled [ none ↦ false | some on ↦ on ]

abbrev is_configured : ThreadGroupRunOverride → Bool
is_configured item =
    not (is_empty (override_key item))
    && (counts_as_enabled item && not (text_eq item.mode (codes "fixed")))

-- `_transaction_config_by_key(items).get(key)`
unfoldable pub get_config : List ThreadGroupRunOverride → Text → Option ThreadGroupRunOverride
get_config [] key = none
get_config (item ∷ items) key = elim (get_config items key) [
  | some later ↦ some later
  | none ↦ if is_configured item && text_eq (override_key item) key then some item else none
]

-- `int(override.get("pacing_ms") or 0)`, and zero in place of a negative number.
abbrev pub pacing_of : ThreadGroupRunOverride → ℕ
pacing_of item = elim item.pacing_ms [ none ↦ 0 | some z ↦ pos_part z ]

abbrev string_prop : Text → Text → Element
string_prop name text = element (codes "stringProp") ((codes "name", name) ∷ []) (some text) no_more

-- `_jsr223_cycle_timer`
unfoldable pub cycle_timer : Text → Text → ℕ → Element
cycle_timer script name pacing_ms =
    element (codes "JSR223Timer")
      ((codes "guiclass", codes "TestBeanGUI")
        ∷ (codes "testclass", codes "JSR223Timer")
        ∷ (codes "testname", codes "平台Pacing_" ++ name)
        ∷ (codes "enabled", codes "true")
        ∷ [])
      none
      (more (string_prop (codes "cacheKey") (codes "true")) (
        more (string_prop (codes "filename") []) (
          more (string_prop (codes "parameters") (str pacing_ms)) (
            more (string_prop (codes "script") script)
              (more (string_prop (codes "scriptLanguage") (codes "groovy")) no_more)))))

-- `_insert_timer_at_scope_start`
abbrev pub insert_timer : Element → Elements → Elements
insert_timer timer children =
    more timer (more (element (codes "hashTree") [] none no_more) children)

-- The timer that the override of a group puts into the group's scope, if any.
abbrev group_timer : Text → Option ThreadGroupRunOverride → Attrs → Elements → Elements
group_timer script none attrs scope = scope
group_timer script (some item) attrs scope =
    let name = attr_text (codes "testname") attrs in
    if text_eq (or_else item.name name) name
    then if is_enabled attrs && not (pacing_of item == 0)
      then insert_timer (cycle_timer script (or_else name (codes "未命名线程组")) (pacing_of item)) scope
      else scope
    else scope

-- The scope of a node, which is a group's or not.
abbrev pub paced :
    Text → List ThreadGroupRunOverride → ℕ → Text → Attrs → Option GroupType → Elements → Elements
paced script overrides index tag attrs none scope = scope
paced script overrides index tag attrs (some t) scope =
    group_timer script
      (or_override (get_config overrides (key_of (some t) index))
        (get_config overrides (attr_text (codes "testname") attrs)))
      attrs scope

-- The walk of `apply_thread_group_pacing` over the pairs of a hash tree (`pairs_in_hash_tree`,
-- `walk_jmeter_pairs`): a node and the hash tree behind it, if one is. A timer that is put in first
-- is no group and has nothing below it, so the walk of a scope does not see it.
unfoldable pub pace_pairs : Text → List ThreadGroupRunOverride → ℕ → Elements → ℕ × Elements
pace_pairs script overrides index no_more = (index, no_more)
pace_pairs script overrides index (more (element tag attrs text children) no_more) =
    (next_index (thread_group_type tag attrs) index, more (element tag attrs text children) no_more)
pace_pairs script overrides index
      (more
        (element tag attrs text children)
        (more (element scope_tag scope_attrs scope_text scope) rest)) =
    let group = thread_group_type tag attrs in
    let (inner, below) = pace_pairs script overrides (next_index group index) scope in
    let (last, behind) = pace_pairs script overrides inner rest in
    let (last_alone, alone) =
      pace_pairs script overrides (next_index group index)
        (more (element scope_tag scope_attrs scope_text scope) rest) in
    if text_eq scope_tag (codes "hashTree")
    then (
      last,
      more (element tag attrs text children) (
          more
            (element scope_tag scope_attrs scope_text
              (paced script overrides index tag attrs group below))
            behind),
    )
    else (last_alone, more (element tag attrs text children) alone)

-- `tree.getroot().find("hashTree")`: the first such child is walked.
abbrev pub pace_first : Text → List ThreadGroupRunOverride → Elements → Elements
pace_first script overrides no_more = no_more
pace_first script overrides (more (element tag attrs text children) rest) =
    let others = pace_first script overrides rest in
    if text_eq tag (codes "hashTree")
    then more (element tag attrs text (pace_pairs script overrides 0 children).1) rest
    else more (element tag attrs text children) others

unfoldable pub apply_thread_group_pacing : Text → List ThreadGroupRunOverride → Element → Element
apply_thread_group_pacing script overrides (element tag attrs text children) =
    element tag attrs text (pace_first script overrides children)
