-- ===== src/ThreadGroups.antt =====
-- Thread groups of a JMeter script (api/app/core/jmeter_thread_groups.py). Reading and writing
-- the file is left out.
mod Script
pub mod Keys
pub mod Props
pub mod Overrides
pub mod Values
unfoldable pub use Script.*
use pressure_platform.Prelude.{
  ℕ, zero, suc, ◌+◌, Bool, true, false, not, ◌&&◌, ◌||◌, Option, none, some, List, [], ◌∷◌, ◌++◌,
  length, if◌then◌else◌, ◌==◌, any,
}
use pressure_platform.Prelude.Text.{Text, codes, text_eq, is_empty, or_else, strip, lower, str}
use pressure_platform.Store.{ThreadGroupRunOverride}
use pressure_platform.RunParams.{text_of, is_custom}

pub data GroupType : Type 0 where
  thread_group stepping_thread_group concurrency_thread_group : GroupType

abbrev pub type_name : GroupType → Text
type_name GroupType.thread_group = codes "thread_group"
type_name GroupType.stepping_thread_group = codes "stepping_thread_group"
type_name GroupType.concurrency_thread_group = codes "concurrency_thread_group"

abbrev pub stepping_tg : Text
stepping_tg = codes "kg.apc.jmeter.threads.SteppingThreadGroup"

abbrev pub concurrency_tg : Text
concurrency_tg = codes "com.blazemeter.jmeter.threads.concurrency.ConcurrencyThreadGroup"

-- `el.get(key) or ""`
abbrev pub attr_text : Text → Attrs → Text
attr_text key attrs = text_of (get_attr key attrs)

unfoldable pub thread_group_type : Text → Attrs → Option GroupType
thread_group_type tag attrs =
    if text_eq tag (codes "ThreadGroup")
      && text_eq (attr_text (codes "testclass") attrs) (codes "ThreadGroup")
    then some GroupType.thread_group
    else if text_eq tag stepping_tg
    then some GroupType.stepping_thread_group
    else if text_eq tag concurrency_tg
    then some GroupType.concurrency_thread_group
    else none

-- The key of `thread_group_key`.
abbrev pub group_key : GroupType → ℕ → Text
group_key t index = type_name t ++ (58 ∷ str index)

-- What `list_thread_groups` says of a group, up to the settings that it shows.
pub record ThreadGroup : Type 0 where
  pub key : Text
  pub name : Text
  pub type : GroupType
  pub enabled : Bool

abbrev pub group_of : ℕ → Option GroupType → Text → Bool → List ThreadGroup
group_of index none name enabled = []
group_of index (some t) name enabled =
    record { key = group_key t index; name = name; type = t; enabled = enabled } ∷ []

abbrev pub own_group : ℕ → Text → Attrs → List ThreadGroup
own_group index tag attrs =
    group_of index (thread_group_type tag attrs) (attr_text (codes "testname") attrs)
      (is_enabled attrs)

-- `list_thread_groups`: in document order, numbered by the groups found before, `index` of them.
unfoldable mutual
  pub list_thread_groups : ℕ → Element → List ThreadGroup
  list_thread_groups index (element tag attrs text children) =
      let own = own_group index tag attrs in
      own ++ list_thread_groups_all (index + length own) children

  pub list_thread_groups_all : ℕ → Elements → List ThreadGroup
  list_thread_groups_all index no_more = []
  list_thread_groups_all index (more e es) =
      let own = list_thread_groups index e in own ++ list_thread_groups_all (index + length own) es

-- `_override_key`
abbrev pub override_key : ThreadGroupRunOverride → Text
override_key item = strip (or_else (text_of item.key) item.name)

-- `_override_by_key(items).get(key)`: no entry stands under the empty key, and of two items with one
-- key the later one stands in the dictionary.
unfoldable pub get_override : List ThreadGroupRunOverride → Text → Option ThreadGroupRunOverride
get_override [] key = none
get_override (item ∷ items) key = elim (get_override items key) [
  | some later ↦ some later
  | none ↦
      if not (is_empty (override_key item)) && text_eq (override_key item) key
      then some item
      else none
]

abbrev pub or_override :
    Option ThreadGroupRunOverride → Option ThreadGroupRunOverride → Option ThreadGroupRunOverride
or_override none other = other
or_override (some item) other = some item

-- What a run sets: the number of threads, the ramp time, the duration and the overrides.
pub record RunSettings : Type 0 where
  pub num_threads : Text
  pub ramp_time : Text
  pub duration : Text
  pub overrides : List ThreadGroupRunOverride

-- `_resolve_thread_values`
abbrev pub threads_of : RunSettings → Option ThreadGroupRunOverride → Text
threads_of s none = s.num_threads
threads_of s (some item) =
    if is_custom item then or_else (text_of item.num_threads) s.num_threads else s.num_threads

abbrev pub ramp_of : RunSettings → Option ThreadGroupRunOverride → Text
ramp_of s none = s.ramp_time
ramp_of s (some item) =
    if is_custom item then or_else (text_of item.ramp_time) s.ramp_time else s.ramp_time

-- The properties that a run writes into a group of each type.
unfoldable pub run_props : GroupType → Text → Text → Text → Attrs
run_props GroupType.thread_group n r d =
    (codes "LoopController.continue_forever", codes "true")
    ∷ (codes "LoopController.loops", codes "-1")
    ∷ (codes "ThreadGroup.num_threads", n)
    ∷ (codes "ThreadGroup.ramp_time", r)
    ∷ (codes "ThreadGroup.duration", d)
    ∷ (codes "ThreadGroup.scheduler", codes "true")
    ∷ []
run_props GroupType.stepping_thread_group n r d =
    (codes "ThreadGroup.num_threads", n)
    ∷ (codes "Threads initial delay", codes "0")
    ∷ (codes "Start users count burst", codes "0")
    ∷ (codes "Start users count", codes "1")
    ∷ (codes "Start users period", r)
    ∷ (codes "flighttime", d)
    ∷ (codes "rampUp", codes "1")
    ∷ []
run_props GroupType.concurrency_thread_group n r d =
    (codes "TargetLevel", n) ∷ (codes "RampUp", r) ∷ (codes "Hold", d) ∷ []

abbrev pub key_of : Option GroupType → ℕ → Text
key_of none index = []
key_of (some t) index = group_key t index

-- `overrides.get(key) or overrides.get(testname)`
abbrev pub override_of : RunSettings → ℕ → Text → Attrs → Option ThreadGroupRunOverride
override_of s index tag attrs =
    or_override (get_override s.overrides (key_of (thread_group_type tag attrs) index))
      (get_override s.overrides (attr_text (codes "testname") attrs))

-- `el.set("enabled", …)` where the override says so.
abbrev pub switched : Option ThreadGroupRunOverride → Attrs → Attrs
switched none attrs = attrs
switched (some item) attrs = elim item.enabled [
  | none ↦ attrs
  | some on ↦ set_attr (codes "enabled") (if on then codes "true" else codes "false") attrs
]

abbrev pub is_fixed : Option ThreadGroupRunOverride → Bool
is_fixed none = false
is_fixed (some item) = text_eq item.mode (codes "fixed")

-- The properties that the element makes the loop set on itself and all below it.
abbrev pub props_of : RunSettings → Option ThreadGroupRunOverride → Option GroupType → Attrs → Attrs
props_of s override none attrs = []
props_of s override (some t) attrs =
    if is_enabled attrs && not (is_fixed override)
    then run_props t (threads_of s override) (ramp_of s override) s.duration
    else []

abbrev pub next_index : Option GroupType → ℕ → ℕ
next_index none index = index
next_index (some t) index = suc index

-- The loop of `update_run_thread`. It comes to an element before all below it, and
-- `set_named_props` writes through to those, so `set` carries down what the elements above have
-- set, the nearest first. The value holds the number of groups met so far.
unfoldable mutual
  pub update_run_thread : RunSettings → Attrs → ℕ → Element → ℕ × Element
  update_run_thread s set index (element tag attrs text children) =
      let override = override_of s index tag attrs in
      let switched_attrs = switched override attrs in
      let props = props_of s override (thread_group_type tag attrs) switched_attrs ++ set in
      let (after, below) =
        update_run_thread_all s props (next_index (thread_group_type tag attrs) index) children in
      (after, element tag switched_attrs (prop_text props switched_attrs text) below)

  pub update_run_thread_all : RunSettings → Attrs → ℕ → Elements → ℕ × Elements
  update_run_thread_all s set index no_more = (index, no_more)
  update_run_thread_all s set index (more e es) =
      let (after_one, one) = update_run_thread s set index e in
      let (after, rest) = update_run_thread_all s set after_one es in (after, more one rest)

-- `sum_enabled_thread_group_threads`; `to_int` is `to_non_negative_int`, which reads a float.
abbrev group_threads : (Option Text → ℕ) → Option GroupType → Element → ℕ
group_threads to_int none e = 0
group_threads to_int (some GroupType.concurrency_thread_group) e =
    to_int (first_named_prop_text (codes "TargetLevel") e)
group_threads to_int (some t) e = to_int (first_named_prop_text (codes "ThreadGroup.num_threads") e)

unfoldable mutual
  pub sum_enabled_thread_group_threads : (Option Text → ℕ) → Element → ℕ
  sum_enabled_thread_group_threads to_int (element tag attrs text children) =
      let own =
        group_threads to_int (thread_group_type tag attrs) (element tag attrs text children) in
      (if is_enabled attrs then own else 0) + sum_enabled_all to_int children

  pub sum_enabled_all : (Option Text → ℕ) → Elements → ℕ
  sum_enabled_all to_int no_more = 0
  sum_enabled_all to_int (more e es) =
      sum_enabled_thread_group_threads to_int e + sum_enabled_all to_int es
