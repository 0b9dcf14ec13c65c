-- ===== src/ThreadGroups/Overrides.antt =====
-- The override of a thread group, and the values that it changes (`_override_by_key` and
-- `_resolve_thread_values`, api/app/core/jmeter_thread_groups.py).
use pressure_platform.Prelude.{
  ℕ, ap, ◌∙◌, ◌≡◌, refl, ◌⊎◌, inl, inr, true, false, Option, none, some, List, [], ◌∷◌, arith, All,
  Bool-cases, if◌then◌else◌,
}
use pressure_platform.Prelude.Text.{Text, codes, text_eq, is_empty, or_else}
use pressure_platform.Store.{ThreadGroupRunOverride}
use pressure_platform.RunParams.{text_of, is_custom}
use pressure_platform.ThreadGroups.{
  Attrs, attr_text, GroupType, group_key, thread_group_type, key_of, override_key, get_override,
  or_override, override_of, RunSettings, threads_of, ramp_of,
}

-- The override under a key: the last of the list that has it.
pub data IsEntry (key : Text) (item : ThreadGroupRunOverride)
    : List ThreadGroupRunOverride → Type 0 where
  here :
      (rest : List ThreadGroupRunOverride)
      → is_empty (override_key item) ≡ false
      → text_eq (override_key item) key ≡ true
      → All (λ o. text_eq (override_key o) key ≡ false) rest
      → IsEntry key item (item ∷ rest)
  later :
      (first : ThreadGroupRunOverride) (rest : List ThreadGroupRunOverride)
      → IsEntry key item rest
      → IsEntry key item (first ∷ rest)

-- The override of a group: the one under its key, or else the one under its name.
pub data IsOverrideOf (items : List ThreadGroupRunOverride) (key testname : Text)
    : Option ThreadGroupRunOverride → Type 0 where
  by_key :
      (item : ThreadGroupRunOverride)
      → IsEntry key item items
      → IsOverrideOf items key testname (some item)
  by_name :
      (item : ThreadGroupRunOverride)
      → All (λ o. text_eq (override_key o) key ≡ false) items
      → IsEntry testname item items
      → IsOverrideOf items key testname (some item)
  neither :
      All (λ o. text_eq (override_key o) key ≡ false) items
      → All (λ o. text_eq (override_key o) testname ≡ false) items
      → IsOverrideOf items key testname none

get_override-none :
    (key : Text) (items : List ThreadGroupRunOverride)
    → All (λ o. text_eq (override_key o) key ≡ false) items
    → get_override items key ≡ none
unfolding get_override
get_override-none key [] h = refl
get_override-none key (item ∷ items) h = rw (get_override-none key items h.1) (ground (arith, h.0))

get_override-entry :
    (key : Text) (item : ThreadGroupRunOverride) (items : List ThreadGroupRunOverride)
    → IsEntry key item items
    → get_override items key ≡ some item
unfolding get_override
get_override-entry key item _ (here rest given same others) =
    rw (get_override-none key rest others) (ground (arith, given, same))
get_override-entry key item _ (later first rest h) = rw (get_override-entry key item rest h) refl

or_override-IsOverrideOf :
    (items : List ThreadGroupRunOverride) (key testname : Text) (o : Option ThreadGroupRunOverride)
    → IsOverrideOf items key testname o
    → or_override (get_override items key) (get_override items testname) ≡ o
or_override-IsOverrideOf items key testname _ (by_key item entry) =
    rw (get_override-entry key item items entry) refl
or_override-IsOverrideOf items key testname _ (by_name item others entry) =
    rw (get_override-none key items others) (get_override-entry testname item items entry)
or_override-IsOverrideOf items key testname _ (neither others nameless) =
    rw (get_override-none key items others) (get_override-none testname items nameless)

pub override_of-IsOverrideOf :
    (s : RunSettings) (index : ℕ) (tag : Text) (attrs : Attrs) (t : GroupType)
    (o : Option ThreadGroupRunOverride)
    → thread_group_type tag attrs ≡ some t
    → IsOverrideOf s.overrides (group_key t index) (attr_text (codes "testname") attrs) o
    → override_of s index tag attrs ≡ o
override_of-IsOverrideOf s index tag attrs t o typed h =
    let testname = attr_text (codes "testname") attrs in
    ap
      (λ k.
        or_override (get_override s.overrides (key_of k index)) (get_override s.overrides testname))
      typed
    ∙ or_override-IsOverrideOf s.overrides (group_key t index) testname o h

-- A value of the run: the override's own, if it is custom and has one, or else that of the request.
pub data IsValue (o : Option ThreadGroupRunOverride) (field : ThreadGroupRunOverride → Option Text)
    (request : Text) : Text → Type 0 where
  of_request :
      ((item : ThreadGroupRunOverride)
        → o ≡ some item
        → (is_custom item ≡ false) ⊎ (is_empty (text_of (field item)) ≡ true))
      → IsValue o field request request
  of_override :
      (item : ThreadGroupRunOverride) (value : Text)
      → o ≡ some item
      → is_custom item ≡ true
      → field item ≡ some value
      → is_empty value ≡ false
      → IsValue o field request value

or_else-given : (t u : Text) → is_empty t ≡ false → or_else t u ≡ t
or_else-given [] u h = absurd (ground (arith, h))
or_else-given (c ∷ t) u h = refl

or_else-empty : (t u : Text) → is_empty t ≡ true → or_else t u ≡ u
or_else-empty [] u h = refl
or_else-empty (c ∷ t) u h = absurd (ground (arith, h))

-- What `_resolve_thread_values` takes of a field.
abbrev pub chosen :
    Option ThreadGroupRunOverride → (ThreadGroupRunOverride → Option Text) → Text → Text
chosen none field request = request
chosen (some item) field request =
    if is_custom item then or_else (text_of (field item)) request else request

pub chosen-IsValue :
    (o : Option ThreadGroupRunOverride) (field : ThreadGroupRunOverride → Option Text)
    (request v : Text)
    → IsValue o field request v
    → chosen o field request ≡ v
chosen-IsValue none field request _ (of_request h) = refl
chosen-IsValue (some item) field request _ (of_request h) = elim (h item refl) [
  | inl e ↦ rw e refl
  | inr e ↦ elim (Bool-cases (is_custom item)) [
    | inl f ↦ rw f (or_else-empty (text_of (field item)) request e)
    | inr f ↦ rw f refl
  ]
]
chosen-IsValue o field request _ (of_override item v same custom given some_text) =
    rw (same, custom, given) (or_else-given v request some_text)

pub threads_of-chosen :
    (s : RunSettings) (o : Option ThreadGroupRunOverride)
    → threads_of s o ≡ chosen o (λ x. x.num_threads) s.num_threads
threads_of-chosen s none = refl
threads_of-chosen s (some item) = refl

pub ramp_of-chosen :
    (s : RunSettings) (o : Option ThreadGroupRunOverride)
    → ramp_of s o ≡ chosen o (λ x. x.ramp_time) s.ramp_time
ramp_of-chosen s none = refl
ramp_of-chosen s (some item) = refl
