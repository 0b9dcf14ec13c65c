-- ===== src/ThreadGroups/Values.antt =====
-- The values that a run writes into a thread group (`update_run_thread`,
-- api/app/core/jmeter_thread_groups.py).
use pressure_platform.Prelude.{
  ℕ, ap, ◌≡◌, refl, inl, inr, true, false, Bool, ◌&&◌, Option, none, some, ◌++◌, arith, Bool-cases,
  Option-cases,
}
use mathlib.Core.Option
use pressure_platform.Prelude.Text.{Text, codes, is_empty}
use pressure_platform.Store.{ThreadGroupRunOverride}
use pressure_platform.ThreadGroups.{
  Attrs, Element, Elements, element, no_more, more, get_attr, has_name, prop_text, first_named,
  first_named_all, GroupType, thread_group_type, override_of, switched, RunSettings, props_of,
  next_index, update_run_thread, update_run_thread_all,
}
use pressure_platform.ThreadGroups.Keys.{get_attr-switched}
use pressure_platform.ThreadGroups.Props.{prop_text-has_name}
use pressure_platform.ThreadGroups.Overrides.{IsValue}

abbrev is_no_type : Option GroupType → Bool
is_no_type none = true
is_no_type (some _) = false

-- Neither the element nor one below it is a thread group.
unfoldable mutual
  pub has_no_group : Element → Bool
  has_no_group (element tag attrs text children) =
      is_no_type (thread_group_type tag attrs) && have_no_group children

  pub have_no_group : Elements → Bool
  have_no_group no_more = true
  have_no_group (more e es) = has_no_group e && have_no_group es

module _ (s : RunSettings) (name value : Text) (named : is_empty name ≡ false) where
  -- What is read of an element after the properties have been written.
  read_written :
      (props : Attrs) (override : Option ThreadGroupRunOverride) (tag : Text) (attrs : Attrs)
      (text : Option Text) (children below : Elements)
      → get_attr name props ≡ some value
      → first_named_all name below ≡ Option.map (λ _. some value) (first_named_all name children)
      → first_named name (
          element tag
            (switched override attrs)
            (prop_text props (switched override attrs) text)
            below)
        ≡ Option.map (λ _. some value) (first_named name (element tag attrs text children))
  unfolding first_named
  read_written props override tag attrs text children below given rest =
      let kept = get_attr-switched (codes "name") override attrs refl in
      elim (Bool-cases (has_name name attrs)) [
        | inl h ↦
            let still : has_name name (switched override attrs) ≡ true = ground (arith, h, kept) in
            rw (h, still)
              (ap some (
                prop_text-has_name props name value named given (switched override attrs) text
                  still))
        | inr h ↦
            let still : has_name name (switched override attrs) ≡ false = ground (arith, h, kept) in
            rw (h, still) rest
      ]

  mutual
    unfolding update_run_thread has_no_group first_named

    read_below :
        (set : Attrs) (index : ℕ) (e : Element)
        → get_attr name set ≡ some value
        → has_no_group e ≡ true
        → first_named name (update_run_thread s set index e).1
          ≡ Option.map (λ _. some value) (first_named name e)
    read_below set index (element tag attrs text children) given bare =
        elim (Option-cases (thread_group_type tag attrs)) [
          | inr (t, e) ↦ absurd (ground (arith, e, bare))
          | inl e ↦
              let override = override_of s index tag attrs in
              let props =
                props_of s override (thread_group_type tag attrs) (switched override attrs)
                ++ set in
              let next = next_index (thread_group_type tag attrs) index in
              let set_too : get_attr name props ≡ some value = rw e given in
              read_written props override tag attrs text children
                (update_run_thread_all s props next children).1 set_too
                (read_all_below props next children set_too (ground (arith, e, bare)))
        ]

    read_all_below :
        (set : Attrs) (index : ℕ) (es : Elements)
        → get_attr name set ≡ some value
        → have_no_group es ≡ true
        → first_named_all name (update_run_thread_all s set index es).1
          ≡ Option.map (λ _. some value) (first_named_all name es)
    read_all_below set index no_more given bare = refl
    read_all_below set index (more e es) given bare = ground (
      arith,
      bare,
      read_below set index e given,
      read_all_below set (update_run_thread s set index e).0 es given,
    )

-- The properties of a group of each type that hold its threads, its ramp time and its duration.
pub data Sets (s : RunSettings) (o : Option ThreadGroupRunOverride)
    : GroupType → Text → Text → Type 0 where
  plain_threads :
      (v : Text)
      → IsValue o (λ x. x.num_threads) s.num_threads v
      → Sets s o GroupType.thread_group (codes "ThreadGroup.num_threads") v
  plain_ramp :
      (v : Text)
      → IsValue o (λ x. x.ramp_time) s.ramp_time v
      → Sets s o GroupType.thread_group (codes "ThreadGroup.ramp_time") v
  plain_duration : Sets s o GroupType.thread_group (codes "ThreadGroup.duration") s.duration
  plain_scheduler : Sets s o GroupType.thread_group (codes "ThreadGroup.scheduler") (codes "true")
  stepping_threads :
      (v : Text)
      → IsValue o (λ x. x.num_threads) s.num_threads v
      → Sets s o GroupType.stepping_thread_group (codes "ThreadGroup.num_threads") v
  stepping_ramp :
      (v : Text)
      → IsValue o (λ x. x.ramp_time) s.ramp_time v
      → Sets s o GroupType.stepping_thread_group (codes "Start users period") v
  stepping_duration : Sets s o GroupType.stepping_thread_group (codes "flighttime") s.duration
  concurrency_threads :
      (v : Text)
      → IsValue o (λ x. x.num_threads) s.num_threads v
      → Sets s o GroupType.concurrency_thread_group (codes "TargetLevel") v
  concurrency_ramp :
      (v : Text)
      → IsValue o (λ x. x.ramp_time) s.ramp_time v
      → Sets s o GroupType.concurrency_thread_group (codes "RampUp") v
  concurrency_duration : Sets s o GroupType.concurrency_thread_group (codes "Hold") s.duration
