-- ===== src/Tests/Scripts.antt =====
-- A small script: a thread group with its number of threads, and its scope
-- (api/app/core/jmeter_thread_groups.py, api/app/core/jmeter_pacing.py).
use pressure_platform.Prelude.{◌+◌, ◌≡◌, refl, none, some, [], ◌∷◌, map, length}
use mathlib.Core.Option
use pressure_platform.Prelude.Text.{codes}
use pressure_platform.Prelude.Int.{pos}
use pressure_platform.Store.{ThreadGroupRunOverride}
use pressure_platform.ThreadGroups.{
  Attrs, Element, element, no_more, more, list_thread_groups, RunSettings, Elements,
  update_run_thread,
}
use pressure_platform.ThreadGroups.Keys.{identity, update_run_thread-list_thread_groups}
use pressure_platform.Pacing.{apply_thread_group_pacing}
use pressure_platform.Pacing.Absent.{apply_thread_group_pacing-silent}

abbrev group : Element
group =
    element (codes "ThreadGroup")
      ((codes "testclass", codes "ThreadGroup") ∷ (codes "testname", codes "g") ∷ []) none
      (more
        (element (codes "stringProp") ((codes "name", codes "ThreadGroup.num_threads") ∷ [])
          (some (codes "1")) no_more)
        no_more)

abbrev scope : Element
scope = element (codes "hashTree") [] none no_more

abbrev root : Element
root =
    element (codes "jmeterTestPlan") [] none
      (more (element (codes "hashTree") [] none (more group (more scope no_more))) no_more)

abbrev paced_override : ThreadGroupRunOverride
paced_override = record {
  key = some (codes "thread_group:0");
  name = codes "g";
  enabled = none;
  mode = codes "custom";
  num_threads = some (codes "7");
  ramp_time = none;
  pacing_ms = some (pos 20);
}

abbrev settings : RunSettings
settings = record {
  num_threads = codes "5";
  ramp_time = codes "0";
  duration = codes "60";
  overrides = paced_override ∷ [];
}

update_run_thread-list_thread_groups_example :
    let (after, written) = update_run_thread settings [] 0 root in
    (after ≡ 0 + length (list_thread_groups 0 root))
    × (map identity (list_thread_groups 0 written) ≡ map identity (list_thread_groups 0 root))
update_run_thread-list_thread_groups_example =
    update_run_thread-list_thread_groups settings [] 0 root

abbrev group_attrs : Attrs
group_attrs = (codes "testclass", codes "ThreadGroup") ∷ (codes "testname", codes "g") ∷ []

abbrev group_props : Elements
group_props =
    more
      (element (codes "stringProp") ((codes "name", codes "ThreadGroup.num_threads") ∷ [])
        (some (codes "1")) no_more)
      no_more

apply_thread_group_pacing-silent_example :
    apply_thread_group_pacing [] (paced_override ∷ []) root ≡ root
apply_thread_group_pacing-silent_example =
    apply_thread_group_pacing-silent [] (paced_override ∷ []) (refl, tt) root
