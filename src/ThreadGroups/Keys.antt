-- ===== src/ThreadGroups/Keys.antt =====
-- The thread groups of a script before and after a run's settings are written into it
-- (api/app/core/jmeter_thread_groups.py).
use pressure_platform.Prelude.{
  ℕ, suc, ap, sym, subst, ◌∙◌, ◌+◌, ◌≡◌, refl, inl, inr, Bool, false, Option, none, some, List, [],
  ◌∷◌, ◌++◌, map, length, arith, Bool-cases, Option-cases, length-append,
}
use pressure_platform.Prelude.Text.{Text, codes, text_eq, eq_of_text_eq}
use pressure_platform.Store.{ThreadGroupRunOverride}
use pressure_platform.RunParams.{text_of}
use pressure_platform.ThreadGroups.{
  Attrs, Element, Elements, element, no_more, more, get_attr, set_attr, attr_text, GroupType,
  thread_group_type, ThreadGroup, is_enabled, group_of, own_group, list_thread_groups,
  list_thread_groups_all, RunSettings, override_of, switched, props_of, next_index,
  update_run_thread, update_run_thread_all,
}

-- A group without its `enabled` attribute.
abbrev pub Identity : Type 0
Identity = Text × Text × GroupType

abbrev pub identity : ThreadGroup → Identity
identity g = (g.key, g.name, g.type)

get_attr-set_attr :
    (key other value : Text) (attrs : Attrs)
    → text_eq other key ≡ false
    → get_attr key (set_attr other value attrs) ≡ get_attr key attrs
get_attr-set_attr key other value [] apart = ground (arith, apart)
get_attr-set_attr key other value (entry ∷ attrs) apart =
    elim (Bool-cases (text_eq entry.0 other)) [
      | inl e ↦
          let same : entry.0 ≡ other = eq_of_text_eq entry.0 other e in
          ground (arith, e, subst (λ k. text_eq k key ≡ false) (sym same) apart)
      | inr e ↦ ground (arith, e, get_attr-set_attr key other value attrs apart)
    ]

pub get_attr-switched :
    (key : Text) (override : Option ThreadGroupRunOverride) (attrs : Attrs)
    → text_eq (codes "enabled") key ≡ false
    → get_attr key (switched override attrs) ≡ get_attr key attrs
get_attr-switched key none attrs apart = refl
get_attr-switched key (some item) attrs apart = elim (Option-cases item.enabled) [
  | inl e ↦ rw e refl
  | inr (on, e) ↦ rw e (get_attr-set_attr key (codes "enabled") _ attrs apart)
]

thread_group_type-switched :
    (tag : Text) (override : Option ThreadGroupRunOverride) (attrs : Attrs)
    → thread_group_type tag (switched override attrs) ≡ thread_group_type tag attrs
unfolding thread_group_type
thread_group_type-switched tag override attrs =
    rw (get_attr-switched (codes "testclass") override attrs refl) refl

identity-group_of :
    (index : ℕ) (t : Option GroupType) (name : Text) (before after : Bool)
    → map identity (group_of index t name after) ≡ map identity (group_of index t name before)
identity-group_of index none name before after = refl
identity-group_of index (some t) name before after = refl

own_group-switched :
    (index : ℕ) (tag : Text) (override : Option ThreadGroupRunOverride) (attrs : Attrs)
    → map identity (own_group index tag (switched override attrs))
      ≡ map identity (own_group index tag attrs)
own_group-switched index tag override attrs =
    ap
      (λ t. map identity (
        group_of index t (attr_text (codes "testname") (switched override attrs))
          (is_enabled (switched override attrs))))
      (thread_group_type-switched tag override attrs)
    ∙ ap
        (λ n. map identity (
          group_of index (thread_group_type tag attrs) (text_of n)
            (is_enabled (switched override attrs))))
        (get_attr-switched (codes "testname") override attrs refl)
    ∙ identity-group_of index (thread_group_type tag attrs) (attr_text (codes "testname") attrs)
        (is_enabled attrs) (is_enabled (switched override attrs))

next_index-own_group :
    (index : ℕ) (tag : Text) (attrs : Attrs)
    → next_index (thread_group_type tag attrs) index ≡ index + length (own_group index tag attrs)
next_index-own_group index tag attrs = ground arith

length-map-identity :
    (gs hs : List ThreadGroup) → map identity gs ≡ map identity hs → length gs ≡ length hs
length-map-identity [] [] e = refl
length-map-identity [] (h ∷ hs) e = absurd (ground arith)
length-map-identity (g ∷ gs) [] e = absurd (ground arith)
length-map-identity (g ∷ gs) (h ∷ hs) e = ap suc (length-map-identity gs hs (ground arith))

map-append {ℓ κ} :
    {A : Type ℓ} {B : Type κ} (f : A → B) (xs ys : List A) → map f (xs ++ ys) ≡ map f xs ++ map f ys
map-append f [] ys = refl
map-append f (x ∷ xs) ys = ap (◌∷◌ (f x)) (map-append f xs ys)

-- Two lists of groups, part by part.
identity-append :
    (gs gs' hs hs' : List ThreadGroup)
    → map identity gs ≡ map identity gs'
    → map identity hs ≡ map identity hs'
    → map identity (gs ++ hs) ≡ map identity (gs' ++ hs')
identity-append gs gs' hs hs' e f =
    cc (map-append identity gs hs, map-append identity gs' hs', e, f)

-- The groups of a part and of what follows it, where the numbering goes on from the part.
groups-after :
    (index at after : ℕ) (own own' : List ThreadGroup) (es written : Elements)
    → at ≡ index + length own
    → map identity own' ≡ map identity own
    → (after ≡ at + length (list_thread_groups_all at es))
      × (map identity (list_thread_groups_all at written)
          ≡ map identity (list_thread_groups_all at es))
    → (after ≡ index + length (own ++ list_thread_groups_all (index + length own) es))
      × (map identity (own' ++ list_thread_groups_all (index + length own') written)
          ≡ map identity (own ++ list_thread_groups_all (index + length own) es))
groups-after index at after own own' es written here same (count, groups) =
    let sizes : length own' ≡ length own = length-map-identity own' own same in
    rw (sizes, ← here)
      (
        omega (arith, here, count, length-append own (list_thread_groups_all at es)),
        identity-append own' own (list_thread_groups_all at written) (list_thread_groups_all at es)
            same groups,
      )

mutual
  unfolding update_run_thread list_thread_groups

  groups_kept :
      (s : RunSettings) (set : Attrs) (index : ℕ) (e : Element)
      → let (after, written) = update_run_thread s set index e in
        (after ≡ index + length (list_thread_groups index e))
        × (map identity (list_thread_groups index written)
            ≡ map identity (list_thread_groups index e))
  groups_kept s set index (element tag attrs text children) =
      let override = override_of s index tag attrs in
      let props =
        props_of s override (thread_group_type tag attrs) (switched override attrs) ++ set in
      let next = next_index (thread_group_type tag attrs) index in
      let (after, below) = update_run_thread_all s props next children in
      groups-after index next after (own_group index tag attrs)
        (own_group index tag (switched override attrs)) children below
        (next_index-own_group index tag attrs) (own_group-switched index tag override attrs)
        (groups_kept_all s props next children)

  groups_kept_all :
      (s : RunSettings) (set : Attrs) (index : ℕ) (es : Elements)
      → let (after, written) = update_run_thread_all s set index es in
        (after ≡ index + length (list_thread_groups_all index es))
        × (map identity (list_thread_groups_all index written)
            ≡ map identity (list_thread_groups_all index es))
  groups_kept_all s set index no_more = (omega arith, refl)
  groups_kept_all s set index (more e es) =
      let (after_one, one) = update_run_thread s set index e in
      let (after, rest) = update_run_thread_all s set after_one es in
      let (count, same) = groups_kept s set index e in
      groups-after index after_one after (list_thread_groups index e) (list_thread_groups index one)
        es rest count same (groups_kept_all s set after_one es)

-- Writing a run's settings into a script leaves the thread groups that it holds, their order, their
-- keys and their names as they were, whatever the settings and the overrides, and counts as many
-- groups as the listing does: an override finds the group under the key that the listing gave it.
pub update_run_thread-list_thread_groups :
    (s : RunSettings) (set : Attrs) (index : ℕ) (e : Element)
    → let (after, written) = update_run_thread s set index e in
      (after ≡ index + length (list_thread_groups index e))
      × (map identity (list_thread_groups index written)
          ≡ map identity (list_thread_groups index e))
update_run_thread-list_thread_groups = groups_kept
