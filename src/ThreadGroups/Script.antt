-- ===== src/ThreadGroups/Script.antt =====
-- A JMeter script as a tree of elements with attributes, text and children, and the helpers of
-- api/app/core/jmeter_xml_support.py on it. Comments of the file are left out.
use pressure_platform.Prelude.{
  Bool, true, false, not, Option, none, some, List, [], ◌∷◌, if◌then◌else◌,
}
use pressure_platform.Prelude.Text.{Text, codes, text_eq, is_empty}

abbrev pub Attrs : Type 0
Attrs = List (Text × Text)

mutual
  pub data Element : Type 0 where
    element : Text → Attrs → Option Text → Elements → Element

  pub data Elements : Type 0 where
    no_more : Elements
    more : Element → Elements → Elements

-- `d.get(key)`, also for the attributes of an element: the first entry under a key.
abbrev pub get_attr : Text → Attrs → Option Text
get_attr key [] = none
get_attr key (entry ∷ attrs) = if text_eq entry.0 key then some entry.1 else get_attr key attrs

-- `el.set(key, value)`
abbrev pub set_attr : Text → Text → Attrs → Attrs
set_attr key value [] = (key, value) ∷ []
set_attr key value (entry ∷ attrs) =
    if text_eq entry.0 key then (entry.0, value) ∷ attrs else entry ∷ set_attr key value attrs

-- `is_enabled`
abbrev pub is_enabled : Attrs → Bool
is_enabled attrs = elim (get_attr (codes "enabled") attrs) [
  | none ↦ true
  | some value ↦ not (text_eq value (codes "false"))
]

-- `name_to_value[name]` where the name is one of the keys, and the old text elsewhere.
abbrev pub prop_text : Attrs → Attrs → Option Text → Option Text
prop_text props attrs text = elim (get_attr (codes "name") attrs) [
  | none ↦ text
  | some name ↦
      if is_empty name
      then text
      else elim (get_attr name props) [ none ↦ text | some value ↦ some value ]
]

-- `set_named_props`: the element and all below it.
unfoldable mutual
  pub set_named_props : Attrs → Element → Element
  set_named_props props (element tag attrs text children) =
      element tag attrs (prop_text props attrs text) (set_named_props_all props children)

  pub set_named_props_all : Attrs → Elements → Elements
  set_named_props_all props no_more = no_more
  set_named_props_all props (more e es) =
      more (set_named_props props e) (set_named_props_all props es)

abbrev pub has_name : Text → Attrs → Bool
has_name name attrs = elim (get_attr (codes "name") attrs) [
  | none ↦ false
  | some n ↦ text_eq n name
]

-- `first_named_prop_text`: the outer `none` says that no element has the name.
unfoldable mutual
  pub first_named : Text → Element → Option (Option Text)
  first_named name (element tag attrs text children) =
      if has_name name attrs then some text else first_named_all name children

  pub first_named_all : Text → Elements → Option (Option Text)
  first_named_all name no_more = none
  first_named_all name (more e es) =
      let rest = first_named_all name es in
      elim (first_named name e) [ none ↦ rest | some text ↦ some text ]

abbrev pub first_named_prop_text : Text → Element → Option Text
first_named_prop_text name e = elim (first_named name e) [ none ↦ none | some text ↦ text ]
