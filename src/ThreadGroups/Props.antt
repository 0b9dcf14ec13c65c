-- ===== src/ThreadGroups/Props.antt =====
-- Reading a property after setting it (api/app/core/jmeter_xml_support.py).
use pressure_platform.Prelude.{
  ap, sym, subst, true, false, Option, some, ◌≡◌, refl, arith, Bool-cases, Option-cases, inl, inr,
}
use mathlib.Core.Option
use pressure_platform.Prelude.Text.{Text, codes, is_empty, eq_of_text_eq}
use pressure_platform.ThreadGroups.{
  Attrs, Element, Elements, element, no_more, more, get_attr, has_name, prop_text, set_named_props,
  set_named_props_all, first_named, first_named_all,
}

module _ (props : Attrs) (name value : Text) (named : is_empty name ≡ false)
    (given : get_attr name props ≡ some value) where
  pub prop_text-has_name :
      (attrs : Attrs) (text : Option Text)
      → has_name name attrs ≡ true
      → prop_text props attrs text ≡ some value
  prop_text-has_name attrs text h = elim (Option-cases (get_attr (codes "name") attrs)) [
    | inl e ↦ absurd (ground (arith, e, h))
    | inr (n, e) ↦
        let same : n ≡ name = eq_of_text_eq n name (ground (arith, e, h)) in
        ground (
          arith,
          e,
          subst (λ k. is_empty k ≡ false) (sym same) named,
          subst (λ k. get_attr k props ≡ some value) (sym same) given,
        )
  ]

  mutual
    unfolding first_named set_named_props

    read_set :
        (e : Element)
        → first_named name (set_named_props props e)
          ≡ Option.map (λ _. some value) (first_named name e)
    read_set (element tag attrs text children) = elim (Bool-cases (has_name name attrs)) [
      | inl h ↦ rw h (ap some (prop_text-has_name attrs text h))
      | inr h ↦ rw h (read_set_all children)
    ]

    read_set_all :
        (es : Elements)
        → first_named_all name (set_named_props_all props es)
          ≡ Option.map (λ _. some value) (first_named_all name es)
    read_set_all no_more = refl
    read_set_all (more e es) = ground (arith, read_set e, read_set_all es)

  -- Once a list of properties has been set on an element, the text read under a name of the list is
  -- the value given to it, if any element at or below it has the name, and nothing otherwise.
  pub first_named-set_named_props :
      (e : Element)
      → first_named name (set_named_props props e)
        ≡ Option.map (λ _. some value) (first_named name e)
  first_named-set_named_props = read_set
