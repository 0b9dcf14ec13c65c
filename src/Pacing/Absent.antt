-- ===== src/Pacing/Absent.antt =====
-- Overrides that put no timer into a script (api/app/core/jmeter_pacing.py).
use pressure_platform.Prelude.{
  ℕ, ap, Option, none, some, List, [], ◌∷◌, ◌≡◌, refl, All, arith, Bool-cases, inl, inr,
}
use pressure_platform.Prelude.Text.{Text, codes, text_eq}
use pressure_platform.Store.{ThreadGroupRunOverride}
use pressure_platform.ThreadGroups.{
  Attrs, Element, Elements, element, no_more, more, thread_group_type, GroupType, next_index,
}
use pressure_platform.Pacing.{get_config, paced, pace_pairs, pace_first, apply_thread_group_pacing}

-- No override says whether its group is enabled.
abbrev pub AreSilent : List ThreadGroupRunOverride → Type 0
AreSilent = All (λ item. item.enabled ≡ none)

get_config-silent :
    (overrides : List ThreadGroupRunOverride) (key : Text)
    → AreSilent overrides
    → get_config overrides key ≡ none
unfolding get_config
get_config-silent [] key silent = refl
get_config-silent (item ∷ items) key silent =
    ground (arith, get_config-silent items key silent.1, silent.0)

module _ (script : Text) (overrides : List ThreadGroupRunOverride)
    (silent : AreSilent overrides) where
  paced-silent :
      (index : ℕ) (tag : Text) (attrs : Attrs) (t : Option GroupType) (scope : Elements)
      → paced script overrides index tag attrs t scope ≡ scope
  paced-silent index tag attrs none scope = refl
  paced-silent index tag attrs (some t) scope =
      rw (get_config-silent overrides _ silent, get_config-silent overrides _ silent) refl

  pace_pairs-silent : (index : ℕ) (es : Elements) → (pace_pairs script overrides index es).1 ≡ es
  unfolding pace_pairs
  pace_pairs-silent index no_more = refl
  pace_pairs-silent index (more (element tag attrs text children) no_more) = refl
  pace_pairs-silent index
        (more (element tag attrs text children) (more (element stag sattrs stext scope) rest)) =
      let group = thread_group_type tag attrs in
      let next = next_index group index in
      let inner = (pace_pairs script overrides next scope).0 in
      elim (Bool-cases (text_eq stag (codes "hashTree"))) [
        | inl e ↦ rw e (
            cc (
              paced-silent index tag attrs group (pace_pairs script overrides next scope).1,
              pace_pairs-silent next scope,
              pace_pairs-silent inner rest,
            ))
        | inr e ↦ rw e (
            ap (more (element tag attrs text children))
              (pace_pairs-silent next (more (element stag sattrs stext scope) rest)))
      ]

  pace_first-silent : (es : Elements) → pace_first script overrides es ≡ es
  pace_first-silent no_more = refl
  pace_first-silent (more (element tag attrs text children) rest) =
      ground (arith, pace_pairs-silent 0 children, pace_first-silent rest)

  -- When no override says whether its group is enabled, the pacings of the overrides are not applied:
  -- the script comes out as it went in, whatever they are.
  pub apply_thread_group_pacing-silent :
      (root : Element) → apply_thread_group_pacing script overrides root ≡ root
  unfolding apply_thread_group_pacing
  apply_thread_group_pacing-silent (element tag attrs text children) =
      ap (element tag attrs text) (pace_first-silent children)
