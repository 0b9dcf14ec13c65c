-- ===== src/Prelude/Text.antt =====
-- Python's `str` as the list of its code points, with the string methods that the program calls.
use Prim.Native.Char.{code}
use Prim.Native.String.{String}
use Prim.Native.Nat.{ℕ, zero, suc, ◌+◌, ◌-◌, ◌*◌, ◌/◌, ◌%◌}
use mathlib.Core.Path.{◌≡◌, refl}
use mathlib.Core.Bool.{Bool, true, false, not, ◌&&◌, ◌||◌}
use mathlib.Core.List.{List, [], ◌∷◌, ◌++◌, map, reverse}
use mathlib.Core.Option
use mathlib.Core.Option.{Option, none, some}
use native.Mathlib.Omega.{arith}
use pressure_platform.Prelude.Tests.{leb, ◌==◌, if◌then◌else◌}
use pressure_platform.Prelude.Int.{ℤ, pos, negsuc, neg}

abbrev pub Text : Type 0
Text = List ℕ

abbrev pub codes : String → Text
codes String.[] = []
codes (String.◌∷◌ c s) = code c ∷ codes s

-- `a == b` on texts.
abbrev pub text_eq : Text → Text → Bool
text_eq [] [] = true
text_eq [] (_ ∷ _) = false
text_eq (_ ∷ _) [] = false
text_eq (a ∷ s) (b ∷ t) = a == b && text_eq s t

-- `not s`: the empty text is false.
abbrev pub is_empty : Text → Bool
is_empty [] = true
is_empty (_ ∷ _) = false

-- `s in t`
abbrev is_prefix : Text → Text → Bool
is_prefix [] t = true
is_prefix (c ∷ s) [] = false
is_prefix (c ∷ s) (d ∷ t) = c == d && is_prefix s t

unfoldable pub contains : Text → Text → Bool
contains s [] = is_empty s
contains s (c ∷ t) = is_prefix s (c ∷ t) || contains s t

-- `s or t`
abbrev pub or_else : Text → Text → Text
or_else [] t = t
or_else (c ∷ s) _ = c ∷ s

-- What `str.strip` removes: the code points for which `str.isspace` holds.
abbrev pub is_space : ℕ → Bool
is_space c =
    (leb 9 c && leb c 13)
    || (leb 28 c && leb c 32)
    || c == 133
    || c == 160
    || c == 5760
    || (leb 8192 c && leb c 8202)
    || c == 8232
    || c == 8233
    || c == 8239
    || c == 8287
    || c == 12288

abbrev pub lstrip : Text → Text
lstrip [] = []
lstrip (c ∷ s) = if is_space c then lstrip s else c ∷ s

unfoldable pub strip : Text → Text
strip s = reverse (lstrip (reverse (lstrip s)))

-- `str.lower` on ASCII letters; every other code point stands for itself.
unfoldable pub lower : Text → Text
lower = map (λ c. if leb 65 c && leb c 90 then c + 32 else c)

-- `s.split(sep)` for a separator of one character: pieces between separators, empty ones too.
abbrev cons_head : ℕ → List Text → List Text
cons_head c [] = (c ∷ []) ∷ []
cons_head c (p ∷ ps) = (c ∷ p) ∷ ps

unfoldable pub split : ℕ → Text → List Text
split sep [] = [] ∷ []
split sep (c ∷ s) = if c == sep then [] ∷ split sep s else cons_head c (split sep s)

-- The digits of `int(s)`: ASCII digits with single underscores between them. `fresh` says that a
-- digit must follow. Digits of other scripts, which Python takes too, are not read.
abbrev pub digits_from : Bool → ℕ → Text → Option ℕ
digits_from fresh acc [] = if fresh then none else some acc
digits_from fresh acc (c ∷ s) =
    let digit = digits_from false (acc * 10 + (c - 48)) s in
    let underscore = digits_from true acc s in
    if leb 48 c && leb c 57 then digit else if c == 95 && not fresh then underscore else none

abbrev signed : Text → Option ℤ
signed [] = none
signed (c ∷ s) =
    if c == 45
    then Option.map neg (digits_from true 0 s)
    else Option.map pos (digits_from true 0 (if c == 43 then s else c ∷ s))

-- `int(s)`; `none` stands for the `ValueError`.
unfoldable pub parse_int : Text → Option ℤ
parse_int s = signed (strip s)

pub text_eq_refl : (s : Text) → text_eq s s ≡ true
text_eq_refl [] = refl
text_eq_refl (c ∷ s) = ground (arith, text_eq_refl s)

pub eq_of_text_eq : (s t : Text) → text_eq s t ≡ true → s ≡ t
eq_of_text_eq [] [] h = refl
eq_of_text_eq [] (b ∷ t) h = ground arith
eq_of_text_eq (a ∷ s) [] h = ground arith
eq_of_text_eq (a ∷ s) (b ∷ t) h = ground (arith, eq_of_text_eq s t)

-- `str(n)`: the decimal digits. `n + 1` rounds are enough for `n`.
str_from : ℕ → ℕ → Text → Text
str_from zero n acc = acc
str_from (suc fuel) n acc =
    let more = str_from fuel (n / 10) ((48 + n % 10) ∷ acc) in
    if n / 10 == 0 then (48 + n % 10) ∷ acc else more

unfoldable pub str : ℕ → Text
unfolding str_from
str n = str_from (suc n) n []

-- `sep.join(parts)` for a separator of one character.
unfoldable pub join : ℕ → List Text → Text
join sep [] = []
join sep (s ∷ []) = s
join sep (s ∷ t ∷ parts) = s ++ (sep ∷ join sep (t ∷ parts))

-- `str(z)` for a signed number.
unfoldable pub str_ℤ : ℤ → Text
unfolding str
str_ℤ (pos n) = str n
str_ℤ (negsuc n) = 45 ∷ str (suc n)
