-- ===== src/ShellSafety/Reader.antt =====
-- How a POSIX shell reads a command line: words between blanks, quotes, and the operators that the
-- commands of api/app/core/shell_safety.py use. A line that holds anything else that a shell would
-- expand or obey, outside quotes or within double ones, is not read.
use pressure_platform.Prelude.{
  ℕ, ◌≡◌, refl, true, false, not, ◌||◌, Option, none, some, List, [], ◌∷◌, ◌++◌, arith,
  if◌then◌else◌, ◌==◌, any, inl, inr, Bool-cases,
}
use mathlib.Core.List.{append_assoc, append-nil}
use pressure_platform.Prelude.Text.{Text, is_empty}
use pressure_platform.ShellSafety.{is_safe, quote, escape_quotes}

pub data Token : Type 0 where
  word : Text → Token
  -- `&` or `>`
  sign : ℕ → Token
  -- `$` and a character
  expansion : ℕ → Token

pub data Mode : Type 0 where
  between bare single double dollar : Mode

pub data Kind : Type 0 where
  safe blank quote_1 quote_2 operator dollar_sign other : Kind

unfoldable pub kind_of : ℕ → Kind
kind_of c =
    if is_safe c
    then Kind.safe
    else if c == 32
    then Kind.blank
    else if c == 39
    then Kind.quote_1
    else if c == 34
    then Kind.quote_2
    else if c == 38 || c == 62
    then Kind.operator
    else if c == 36
    then Kind.dollar_sign
    else Kind.other

abbrev and_token : Token → Option (List Token) → Option (List Token)
and_token t none = none
and_token t (some ts) = some (t ∷ ts)

-- The word that ends here, if there is one, before what follows.
abbrev end_word : Mode → Text → Option (List Token) → Option (List Token)
end_word Mode.between acc rest = rest
end_word _ acc rest = and_token (Token.word acc) rest

-- The rest of a command line; `acc` holds the word so far.
unfoldable pub read_from : Mode → Text → Text → Option (List Token)
read_from Mode.between acc [] = some []
read_from Mode.bare acc [] = some (Token.word acc ∷ [])
read_from Mode.single acc [] = none
read_from Mode.double acc [] = none
read_from Mode.dollar acc [] = none
read_from Mode.dollar acc (c ∷ s) = and_token (Token.expansion c) (read_from Mode.between [] s)
read_from Mode.single acc (c ∷ s) = elim (c == 39) [
  | true ↦ read_from Mode.bare acc s
  | false ↦ read_from Mode.single (acc ++ (c ∷ [])) s
]
read_from Mode.double acc (c ∷ s) = elim (c == 34) [
  | true ↦ read_from Mode.bare acc s
  | false ↦ elim (c == 36 || (c == 96 || c == 92)) [
    | true ↦ none
    | false ↦ read_from Mode.double (acc ++ (c ∷ [])) s
  ]
]
read_from mode acc (c ∷ s) = elim (kind_of c) [
  | Kind.safe ↦ read_from Mode.bare (acc ++ (c ∷ [])) s
  | Kind.blank ↦ end_word mode acc (read_from Mode.between [] s)
  | Kind.quote_1 ↦ read_from Mode.single acc s
  | Kind.quote_2 ↦ read_from Mode.double acc s
  | Kind.operator ↦ end_word mode acc (and_token (Token.sign c) (read_from Mode.between [] s))
  | Kind.dollar_sign ↦ end_word mode acc (read_from Mode.dollar [] s)
  | Kind.other ↦ none
]

-- What a shell reads in a command line; `none` where the line holds anything else.
unfoldable pub tokens : Text → Option (List Token)
unfolding read_from
tokens line = read_from Mode.between [] line

kind_of-safe : (c : ℕ) → is_safe c ≡ true → kind_of c ≡ Kind.safe
unfolding kind_of
kind_of-safe c e = rw e refl

snoc-append : (acc s : Text) (c : ℕ) → (acc ++ (c ∷ [])) ++ s ≡ acc ++ (c ∷ s)
snoc-append acc s c = append_assoc acc (c ∷ []) s

-- Characters that need no quotes go into the word as they are.
read_from-safe :
    (s acc rest : Text)
    → any (λ c. not (is_safe c)) s ≡ false
    → read_from Mode.bare acc (s ++ rest) ≡ read_from Mode.bare (acc ++ s) rest
unfolding read_from
read_from-safe [] acc rest h = rw (append-nil acc) refl
read_from-safe (c ∷ s) acc rest h = elim (Bool-cases (is_safe c)) [
  | inl e ↦
      rw (read_from, kind_of-safe c e, ← snoc-append acc s c)
        (read_from-safe s (acc ++ (c ∷ [])) rest (ground (arith, h, e)))
  | inr e ↦ absurd (ground (arith, h, e))
]

-- Between single quotes everything goes into the word as it is, quotes by the detour.
read_from-escaped :
    (s acc rest : Text)
    → read_from Mode.single acc (escape_quotes s ++ (39 ∷ rest))
      ≡ read_from Mode.bare (acc ++ s) rest
unfolding read_from escape_quotes kind_of
read_from-escaped [] acc rest = rw (append-nil acc) refl
read_from-escaped (c ∷ s) acc rest = elim (Bool-cases (c == 39)) [
  | inl e ↦
      let same : c ≡ 39 = ground arith in
      rw (same, ← snoc-append acc s 39) (read_from-escaped s (acc ++ (39 ∷ [])) rest)
  | inr e ↦
      rw (escape_quotes, e)
        (rw (read_from, e, ← snoc-append acc s c) (read_from-escaped s (acc ++ (c ∷ [])) rest))
]

read_from-opened :
    (s rest : Text)
    → read_from Mode.between [] (39 ∷ (escape_quotes s ++ (39 ∷ rest))) ≡ read_from Mode.bare s rest
unfolding read_from kind_of
read_from-opened s rest = read_from-escaped s [] rest

read_from-plain :
    (s rest : Text)
    → (is_empty s || any (λ c. not (is_safe c)) s) ≡ false
    → read_from Mode.between [] (s ++ rest) ≡ read_from Mode.bare s rest
unfolding read_from
read_from-plain [] rest h = ground arith
read_from-plain (c ∷ s) rest h = elim (Bool-cases (is_safe c)) [
  | inl e ↦ rw (read_from, kind_of-safe c e) (read_from-safe s (c ∷ []) rest (ground (arith, h, e)))
  | inr e ↦ absurd (ground (arith, h, e))
]

-- A quoted text, where a word may begin, is read as that text and no more, whatever it holds.
pub read_from-quote :
    (s rest : Text) → read_from Mode.between [] (quote s ++ rest) ≡ read_from Mode.bare s rest
unfolding quote
read_from-quote s rest = elim (Bool-cases (is_empty s || any (λ c. not (is_safe c)) s)) [
  | inl e ↦ rw (e, append_assoc (escape_quotes s) (39 ∷ []) rest) (read_from-opened s rest)
  | inr e ↦ rw e (read_from-plain s rest e)
]
