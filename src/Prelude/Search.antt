-- ===== src/Prelude/Search.antt =====
-- A search of a list after an update of its rows.
use mathlib.Core.Path.{◌≡◌, refl}
use mathlib.Core.Bool.{Bool, true}
use mathlib.Core.Option
use mathlib.Core.Option.{Option, none, some}
use mathlib.Core.List.{List, [], ◌∷◌}
use native.Mathlib.Omega.{arith}
use pressure_platform.Prelude.Tests.{if◌then◌else◌}
use pressure_platform.Prelude.Lists.{find, update_where}

-- A search by a column that an update leaves alone finds the row it found before, updated.
pub find-update_where {ℓ} :
    {A : Type ℓ} (p w : A → Bool) (f : A → A) (xs : List A)
    → ((x : A) → p (f x) ≡ p x)
    → find p (update_where w f xs) ≡ Option.map (λ x. if w x then f x else x) (find p xs)
find-update_where p w f [] h = refl
find-update_where p w f (x ∷ xs) h = ground (arith, h x, find-update_where p w f xs h)

pub find-holds {ℓ} :
    {A : Type ℓ} (p : A → Bool) (xs : List A) (x : A) → find p xs ≡ some x → p x ≡ true
find-holds p [] x h = ground arith
find-holds p (y ∷ ys) x h = ground (arith, find-holds p ys x)

pub find-update_found {ℓ} :
    {A : Type ℓ} (p : A → Bool) (f : A → A) (xs : List A) (x : A)
    → ((x : A) → p (f x) ≡ p x)
    → find p xs ≡ some x
    → find p (update_where p f xs) ≡ some (f x)
find-update_found p f xs x h found =
    ground (arith, find-update_where p p f xs h, find-holds p xs x found)
