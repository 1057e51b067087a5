-- ===== src/Base/Strings.antt =====
-- JavaScript strings: lists of UTF-16 code units, compared unit by unit.
use Prim.Native.Nat.{ℕ, ◌+◌}
use Prim.Native.Char.{code}
use Prim.Native.String.{String}
use mathlib.Core.Path.{◌≡◌, refl}
use mathlib.Core.Logic.{◌↔◌}
use mathlib.Core.Bool.{Bool, true, false, ◌&&◌, ◌||◌}
use mathlib.Core.List.{List, [], ◌∷◌, ◌++◌}
use mathlib.Core.Option.{Option, none, some}
use native.Mathlib.Omega.{arith}
use modular_agentic_system.Base.Tests.{nat_eq, leb, if◌then◌else◌}

abbrev pub Text : Type 0
Text = List ℕ

-- The units of an ASCII literal.
abbrev pub codes : String → Text
codes String.[] = []
codes (String.◌∷◌ c s) = code c ∷ codes s

infix 50 ◌==◌
unfoldable pub ◌==◌ : Text → Text → Bool
[] == [] = true
(x ∷ xs) == (y ∷ ys) = nat_eq x y && xs == ys
[] == (_ ∷ _) = false
(_ ∷ _) == [] = false

eq_sound : (a b : Text) → (a == b) ≡ true → a ≡ b
unfolding ◌==◌
eq_sound [] [] h = refl
eq_sound [] (y ∷ ys) h = cc
eq_sound (x ∷ xs) [] h = cc
eq_sound (x ∷ xs) (y ∷ ys) h = ground (arith, eq_sound xs ys)

pub eq_refl : (a : Text) → (a == a) ≡ true
unfolding ◌==◌
eq_refl [] = refl
eq_refl (x ∷ xs) = ground (arith, eq_refl xs)

pub eq_iff : (a b : Text) → ((a == b) ≡ true) ↔ (a ≡ b)
eq_iff a b = (eq_sound a b, λ e. rw e (eq_refl b))

unfoldable pub contains : Text → List Text → Bool
contains k [] = false
contains k (x ∷ xs) = x == k || contains k xs

-- What `if (s)` tests: a string is truthy when it is there and not empty.
abbrev pub truthy_text : Text → Bool
truthy_text [] = false
truthy_text (_ ∷ _) = true

abbrev pub truthy : Option Text → Bool
truthy none = false
truthy (some s) = truthy_text s

-- `a || b` on strings.
abbrev pub text_or : Text → Text → Text
text_or [] b = b
text_or (x ∷ xs) b = x ∷ xs

-- `parts.join(sep)`
unfoldable pub join : Text → List Text → Text
join sep [] = []
join sep (p ∷ []) = p
join sep (p ∷ q ∷ ps) = p ++ (sep ++ join sep (q ∷ ps))

-- `s.startsWith(p)`
unfoldable pub starts_with : Text → Text → Bool
starts_with [] s = true
starts_with (x ∷ p) [] = false
starts_with (x ∷ p) (y ∷ s) = nat_eq x y && starts_with p s

-- `s.endsWith(p)`
unfoldable pub ends_with : Text → Text → Bool
ends_with p [] = p == []
ends_with p (y ∷ s) = p == y ∷ s || ends_with p s

-- `toLowerCase` on the ASCII letters, which is what a regular expression's flag `i` compares by.
abbrev pub lower_unit : ℕ → ℕ
lower_unit c = if leb b'A' c && leb c b'Z' then c + 32 else c
