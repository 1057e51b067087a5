-- ===== src/Base/Totals.antt =====
-- Sums over the values of a map, and maps that hold each key once.
use modular_agentic_system.Base.Strings.{Text, eq_iff}
use modular_agentic_system.Base.Map
use modular_agentic_system.Base.Map.{Map}
use Prim.Native.Nat.{ℕ, ◌+◌}
use mathlib.Core.Path.{◌≡◌, refl}
use mathlib.Core.List.{[], ◌∷◌}
use mathlib.Core.Option.{Option, none, some}
use native.Mathlib.Omega.{arith}

module _ {V : Type 0} where
  abbrev pub at_option : (V → ℕ) → Option V → ℕ
  at_option f none = 0
  at_option f (some v) = f v

  abbrev pub total : (V → ℕ) → Map V → ℕ
  total f [] = 0
  total f ((k, v) ∷ m) = f v + total f m

  -- Each key stands once.
  abbrev pub IsDistinct : Map V → Type 0
  IsDistinct [] = Unit {0}
  IsDistinct ((k, v) ∷ m) = (Map.get k m ≡ none) × IsDistinct m

  pub total-set :
      (f : V → ℕ) (k : Text) (v : V) (m : Map V)
      → total f (Map.set k v m) + at_option f (Map.get k m) ≡ total f m + f v
  unfolding Map.set Map.get
  total-set f k v [] = ground arith
  total-set f k v ((j, w) ∷ m) = ground (arith, total-set f k v m)

  delete_absent : (k : Text) (m : Map V) → Map.get k m ≡ none → Map.delete k m ≡ m
  unfolding Map.delete Map.get
  delete_absent k [] h = refl
  delete_absent k ((j, w) ∷ m) h = ground (arith, delete_absent k m)

  pub total-delete :
      (f : V → ℕ) (k : Text) (m : Map V)
      → IsDistinct m
      → total f (Map.delete k m) + at_option f (Map.get k m) ≡ total f m
  unfolding Map.delete Map.get
  total-delete f k [] d = ground arith
  total-delete f k ((j, w) ∷ m) d =
      ground (arith, total-delete f k m d.1, delete_absent k m, eq_iff j k)

  pub set-IsDistinct : (k : Text) (v : V) (m : Map V) → IsDistinct m → IsDistinct (Map.set k v m)
  unfolding Map.set
  set-IsDistinct k v [] d = (unfold Map.get in refl, tt)
  set-IsDistinct k v ((j, w) ∷ m) d =
      ground (arith, set-IsDistinct k v m d.1, Map.get-set k j v m, eq_iff j k, eq_iff k j)

  pub delete-IsDistinct : (k : Text) (m : Map V) → IsDistinct m → IsDistinct (Map.delete k m)
  unfolding Map.delete
  delete-IsDistinct k [] d = tt
  delete-IsDistinct k ((j, w) ∷ m) d =
      ground (arith, delete-IsDistinct k m d.1, Map.get-delete k j m, eq_iff j k, eq_iff k j)
