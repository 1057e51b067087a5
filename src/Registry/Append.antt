-- ===== src/Registry/Append.antt =====
-- The registries of src/registry/index.ts only grow: the first registration of a ref is for good.
use modular_agentic_system.Base.{
  ◌≡◌, refl, List, [], ◌∷◌, ◌++◌, none, some, Text, ◌==◌, eq_iff, or_option, arith, if◌then◌else◌,
  Option-cases, inl, inr,
}
use modular_agentic_system.Base.Map
use modular_agentic_system.Base.Map.{Map}
use modular_agentic_system.Base.Outcome.{Outcome, ok, throws}
use modular_agentic_system.Registry.{Factory, register}

module _ {A : Type 0} where
  keys-set_new :
      (k : Text) (v : Factory A) (m : Map (Factory A))
      → Map.get k m ≡ none
      → Map.keys (Map.set k v m) ≡ Map.keys m ++ (k ∷ [])
  unfolding Map.keys Map.set Map.get
  keys-set_new k v [] h = refl
  keys-set_new k v ((j, w) ∷ m) h = ground (arith, keys-set_new k v m)

  -- A registration that succeeds: the ref was free, it now yields the factory, every other ref
  -- yields what it did, and the listing is extended at its end.
  pub register_lem :
      (seam ref : Text) (factory : Factory A) (m m' : Map (Factory A))
      → register seam ref factory m ≡ ok m'
      → (Map.get ref m ≡ none)
        × ((j : Text) → Map.get j m' ≡ (if ref == j then some factory else Map.get j m))
        × (Map.keys m' ≡ Map.keys m ++ (ref ∷ []))
  unfolding register
  register_lem seam ref factory m m' h = elim (Option-cases (Map.get ref m)) [
    | inl free ↦ (
      free,
      λ j. ground (arith, Map.get-set ref j factory m),
      ground (arith, keys-set_new ref factory m),
    )
    | inr (f, taken) ↦ absurd (ground arith)
  ]

  -- A registration that throws leaves the map as it was.
  abbrev pub kept : Map (Factory A) → Outcome (Map (Factory A)) → Map (Factory A)
  kept m (ok m') = m'
  kept m (throws _) = m

  -- The adapters' registrations at start-up.
  unfoldable pub register_each : Text → List (Text × Factory A) → Map (Factory A) → Map (Factory A)
  register_each seam [] m = m
  register_each seam ((ref, factory) ∷ rest) m =
      register_each seam rest (kept m (register seam ref factory m))

  get-kept :
      (seam ref j : Text) (factory : Factory A) (m : Map (Factory A))
      → Map.get j (kept m (register seam ref factory m))
        ≡ or_option (Map.get j m) (if ref == j then some factory else none)
  unfolding register
  get-kept seam ref j factory m = ground (arith, Map.get-set ref j factory m, eq_iff ref j)

  -- After any list of registrations, in any order and with any repetitions, a ref yields what it
  -- yielded before, and a new ref yields the factory of its first registration.
  pub get-register_each :
      (seam j : Text) (l : List (Text × Factory A)) (m : Map (Factory A))
      → Map.get j (register_each seam l m) ≡ or_option (Map.get j m) (Map.get j l)
  unfolding register_each Map.get
  get-register_each seam j [] m = ground arith
  get-register_each seam j ((ref, factory) ∷ rest) m = ground (
    arith,
    get-register_each seam j rest (kept m (register seam ref factory m)),
    get-kept seam ref j factory m,
  )
