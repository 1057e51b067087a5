-- ===== src/Registry/Kit.antt =====
-- What `buildKit` of src/registry/index.ts resolves.
use modular_agentic_system.Base.{
  ◌≡◌, refl, ◌↔◌, List, [], ◌∷◌, ◌++◌, Option, none, some, Text, codes, eq_iff, contains, arith,
  if◌then◌else◌, inl, inr, ap,
}
use modular_agentic_system.Base.Map
use modular_agentic_system.Base.Map.{Map}
use modular_agentic_system.Base.Outcome.{Outcome, ok, throws, Outcome-cases}
use modular_agentic_system.Registry.{
  Factory, ToolSpec, SkillSpec, ToolKit, resolve, resolve_all, by_ref_map, by_ref, build_kit,
}

abbrev pub value : {A : Type 0} → Outcome A → Option A
value (ok a) = some a
value (throws m) = none

module _ {A : Type 0} (seam : Text) (m : Map (Factory A)) where
  -- The values stand for the refs, one for one and in order.
  abbrev pub Resolves : List Text → List A → Type 0
  Resolves [] [] = Unit {0}
  Resolves [] (_ ∷ _) = ⊥
  Resolves (_ ∷ _) [] = ⊥
  Resolves (r ∷ rs) (a ∷ as') = (resolve seam r m ≡ ok a) × Resolves rs as'

  resolve_all_cons :
      (r : Text) (rs : List Text) (as' : List A)
      → resolve_all seam (r ∷ rs) m ≡ ok as'
      → (a : A) × (rest : List A) × (resolve seam r m ≡ ok a)
        × (resolve_all seam rs m ≡ ok rest)
        × (as' ≡ a ∷ rest)
  unfolding resolve_all
  resolve_all_cons r rs as' h = elim (Outcome-cases (resolve seam r m)) [
    | inl (a, e) ↦ elim (Outcome-cases (resolve_all seam rs m)) [
      | inl (rest, f) ↦ (a, rest, e, f, ground arith)
      | inr (msg, f) ↦ absurd (ground arith)
    ]
    | inr (msg, e) ↦ absurd (ground arith)
  ]

  resolve_all-Resolves :
      (refs : List Text) (as' : List A) → resolve_all seam refs m ≡ ok as' → Resolves refs as'
  resolve_all-Resolves [] [] h = tt
  resolve_all-Resolves [] (a ∷ as') h = unfold resolve_all in cc
  resolve_all-Resolves (r ∷ rs) [] h = let (a, rest, e, f, q) = resolve_all_cons r rs [] h in cc
  resolve_all-Resolves (r ∷ rs) (b ∷ bs) h =
      let (a, rest, e, f, q) = resolve_all_cons r rs (b ∷ bs) h in
      (ground arith, resolve_all-Resolves rs bs (ground arith))

  Resolves-resolve_all :
      (refs : List Text) (as' : List A) → Resolves refs as' → resolve_all seam refs m ≡ ok as'
  unfolding resolve_all
  Resolves-resolve_all [] [] h = refl
  Resolves-resolve_all [] (a ∷ as') h = absurd h
  Resolves-resolve_all (r ∷ rs) [] h = absurd h
  Resolves-resolve_all (r ∷ rs) (b ∷ bs) h = rw (h.0, Resolves-resolve_all rs bs h.1)

  -- The refs before the one that fails resolve, and that one's message is thrown.
  pub resolve_all-throws :
      (refs : List Text) (msg : Text)
      → resolve_all seam refs m ≡ throws msg
      → (pre : List Text) × (bad : Text) × (post : List Text) × (done : List A) × (refs
          ≡ pre ++ (bad ∷ post))
        × Resolves pre done
        × (resolve seam bad m ≡ throws msg)
  unfolding resolve_all
  resolve_all-throws [] msg h = cc
  resolve_all-throws (r ∷ rs) msg h = elim (Outcome-cases (resolve seam r m)) [
    | inl (a, e) ↦
        let (pre, bad, post, done, p, q, f) =
          resolve_all-throws rs msg (elim (Outcome-cases (resolve_all seam rs m)) [
            | inl (rest, g) ↦ absurd (ground arith)
            | inr (msg', g) ↦ ground arith
          ]) in
        (r ∷ pre, bad, post, a ∷ done, ap (λ (l : List Text). r ∷ l) p, (e, q), f)
    | inr (msg', e) ↦ ([], r, rs, [], refl, tt, ground arith)
  ]

-- A kit is built exactly when every external ref resolves; its tools and skills are then what the
-- refs resolve to, one for one and in the order of the request, and the native refs are passed
-- through as they are.
pub build_kit_iff :
    (tools : Map (Factory ToolSpec)) (skills : Map (Factory SkillSpec))
    (tool_refs skill_refs native_tool_refs native_skill_refs : List Text) (kit : ToolKit)
    → (build_kit tools skills tool_refs skill_refs native_tool_refs native_skill_refs ≡ ok kit) ↔ (
        Resolves (codes "tool") tools tool_refs kit.tools
        × Resolves (codes "skill") skills skill_refs kit.skills
        × (kit.native_tool_refs ≡ native_tool_refs)
        × (kit.native_skill_refs ≡ native_skill_refs))
unfolding build_kit
build_kit_iff tools skills tool_refs skill_refs nt ns kit = (
  λ h. elim (Outcome-cases (resolve_all (codes "tool") tool_refs tools)) [
    | inl (ts, e) ↦ elim (Outcome-cases (resolve_all (codes "skill") skill_refs skills)) [
      | inl (ss, f) ↦ (
        resolve_all-Resolves (codes "tool") tools tool_refs kit.tools (ground arith),
        resolve_all-Resolves (codes "skill") skills skill_refs kit.skills (ground arith),
        ground arith,
        ground arith,
      )
      | inr (msg, f) ↦ absurd (ground arith)
    ]
    | inr (msg, e) ↦ absurd (ground arith)
  ],
  λ h. rw (
    Resolves-resolve_all (codes "tool") tools tool_refs kit.tools h.0,
    Resolves-resolve_all (codes "skill") skills skill_refs kit.skills h.1,
    ← h.2,
    ← h.3,
  ),
)

-- Every registered tool carries the ref that it is registered under.
abbrev pub IsNamed : Map (Factory ToolSpec) → Type 0
IsNamed tools = (r : Text) (t : ToolSpec) → resolve (codes "tool") r tools ≡ ok t → t.ref ≡ r

get-by_ref_map :
    (tools : Map (Factory ToolSpec)) (named : IsNamed tools) (refs : List Text) (ts : List ToolSpec)
    (j : Text) (m : Map ToolSpec)
    → Resolves (codes "tool") tools refs ts
    → Map.get j (by_ref_map ts m)
      ≡ (if contains j refs then value (resolve (codes "tool") j tools) else Map.get j m)
unfolding by_ref_map contains
get-by_ref_map tools named [] [] j m h = refl
get-by_ref_map tools named [] (t ∷ ts) j m h = absurd h
get-by_ref_map tools named (r ∷ rs) [] j m h = absurd h
get-by_ref_map tools named (r ∷ rs) (t ∷ ts) j m h = ground (
  arith,
  get-by_ref_map tools named rs ts j (Map.set t.ref t m) h.1,
  Map.get-set t.ref j t m,
  named r t h.0,
  eq_iff r j,
  h.0,
)

-- Where every tool carries the ref that it is registered under: `byRef` of a kit that was built
-- finds, for each ref of the external request, the tool that the ref resolves to, and nothing for
-- any other ref.
pub by_ref-build_kit :
    (tools : Map (Factory ToolSpec)) (skills : Map (Factory SkillSpec))
    (tool_refs skill_refs native_tool_refs native_skill_refs : List Text) (kit : ToolKit) (j : Text)
    → IsNamed tools
    → build_kit tools skills tool_refs skill_refs native_tool_refs native_skill_refs ≡ ok kit
    → by_ref kit j ≡ (if contains j tool_refs then value (resolve (codes "tool") j tools) else none)
unfolding by_ref
by_ref-build_kit tools skills tr sr nt ns kit j named h =
    rw
      (get-by_ref_map tools named tr kit.tools j []
        ((build_kit_iff tools skills tr sr nt ns kit).0 h).0)
      (ap
        (λ (d : Option ToolSpec).
          if contains j tr then value (resolve (codes "tool") j tools) else d)
        (unfold Map.get in refl))
