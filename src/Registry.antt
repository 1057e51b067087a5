-- ===== src/Registry.antt =====
-- src/registry/index.ts: the append-only registries of harnesses, environments, tools and skills,
-- and the kit of one run. A factory is what calling it yields: a value, or an exception's message.
pub mod Append
pub mod Kit
use modular_agentic_system.Base.{
  ℕ, Bool, true, false, List, [], ◌∷◌, ◌++◌, Option, none, some, Text, codes, join, if◌then◌else◌,
}
use modular_agentic_system.Base.Map
use modular_agentic_system.Base.Map.{Map}
use modular_agentic_system.Base.Outcome.{Outcome, ok, throws, ◌>>=◌}

-- What the kernel reads of a tool and of a skill.
pub record ToolSpec : Type 0 where
  pub ref : Text
  pub description : Text

pub record SkillSpec : Type 0 where
  pub ref : Text
  pub instructions : Text

abbrev pub Factory : Type 0 → Type 0
Factory A = Outcome A

unfoldable pub unknown_ref : Text → Text → List Text → Text
unknown_ref seam ref known =
    codes "Unknown "
    ++ (seam
        ++ (codes " ref \""
            ++ (ref ++ (codes "\". Known: [" ++ (join (codes ", ") known ++ codes "]")))))

unfoldable pub already_registered : Text → Text → Text
already_registered seam ref =
    seam
    ++ (codes " ref \"" ++ (ref ++ codes "\" already registered (registries are append-only)."))

-- The four seams have one shape: `seam` is the word that the messages name it by.
module _ {A : Type 0} where
  unfoldable pub register : Text → Text → Factory A → Map (Factory A) → Outcome (Map (Factory A))
  register seam ref factory m =
      if Map.has ref m then throws (already_registered seam ref) else ok (Map.set ref factory m)

  unfoldable pub resolve : Text → Text → Map (Factory A) → Outcome A
  resolve seam ref m = elim (Map.get ref m) [
    | none ↦ throws (unknown_ref seam ref (Map.keys m))
    | some factory ↦ factory
  ]

  unfoldable pub resolve_all : Text → List Text → Map (Factory A) → Outcome (List A)
  unfolding resolve
  resolve_all seam [] m = ok []
  resolve_all seam (ref ∷ refs) m = do
    a ← resolve seam ref m
    rest ← resolve_all seam refs m
    ok (a ∷ rest)

pub record ToolKit : Type 0 where
  pub tools : List ToolSpec
  pub skills : List SkillSpec
  pub native_tool_refs : List Text
  pub native_skill_refs : List Text

-- `new Map(resolvedTools.map((t) => [t.ref, t]))`
unfoldable pub by_ref_map : List ToolSpec → Map ToolSpec → Map ToolSpec
by_ref_map [] m = m
by_ref_map (t ∷ ts) m = by_ref_map ts (Map.set t.ref t m)

unfoldable pub by_ref : ToolKit → Text → Option ToolSpec
unfolding by_ref_map
by_ref kit ref = Map.get ref (by_ref_map kit.tools [])

unfoldable pub instructions_of : List SkillSpec → List Text
instructions_of [] = []
instructions_of (s ∷ ss) = s.instructions ∷ instructions_of ss

abbrev pub separator : Text
separator = 10 ∷ 10 ∷ 45 ∷ 45 ∷ 45 ∷ 10 ∷ 10 ∷ []

abbrev pub base_parts : Option Text → List Text
base_parts none = []
base_parts (some []) = []
base_parts (some (c ∷ cs)) = (c ∷ cs) ∷ []

unfoldable pub system_preamble : ToolKit → Option Text → Text
unfolding instructions_of
system_preamble kit base = join separator (base_parts base ++ instructions_of kit.skills)

unfoldable pub build_kit :
    Map (Factory ToolSpec)
    → Map (Factory SkillSpec)
    → (tool_refs skill_refs native_tool_refs native_skill_refs : List Text) → Outcome ToolKit
build_kit tools skills tool_refs skill_refs native_tool_refs native_skill_refs = do
  resolved_tools ← resolve_all (codes "tool") tool_refs tools
  resolved_skills ← resolve_all (codes "skill") skill_refs skills
  ok (record {
    tools = resolved_tools;
    skills = resolved_skills;
    native_tool_refs = native_tool_refs;
    native_skill_refs = native_skill_refs;
  })
