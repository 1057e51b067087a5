-- ===== src/Table/Language.antt =====
-- `languageForPath` of apps/next/src/features/canvas/lib/fileParsing.ts: the language of a file, by its name.
use modular_agentic_system.Base.{
  ℕ, suc, List, [], ◌∷◌, Option, none, some, map, Text, codes, ◌==◌, nat_eq, contains, drop,
  text_or, or_else, lower_unit, if◌then◌else◌,
}
use modular_agentic_system.Base.Map
use modular_agentic_system.Base.Map.{Map}

-- The table's own entries.
unfoldable pub lang_by_ext : Map Text
lang_by_ext =
    (codes "ts", codes "typescript")
    ∷ (codes "tsx", codes "tsx")
    ∷ (codes "js", codes "javascript")
    ∷ (codes "jsx", codes "jsx")
    ∷ (codes "mjs", codes "javascript")
    ∷ (codes "cjs", codes "javascript")
    ∷ (codes "json", codes "json")
    ∷ (codes "css", codes "css")
    ∷ (codes "scss", codes "scss")
    ∷ (codes "less", codes "less")
    ∷ (codes "html", codes "html")
    ∷ (codes "xml", codes "xml")
    ∷ (codes "svg", codes "xml")
    ∷ (codes "md", codes "markdown")
    ∷ (codes "mdx", codes "markdown")
    ∷ (codes "py", codes "python")
    ∷ (codes "sh", codes "bash")
    ∷ (codes "bash", codes "bash")
    ∷ (codes "zsh", codes "bash")
    ∷ (codes "yml", codes "yaml")
    ∷ (codes "yaml", codes "yaml")
    ∷ (codes "toml", codes "toml")
    ∷ (codes "ini", codes "ini")
    ∷ (codes "go", codes "go")
    ∷ (codes "rs", codes "rust")
    ∷ (codes "java", codes "java")
    ∷ (codes "kt", codes "kotlin")
    ∷ (codes "swift", codes "swift")
    ∷ (codes "c", codes "c")
    ∷ (codes "h", codes "c")
    ∷ (codes "cpp", codes "cpp")
    ∷ (codes "hpp", codes "cpp")
    ∷ (codes "cs", codes "csharp")
    ∷ (codes "rb", codes "ruby")
    ∷ (codes "php", codes "php")
    ∷ (codes "sql", codes "sql")
    ∷ (codes "graphql", codes "graphql")
    ∷ (codes "gql", codes "graphql")
    ∷ (codes "dockerfile", codes "docker")
    ∷ (codes "env", codes "bash")
    ∷ []

-- What the lookup gives: a language, or what every object has under that name.
pub data Found : Type 0 where
  language : Text → Found
  inherited : (name : Text) → Found

-- The names in small letters that every object has a value for.
abbrev pub object_names : List Text
object_names = codes "constructor" ∷ codes "__proto__" ∷ []

-- Beyond ASCII, the sign of the kelvin is the one unit that lowers to a letter of the table.
abbrev pub lower_letter : ℕ → ℕ
lower_letter c = if nat_eq c 8490 then 107 else lower_unit c

-- `split(separator).pop()`: what follows the last separator.
unfoldable pub after_last : ℕ → Text → Text → Text
after_last separator segment [] = segment
after_last separator segment (c ∷ cs) =
    if nat_eq c separator then after_last separator cs cs else after_last separator segment cs

-- `lastIndexOf('.')`, counted from a place.
unfoldable pub last_dot : ℕ → Text → Option ℕ
last_dot i [] = none
last_dot i (c ∷ cs) =
    let rest = last_dot (suc i) cs in
    elim rest [ some j ↦ some j | none ↦ if nat_eq c b'.' then some i else none ]

unfoldable pub language_of : Text → Found
unfolding lang_by_ext Map.get contains
language_of ext =
    if contains ext object_names
    then inherited ext
    else language (or_else (Map.get ext lang_by_ext) (codes "text"))

unfoldable pub language_for_path : Text → Found
unfolding after_last last_dot language_of ◌==◌
language_for_path path =
    let base = text_or (after_last b'/' path path) path in
    if map lower_letter base == codes "dockerfile"
    then language (codes "docker")
    else elim (last_dot 0 base) [
      | none ↦ language (codes "text")
      | some dot ↦
          if nat_eq dot 0
          then language (codes "text")
          else language_of (map lower_letter (drop (suc dot) base))
    ]
