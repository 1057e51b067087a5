-- ===== src/Snapshot/Archive.antt =====
-- src/kernel/previewSnapshot.ts: the files of an archive, and their hash.
use modular_agentic_system.Base.{
  Bool, true, false, ◌&&◌, List, [], ◌∷◌, ◌++◌, Text, codes, ◌==◌, ltb, nat_eq, take, if◌then◌else◌,
}
use modular_agentic_system.Posix.{slash, skip_slashes}

pub record CapturedFile : Type 0 where
  pub name : Text
  pub content : Text

-- An entry of an archive.
pub record TarEntry : Type 0 where
  pub type_of : Text
  pub path : Text
  pub content : Text

-- `name.replace(/^\.\/+/, '')`
unfoldable pub strip_dot_slash : Text → Text
strip_dot_slash [] = []
strip_dot_slash (a ∷ []) = a ∷ []
strip_dot_slash (a ∷ b ∷ s) = if nat_eq a b'.' && nat_eq b slash then skip_slashes s else a ∷ b ∷ s

abbrev pub captured : Text → Text → List CapturedFile
captured [] content = []
captured (c ∷ name) content = record { name = c ∷ name; content = content } ∷ []

-- `untar`: the files among the entries.
unfoldable pub untar : List TarEntry → List CapturedFile
unfolding strip_dot_slash ◌==◌
untar [] = []
untar (e ∷ es) =
    if e.type_of == codes "file"
    then captured (strip_dot_slash e.path) e.content ++ untar es
    else untar es

-- `a < b` on strings, unit by unit.
unfoldable pub less : Text → Text → Bool
less s [] = false
less [] (y ∷ t) = true
less (x ∷ s) (y ∷ t) = if nat_eq x y then less s t else ltb x y

-- The sort by name keeps the order of equal names.
unfoldable pub insert : CapturedFile → List CapturedFile → List CapturedFile
unfolding less
insert f [] = f ∷ []
insert f (g ∷ gs) = if less g.name f.name then g ∷ insert f gs else f ∷ g ∷ gs

unfoldable pub sort : List CapturedFile → List CapturedFile
unfolding insert
sort [] = []
sort (f ∷ fs) = insert f (sort fs)

-- What the hash is told, update by update.
unfoldable pub updates : List CapturedFile → List Text
updates [] = []
updates (f ∷ fs) = f.name ∷ (0 ∷ []) ∷ f.content ∷ (0 ∷ []) ∷ updates fs

unfoldable pub hash_files : (List Text → Text) → List CapturedFile → Text
unfolding sort updates
hash_files sha256 files = take 24 (sha256 (updates (sort files)))
