-- ===== src/Posix.antt =====
-- Node's `path` on POSIX, as far as src/kernel/previewSnapshot.ts uses it.
pub mod Segments
pub mod Normal
pub mod Below
pub mod Inside
pub mod Names
use mathlib.Core.List.{reverse}
use modular_agentic_system.Base.{
  ℕ, Bool, true, false, not, ◌&&◌, ◌||◌, List, [], ◌∷◌, ◌++◌, Text, codes, ◌==◌, nat_eq, join,
  ends_with, if◌then◌else◌,
}

abbrev pub slash : ℕ
slash = b'/'

abbrev pub cons_head : ℕ → List Text → List Text
cons_head c [] = (c ∷ []) ∷ []
cons_head c (p ∷ ps) = (c ∷ p) ∷ ps

-- `path.split('/')`
unfoldable pub split : Text → List Text
split [] = [] ∷ []
split (c ∷ s) = if nat_eq c slash then [] ∷ split s else cons_head c (split s)

abbrev pub dot : Text
dot = codes "."

abbrev pub up : Text
up = codes ".."

-- The stack of segments has its top at the head. Above the root of a relative path `..` stays.
unfoldable pub pop : Bool → List Text → List Text
unfolding ◌==◌
pop above [] = if above then up ∷ [] else []
pop above (t ∷ ts) = if t == up then up ∷ t ∷ ts else ts

unfoldable pub push : Bool → List Text → Text → List Text
unfolding ◌==◌ pop
push above stack s =
    if s == [] || s == dot then stack else if s == up then pop above stack else s ∷ stack

unfoldable pub push_all : Bool → List Text → List Text → List Text
unfolding push
push_all above stack [] = stack
push_all above stack (s ∷ ss) = push_all above (push above stack s) ss

abbrev pub is_absolute : Text → Bool
is_absolute [] = false
is_absolute (c ∷ _) = nat_eq c slash

-- The segments of a path, and whether a slash stands before and after them.
unfoldable pub render : Bool → Bool → List Text → Text
unfolding join
render true trailing [] = codes "/"
render false true [] = codes "./"
render false false [] = codes "."
render absolute trailing (s ∷ ss) =
    (if absolute then slash ∷ [] else [])
    ++ (join (slash ∷ []) (s ∷ ss) ++ (if trailing then slash ∷ [] else []))

unfoldable pub normalize : Text → Text
unfolding split push_all render ends_with ◌==◌
normalize p =
    render (is_absolute p) (ends_with (slash ∷ []) p)
      (reverse (push_all (not (is_absolute p)) [] (split p)))

abbrev pub both : Text → Text → Text
both [] q = q
both (c ∷ p) [] = c ∷ p
both (c ∷ p) (d ∷ q) = (c ∷ p) ++ slash ∷ d ∷ q

-- `path.join(p, q)`
unfoldable pub join_paths : Text → Text → Text
unfolding normalize
join_paths p q = normalize (both p q)

abbrev pub skip_slashes : Text → Text
skip_slashes [] = []
skip_slashes (c ∷ s) = if nat_eq c slash then skip_slashes s else c ∷ s

abbrev pub skip_name : Text → Text
skip_name [] = []
skip_name (c ∷ s) = if nat_eq c slash then c ∷ s else skip_name s

-- `path.dirname`, of the path read backwards up to the slash before its last name.
abbrev pub parent_of : Bool → Text → Text
parent_of absolute [] = if absolute then codes "/" else dot
parent_of absolute (_ ∷ []) = if absolute then codes "/" else dot
parent_of absolute (_ ∷ c ∷ []) = if absolute then codes "//" else c ∷ []
parent_of absolute (_ ∷ c ∷ d ∷ s) = reverse (c ∷ d ∷ s)

unfoldable pub dirname : Text → Text
dirname p = parent_of (is_absolute p) (skip_name (skip_slashes (reverse p)))

-- The last name of the path read backwards, backwards.
abbrev pub take_name : Text → Text
take_name [] = []
take_name (c ∷ s) = if nat_eq c slash then [] else c ∷ take_name s

abbrev pub extension_from : Text → Text → Text
extension_from seen [] = []
extension_from seen (c ∷ []) = []
extension_from seen (c ∷ d ∷ s) =
    if nat_eq c b'.' then c ∷ seen else extension_from (c ∷ seen) (d ∷ s)

-- `path.extname`; of the name `..` it is empty.
unfoldable pub extname : Text → Text
unfolding ◌==◌
extname p =
    let name = take_name (skip_slashes (reverse p)) in
    if name == up then [] else extension_from [] name
