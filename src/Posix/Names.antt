-- ===== src/Posix/Names.antt =====
-- Node's `path.normalize` on POSIX, of paths of names.
use mathlib.Core.List.{reverse, reverse-reverse}
use modular_agentic_system.Base.{
  ◌≡◌, ◌≢◌, refl, ap, ◌∙◌, Bool, true, false, not, List, [], ◌∷◌, ◌++◌, append-nil, Text, nat_eq,
  Bool-cases, inl, inr, join,
}
use modular_agentic_system.Posix.{slash, split, is_absolute, render, normalize, skip_slashes}
use modular_agentic_system.Posix.Segments.{All, IsName, split-ne-nil, join-split, push_all-names}
use modular_agentic_system.Posix.Normal.{IsOrder}
use modular_agentic_system.Posix.Below.{normalize-below, render-below, names_no_slash}
use modular_agentic_system.Posix.Inside.{Directory, append-name-ne-nil}

normalize-render_list :
    (a : Bool) (l : List Text) (name : Text)
    → l ≢ []
    → IsOrder (not a) l
    → All IsName (split name)
    → normalize (render a false l ++ slash ∷ name) ≡ render a false l ++ slash ∷ name
normalize-render_list a [] name n h k = absurd (n refl)
normalize-render_list a (s ∷ ss) name n h k =
    normalize-below a false s ss name h k
    ∙ render-below a s ss (split name) (split-ne-nil name)
    ∙ ap (λ u. render a false (s ∷ ss) ++ slash ∷ u) (join-split name)

-- A path of names below a directory is in normal form.
pub normalize_in-Directory :
    {base : Text} (d : Directory base) (name : Text)
    → All IsName (split name)
    → normalize (base ++ slash ∷ name) ≡ base ++ slash ∷ name
normalize_in-Directory d name k =
    rw (d.path)
      (normalize-render_list d.absolute _ name (append-name-ne-nil d.front d.name) d.order k)

pub names_are_relative : (name : Text) → All IsName (split name) → is_absolute name ≡ false
unfolding split
names_are_relative [] h = refl
names_are_relative (c ∷ s) h = elim (Bool-cases (nat_eq c slash)) [
  | inr e ↦ e
  | inl e ↦ absurd (first_blank (split s) (rw e at h))
]
  where
    first_blank : (l : List Text) → All IsName ([] ∷ l) → ⊥
    first_blank l ((n, _, _, _), _) = n refl

render_names : (l : List Text) → l ≢ [] → render false false l ≡ join (slash ∷ []) l
unfolding render
render_names [] n = absurd (n refl)
render_names (s ∷ ss) n = append-nil (join (slash ∷ []) (s ∷ ss))

-- A relative path of names is in normal form.
pub normalize_names : (name : Text) → All IsName (split name) → normalize name ≡ name
unfolding normalize
normalize_names name h =
    rw (names_are_relative name h, names_no_slash name h)
      (ap (λ st. render false false (reverse st)) (push_all-names true (split name) [] h)
        ∙ ap (render false false) (reverse-reverse (split name))
        ∙ render_names (split name) (split-ne-nil name)
        ∙ join-split name)

-- Such a path has no slash to strip.
pub skip_slashes_names : (name : Text) → All IsName (split name) → skip_slashes name ≡ name
skip_slashes_names [] h = refl
skip_slashes_names (c ∷ s) h = rw (names_are_relative (c ∷ s) h) refl
