-- ===== src/Posix/Inside.antt =====
-- Node's `path.join` on POSIX: paths that do not leave a directory.
use mathlib.Core.List.{reverse, reverse-cons}
use modular_agentic_system.Base.{
  ◌≡◌, ◌≢◌, ◌⊎◌, inl, inr, refl, sym, ap, subst, ◌∙◌, Bool, true, false, not, List, [], ◌∷◌, ◌++◌,
  append_assoc, append-nil, Text, ends_with,
}
use modular_agentic_system.Posix.{
  slash, split, dot, push_all, is_absolute, render, normalize, both, join_paths,
}
use modular_agentic_system.Posix.Segments.{
  All, IsName, NotUp, split-append, split-name, push_all-append, push_all-names,
}
use modular_agentic_system.Posix.Normal.{
  IsOrder, segments, segments-IsOrder, order-NoSlash, split-render, blank_if, Settled,
  normalize-Settled, Settled-after,
}
use modular_agentic_system.Posix.Below.{
  below_no_slash, names_no_slash, join_paths-below, render_trailing,
}

-- `p` is a path below `base`, and does not come out of it again.
abbrev pub Inside : Text → Text → Type 0
Inside base p = (rest : Text) × (p ≡ base ++ slash ∷ rest) × All NotUp (split rest)

-- A directory in normal form: its path, segment by segment, and the name that it ends in.
pub record Directory (base : Text) : Type 0 where
  pub absolute : Bool
  pub front : List Text
  pub name : Text
  pub name_lem : IsName name
  pub order : IsOrder (not absolute) (front ++ name ∷ [])
  pub path : base ≡ render absolute false (front ++ name ∷ [])

-- The segments of the root.
abbrev roots : Text → List Text
roots [] = []
roots (c ∷ root) = split (c ∷ root)

split-both : (root id : Text) → IsName id → split (both root id) ≡ roots root ++ id ∷ []
split-both [] id (_, _, _, n) = split-name id n
split-both (c ∷ root) [] (n, _, _, _) = absurd (n refl)
split-both (c ∷ root) (d ∷ id) (_, _, _, n) =
    split-append (c ∷ root) (d ∷ id) ∙ ap (λ l. split (c ∷ root) ++ l) (split-name (d ∷ id) n)

name_names : (id : Text) → IsName id → All IsName (split id)
name_names id (a, b, c, n) = rw (split-name id n) ((a, b, c, n), tt)

both_no_slash : (root id : Text) → IsName id → ends_with (slash ∷ []) (both root id) ≡ false
both_no_slash [] id h = names_no_slash id (name_names id h)
both_no_slash (c ∷ root) [] (n, _, _, _) = absurd (n refl)
both_no_slash (c ∷ root) (d ∷ id) h = below_no_slash (c ∷ root) (d ∷ id) (name_names (d ∷ id) h)

abbrev front_of : Text → Text → List Text
front_of root id = reverse (push_all (not (is_absolute (both root id))) [] (roots root))

segments-both : (root id : Text) → IsName id → segments (both root id) ≡ front_of root id ++ id ∷ []
segments-both root id h =
    let above = not (is_absolute (both root id)) in
    ap (λ l. reverse (push_all above [] l)) (split-both root id h)
    ∙ ap reverse (
        push_all-append above (roots root) (id ∷ []) []
        ∙ push_all-names above (id ∷ []) (push_all above [] (roots root)) (h, tt))
    ∙ reverse-cons id (push_all above [] (roots root))

pub join_paths-Directory : (root id : Text) → IsName id → Directory (join_paths root id)
unfolding join_paths normalize
join_paths-Directory root id h = record {
  absolute = is_absolute (both root id);
  front = front_of root id;
  name = id;
  name_lem = h;
  order =
      subst (IsOrder (not (is_absolute (both root id)))) (segments-both root id h)
        (segments-IsOrder (both root id));
  path =
      rw (both_no_slash root id h)
        (ap (render (is_absolute (both root id)) false) (segments-both root id h));
}

pub append-name-ne-nil : (front : List Text) (name : Text) → front ++ name ∷ [] ≢ []
append-name-ne-nil [] name = cc
append-name-ne-nil (s ∷ front) name = cc

split-render_list :
    (a : Bool) (l : List Text)
    → l ≢ []
    → IsOrder (not a) l
    → split (render a false l) ≡ blank_if a ++ l
split-render_list a [] n h = absurd (n refl)
split-render_list a (s ∷ ss) n h =
    split-render a false s ss (order-NoSlash (not a) (s ∷ ss) h)
    ∙ ap (λ l. blank_if a ++ l) (append-nil (s ∷ ss))

-- What is left of a path that has no name.
abbrev IsDull : Text → Type 0
IsDull s = (s ≡ []) ⊎ (s ≡ dot)

root-IsDull : (a t : Bool) → All IsDull (split (render a t []))
unfolding render split
root-IsDull true t = (inl refl, (inl refl, tt))
root-IsDull false true = (inr refl, (inl refl, tt))
root-IsDull false false = (inr refl, tt)

name-dull :
    (xs : List Text) (n : Text) (ys : List Text) → IsName n → All IsDull ((xs ++ n ∷ []) ++ ys) → ⊥
name-dull [] n ys (a, b, _, _) (inl e, _) = a e
name-dull [] n ys (a, b, _, _) (inr e, _) = b e
name-dull (x ∷ xs) n ys h (_, k) = name-dull xs n ys h k

module _ {base : Text} (d : Directory base) where
  split-directory : split base ≡ (blank_if d.absolute ++ d.front) ++ d.name ∷ []
  split-directory =
      ap split d.path
      ∙ split-render_list d.absolute _ (append-name-ne-nil d.front d.name) d.order
      ∙ sym (append_assoc (blank_if d.absolute) d.front (d.name ∷ []))

  -- A path in normal form that begins with the directory and a slash is inside the directory.
  pub normalize-Inside :
      (q rest : Text) → normalize q ≡ base ++ slash ∷ rest → Inside base (normalize q)
  normalize-Inside q rest e =
      let (_, _, not_up, _) = d.name_lem in
      (
        rest,
        e,
        Settled-after (blank_if d.absolute ++ d.front) d.name (split rest) not_up (
            subst Settled
              (ap split e ∙ split-append base rest ∙ ap (λ l. l ++ split rest) split-directory)
              (normalize-Settled q)),
      )

  join_paths-render_list :
      (a : Bool) (l : List Text) (name : Text)
      → l ≢ []
      → IsOrder (not a) l
      → All IsName (split name)
      → join_paths (render a false l) name ≡ render a false l ++ slash ∷ name
  join_paths-render_list a [] name n h k = absurd (n refl)
  join_paths-render_list a (s ∷ ss) name n h k = join_paths-below a false s ss name h k

  -- A path of names joined to the directory is the two with a slash between them.
  pub join_paths_names :
      (name : Text) → All IsName (split name) → join_paths base name ≡ base ++ slash ∷ name
  join_paths_names name k =
      rw (d.path)
        (join_paths-render_list d.absolute _ name (append-name-ne-nil d.front d.name) d.order k)

  index_list :
      (a t : Bool) (l : List Text) (rest name : Text)
      → render a t l ≡ base ++ slash ∷ rest
      → IsOrder (not a) l
      → All IsName (split name)
      → (rest' : Text) × (join_paths (render a t l) name ≡ base ++ slash ∷ rest')
  index_list a t [] rest name e h k = absurd (
      name-dull (blank_if d.absolute ++ d.front) d.name (split rest) d.name_lem (
        subst (All IsDull)
          (ap split e ∙ split-append base rest ∙ ap (λ l. l ++ split rest) split-directory)
          (root-IsDull a t)))
  index_list a false (s ∷ ss) rest name e h k = (
    rest ++ slash ∷ name,
    join_paths-below a false s ss name h k
        ∙ ap (λ p. p ++ slash ∷ name) e
        ∙ append_assoc base (slash ∷ rest) (slash ∷ name),
  )
  index_list a true (s ∷ ss) rest name e h k = (
    rest ++ name,
    join_paths-below a true s ss name h k
        ∙ sym (append_assoc (render a false (s ∷ ss)) (slash ∷ []) name)
        ∙ ap (λ p. p ++ name) (sym (render_trailing a s ss) ∙ e)
        ∙ append_assoc base (slash ∷ rest) name,
  )

  index_normalize :
      (q rest name : Text)
      → normalize q ≡ base ++ slash ∷ rest
      → All IsName (split name)
      → (rest' : Text) × (join_paths (normalize q) name ≡ base ++ slash ∷ rest')
  unfolding normalize
  index_normalize q rest name e k =
      index_list (is_absolute q) _ (segments q) rest name e (segments-IsOrder q) k

  -- A file of a path inside the directory is inside the directory.
  pub join_paths-Inside :
      (q rest name : Text)
      → normalize q ≡ base ++ slash ∷ rest
      → All IsName (split name)
      → Inside base (join_paths (normalize q) name)
  unfolding join_paths
  join_paths-Inside q rest name e k =
      let (rest', f) = index_normalize q rest name e k in
      normalize-Inside (both (normalize q) name) rest' f
