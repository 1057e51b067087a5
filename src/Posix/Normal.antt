-- ===== src/Posix/Normal.antt =====
-- Node's `path.normalize` and `path.join` on POSIX: where `..` can stand, and paths below a directory.
use mathlib.Core.List.{reverse, reverse_aux}
use modular_agentic_system.Base.{
  ◌≡◌, ◌≢◌, ◌⊎◌, inl, inr, refl, sym, ap, ◌∙◌, Bool, true, false, not, List, [], ◌∷◌, ◌++◌,
  append-nil, Text, ◌==◌, eq_iff, join, if◌then◌else◌, arith, Bool-cases,
}
use modular_agentic_system.Posix.{
  slash, split, dot, up, pop, push, push_all, is_absolute, render, normalize,
}
use modular_agentic_system.Posix.Segments.{
  All, NoSlash, IsName, NotUp, All-append, IsName-NotUp, split-append, NoSlash-split, split-join,
}

abbrev pub AllUp : List Text → Type 0
AllUp = All (λ s. s ≡ up)

-- Names on top, and below them `..`, which only a relative path can have.
abbrev IsStack : Bool → List Text → Type 0
IsStack above [] = Unit
IsStack above (t ∷ ts) = (IsName t × IsStack above ts) ⊎ ((t ≡ up) × (above ≡ true) × AllUp ts)

-- The same from the front: first `..`, then names.
abbrev pub IsOrder : Bool → List Text → Type 0
IsOrder above [] = Unit
IsOrder above (s ∷ ss) = All IsName (s ∷ ss) ⊎ ((s ≡ up) × (above ≡ true) × IsOrder above ss)

pop-IsStack : (above : Bool) (st : List Text) → IsStack above st → IsStack above (pop above st)
unfolding pop
pop-IsStack true [] h = inr (refl, refl, tt)
pop-IsStack false [] h = tt
pop-IsStack above (t ∷ ts) (inl ((a, b, c, d), hs)) =
    rw (let e : (t == up) ≡ false = ground (arith, eq_iff t up) in e) hs
pop-IsStack above (t ∷ ts) (inr (u, a, hs)) =
    rw (let e : (t == up) ≡ true = ground (arith, eq_iff t up) in e) (inr (refl, a, (u, hs)))

push-IsStack :
    (above : Bool) (st : List Text) (s : Text)
    → NoSlash s
    → IsStack above st
    → IsStack above (push above st s)
unfolding push
push-IsStack above st s n h = elim (Bool-cases (s == [])) [
  | inl e ↦ rw e h
  | inr e ↦ elim (Bool-cases (s == dot)) [
    | inl f ↦ rw (e, f) h
    | inr f ↦ elim (Bool-cases (s == up)) [
      | inl g ↦ rw (e, f, g) (pop-IsStack above st h)
      | inr g ↦
          rw (e, f, g)
            (inl (
              (
                ground (arith, eq_iff s []),
                ground (arith, eq_iff s dot),
                ground (arith, eq_iff s up),
                n,
              ),
              h,
            ))
    ]
  ]
]

push_all-IsStack :
    (above : Bool) (ss st : List Text)
    → All NoSlash ss
    → IsStack above st
    → IsStack above (push_all above st ss)
unfolding push_all
push_all-IsStack above [] st n h = h
push_all-IsStack above (s ∷ ss) st (n, ns) h =
    push_all-IsStack above ss (push above st s) ns (push-IsStack above st s n h)

names-IsOrder : (above : Bool) (ss : List Text) → All IsName ss → IsOrder above ss
names-IsOrder above [] h = tt
names-IsOrder above (s ∷ ss) h = inl h

ups-IsOrder :
    (above : Bool) (st acc : List Text)
    → above ≡ true
    → AllUp st
    → IsOrder above acc
    → IsOrder above (reverse_aux st acc)
ups-IsOrder above [] acc a u h = h
ups-IsOrder above (t ∷ ts) acc a (u, us) h = ups-IsOrder above ts (t ∷ acc) a us (inr (u, a, h))

reverse-IsOrder :
    (above : Bool) (st acc : List Text)
    → IsStack above st
    → All IsName acc
    → IsOrder above (reverse_aux st acc)
reverse-IsOrder above [] acc h n = names-IsOrder above acc n
reverse-IsOrder above (t ∷ ts) acc (inl (m, h)) n = reverse-IsOrder above ts (t ∷ acc) h (m, n)
reverse-IsOrder above (t ∷ ts) acc (inr (u, a, us)) n =
    ups-IsOrder above ts (t ∷ acc) a us (inr (u, a, names-IsOrder above acc n))

-- The segments that are left of a path.
abbrev pub segments : Text → List Text
segments p = reverse (push_all (not (is_absolute p)) [] (split p))

pub segments-IsOrder : (p : Text) → IsOrder (not (is_absolute p)) (segments p)
segments-IsOrder p =
    reverse-IsOrder (not (is_absolute p)) _ []
      (push_all-IsStack (not (is_absolute p)) (split p) [] (NoSlash-split p) tt) tt

up-NoSlash : (s : Text) → s ≡ up → NoSlash s
up-NoSlash s e = rw e (omega arith)

pub names-NoSlash : (ss : List Text) → All IsName ss → All NoSlash ss
names-NoSlash [] h = tt
names-NoSlash (s ∷ ss) ((_, _, _, n), h) = (n, names-NoSlash ss h)

pub order-NoSlash : (above : Bool) (ss : List Text) → IsOrder above ss → All NoSlash ss
order-NoSlash above [] h = tt
order-NoSlash above (s ∷ ss) (inl h) = names-NoSlash (s ∷ ss) h
order-NoSlash above (s ∷ ss) (inr (u, _, h)) = (up-NoSlash s u, order-NoSlash above ss h)

abbrev pub blank_if : Bool → List Text
blank_if b = if b then [] ∷ [] else []

split-join_end :
    (t : Bool) (s : Text) (ss : List Text)
    → All NoSlash (s ∷ ss)
    → split (join (slash ∷ []) (s ∷ ss) ++ (if t then slash ∷ [] else [])) ≡ (s ∷ ss) ++ blank_if t
split-join_end true s ss h =
    split-append (join (slash ∷ []) (s ∷ ss)) [] ∙ rw (split-join s ss h) (unfold split in refl)
split-join_end false s ss h =
    ap split (append-nil (join (slash ∷ []) (s ∷ ss)))
    ∙ split-join s ss h
    ∙ sym (append-nil (s ∷ ss))

pub split-render :
    (a t : Bool) (s : Text) (ss : List Text)
    → All NoSlash (s ∷ ss)
    → split (render a t (s ∷ ss)) ≡ blank_if a ++ ((s ∷ ss) ++ blank_if t)
unfolding render
split-render true t s ss h = unfold split in ap (λ l. [] ∷ l) (split-join_end t s ss h)
split-render false t s ss h = split-join_end t s ss h

-- After a segment that is not `..`, no `..` follows.
abbrev pub Settled : List Text → Type 0
Settled [] = Unit
Settled (s ∷ ss) = ((s ≡ up) × Settled ss) ⊎ All NotUp (s ∷ ss)

blank-NotUp : (t : Bool) → All NotUp (blank_if t)
blank-NotUp true = (cc, tt)
blank-NotUp false = tt

order-Settled : (t above : Bool) (ss : List Text) → IsOrder above ss → Settled (ss ++ blank_if t)
order-Settled true above [] h = inr (cc, tt)
order-Settled false above [] h = tt
order-Settled t above (s ∷ ss) (inl h) =
    inr (All-append NotUp (s ∷ ss) (blank_if t) (IsName-NotUp (s ∷ ss) h) (blank-NotUp t))
order-Settled t above (s ∷ ss) (inr (u, _, h)) = inl (u, order-Settled t above ss h)

absolute-NotUp : (t : Bool) (ss : List Text) → IsOrder false ss → All NotUp (ss ++ blank_if t)
absolute-NotUp t [] h = blank-NotUp t
absolute-NotUp t (s ∷ ss) (inl h) =
    All-append NotUp (s ∷ ss) (blank_if t) (IsName-NotUp (s ∷ ss) h) (blank-NotUp t)
absolute-NotUp t (s ∷ ss) (inr (_, e, _)) = cc

render-Settled :
    (a t : Bool) (ss : List Text) → IsOrder (not a) ss → Settled (split (render a t ss))
render-Settled true t [] h = unfold render split in inr (cc, (cc, tt))
render-Settled false true [] h = unfold render split in inr (cc, (cc, tt))
render-Settled false false [] h = unfold render split in inr (cc, tt)
render-Settled true t (s ∷ ss) h =
    rw (split-render true t s ss (order-NoSlash false (s ∷ ss) h))
      (inr (cc, absolute-NotUp t (s ∷ ss) h))
render-Settled false t (s ∷ ss) h =
    rw (split-render false t s ss (order-NoSlash true (s ∷ ss) h)) (order-Settled t true (s ∷ ss) h)

pub normalize-Settled : (p : Text) → Settled (split (normalize p))
unfolding normalize
normalize-Settled p = render-Settled (is_absolute p) _ (segments p) (segments-IsOrder p)

NotUp-drop : (xs ys : List Text) → All NotUp (xs ++ ys) → All NotUp ys
NotUp-drop [] ys h = h
NotUp-drop (x ∷ xs) ys (_, h) = NotUp-drop xs ys h

-- What follows a name holds no `..`.
pub Settled-after :
    (xs : List Text) (n : Text) (ys : List Text)
    → n ≢ up
    → Settled ((xs ++ n ∷ []) ++ ys)
    → All NotUp ys
Settled-after [] n ys h (inl (u, _)) = absurd (h u)
Settled-after [] n ys h (inr (_, k)) = k
Settled-after (x ∷ xs) n ys h (inl (_, k)) = Settled-after xs n ys h k
Settled-after (x ∷ xs) n ys h (inr (_, k)) = NotUp-drop (xs ++ n ∷ []) ys k
