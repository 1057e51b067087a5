-- ===== src/Posix/Below.antt =====
-- Node's `path.join` on POSIX, of a directory that is in normal form and a path below it.
use mathlib.Core.List.{reverse, reverse_aux, reverse_aux-eq, reverse-append, reverse-reverse}
use modular_agentic_system.Base.{
  ℕ, ◌≡◌, ◌≢◌, inl, inr, refl, sym, ap, subst, ◌∙◌, Bool, true, false, not, List, [], ◌∷◌, ◌++◌,
  append_assoc, append-nil, Text, ◌==◌, join, ends_with, if◌then◌else◌, arith, Bool-cases,
}
use modular_agentic_system.Posix.{
  slash, split, up, pop, push, push_all, is_absolute, render, normalize, both, join_paths,
}
use modular_agentic_system.Posix.Segments.{
  All, NoSlash, IsName, split-ne-nil, split-append, join-split, join-append, push_all-append,
  push_all-names,
}
use modular_agentic_system.Posix.Normal.{IsOrder, AllUp, order-NoSlash, split-render, blank_if}

-- Pushing segments that are in order already.
push-up :
    (above : Bool) (st : List Text) (s : Text)
    → s ≡ up
    → above ≡ true
    → AllUp st
    → push above st s ≡ up ∷ st
unfolding push pop
push-up above [] s u a h = rw (u, a) refl
push-up above (t ∷ ts) s u a (v, h) = rw (u, v) refl

push_all-step :
    (above : Bool) (st : List Text) (s : Text) (ss : List Text) {st' : List Text}
    → push above st s ≡ st'
    → push_all above st (s ∷ ss) ≡ push_all above st' ss
unfolding push_all
push_all-step above st s ss e = ap (λ q. push_all above q ss) e

push_all-order :
    (above : Bool) (ss st : List Text)
    → IsOrder above ss
    → AllUp st
    → push_all above st ss ≡ reverse_aux ss st
push_all-order above [] st h u = unfold push_all in refl
push_all-order above (s ∷ ss) st (inl h) u = push_all-names above (s ∷ ss) st h
push_all-order above (s ∷ ss) st (inr (e, a, h)) u =
    push_all-step above st s ss (push-up above st s e a u)
    ∙ push_all-order above ss (up ∷ st) h (refl, u)
    ∙ ap (λ q. reverse_aux ss (q ∷ st)) (sym e)

push_all-blank :
    (above b : Bool) (st ss : List Text)
    → push_all above st (blank_if b ++ ss) ≡ push_all above st ss
unfolding push_all push
push_all-blank above true st ss = refl
push_all-blank above false st ss = refl

directory-stack :
    (a t : Bool) (s : Text) (ss : List Text)
    → IsOrder (not a) (s ∷ ss)
    → push_all (not a) [] (split (render a t (s ∷ ss))) ≡ reverse (s ∷ ss)
directory-stack a t s ss h =
    ap (push_all (not a) []) (split-render a t s ss (order-NoSlash (not a) (s ∷ ss) h))
    ∙ push_all-blank (not a) a [] ((s ∷ ss) ++ blank_if t)
    ∙ push_all-append (not a) (s ∷ ss) (blank_if t) []
    ∙ ap (λ st. push_all (not a) st (blank_if t)) (push_all-order (not a) (s ∷ ss) [] h tt)
    ∙ ap (push_all (not a) (reverse (s ∷ ss))) (sym (append-nil (blank_if t)))
    ∙ push_all-blank (not a) t (reverse (s ∷ ss)) []
    ∙ (unfold push_all in refl)

-- The segments of a rendered directory, and names below it.
segments-below :
    (a t : Bool) (s : Text) (ss ns : List Text)
    → IsOrder (not a) (s ∷ ss)
    → All IsName ns
    → reverse (push_all (not a) [] (split (render a t (s ∷ ss)) ++ ns)) ≡ (s ∷ ss) ++ ns
segments-below a t s ss ns h n =
    ap reverse (
      push_all-append (not a) (split (render a t (s ∷ ss))) ns []
      ∙ ap (λ st. push_all (not a) st ns) (directory-stack a t s ss h)
      ∙ push_all-names (not a) ns (reverse (s ∷ ss)) n
      ∙ reverse_aux-eq ns (reverse (s ∷ ss)))
    ∙ reverse-append (reverse ns) (reverse (s ∷ ss))
    ∙ rw (reverse-reverse (s ∷ ss), reverse-reverse ns) refl

ends_slash-cons :
    (y z : ℕ) (s : Text) → ends_with (slash ∷ []) (y ∷ z ∷ s) ≡ ends_with (slash ∷ []) (z ∷ s)
unfolding ends_with ◌==◌
ends_slash-cons y z s = ground arith

ends_slash_split : (s : Text) → ends_with (slash ∷ []) s ≡ true → (r : Text) × (s ≡ r ++ slash ∷ [])
ends_slash_split [] h = absurd (unfold ends_with ◌==◌ in cc)
ends_slash_split (c ∷ []) h = ([], unfold ends_with ◌==◌ in ground arith)
ends_slash_split (c ∷ d ∷ s) h =
    let (r, e) = ends_slash_split (d ∷ s) (sym (ends_slash-cons c d s) ∙ h) in
    (c ∷ r, ap (λ q. c ∷ q) e)

ends_slash-append :
    (p : Text) (c : ℕ) (s : Text)
    → ends_with (slash ∷ []) (p ++ c ∷ s) ≡ ends_with (slash ∷ []) (c ∷ s)
ends_slash-append [] c s = refl
ends_slash-append (y ∷ []) c s = ends_slash-cons y c s
ends_slash-append (y ∷ z ∷ p) c s = ends_slash-cons y z (p ++ c ∷ s) ∙ ends_slash-append (z ∷ p) c s

no_last_blank : (xs : List Text) → All IsName (xs ++ [] ∷ []) → ⊥
no_last_blank [] ((h, _, _, _), _) = h refl
no_last_blank (x ∷ xs) (_, h) = no_last_blank xs h

split_end : (r : Text) → split (r ++ slash ∷ []) ≡ split r ++ [] ∷ []
unfolding split
split_end r = split-append r []

-- A path of names only ends in no slash, and is not empty.
pub names_no_slash : (name : Text) → All IsName (split name) → ends_with (slash ∷ []) name ≡ false
names_no_slash name h = elim (Bool-cases (ends_with (slash ∷ []) name)) [
  | inr e ↦ e
  | inl e ↦
      let (r, f) = ends_slash_split name e in
      absurd (no_last_blank (split r) (subst (λ l. All IsName l) (ap split f ∙ split_end r) h))
]

pub names-ne-nil : (name : Text) → All IsName (split name) → name ≢ []
unfolding split
names-ne-nil [] ((h, _, _, _), _) = absurd (h refl)
names-ne-nil (c ∷ s) h = cc

pub below_no_slash :
    (p name : Text) → All IsName (split name) → ends_with (slash ∷ []) (p ++ slash ∷ name) ≡ false
below_no_slash p [] h = absurd (names-ne-nil [] h refl)
below_no_slash p (c ∷ s) h =
    ends_slash-append p slash (c ∷ s) ∙ ends_slash-cons slash c s ∙ names_no_slash (c ∷ s) h

order-ne-nil : (above : Bool) (s : Text) (ss : List Text) → IsOrder above (s ∷ ss) → s ≢ []
order-ne-nil above s ss (inl ((n, _, _, _), _)) = n
order-ne-nil above s ss (inr (u, _, _)) = rw u (cc)

name_is_relative :
    (s : Text) (ss : List Text) (rest : Text)
    → s ≢ []
    → NoSlash s
    → is_absolute (join (slash ∷ []) (s ∷ ss) ++ rest) ≡ false
unfolding join
name_is_relative [] ss rest n h = absurd (n refl)
name_is_relative (c ∷ s) [] rest n (h, _) = ground arith
name_is_relative (c ∷ s) (t ∷ ss) rest n (h, _) = ground arith

is_absolute-render :
    (a t : Bool) (s : Text) (ss : List Text) (rest : Text)
    → IsOrder (not a) (s ∷ ss)
    → is_absolute (render a t (s ∷ ss) ++ rest) ≡ a
unfolding render
is_absolute-render true t s ss rest h = refl
is_absolute-render false t s ss rest h =
    ap is_absolute (append_assoc (join (slash ∷ []) (s ∷ ss)) (if t then slash ∷ [] else []) rest)
    ∙ name_is_relative s ss _ (order-ne-nil true s ss h) (order-NoSlash true (s ∷ ss) h).0

pub normalize-below :
    (a t : Bool) (s : Text) (ss : List Text) (name : Text)
    → IsOrder (not a) (s ∷ ss)
    → All IsName (split name)
    → normalize (render a t (s ∷ ss) ++ slash ∷ name) ≡ render a false ((s ∷ ss) ++ split name)
unfolding normalize
normalize-below a t s ss name h n =
    rw
      (
        is_absolute-render a t s ss (slash ∷ name) h,
        below_no_slash (render a t (s ∷ ss)) name n,
        split-append (render a t (s ∷ ss)) name,
      )
      (ap (render a false) (segments-below a t s ss (split name) h n))

pub render-below :
    (a : Bool) (s : Text) (ss l : List Text)
    → l ≢ []
    → render a false ((s ∷ ss) ++ l) ≡ render a false (s ∷ ss) ++ slash ∷ join (slash ∷ []) l
unfolding render
render-below a s ss [] h = absurd (h refl)
render-below a s ss (t ∷ ts) h = simp (append-nil, join-append s ss t ts, append_assoc)

pub render-ne-nil :
    (a t : Bool) (s : Text) (ss : List Text) → IsOrder (not a) (s ∷ ss) → render a t (s ∷ ss) ≢ []
unfolding render join
render-ne-nil true t s ss h = cc
render-ne-nil false t [] ss h = absurd (order-ne-nil true [] ss h refl)
render-ne-nil false t (c ∷ s) [] h = cc
render-ne-nil false t (c ∷ s) (r ∷ ss) h = cc

both-ne : (p q : Text) → p ≢ [] → q ≢ [] → both p q ≡ p ++ slash ∷ q
both-ne [] q h k = absurd (h refl)
both-ne (c ∷ p) [] h k = absurd (k refl)
both-ne (c ∷ p) (d ∷ q) h k = refl

-- A path of names, joined to a directory.
pub join_paths-below :
    (a t : Bool) (s : Text) (ss : List Text) (name : Text)
    → IsOrder (not a) (s ∷ ss)
    → All IsName (split name)
    → join_paths (render a t (s ∷ ss)) name ≡ render a false (s ∷ ss) ++ slash ∷ name
unfolding join_paths
join_paths-below a t s ss name h n =
    ap normalize
      (both-ne (render a t (s ∷ ss)) name (render-ne-nil a t s ss h) (names-ne-nil name n))
    ∙ normalize-below a t s ss name h n
    ∙ render-below a s ss (split name) (split-ne-nil name)
    ∙ ap (λ u. render a false (s ∷ ss) ++ slash ∷ u) (join-split name)

pub render_trailing :
    (a : Bool) (s : Text) (ss : List Text)
    → render a true (s ∷ ss) ≡ render a false (s ∷ ss) ++ slash ∷ []
unfolding render
render_trailing a s ss = simp (append-nil, append_assoc)
