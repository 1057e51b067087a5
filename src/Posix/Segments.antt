-- ===== src/Posix/Segments.antt =====
-- Node's `path` on POSIX: splitting, joining, and the stack of segments.
use mathlib.Core.List.{reverse_aux}
use modular_agentic_system.Base.{
  ℕ, ◌≡◌, ◌≢◌, refl, sym, ap, ◌∙◌, Bool, true, List, [], ◌∷◌, ◌++◌, append_assoc, Text, eq_iff,
  nat_eq, join, if_elim, arith, Bool-cases, inl, inr,
}
use modular_agentic_system.Posix.{slash, cons_head, split, dot, up, push, push_all}

abbrev pub All : (Text → Type 0) → List Text → Type 0
All P [] = Unit
All P (s ∷ ss) = P s × All P ss

abbrev pub NoSlash : Text → Type 0
NoSlash [] = Unit
NoSlash (c ∷ s) = (c ≢ slash) × NoSlash s

-- A name that stays where it is put.
abbrev pub IsName : Text → Type 0
IsName s = (s ≢ []) × (s ≢ dot) × (s ≢ up) × NoSlash s

abbrev pub NotUp : Text → Type 0
NotUp s = s ≢ up

pub All-append : (P : Text → Type 0) (xs ys : List Text) → All P xs → All P ys → All P (xs ++ ys)
All-append P [] ys h k = k
All-append P (x ∷ xs) ys (h, hs) k = (h, All-append P xs ys hs k)

pub IsName-NotUp : (xs : List Text) → All IsName xs → All NotUp xs
IsName-NotUp [] h = tt
IsName-NotUp (x ∷ xs) ((_, _, n, _), hs) = (n, IsName-NotUp xs hs)

pub slash_eq : (c : ℕ) → nat_eq c slash ≡ true → slash ≡ c
slash_eq c h = ground arith

pub cons_head-append :
    (c : ℕ) (xs ys : List Text) → xs ≢ [] → cons_head c (xs ++ ys) ≡ cons_head c xs ++ ys
cons_head-append c [] ys h = absurd (h refl)
cons_head-append c (x ∷ xs) ys h = refl

pub split-ne-nil : (p : Text) → split p ≢ []
unfolding split
split-ne-nil [] = cc
split-ne-nil (c ∷ s) =
    if_elim (λ l. l ≢ []) (nat_eq c slash) ([] ∷ split s) (cons_head c (split s)) (λ _. cc)
      (λ _. cons_head-ne-nil c (split s))
  where
    cons_head-ne-nil : (c : ℕ) (l : List Text) → cons_head c l ≢ []
    cons_head-ne-nil c [] = cc
    cons_head-ne-nil c (x ∷ xs) = cc

pub split-append : (p q : Text) → split (p ++ slash ∷ q) ≡ split p ++ split q
unfolding split
split-append [] q = refl
split-append (c ∷ p) q = elim (Bool-cases (nat_eq c slash)) [
  | inl h ↦ rw (h, split-append p q) refl
  | inr h ↦ rw (h, split-append p q) (cons_head-append c (split p) (split q) (split-ne-nil p))
]

pub split-name : (s : Text) → NoSlash s → split s ≡ s ∷ []
unfolding split
split-name [] h = refl
split-name (c ∷ s) (h, hs) = ground (arith, split-name s hs)

cons_head-NoSlash :
    (c : ℕ) (l : List Text) → c ≢ slash → All NoSlash l → All NoSlash (cons_head c l)
cons_head-NoSlash c [] n h = ((n, tt), tt)
cons_head-NoSlash c (x ∷ xs) n (h, hs) = ((n, h), hs)

pub NoSlash-split : (p : Text) → All NoSlash (split p)
unfolding split
NoSlash-split [] = (tt, tt)
NoSlash-split (c ∷ s) =
    if_elim (All NoSlash) (nat_eq c slash) ([] ∷ split s) (cons_head c (split s))
      (λ _. (tt, NoSlash-split s))
      (λ h. cons_head-NoSlash c (split s) (ground arith) (NoSlash-split s))

-- `join` with a slash is undone by `split`.
pub split-join :
    (s : Text) (ss : List Text) → All NoSlash (s ∷ ss) → split (join (slash ∷ []) (s ∷ ss)) ≡ s ∷ ss
unfolding join
split-join s [] (h, _) = split-name s h
split-join s (t ∷ ss) (h, hs) =
    split-append s (join (slash ∷ []) (t ∷ ss)) ∙ rw (split-name s h, split-join t ss hs) refl

join-cons_head :
    (c : ℕ) (l : List Text) → l ≢ [] → join (slash ∷ []) (cons_head c l) ≡ c ∷ join (slash ∷ []) l
unfolding join
join-cons_head c [] h = absurd (h refl)
join-cons_head c (x ∷ []) h = refl
join-cons_head c (x ∷ y ∷ l) h = refl

join-nil : (l : List Text) → l ≢ [] → join (slash ∷ []) ([] ∷ l) ≡ slash ∷ join (slash ∷ []) l
unfolding join
join-nil [] h = absurd (h refl)
join-nil (x ∷ l) h = refl

pub join-split : (p : Text) → join (slash ∷ []) (split p) ≡ p
unfolding split
join-split [] = unfold join in refl
join-split (c ∷ s) = elim (Bool-cases (nat_eq c slash)) [
  | inl h ↦ rw h (
      join-nil (split s) (split-ne-nil s)
      ∙ ap (λ u. slash ∷ u) (join-split s)
      ∙ ap (λ u. u ∷ s) (slash_eq c h))
  | inr h ↦ rw h (join-cons_head c (split s) (split-ne-nil s) ∙ ap (λ u. c ∷ u) (join-split s))
]

pub join-append :
    (s : Text) (ss : List Text) (t : Text) (ts : List Text)
    → join (slash ∷ []) ((s ∷ ss) ++ t ∷ ts)
      ≡ join (slash ∷ []) (s ∷ ss) ++ slash ∷ join (slash ∷ []) (t ∷ ts)
unfolding join
join-append s [] t ts = refl
join-append s (r ∷ ss) t ts =
    ap (λ u. s ++ slash ∷ u) (join-append r ss t ts)
    ∙ sym (append_assoc s (slash ∷ join (slash ∷ []) (r ∷ ss)) (slash ∷ join (slash ∷ []) (t ∷ ts)))

pub push_all-append :
    (above : Bool) (xs ys stack : List Text)
    → push_all above stack (xs ++ ys) ≡ push_all above (push_all above stack xs) ys
unfolding push_all
push_all-append above [] ys stack = refl
push_all-append above (x ∷ xs) ys stack = push_all-append above xs ys (push above stack x)

push-name :
    (above : Bool) (stack : List Text) (s : Text) → IsName s → push above stack s ≡ s ∷ stack
unfolding push
push-name above stack s h = ground (arith, eq_iff s [], eq_iff s dot, eq_iff s up)

pub push_all-names :
    (above : Bool) (ss stack : List Text)
    → All IsName ss
    → push_all above stack ss ≡ reverse_aux ss stack
unfolding push_all
push_all-names above [] stack h = refl
push_all-names above (s ∷ ss) stack (h, hs) =
    ap (λ st. push_all above st ss) (push-name above stack s h)
    ∙ push_all-names above ss (s ∷ stack) hs
