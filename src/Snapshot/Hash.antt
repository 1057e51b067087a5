-- ===== src/Snapshot/Hash.antt =====
-- src/kernel/previewSnapshot.ts: `hashFiles` does not see the order of the files.
use modular_agentic_system.Base.{
  ◌≡◌, ◌≢◌, refl, sym, ap, ◌∙◌, true, false, List, [], ◌∷◌, Text, take, arith,
}
use modular_agentic_system.Snapshot.Archive.{CapturedFile, less, insert, sort, updates, hash_files}

-- Names are ordered: the rest of a comparison below another.
less-of-le : (s t u : Text) → less s t ≡ false → less s u ≡ true → less t u ≡ true
unfolding less
less-of-le s t [] h k = cc
less-of-le [] [] (z ∷ u) h k = refl
less-of-le [] (y ∷ t) (z ∷ u) h k = cc
less-of-le (x ∷ s) [] (z ∷ u) h k = refl
less-of-le (x ∷ s) (y ∷ t) (z ∷ u) h k = ground (arith, less-of-le s t u)

less-asym : (s t : Text) → less s t ≡ true → less t s ≡ false
unfolding less
less-asym s [] h = cc
less-asym [] (y ∷ t) h = refl
less-asym (x ∷ s) (y ∷ t) h = ground (arith, less-asym s t)

less-total : (s t : Text) → less s t ≡ false → less t s ≡ false → s ≡ t
unfolding less
less-total [] [] h k = refl
less-total [] (y ∷ t) h k = cc
less-total (x ∷ s) [] h k = cc
less-total (x ∷ s) (y ∷ t) h k = ground (arith, less-total s t)

insert_comm :
    (f g : CapturedFile) (l : List CapturedFile)
    → f.name ≢ g.name
    → insert f (insert g l) ≡ insert g (insert f l)
unfolding insert
insert_comm f g [] n = ground (arith, less-asym f.name g.name, less-total f.name g.name)
insert_comm f g (h ∷ hs) n = ground (
  arith,
  insert_comm f g hs n,
  less-asym f.name g.name,
  less-total f.name g.name,
  less-of-le h.name f.name g.name,
  less-of-le h.name g.name f.name,
)

abbrev pub Lacks : Text → List CapturedFile → Type 0
Lacks name [] = Unit
Lacks name (f ∷ fs) = (name ≢ f.name) × Lacks name fs

-- No two files have one name.
abbrev pub AreDistinct : List CapturedFile → Type 0
AreDistinct [] = Unit
AreDistinct (f ∷ fs) = Lacks f.name fs × AreDistinct fs

-- The same files in another order.
pub data Reordered : List CapturedFile → List CapturedFile → Type 0 where
  same : (fs : List CapturedFile) → Reordered fs fs
  keep :
      (f : CapturedFile) {fs gs : List CapturedFile} → Reordered fs gs → Reordered (f ∷ fs) (f ∷ gs)
  swap : (f g : CapturedFile) (fs : List CapturedFile) → Reordered (f ∷ g ∷ fs) (g ∷ f ∷ fs)
  chain : {fs gs hs : List CapturedFile} → Reordered fs gs → Reordered gs hs → Reordered fs hs

Reordered-Lacks :
    (name : Text) {fs gs : List CapturedFile} → Reordered fs gs → Lacks name fs → Lacks name gs
Reordered-Lacks name (same fs) h = h
Reordered-Lacks name (keep f r) (h, k) = (h, Reordered-Lacks name r k)
Reordered-Lacks name (swap f g fs) (h, (k, l)) = (k, (h, l))
Reordered-Lacks name (chain r s) h = Reordered-Lacks name s (Reordered-Lacks name r h)

Reordered-AreDistinct :
    {fs gs : List CapturedFile} → Reordered fs gs → AreDistinct fs → AreDistinct gs
Reordered-AreDistinct (same fs) h = h
Reordered-AreDistinct (keep f r) (h, k) = (Reordered-Lacks f.name r h, Reordered-AreDistinct r k)
Reordered-AreDistinct (swap f g fs) ((n, h), (k, l)) = ((λ e. n (sym e), k), (h, l))
Reordered-AreDistinct (chain r s) h = Reordered-AreDistinct s (Reordered-AreDistinct r h)

sort-Reordered : {fs gs : List CapturedFile} → Reordered fs gs → AreDistinct fs → sort fs ≡ sort gs
unfolding sort
sort-Reordered (same fs) h = refl
sort-Reordered (keep f r) (_, h) = ap (insert f) (sort-Reordered r h)
sort-Reordered (swap f g fs) ((n, _), _) = insert_comm f g (sort fs) n
sort-Reordered (chain r s) h = sort-Reordered r h ∙ sort-Reordered s (Reordered-AreDistinct r h)

-- Archives that hold the same files in another order have one id, whatever the hash function is, if no
-- two files have one name.
pub hash_files-Reordered :
    (sha256 : List Text → Text) {fs gs : List CapturedFile}
    → Reordered fs gs
    → AreDistinct fs
    → hash_files sha256 fs ≡ hash_files sha256 gs
unfolding hash_files
hash_files-Reordered sha256 r h = ap (λ l. take 24 (sha256 (updates l))) (sort-Reordered r h)
