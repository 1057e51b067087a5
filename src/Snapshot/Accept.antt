-- ===== src/Snapshot/Accept.antt =====
-- src/kernel/previewSnapshot.ts: which archives `ingestTarball` takes.
use modular_agentic_system.Base.{
  ℕ, ◌+◌, ◌≡◌, ◌≤◌, ◌<◌, inl, inr, refl, ap, Bool, true, false, not, List, [], ◌∷◌, Text, ltb,
  length, any, if◌then◌else◌, arith,
}
use modular_agentic_system.Base.Outcome.{Outcome, ok, throws, ◌>>=◌, Outcome-cases}
use modular_agentic_system.Posix.{join_paths}
use modular_agentic_system.Snapshot.{
  Disk, max_files, max_file_bytes, max_total_bytes, total_bytes, within_total, is_index, accept,
  store_files, ingest_files,
}
use modular_agentic_system.Snapshot.Archive.{CapturedFile, hash_files}

abbrev pub size_of : List CapturedFile → ℕ
size_of [] = 0
size_of (f ∷ fs) = length f.content + size_of fs

abbrev pub AreSmall : List CapturedFile → Type 0
AreSmall [] = Unit
AreSmall (f ∷ fs) = (length f.content ≤ max_file_bytes) × AreSmall fs

-- A snapshot within the caps.
pub record IsAdmissible (files : List CapturedFile) : Type 0 where
  pub some_file : 0 < length files
  pub few : length files ≤ max_files
  pub small : AreSmall files
  pub light : size_of files ≤ max_total_bytes
  pub indexed : any is_index files ≡ true

total_bytes_ok :
    (fs : List CapturedFile) (t : ℕ) → AreSmall fs → total_bytes fs t ≡ ok (t + size_of fs)
unfolding total_bytes
total_bytes_ok [] t h = ap ok (omega arith)
total_bytes_ok (f ∷ fs) t (s, h) =
    let e : ltb max_file_bytes (length f.content) ≡ false = ground arith in
    rw (e, total_bytes_ok fs (t + length f.content) h) (ap ok (omega arith))

past_guard :
    {A : Type 0} (b : Bool) (m : Text) (x : Outcome A) (a : A)
    → (if b then throws m else x) ≡ ok a
    → (b ≡ false) × (x ≡ ok a)
past_guard b m x a h = ground arith

>>=-eq-ok :
    {A B : Type 0} (x : Outcome A) (f : A → Outcome B) (b : B)
    → (x >>= f) ≡ ok b
    → (a : A) × (x ≡ ok a) × (f a ≡ ok b)
>>=-eq-ok (ok a) f b h = (a, refl, h)
>>=-eq-ok (throws m) f b h = cc

total_bytes_small :
    (fs : List CapturedFile) (t n : ℕ)
    → total_bytes fs t ≡ ok n
    → AreSmall fs × (n ≡ t + size_of fs)
unfolding total_bytes
total_bytes_small [] t n h = (tt, ground arith)
total_bytes_small (f ∷ fs) t n h =
    let (e, k) =
      past_guard (ltb max_file_bytes (length f.content)) _ (total_bytes fs (t + length f.content)) n
        h in
    let (small, sum) = total_bytes_small fs (t + length f.content) n k in
    ((ground arith, small), omega arith)

within_total_ok :
    (files : List CapturedFile) (t n : ℕ)
    → within_total files t ≡ ok n
    → (t ≤ max_total_bytes) × (any is_index files ≡ true) × (n ≡ t)
unfolding within_total
within_total_ok files t n h =
    let (e, k) = past_guard (ltb max_total_bytes t) _ _ n h in
    let (i, r) = past_guard (not (any is_index files)) _ (ok t) n k in
    (ground arith, ground arith, ground arith)

within_total_keeps :
    (files : List CapturedFile) (t : ℕ)
    → t ≤ max_total_bytes
    → any is_index files ≡ true
    → within_total files t ≡ ok t
unfolding within_total
within_total_keeps files t l i =
    let e : ltb max_total_bytes t ≡ false = ground arith in rw (e, i) refl

-- A snapshot within the caps is taken, and its size is the sum of its files' sizes.
pub accept_ok : (files : List CapturedFile) → IsAdmissible files → accept files ≡ ok (size_of files)
unfolding accept
accept_ok [] h = absurd (omega arith)
accept_ok (f ∷ fs) h =
    let e : ltb max_files (length (f ∷ fs)) ≡ false = ground arith in
    let z : 0 + size_of (f ∷ fs) ≡ size_of (f ∷ fs) = omega arith in
    rw (e, total_bytes_ok (f ∷ fs) 0 h.small, z)
      (within_total_keeps (f ∷ fs) (size_of (f ∷ fs)) h.light h.indexed)

pub accept-IsAdmissible :
    (files : List CapturedFile) (n : ℕ)
    → accept files ≡ ok n
    → IsAdmissible files × (n ≡ size_of files)
unfolding accept
accept-IsAdmissible [] n h = cc
accept-IsAdmissible (f ∷ fs) n h =
    let (few, k) = past_guard (ltb max_files (length (f ∷ fs))) _ _ n h in
    let (t, sum, k') = >>=-eq-ok (total_bytes (f ∷ fs) 0) (within_total (f ∷ fs)) n k in
    let (small, size) = total_bytes_small (f ∷ fs) 0 t sum in
    let (light, indexed, same) = within_total_ok (f ∷ fs) t n k' in
    (
      record {
        some_file = omega arith;
        few = ground arith;
        small = small;
        light = omega arith;
        indexed = indexed;
      },
      omega arith,
    )

module _ (disk : Disk) (sha256 : List Text → Text) (root : Text) where
  open disk use {Fs}

  -- An archive is refused, with the disk left as it was, unless it has between one and 1000 files, none
  -- larger than 25 MiB, 64 MiB together at most, and an `index.html`.
  pub ingest_files-refuses :
      (files : List CapturedFile) (fs : Fs)
      → (IsAdmissible files → ⊥)
      → (m : Text) × (ingest_files disk sha256 root files fs ≡ (fs, throws m))
  unfolding ingest_files
  ingest_files-refuses files fs h = elim (Outcome-cases (accept files)) [
    | inl (n, e) ↦ absurd (h (accept-IsAdmissible files n e).0)
    | inr (m, e) ↦ (m, rw (e, ingest_files) refl)
  ]

  -- An archive within these caps is stored: the outcome is that of writing its files under the id of
  -- their hash, and if the disk takes them all, the answer names this id, counts the files and sums their
  -- sizes.
  pub ingest_files-IsAdmissible :
      (files : List CapturedFile) (fs : Fs)
      → IsAdmissible files
      → let stored = store_files disk (join_paths root (hash_files sha256 files)) files fs in
        ingest_files disk sha256 root files fs ≡ (
          stored.0,
          stored.1 >>= λ _. ok (record {
            snapshot_id = hash_files sha256 files;
            file_count = length files;
            bytes = size_of files;
          }),
        )
  unfolding ingest_files
  ingest_files-IsAdmissible files fs h = rw (accept_ok files h, ingest_files) refl
