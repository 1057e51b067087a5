-- ===== src/Snapshot/Write.antt =====
-- src/kernel/previewSnapshot.ts: what `ingestTarball` does to the disk.
use modular_agentic_system.Base.{
  ℕ, suc, zero, ◌≡◌, ◌≤◌, inl, inr, refl, Bool, true, List, [], ◌∷◌, ◌++◌, Text, length, take,
  starts_with, arith, Bool-cases,
}
use modular_agentic_system.Base.Outcome.{Outcome, Outcome-cases}
use modular_agentic_system.Posix.{slash, normalize, both, join_paths, dirname}
use modular_agentic_system.Posix.Inside.{Inside, Directory, join_paths-Directory, normalize-Inside}
use modular_agentic_system.Snapshot.{
  Disk, is_hex, every, is_snapshot_id, strip_ups, destination, store_files, ingest_files,
  ingest_tarball, accept,
}
use modular_agentic_system.Snapshot.Archive.{
  CapturedFile, untar, TarEntry, hash_files, updates, sort,
}
use modular_agentic_system.Snapshot.Contain.{is_snapshot_id-IsName, starts_below}

-- What is known of SHA-256 in hexadecimal: 64 digits, of which the code takes 24.
abbrev pub IsHexDigest : (List Text → Text) → Type 0
IsHexDigest sha256 = (u : List Text) → (every is_hex (sha256 u) ≡ true) × (length (sha256 u) ≡ 64)

every-take : (p : ℕ → Bool) (n : ℕ) (s : Text) → every p s ≡ true → every p (take n s) ≡ true
every-take p zero s h = refl
every-take p (suc n) [] h = refl
every-take p (suc n) (c ∷ s) h = ground (arith, every-take p n s)

length-take : (n : ℕ) (s : Text) → n ≤ length s → length (take n s) ≡ n
length-take zero s h = refl
length-take (suc n) [] h = absurd (omega arith)
length-take (suc n) (c ∷ s) h = omega (arith, length-take n s (omega arith))

pub hash_files-is_snapshot_id :
    (sha256 : List Text → Text) (files : List CapturedFile)
    → IsHexDigest sha256
    → is_snapshot_id (hash_files sha256 files) ≡ true
unfolding hash_files is_snapshot_id
hash_files-is_snapshot_id sha256 files h =
    let u = updates (sort files) in
    let (hex, size) = h u in
    rw (every-take is_hex 24 (sha256 u) hex, length-take 24 (sha256 u) (omega arith)) refl

destination-Inside :
    {base : Text} (d : Directory base) (name : Text)
    → starts_with (base ++ slash ∷ []) (destination base name) ≡ true
    → Inside base (destination base name)
unfolding destination join_paths
destination-Inside {base} d name h =
    let (rest, e) = starts_below base (join_paths base (strip_ups (normalize name))) h in
    normalize-Inside d (both base (strip_ups (normalize name))) rest e

module _ (disk : Disk) where
  open disk use {Fs, make_directory, write_file}

  -- A property of the disk that the two calls keep at the paths inside `base`.
  pub record IsKeptInside (base : Text) (P : Fs → Type 0) : Type 0 where
    pub by_make_directory :
        (p : Text) (fs : Fs) → Inside base p → P fs → P (make_directory (dirname p) fs).0
    pub by_write_file :
        (p content : Text) (fs : Fs) → Inside base p → P fs → P (write_file p content fs).0

  store_files-keeps :
      (base : Text) (P : Fs → Type 0) (files : List CapturedFile) (fs : Fs)
      → Directory base
      → IsKeptInside base P
      → P fs
      → P (store_files disk base files fs).0
  unfolding store_files
  store_files-keeps base P [] fs d k p = p
  store_files-keeps base P (f ∷ files) fs d k p =
      let dest = destination base f.name in
      elim (Bool-cases (starts_with (base ++ slash ∷ []) dest)) [
        | inr s ↦ rw s (store_files-keeps base P files fs d k p)
        | inl s ↦
            let inside = destination-Inside d f.name s in
            let fs₁ = (make_directory (dirname dest) fs).0 in
            let p₁ = k.by_make_directory dest fs inside p in
            let fs₂ = (write_file dest f.content fs₁).0 in
            let p₂ = k.by_write_file dest f.content fs₁ inside p₁ in
            let rest = store_files-keeps base P files fs₂ d k p₂ in
            elim (Outcome-cases (make_directory (dirname dest) fs).1) [
              | inr (m, e) ↦ rw (s, e) p₁
              | inl (_, e) ↦ elim (Outcome-cases (write_file dest f.content fs₁).1) [
                | inr (m, e') ↦ rw (s, e, e') p₂
                | inl (_, e') ↦ rw (s, e, e') rest
              ]
            ]
      ]

  -- Whatever is true of the disk and is kept by making directories for, and writing, files inside the
  -- directory of the snapshot is kept by `ingestTarball`, for every archive, malicious ones included, and
  -- on every branch: nothing else of the disk is touched.
  pub ingest_tarball-keeps :
      (sha256 : List Text → Text) (root : Text) (unpack : Text → Outcome (List TarEntry))
      (tgz : Text) (fs : Fs) (P : Fs → Type 0)
      → IsHexDigest sha256
      → ((files : List CapturedFile) → IsKeptInside (join_paths root (hash_files sha256 files)) P)
      → P fs
      → P (ingest_tarball disk sha256 root unpack tgz fs).0
  unfolding ingest_tarball ingest_files
  ingest_tarball-keeps sha256 root unpack tgz fs P h k p = elim (Outcome-cases (unpack tgz)) [
    | inr (m, e) ↦ rw (e, ingest_tarball) p
    | inl (entries, e) ↦ elim (Outcome-cases (accept (untar entries))) [
      | inr (m, g) ↦ rw (e, ingest_tarball, g, ingest_files) p
      | inl (total, g) ↦
          rw (e, ingest_tarball, g, ingest_files)
            (store_files-keeps (join_paths root (hash_files sha256 (untar entries))) P
              (untar entries) fs
              (join_paths-Directory root (hash_files sha256 (untar entries)) (
                is_snapshot_id-IsName (hash_files sha256 (untar entries))
                  (hash_files-is_snapshot_id sha256 (untar entries) h)))
              (k (untar entries)) p)
    ]
  ]
