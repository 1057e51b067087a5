-- ===== src/Snapshot/RoundTrip.antt =====
-- src/kernel/previewSnapshot.ts: `resolve` after `ingestTarball`.
use modular_agentic_system.Base.{
  ◌≡◌, inl, inr, refl, sym, subst, ap, true, false, not, ◌&&◌, List, [], ◌∷◌, ◌++◌, some, Text,
  ◌==◌, starts_with, arith,
}
use modular_agentic_system.Base.Outcome.{Outcome, ok, throws, Outcome-cases}
use modular_agentic_system.Posix.{slash, join_paths}
use modular_agentic_system.Posix.Inside.{join_paths-Directory, join_paths_names}
use modular_agentic_system.Posix.Names.{normalize_in-Directory, skip_slashes_names}
use modular_agentic_system.Snapshot.{
  ResolvedFile, SnapshotMeta, DiskEntry, file, Disk, is_snapshot_id, store_files, ingest_files,
  accept, resolve,
}
use modular_agentic_system.Snapshot.ContentType.{content_type_for}
use modular_agentic_system.Snapshot.Archive.{CapturedFile, hash_files}
use modular_agentic_system.Snapshot.Contain.{is_snapshot_id-IsName}
use modular_agentic_system.Snapshot.Write.{IsHexDigest, hash_files-is_snapshot_id}
use modular_agentic_system.Snapshot.Hash.{AreDistinct}
use modular_agentic_system.Snapshot.Serve.{
  IsServable, AreServable, Holds, IsFaithful, starts_below, store_files-look,
}

-- The file that is served for a path.
abbrev pub at_path : Text → ResolvedFile
at_path path = record { abs_path = path; content_type = content_type_for path }

resolve-file :
    (root : Text) (look : Text → DiskEntry) (id name content : Text)
    → is_snapshot_id id ≡ true
    → IsServable name
    → look (join_paths root id ++ slash ∷ name) ≡ file content
    → resolve root look id name ≡ some (at_path (join_paths root id ++ slash ∷ name))
unfolding resolve
resolve-file root look id name content i s there =
    let base = join_paths root id in
    let p = base ++ slash ∷ name in
    let d = join_paths-Directory root id (is_snapshot_id-IsName id i) in
    let b = starts_below base name in
    let g : (not (p == base) && not (starts_with (base ++ slash ∷ []) p)) ≡ false = ground arith in
    rw
      (
        i,
        skip_slashes_names name s.names,
        join_paths_names d name s.names,
        normalize_in-Directory d name s.names,
        there,
        g,
        there,
      )
      refl

never : {m : Text} {meta : SnapshotMeta} → ◌≡◌ {A = Outcome SnapshotMeta} (throws m) (ok meta) → ⊥
never h = cc

abbrev snapshot_id_of : Outcome SnapshotMeta → Text
snapshot_id_of (ok meta) = meta.snapshot_id
snapshot_id_of (throws m) = m

servable :
    (files : List CapturedFile) (f : CapturedFile)
    → AreServable files
    → Holds f files
    → IsServable f.name
servable [] f s m = absurd m
servable (g ∷ files) f (s, _) (inl e) = rw e s
servable (g ∷ files) f (_, s) (inr m) = servable files f s m

module _ {disk : Disk} (faithful : IsFaithful disk) (sha256 : List Text → Text) (root : Text) where
  open disk use {Fs, look}

  -- What an archive that was ingested went through.
  ingested :
      (files : List CapturedFile) (fs : Fs) (meta : SnapshotMeta)
      → (ingest_files disk sha256 root files fs).1 ≡ ok meta
      → let stored = store_files disk (join_paths root (hash_files sha256 files)) files fs in
        (stored.1 ≡ ok tt)
        × ((ingest_files disk sha256 root files fs).0 ≡ stored.0)
        × (meta.snapshot_id ≡ hash_files sha256 files)
  unfolding ingest_files
  ingested files fs meta h = elim (Outcome-cases (accept files)) [
    | inr (m, e) ↦ absurd (never (rw (e, ingest_files) at h))
    | inl (n, e) ↦
        elim (Outcome-cases
          (store_files disk (join_paths root (hash_files sha256 files)) files fs).1) [
            | inr (m, g) ↦ absurd (never (rw (e, ingest_files, g) at h))
            | inl (_, g) ↦ (
              g,
              rw (e, ingest_files) refl,
              ap snapshot_id_of (sym (rw (e, ingest_files, g) at h)),
            )
          ]
  ]

  -- After an archive was ingested, each of its files is served under the answered id by its own name:
  -- the path that `resolve` gives holds the file's content, and its type goes by that path. The names are
  -- distinct relative paths in normal form, none of which starts with `..` and a backslash; the disk
  -- keeps what was written; the hash is hexadecimal.
  pub resolve-ingest_files :
      (files : List CapturedFile) (fs : Fs) (meta : SnapshotMeta) (f : CapturedFile)
      → IsHexDigest sha256
      → AreServable files
      → AreDistinct files
      → (ingest_files disk sha256 root files fs).1 ≡ ok meta
      → Holds f files
      → let after = (ingest_files disk sha256 root files fs).0 in
        let path = join_paths root meta.snapshot_id ++ slash ∷ f.name in
        (resolve root (λ p. look p after) meta.snapshot_id f.name ≡ some (at_path path))
        × (look path after ≡ file f.content)
  resolve-ingest_files files fs meta f hex s a h m =
      let id = hash_files sha256 files in
      let i = hash_files-is_snapshot_id sha256 files hex in
      let d = join_paths-Directory root id (is_snapshot_id-IsName id i) in
      let (stored, same, named) = ingested files fs meta h in
      let there = store_files-look faithful d files fs f s a stored m in
      subst
        (λ (n : Text).
          let path = join_paths root n ++ slash ∷ f.name in
          (resolve root (λ p. look p (ingest_files disk sha256 root files fs).0) n f.name
            ≡ some (at_path path))
          × (look path (ingest_files disk sha256 root files fs).0 ≡ file f.content))
        (sym named)
        (rw same (
          resolve-file root (λ p. look p (store_files disk (join_paths root id) files fs).0) id
              f.name f.content i (servable files f s m) there,
          there,
        ))
