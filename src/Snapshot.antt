-- ===== src/Snapshot.antt =====
-- src/kernel/previewSnapshot.ts: the durable previews. The disk, the hash function and the unpacking
-- of an archive are parameters; a file's content is the list of its bytes.
pub mod ContentType
pub mod Archive
pub mod Contain
pub mod Write
pub mod Hash
pub mod Accept
pub mod Serve
pub mod RoundTrip
use modular_agentic_system.Base.{
  ℕ, suc, ◌+◌, Bool, true, false, not, ◌&&◌, ◌||◌, List, [], ◌∷◌, ◌++◌, Option, none, some, Text,
  codes, ◌==◌, ltb, leb, nat_eq, length, take, any, if◌then◌else◌, starts_with, ends_with,
  lower_unit, map, or_else,
}
use modular_agentic_system.Base.Decimal.{decimal}
use modular_agentic_system.Base.Map
use modular_agentic_system.Base.Map.{Map}
use modular_agentic_system.Base.Outcome.{Outcome, ok, throws, ◌>>=◌}
use modular_agentic_system.Posix.{slash, normalize, join_paths, dirname, extname, skip_slashes}
use modular_agentic_system.Snapshot.Archive.{
  CapturedFile, TarEntry, strip_dot_slash, captured, untar, less, insert, sort, updates, hash_files,
}
use modular_agentic_system.Snapshot.ContentType.{javascript, content_types, content_type_for}

pub record SnapshotMeta : Type 0 where
  pub snapshot_id : Text
  pub file_count : ℕ
  pub bytes : ℕ

pub record ResolvedFile : Type 0 where
  pub abs_path : Text
  pub content_type : Text

abbrev pub max_files : ℕ
max_files = 1000

abbrev pub max_file_bytes : ℕ
max_file_bytes = 26214400

abbrev pub max_total_bytes : ℕ
max_total_bytes = 67108864

-- The sum of the sizes, if no file is too large.
unfoldable pub total_bytes : List CapturedFile → ℕ → Outcome ℕ
total_bytes [] total = ok total
total_bytes (f ∷ fs) total =
    let rest = total_bytes fs (total + length f.content) in
    if ltb max_file_bytes (length f.content)
    then throws (
        codes "file "
        ++ (f.name
            ++ (codes " is "
                ++ (decimal (length f.content)
                    ++ (codes " bytes (per-file cap " ++ (decimal max_file_bytes ++ codes ")"))))))
    else rest

abbrev pub is_index : CapturedFile → Bool
is_index f = f.name == codes "index.html" || ends_with (codes "/index.html") f.name

unfoldable pub within_total : List CapturedFile → ℕ → Outcome ℕ
unfolding ◌==◌ ends_with
within_total files total =
    if ltb max_total_bytes total
    then throws (
        codes "snapshot is "
        ++ (decimal total ++ (codes " bytes (cap " ++ (decimal max_total_bytes ++ codes ")"))))
    else if not (any is_index files)
    then throws
        (codes "snapshot has no index.html — point snapshot_preview at the built static dir")
    else ok total

-- The guards of `ingestTarball`; the result is the size of the snapshot.
unfoldable pub accept : List CapturedFile → Outcome ℕ
accept [] = throws (codes "snapshot archive contained no files")
accept (f ∷ fs) =
    if ltb max_files (length (f ∷ fs))
    then throws (
        codes "snapshot has "
        ++ (decimal (length (f ∷ fs))
            ++ (codes " files (cap " ++ (decimal max_files ++ codes ")"))))
    else total_bytes (f ∷ fs) 0 >>= within_total (f ∷ fs)

abbrev pub is_separator : ℕ → Bool
is_separator c = nat_eq c slash || nat_eq c b'\\'

-- `replace(/^(\.\.(\/|\\|$))+/, '')`
unfoldable pub strip_ups : Text → Text
strip_ups [] = []
strip_ups (a ∷ []) = a ∷ []
strip_ups (a ∷ b ∷ []) = if nat_eq a b'.' && nat_eq b b'.' then [] else a ∷ b ∷ []
strip_ups (a ∷ b ∷ c ∷ s) =
    let rest = strip_ups s in
    if nat_eq a b'.' && nat_eq b b'.' && is_separator c then rest else a ∷ b ∷ c ∷ s

unfoldable pub destination : Text → Text → Text
unfolding normalize strip_ups join_paths
destination dir name = join_paths dir (strip_ups (normalize name))

pub data DiskEntry : Type 0 where
  absent directory special : DiskEntry
  file : Text → DiskEntry

-- A disk, and the two calls that change it; a call that throws may have changed it too.
pub record Disk : Type 1 where
  pub Fs : Type 0
  pub look : Text → Fs → DiskEntry
  pub make_directory : Text → Fs → Fs × Outcome (Unit {0})
  pub write_file : Text → Text → Fs → Fs × Outcome (Unit {0})

module _ (disk : Disk) where
  open disk use {Fs, look, make_directory, write_file}

  unfoldable pub store_files : Text → List CapturedFile → Fs → Fs × Outcome (Unit {0})
  unfolding destination starts_with
  store_files dir [] fs = (fs, ok tt)
  store_files dir (f ∷ files) fs =
      let dest = destination dir f.name in
      let skipped = store_files dir files fs in
      let (fs₁, made) = make_directory (dirname dest) fs in
      let (fs₂, written) = write_file dest f.content fs₁ in
      let rest = store_files dir files fs₂ in
      if not (starts_with (dir ++ slash ∷ []) dest) then skipped else elim made [
        | throws m ↦ (fs₁, throws m)
        | ok _ ↦ elim written [ throws m ↦ (fs₂, throws m) | ok _ ↦ rest ]
      ]

  module _ (sha256 : List Text → Text) (root : Text) where
    -- `ingestTarball`, after the archive has been unpacked.
    unfoldable pub ingest_files : List CapturedFile → Fs → Fs × Outcome SnapshotMeta
    unfolding accept hash_files store_files join_paths
    ingest_files files fs = elim (accept files) [
      | throws m ↦ (fs, throws m)
      | ok total ↦
          let snapshot_id = hash_files sha256 files in
          let (fs', stored) = store_files (join_paths root snapshot_id) files fs in
          (
            fs',
            stored >>= λ _.
                ok (record { snapshot_id = snapshot_id; file_count = length files; bytes = total }),
          )
    ]

    -- `unpack` is `gunzipSync` and the parser of tar-stream.
    unfoldable pub ingest_tarball :
        (Text → Outcome (List TarEntry)) → Text → Fs → Fs × Outcome SnapshotMeta
    unfolding ingest_files untar
    ingest_tarball unpack tgz fs = elim (unpack tgz) [
      | throws m ↦ (fs, throws (codes "could not read snapshot archive: " ++ m))
      | ok entries ↦ ingest_files (untar entries) fs
    ]

abbrev pub is_hex : ℕ → Bool
is_hex c = (leb b'a' c && leb c b'f') || (leb b'0' c && leb c b'9')

abbrev pub every : (ℕ → Bool) → Text → Bool
every p [] = true
every p (c ∷ s) = p c && every p s

-- `/^[a-f0-9]{8,64}$/`
unfoldable pub is_snapshot_id : Text → Bool
is_snapshot_id id = every is_hex id && (leb 8 (length id) && leb (length id) 64)

abbrev pub serves_index : DiskEntry → Bool
serves_index absent = true
serves_index directory = true
serves_index special = false
serves_index (file _) = false

abbrev pub index_name : Text
index_name = codes "index.html"

abbrev pub served : Text → DiskEntry → Option ResolvedFile
served path (file _) = some (record { abs_path = path; content_type = content_type_for path })
served path _ = none

-- `resolve`, on the disk that `look` shows.
unfoldable pub resolve : Text → (Text → DiskEntry) → Text → Text → Option ResolvedFile
unfolding is_snapshot_id normalize join_paths starts_with ◌==◌
resolve root look id rel_path =
    let base = join_paths root id in
    let abs = normalize (join_paths base (skip_slashes rel_path)) in
    let path = if serves_index (look abs) then join_paths abs index_name else abs in
    if not (is_snapshot_id id)
    then none
    else if not (abs == base) && not (starts_with (base ++ slash ∷ []) abs)
    then none
    else served path (look path)
