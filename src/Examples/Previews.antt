-- ===== src/Examples/Previews.antt =====
-- Runs of the theorems on src/kernel/previewSnapshot.ts, with a disk that is a map from paths to
-- contents.
use modular_agentic_system.Base.{
  ◌≡◌, ◌≢◌, refl, sym, ◌∙◌, inl, false, List, [], ◌∷◌, ◌++◌, Option, none, some, Text, codes, ◌==◌,
  eq_iff, eq_refl, arith, if◌then◌else◌, starts_with, ends_with,
}
use modular_agentic_system.Base.Map
use modular_agentic_system.Base.Map.{Map, get-set}
use modular_agentic_system.Base.Outcome.{ok, throws, ◌>>=◌}
use modular_agentic_system.Examples.Fixtures.{idle}
use modular_agentic_system.Kernel.{Kernel}
use modular_agentic_system.Kernel.Serving.{IsForeign, read_preview_file, read_preview_file-Inside}
use modular_agentic_system.Posix.{normalize, split, join_paths}
use modular_agentic_system.Posix.Inside.{Inside}
use modular_agentic_system.Preview
use modular_agentic_system.Preview.{PreviewState, snapshot_of}
use modular_agentic_system.Snapshot.{
  SnapshotMeta, DiskEntry, absent, file, Disk, ingest_files, ingest_tarball, store_files, resolve,
  accept, total_bytes, within_total, destination, strip_ups, is_snapshot_id,
}
use modular_agentic_system.Snapshot.Archive.{CapturedFile, TarEntry, hash_files}
use modular_agentic_system.Snapshot.Accept.{
  IsAdmissible, ingest_files-refuses, ingest_files-IsAdmissible,
}
use modular_agentic_system.Snapshot.Contain.{InBase, IsFile}
use modular_agentic_system.Snapshot.Hash.{AreDistinct, swap, hash_files-Reordered}
use modular_agentic_system.Snapshot.RoundTrip.{at_path, resolve-ingest_files}
use modular_agentic_system.Snapshot.Serve.{AreServable, IsFaithful}
use modular_agentic_system.Snapshot.Write.{IsHexDigest, IsKeptInside, ingest_tarball-keeps}

abbrev entry_of : Option Text → DiskEntry
entry_of none = absent
entry_of (some content) = file content

abbrev map_disk : Disk
map_disk = record {
  Fs = Map Text;
  look = λ p fs. entry_of (Map.get p fs);
  make_directory = λ p fs. (fs, ok tt);
  write_file = λ p content fs. (Map.set p content fs, ok tt);
}

map_disk-written : (p c : Text) (fs : Map Text) → entry_of (Map.get p (Map.set p c fs)) ≡ file c
map_disk-written p c fs = rw (get-set p p c fs, eq_refl p) refl

map_disk-other :
    (p q c d : Text) (fs : Map Text)
    → p ≢ q
    → entry_of (Map.get q fs) ≡ file d
    → entry_of (Map.get q (Map.set p c fs)) ≡ file d
map_disk-other p q c d fs n h =
    let e : (p == q) ≡ false = ground (arith, eq_iff p q) in rw (get-set p q c fs, e) h

map_disk-IsFaithful : IsFaithful map_disk
map_disk-IsFaithful = record {
  look_written = λ p c fs n w. map_disk-written p c fs;
  look_other = λ p q c d fs n np nq h. map_disk-other p q c d fs n h;
  look_made = λ p q d fs h. h;
}

abbrev digits : Text
digits = codes "0123456789abcdef0123456789abcdef0123456789abcdef0123456789abcdef"

abbrev one_digest : List Text → Text
one_digest u = digits

one_digest-IsHexDigest : IsHexDigest one_digest
one_digest-IsHexDigest u = (refl, refl)

abbrev page : CapturedFile
page = record { name = codes "index.html"; content = codes "<p>" }

abbrev script : CapturedFile
script = record { name = codes "assets/x.js"; content = codes "1" }

abbrev root : Text
root = codes "/srv/previews"

no_index : ¬ IsAdmissible (script ∷ [])
unfolding ◌==◌ ends_with
no_index a = cc (a.indexed)

ingest_files-refuses_example :
    (m : Text) × (ingest_files map_disk one_digest root (script ∷ []) [] ≡ ([], throws m))
ingest_files-refuses_example =
    ingest_files-refuses map_disk one_digest root (script ∷ []) [] no_index

both-IsAdmissible : IsAdmissible (script ∷ page ∷ [])
unfolding ◌==◌ ends_with
both-IsAdmissible = record {
  some_file = omega arith;
  few = omega arith;
  small = omega arith;
  light = omega arith;
  indexed = refl;
}

ingest_files-IsAdmissible_example :
    let stored =
      store_files map_disk
        (join_paths root (hash_files one_digest (script ∷ page ∷ [])))
        (script ∷ page ∷ [])
        [] in
    ingest_files map_disk one_digest root (script ∷ page ∷ []) [] ≡ (
      stored.0,
      stored.1 >>= λ _. ok (record {
        snapshot_id = hash_files one_digest (script ∷ page ∷ []);
        file_count = 2;
        bytes = 4;
      }),
    )
ingest_files-IsAdmissible_example =
    ingest_files-IsAdmissible map_disk one_digest root (script ∷ page ∷ []) [] both-IsAdmissible

distinct : AreDistinct (script ∷ page ∷ [])
distinct = ((cc, tt), (tt, tt))

hash_files-Reordered_example :
    hash_files one_digest (script ∷ page ∷ []) ≡ hash_files one_digest (page ∷ script ∷ [])
hash_files-Reordered_example = hash_files-Reordered one_digest (swap script page []) distinct

servable : AreServable (script ∷ page ∷ [])
unfolding split strip_ups
servable = (
  record {
    names = ((cc, cc, cc, omega arith), ((cc, cc, ground arith, omega arith), tt));
    stays = refl;
  },
  (record { names = ((cc, cc, ground arith, omega arith), tt); stays = refl }, tt),
)

abbrev answer : SnapshotMeta
answer = record { snapshot_id = codes "0123456789abcdef01234567"; file_count = 2; bytes = 4 }

ingested : (ingest_files map_disk one_digest root (script ∷ page ∷ []) []).1 ≡ ok answer
unfolding ingest_files accept total_bytes within_total ◌==◌ ends_with store_files destination
    normalize join_paths strip_ups starts_with
ingested = refl

resolve-ingest_files_example :
    let after = (ingest_files map_disk one_digest root (script ∷ page ∷ []) []).0 in
    let path = join_paths root answer.snapshot_id ++ codes "/assets/x.js" in
    (resolve root (λ p. entry_of (Map.get p after)) answer.snapshot_id script.name
      ≡ some (at_path path))
    × (entry_of (Map.get path after) ≡ file (codes "1"))
resolve-ingest_files_example =
    resolve-ingest_files map_disk-IsFaithful one_digest root (script ∷ page ∷ []) [] answer script
      one_digest-IsHexDigest servable distinct ingested (inl refl)

abbrev passwd : Text
passwd = codes "/etc/passwd"

abbrev HasPasswd : Map Text → Type 0
HasPasswd fs = Map.get passwd fs ≡ some (codes "root")

elsewhere :
    (files : List CapturedFile) (p : Text)
    → Inside (join_paths root (hash_files one_digest files)) p
    → p ≢ passwd
unfolding join_paths normalize hash_files
elsewhere files p (rest, e, _) f = cc (sym e ∙ f)

kept :
    (files : List CapturedFile)
    → IsKeptInside map_disk (join_paths root (hash_files one_digest files)) HasPasswd
kept files = record {
  by_make_directory = λ p fs i h. h;
  by_write_file = λ p c fs i h.
      let e : (p == passwd) ≡ false = ground (arith, eq_iff p passwd, elsewhere files p i) in
      rw (get-set p passwd c fs, e) h;
}

abbrev evil : List TarEntry
evil =
    record { type_of = codes "file"; path = codes "./../../../etc/passwd"; content = codes "mine" }
    ∷ record { type_of = codes "file"; path = codes "./index.html"; content = [] }
    ∷ []

ingest_tarball-keeps_example :
    HasPasswd
      (ingest_tarball map_disk one_digest root (λ _. ok evil) [] ((passwd, codes "root") ∷ [])).0
ingest_tarball-keeps_example =
    ingest_tarball-keeps map_disk one_digest root (λ _. ok evil) [] ((passwd, codes "root") ∷ [])
      HasPasswd one_digest-IsHexDigest kept (unfold Map.get ◌==◌ in refl)

abbrev with_preview : Kernel
with_preview = record idle {
  preview = (codes "s", record { url = []; port = 0; snapshot_id = some (codes "abcdef12") }) ∷ [];
}

abbrev index_path : Text
index_path = codes "/srv/previews/abcdef12/index.html"

abbrev one_file : Text → DiskEntry
one_file p = if p == index_path then file (codes "<p>") else absent

found :
    read_preview_file root one_file (codes "s") none [] with_preview
    ≡ ok (some (at_path index_path))
unfolding read_preview_file Map.get ◌==◌ resolve is_snapshot_id normalize join_paths
found = refl

read_preview_file-Inside_example :
    (¬ IsForeign (codes "s") none with_preview)
    × ((id : Text) × (snapshot_of (Preview.get (codes "s") with_preview.preview) ≡ some id)
        × InBase (join_paths root id) index_path
        × IsFile one_file index_path)
read_preview_file-Inside_example =
    read_preview_file-Inside root one_file (codes "s") none [] with_preview (at_path index_path)
      found
