-- ===== src/Snapshot/Contain.antt =====
-- src/kernel/previewSnapshot.ts: no file outside a snapshot's directory is served or written.
use modular_agentic_system.Base.{
  ◌≡◌, ◌⊎◌, inl, inr, refl, ◌∙◌, Bool, true, false, not, ◌&&◌, [], ◌∷◌, ◌++◌, append_assoc, Option,
  none, some, Text, ◌==◌, eq_iff, if◌then◌else◌, starts_with, arith, Bool-cases,
}
use modular_agentic_system.Posix.{slash, split, normalize, join_paths, skip_slashes}
use modular_agentic_system.Posix.Segments.{All, NoSlash, IsName, NotUp}
use modular_agentic_system.Posix.Inside.{
  Inside, Directory, join_paths-Directory, normalize-Inside, join_paths-Inside, join_paths_names,
}
use modular_agentic_system.Snapshot.{
  ResolvedFile, DiskEntry, absent, directory, special, file, is_hex, every, is_snapshot_id,
  serves_index, index_name, served, resolve,
}

hex-NoSlash : (id : Text) → every is_hex id ≡ true → NoSlash id
hex-NoSlash [] h = tt
hex-NoSlash (c ∷ id) h = (ground arith, hex-NoSlash id (ground arith))

pub is_snapshot_id-IsName : (id : Text) → is_snapshot_id id ≡ true → IsName id
unfolding is_snapshot_id
is_snapshot_id-IsName [] h = cc
is_snapshot_id-IsName (c ∷ id) h =
    (cc, ground arith, ground arith, hex-NoSlash (c ∷ id) (ground arith))

starts_with-append : (p s : Text) → starts_with p s ≡ true → (rest : Text) × (s ≡ p ++ rest)
unfolding starts_with
starts_with-append [] s h = (s, refl)
starts_with-append (x ∷ p) [] h = cc
starts_with-append (x ∷ p) (y ∷ s) h =
    let (rest, e) = starts_with-append p s (ground arith) in (rest, ground arith)

pub starts_below :
    (base p : Text)
    → starts_with (base ++ slash ∷ []) p ≡ true
    → (rest : Text) × (p ≡ base ++ slash ∷ rest)
starts_below base p h =
    let (rest, e) = starts_with-append (base ++ slash ∷ []) p h in
    (rest, e ∙ append_assoc base (slash ∷ []) rest)

index-names : All IsName (split index_name)
unfolding split
index-names = ((cc, cc, ground arith, omega arith), tt)

index-NotUp : All NotUp (split index_name)
unfolding split
index-NotUp = (ground arith, tt)

-- A path is a regular file on the disk, with this content.
abbrev pub IsFile : (Text → DiskEntry) → Text → Type 0
IsFile look path = (content : Text) × (look path ≡ file content)

served_lem :
    (look : Text → DiskEntry) (path : Text) (f : ResolvedFile)
    → served path (look path) ≡ some f
    → (f.abs_path ≡ path) × IsFile look path
served_lem look path f h = go (look path) refl h
  where
    go :
        (e : DiskEntry)
        → look path ≡ e
        → served path e ≡ some f
        → (f.abs_path ≡ path) × IsFile look path
    go absent p h = cc
    go directory p h = cc
    go special p h = cc
    go (file c) p h = (ground arith, (c, p))

abbrev pub InBase : Text → Text → Type 0
InBase base path = (path ≡ base) ⊎ Inside base path

-- Both paths that `resolve` may open, the one asked for and the index below it.
opened_paths :
    {base : Text} (d : Directory base) (q : Text) (b : Bool)
    → (normalize q ≡ base) ⊎ ((rest : Text) × (normalize q ≡ base ++ slash ∷ rest))
    → InBase base (if b then join_paths (normalize q) index_name else normalize q)
opened_paths {base} d q true (inl e) =
    inr (rw e (index_name, join_paths_names d index_name index-names, index-NotUp))
opened_paths d q true (inr (rest, e)) = inr (join_paths-Inside d q rest index_name e index-names)
opened_paths d q false (inl e) = inl e
opened_paths d q false (inr (rest, e)) = inr (normalize-Inside d q rest e)

past_guards :
    (a b : Bool) (x : Option ResolvedFile) (f : ResolvedFile)
    → (if not a then none else if b then none else x) ≡ some f
    → (a ≡ true) × (b ≡ false) × (x ≡ some f)
past_guards a b x f h = ground arith

within :
    (base abs : Text)
    → (not (abs == base) && not (starts_with (base ++ slash ∷ []) abs)) ≡ false
    → (abs ≡ base) ⊎ ((rest : Text) × (abs ≡ base ++ slash ∷ rest))
within base abs h = elim (Bool-cases (abs == base)) [
  | inl e ↦ inl ((eq_iff abs base).0 e)
  | inr e ↦ inr (starts_below base abs (ground arith))
]

-- A file that `resolve` serves is a regular file of the disk, at the snapshot's own path or at one below
-- it: the path goes on after a slash, and no segment of what follows is `..`. This holds for every
-- request path and every id.
pub resolve-Inside :
    (root : Text) (look : Text → DiskEntry) (id rel_path : Text) (f : ResolvedFile)
    → resolve root look id rel_path ≡ some f
    → InBase (join_paths root id) f.abs_path × IsFile look f.abs_path
unfolding resolve
resolve-Inside root look id rel_path f h =
    let base = join_paths root id in
    let q = join_paths base (skip_slashes rel_path) in
    let abs = normalize q in
    let path = if serves_index (look abs) then join_paths abs index_name else abs in
    let (i, w, s) =
      past_guards (is_snapshot_id id)
        (not (abs == base) && not (starts_with (base ++ slash ∷ []) abs)) (served path (look path))
        f h in
    let (e, c) = served_lem look path f s in
    let d = join_paths-Directory root id (is_snapshot_id-IsName id i) in
    rw e (opened_paths d q (serves_index (look abs)) (within base abs w), c)
