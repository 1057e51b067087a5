-- ===== src/Snapshot/Serve.antt =====
-- src/kernel/previewSnapshot.ts: what was ingested is served.
use modular_agentic_system.Base.{
  ◌≡◌, ◌≢◌, ◌⊎◌, inl, inr, refl, sym, ap, ◌∙◌, true, List, [], ◌∷◌, ◌++◌, append_assoc, Text,
  starts_with, arith,
}
use modular_agentic_system.Base.Outcome.{Outcome, ok, throws, Outcome-cases}
use modular_agentic_system.Posix.{slash, split, normalize, dirname}
use modular_agentic_system.Posix.Segments.{All, IsName}
use modular_agentic_system.Posix.Inside.{Directory, join_paths_names}
use modular_agentic_system.Posix.Names.{normalize_in-Directory, normalize_names}
use modular_agentic_system.Snapshot.{file, Disk, strip_ups, destination, store_files}
use modular_agentic_system.Snapshot.Archive.{CapturedFile}
use modular_agentic_system.Snapshot.Hash.{Lacks, AreDistinct}

-- A relative path of names, that does not start with `..` and a backslash.
pub record IsServable (name : Text) : Type 0 where
  pub names : All IsName (split name)
  pub stays : strip_ups name ≡ name

abbrev pub AreServable : List CapturedFile → Type 0
AreServable [] = Unit
AreServable (f ∷ fs) = IsServable f.name × AreServable fs

abbrev pub Holds : CapturedFile → List CapturedFile → Type 0
Holds f [] = ⊥
Holds f (g ∷ gs) = (f ≡ g) ⊎ Holds f gs

-- A disk without links that tells names apart by every unit: a file that was written is there, and
-- other files stay, by the paths in normal form.
pub record IsFaithful (disk : Disk) : Type 0 where
  pub look_written :
      (p c : Text) (fs : disk.Fs)
      → normalize p ≡ p
      → (disk.write_file p c fs).1 ≡ ok tt
      → disk.look p (disk.write_file p c fs).0 ≡ file c
  pub look_other :
      (p q c d : Text) (fs : disk.Fs)
      → p ≢ q
      → normalize p ≡ p
      → normalize q ≡ q
      → disk.look q fs ≡ file d
      → disk.look q (disk.write_file p c fs).0 ≡ file d
  pub look_made :
      (p q d : Text) (fs : disk.Fs)
      → disk.look q fs ≡ file d
      → disk.look q (disk.make_directory p fs).0 ≡ file d

starts_with_self : (p s : Text) → starts_with p (p ++ s) ≡ true
unfolding starts_with
starts_with_self [] s = refl
starts_with_self (c ∷ p) s = ground (arith, starts_with_self p s)

pub starts_below :
    (base name : Text) → starts_with (base ++ slash ∷ []) (base ++ slash ∷ name) ≡ true
starts_below base name =
    ap (starts_with (base ++ slash ∷ [])) (sym (append_assoc base (slash ∷ []) name))
    ∙ starts_with_self (base ++ slash ∷ []) name

append-injective : (base p q : Text) → base ++ slash ∷ p ≡ base ++ slash ∷ q → p ≡ q
append-injective [] p q e = cc
append-injective (c ∷ base) p q e = append-injective base p q (cc)

refused : {m : Text} → ◌≡◌ {A = Outcome (Unit {0})} (throws m) (ok tt) → ⊥
refused h = cc

module _ {disk : Disk} (faithful : IsFaithful disk) {base : Text} (d : Directory base) where
  open disk use {Fs, look, make_directory, write_file}

  destination_lem : (name : Text) → IsServable name → destination base name ≡ base ++ slash ∷ name
  unfolding destination
  destination_lem name s =
      rw (normalize_names name s.names, s.stays) (join_paths_names d name s.names)

  -- The steps of storing one file, when the disk takes it.
  store-step :
      (f : CapturedFile) (files : List CapturedFile) (fs : Fs)
      → IsServable f.name
      → (store_files disk base (f ∷ files) fs).1 ≡ ok tt
      → let p = base ++ slash ∷ f.name in
        let fs₁ = (make_directory (dirname p) fs).0 in
        ((write_file p f.content fs₁).1 ≡ ok tt)
        × (store_files disk base (f ∷ files) fs
            ≡ store_files disk base files (write_file p f.content fs₁).0)
  unfolding store_files
  store-step f files fs s h =
      let e = destination_lem f.name s in
      let b = starts_below base f.name in
      let p = base ++ slash ∷ f.name in
      let fs₁ = (make_directory (dirname p) fs).0 in
      elim (Outcome-cases (make_directory (dirname p) fs).1) [
        | inr (m, x) ↦ absurd (refused (rw (e, b, x) at h))
        | inl (_, x) ↦ elim (Outcome-cases (write_file p f.content fs₁).1) [
          | inr (m, y) ↦ absurd (refused (rw (e, b, x, e, y) at h))
          | inl (_, y) ↦ (y, rw (e, b, x, e, y, e) refl)
        ]
      ]

  -- A file whose path no file of the list has stays.
  store_files-others :
      (files : List CapturedFile) (fs : Fs) (name c : Text)
      → AreServable files
      → (store_files disk base files fs).1 ≡ ok tt
      → All IsName (split name)
      → Lacks name files
      → look (base ++ slash ∷ name) fs ≡ file c
      → look (base ++ slash ∷ name) (store_files disk base files fs).0 ≡ file c
  store_files-others [] fs name c s h n l there = unfold store_files in there
  store_files-others (f ∷ files) fs name c (s, ss) h n (ne, l) there =
      let p = base ++ slash ∷ f.name in
      let q = base ++ slash ∷ name in
      let fs₁ = (make_directory (dirname p) fs).0 in
      let (w, e) = store-step f files fs s h in
      rw e (
        store_files-others files (write_file p f.content fs₁).0 name c ss
          (sym (ap (λ r. r.1) e) ∙ h) n l
          (faithful.look_other p q f.content c fs₁
            (λ same. ne (sym (append-injective base f.name name same)))
            (normalize_in-Directory d f.name s.names) (normalize_in-Directory d name n)
            (faithful.look_made (dirname p) q c fs there)))

  pub store_files-look :
      (files : List CapturedFile) (fs : Fs) (f : CapturedFile)
      → AreServable files
      → AreDistinct files
      → (store_files disk base files fs).1 ≡ ok tt
      → Holds f files
      → look (base ++ slash ∷ f.name) (store_files disk base files fs).0 ≡ file f.content
  store_files-look [] fs f s a h m = absurd m
  store_files-look (g ∷ files) fs f (s, ss) (l, a) h (inl m) =
      let p = base ++ slash ∷ g.name in
      let fs₁ = (make_directory (dirname p) fs).0 in
      let (w, e) = store-step g files fs s h in
      rw (m, e)
        (store_files-others files (write_file p g.content fs₁).0 g.name g.content ss
          (sym (ap (λ r. r.1) e) ∙ h) s.names l
          (faithful.look_written p g.content fs₁ (normalize_in-Directory d g.name s.names) w))
  store_files-look (g ∷ files) fs f (s, ss) (l, a) h (inr m) =
      let p = base ++ slash ∷ g.name in
      let (w, e) = store-step g files fs s h in
      rw e (
        store_files-look files (write_file p g.content (make_directory (dirname p) fs).0).0 f ss a
          (sym (ap (λ r. r.1) e) ∙ h) m)
