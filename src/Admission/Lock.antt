-- ===== src/Admission/Lock.antt =====
-- The writer lock of src/kernel/admission.ts against the history of its calls.
use modular_agentic_system.Base.{
  ◌≡◌, refl, Bool, true, false, not, List, [], ◌∷◌, ◌++◌, Text, ◌==◌, eq_iff, contains, arith,
  if◌then◌else◌,
}
use modular_agentic_system.Admission.{Admission, empty, admit, release, remove}

pub data Call : Type 0 where
  admits : Text → Call
  releases : Text → Call

unfoldable pub apply : Call → Admission → Admission
apply (admits k) a = (admit k a).0
apply (releases k) a = release k a

-- A history has its latest call first.
unfoldable pub replay : List Call → Admission
unfolding apply
replay [] = empty
replay (c ∷ past) = apply c (replay past)

-- Who holds the lock, said of the history: the latest call about the session was an `admit`.
unfoldable pub held : Text → List Call → Bool
held k [] = false
held k (admits j ∷ past) = if j == k then true else held k past
held k (releases j ∷ past) = if j == k then false else held k past

pub contains-append :
    (k j : Text) (xs : List Text)
    → contains k (xs ++ (j ∷ [])) ≡ (if j == k then true else contains k xs)
unfolding contains
contains-append k j [] = ground arith
contains-append k j (x ∷ xs) = ground (arith, contains-append k j xs)

pub contains-remove :
    (k j : Text) (xs : List Text)
    → contains k (remove j xs) ≡ (if j == k then false else contains k xs)
unfolding contains remove
contains-remove k j [] = ground arith
contains-remove k j (x ∷ xs) =
    ground (arith, contains-remove k j xs, eq_iff x j, eq_iff x k, eq_iff j k)

-- For every history of calls and every session: the active set holds the session exactly when the
-- latest call about that session was an `admit`; calls about other sessions do not matter.
pub contains-replay : (k : Text) (past : List Call) → contains k (replay past).active ≡ held k past
unfolding replay held empty admit release
contains-replay k [] = unfold contains in refl
contains-replay k (admits j ∷ past) =
    ground (arith, contains-replay k past, contains-append k j (replay past).active, eq_iff j k)
contains-replay k (releases j ∷ past) =
    ground (arith, contains-replay k past, contains-remove k j (replay past).active)

-- After every history, a session is admitted exactly when it does not hold the lock, and a refused
-- call leaves the active set as it was.
pub admit-replay :
    (k : Text) (past : List Call)
    → ((admit k (replay past)).1.ok ≡ not (held k past))
      × (held k past ≡ true → (admit k (replay past)).0 ≡ replay past)
unfolding admit
admit-replay k past =
    (ground (arith, contains-replay k past), λ h. ground (arith, contains-replay k past))
