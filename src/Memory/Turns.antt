-- ===== src/Memory/Turns.antt =====
-- The memory of src/server/sessionMemory.ts against the history of its updates.
use modular_agentic_system.Base.{
  ℕ, zero, suc, ◌+◌, ◌-◌, ◌≡◌, ◌≤◌, refl, sym, ap, ◌∙◌, List, [], ◌∷◌, ◌++◌, some, Text, length,
  drop, arith, length-append, length-drop, if◌then◌else◌, Bool-cases, inl, inr, ◌==◌, eq_iff,
}
use modular_agentic_system.Base.Map
use modular_agentic_system.Base.Map.{Map, get-set}
use modular_agentic_system.Memory.{
  SessionMemory, SessionTurnMemory, key, last, max_turns, turn_of, turns_of, update_session_memory,
  build_summary,
}
use modular_agentic_system.Prewarm.Key.{IsPlain, plain_prefix}
use modular_agentic_system.Settlement.{RunResult}

-- A finished run, as the server hands it over.
pub record Update : Type 0 where
  pub owner_id : Text
  pub session_id : Text
  pub run_id : Text
  pub prompt : Text
  pub result : RunResult
  pub now : ℕ

unfoldable pub update : Update → Map SessionMemory → Map SessionMemory
update u store =
    (update_session_memory u.owner_id u.session_id u.run_id u.prompt u.result u.now store).0

-- A history has its latest update first.
unfoldable pub replay : List Update → Map SessionMemory
replay [] = []
replay (u ∷ past) = update u (replay past)

-- All turns of a session, the oldest first.
unfoldable pub history : (k : Text) → List Update → List SessionTurnMemory
history k [] = []
history k (u ∷ past) =
    let before = history k past in
    if key u.owner_id u.session_id == k
    then before ++ (turn_of u.run_id u.prompt u.result u.now ∷ [])
    else before

drop-append :
    {A : Type 0} (n : ℕ) (xs ys : List A) → n ≤ length xs → drop n (xs ++ ys) ≡ drop n xs ++ ys
drop-append zero xs ys h = refl
drop-append (suc n) [] ys h = absurd (omega arith)
drop-append (suc n) (x ∷ xs) ys h = drop-append n xs ys (ground arith)

drop_nil : {A : Type 0} (n : ℕ) → drop {A = A} n [] ≡ []
drop_nil zero = refl
drop_nil (suc n) = refl

drop-drop : {A : Type 0} (n m : ℕ) (xs : List A) → drop n (drop m xs) ≡ drop (m + n) xs
drop-drop n zero xs = ground arith
drop-drop {A} n (suc m) [] = drop_nil n ∙ sym (drop_nil {A = A} (suc m + n))
drop-drop n (suc m) (x ∷ xs) =
    let e : suc (m + n) ≡ suc m + n = omega arith in drop-drop n m xs ∙ ap (λ i. drop i (x ∷ xs)) e

-- A turn that fell out already makes no difference.
last-last :
    (most : ℕ) (xs : List SessionTurnMemory) (t : SessionTurnMemory)
    → last most (last most xs ++ (t ∷ [])) ≡ last most (xs ++ (t ∷ []))
unfolding last
last-last most xs t =
    let k = length xs - most in
    let fits : k ≤ length xs = omega arith in
    rw (← drop-append k xs (t ∷ []) fits) (
      drop-drop _ k (xs ++ (t ∷ []))
      ∙ ap (λ n. drop n (xs ++ (t ∷ [])))
          (ground (arith, length-drop k (xs ++ (t ∷ [])), length-append xs (t ∷ []))))

length-last : (most : ℕ) (xs : List SessionTurnMemory) → length (last most xs) ≤ most
unfolding last
length-last most xs = ground (arith, length-drop (length xs - most) xs)

-- After any sequence of updates, of whatever sessions, the memory of a session has its last six turns,
-- in order, and a summary that is theirs.
pub update-replay :
    (k : Text) (past : List Update)
    → (turns_of (Map.get k (replay past)) ≡ last max_turns (history k past))
      × ((m : SessionMemory) → Map.get k (replay past) ≡ some m → m.summary ≡ build_summary m.turns)
unfolding replay history update update_session_memory
update-replay k [] = unfold Map.get last in (refl, λ m e. absurd (ground arith))
update-replay k (u ∷ past) =
    let (turns, summary) = update-replay k past in
    let j = key u.owner_id u.session_id in
    let store = replay past in
    let turn = turn_of u.run_id u.prompt u.result u.now in
    let v =
      (update_session_memory u.owner_id u.session_id u.run_id u.prompt u.result u.now store).1 in
    let g = get-set j k v store in
    elim (Bool-cases (j == k)) [
      | inl e ↦
          let same = ap (λ i. turns_of (Map.get i store)) ((eq_iff j k).0 e) ∙ turns in
          let found : Map.get k (Map.set j v store) ≡ some v = ground arith in
          rw (found, e)
            (
              ap (λ xs. last max_turns (xs ++ (turn ∷ []))) same
                  ∙ last-last max_turns (history k past) turn,
              λ m f. ground arith,
            )
      | inr e ↦
          let found : Map.get k (Map.set j v store) ≡ Map.get k store = ground arith in
          rw (found, e) (turns, summary)
    ]

-- For two owners without a colon in their ids, sessions of different owners have different memories: the
-- key tells both the owner and the session.
pub key-injective :
    (owner owner' session session' : Text)
    → IsPlain owner
    → IsPlain owner'
    → key owner session ≡ key owner' session'
    → (owner ≡ owner') × (session ≡ session')
unfolding key
key-injective owner owner' session session' p q e = plain_prefix owner owner' session session' p q e
