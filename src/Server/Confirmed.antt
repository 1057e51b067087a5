-- ===== src/Server/Confirmed.antt =====
-- Whom src/server/auth.ts takes a request to come from, over all the requests of a process.
use modular_agentic_system.Base.{
  ℕ, ◌+◌, ◌≡◌, ◌<◌, refl, List, [], ◌∷◌, Option, none, some, Text, codes, ◌==◌, eq_iff, subst, ap,
  ◌∙◌, ◌≢◌, ltb, or_else, text_or, arith, Bool-cases, Option-cases, inl, inr,
}
use modular_agentic_system.Base.Map
use modular_agentic_system.Base.Map.{Map}
use modular_agentic_system.Base.Outcome.{Outcome, ok, Outcome-cases}
use modular_agentic_system.Server.Auth.{
  CacheEntry, AuthContext, ttl_ms, dev_alice, DevEnv, get_bearer_token, ask_owner, resolve_owner_id,
  auth_pre_handler, auth_all,
}

ok_injective : (a b : AuthContext) → ok a ≡ ok b → a ≡ b
ok_injective a b e = ground arith

some_injective : (a b : Text) → some a ≡ some b → a ≡ b
some_injective a b e = ground arith

none_not_some : (a : Text) → let nothing : Option Text = none in nothing ≢ some a
none_not_some a e = ground arith

module _ (lookup : ℕ → Text → Outcome Text) (dev : DevEnv) where
  -- The service said that this is the token's owner, at a time.
  abbrev pub IsConfirmed : Text → Text → (until : ℕ) → Type 0
  IsConfirmed jwt owner_id until = (t : ℕ) × (lookup t jwt ≡ ok owner_id) × (until ≡ t + ttl_ms)

  abbrev IsSound : Map CacheEntry → Type 0
  IsSound cache =
      (jwt : Text) (entry : CacheEntry)
      → Map.get jwt cache ≡ some entry
      → IsConfirmed jwt entry.owner_id entry.expires_at

  abbrev Answers : Text → ℕ → Map CacheEntry × Outcome Text → Type 0
  Answers jwt now r =
      IsSound r.0
      × ((id : Text) → r.1 ≡ ok id → (until : ℕ) × IsConfirmed jwt id until × (now < until))

  set-IsSound :
      (jwt id : Text) (now : ℕ) (cache : Map CacheEntry)
      → lookup now jwt ≡ ok id
      → IsSound cache
      → IsSound (Map.set jwt (record { owner_id = id; expires_at = now + ttl_ms }) cache)
  set-IsSound jwt id now cache e s k entry f =
      let fresh : CacheEntry = record { owner_id = id; expires_at = now + ttl_ms } in
      let found = Map.get-set jwt k fresh cache in
      elim (Bool-cases (jwt == k)) [
        | inr q ↦ s k entry (ground (arith, found))
        | inl q ↦
            let same : fresh ≡ entry = ground (arith, found) in
            let token : lookup now k ≡ ok id =
              subst (λ j. lookup now j ≡ ok id) ((eq_iff jwt k).0 q) e in
            subst (λ (x : CacheEntry). IsConfirmed k x.owner_id x.expires_at) same
              (now, token, refl)
      ]

  ask_owner-Answers :
      (jwt : Text) (now : ℕ) (cache : Map CacheEntry)
      → IsSound cache
      → Answers jwt now (ask_owner lookup jwt now cache)
  unfolding ask_owner
  ask_owner-Answers jwt now cache s = elim (Outcome-cases (lookup now jwt)) [
    | inr (m, e) ↦ rw (e, ask_owner) (s, λ id f. absurd (ground arith))
    | inl (id, e) ↦
        rw (e, ask_owner)
          (
            set-IsSound jwt id now cache e s,
            λ id' f.
                let same : id ≡ id' = ground arith in
                (now + ttl_ms, (now, subst (λ i. lookup now jwt ≡ ok i) same e, refl), omega arith),
          )
  ]

  resolve_owner_id-Answers :
      (jwt : Text) (now : ℕ) (cache : Map CacheEntry)
      → IsSound cache
      → Answers jwt now (resolve_owner_id lookup jwt now cache)
  unfolding resolve_owner_id
  resolve_owner_id-Answers jwt now cache s = elim (Option-cases (Map.get jwt cache)) [
    | inl e ↦ rw (e, resolve_owner_id) (ask_owner-Answers jwt now cache s)
    | inr (hit, e) ↦ elim (Bool-cases (ltb now hit.expires_at)) [
      | inr q ↦ rw (e, resolve_owner_id, q) (ask_owner-Answers jwt now cache s)
      | inl q ↦
          rw (e, resolve_owner_id, q)
            (
              s,
              λ id f.
                  let same : hit.owner_id ≡ id = ground arith in
                  (
                    hit.expires_at,
                    subst (λ i. IsConfirmed jwt i hit.expires_at) same (s jwt hit e),
                    ground arith,
                  ),
            )
    ]
  ]

  auth_pre_handler-Answers :
      (header : Option Text) (now : ℕ) (cache : Map CacheEntry)
      → IsSound cache
      → IsSound (auth_pre_handler lookup dev header now cache).0
        × ((a : AuthContext) (jwt : Text)
            → (auth_pre_handler lookup dev header now cache).1 ≡ ok a
            → a.user_jwt ≡ some jwt
            → (get_bearer_token header ≡ some jwt)
              × ((until : ℕ) × IsConfirmed jwt a.owner_id until × (now < until)))
  unfolding auth_pre_handler
  auth_pre_handler-Answers header now cache s = elim (Option-cases (get_bearer_token header)) [
    | inl e ↦ elim (Bool-cases (or_else dev.no_auth [] == codes "1")) [
      | inl q ↦
          rw (e, auth_pre_handler, q)
            (
              s,
              λ a jwt f u.
                  let dev_context : AuthContext = record {
                    owner_id = text_or (or_else dev.dev_owner_id []) dev_alice;
                    user_jwt = none;
                  } in
                  let same : dev_context ≡ a = ok_injective dev_context a f in
                  absurd (none_not_some jwt (ap (λ (x : AuthContext). x.user_jwt) same ∙ u)),
            )
      | inr q ↦ rw (e, auth_pre_handler, q) (s, λ a jwt f u. absurd (ground arith))
    ]
    | inr (token, e) ↦
        let (sound, found) = resolve_owner_id-Answers token now cache s in
        elim (Outcome-cases (resolve_owner_id lookup token now cache).1) [
          | inr (m, q) ↦ rw (e, auth_pre_handler, q) (sound, λ a jwt f u. absurd (ground arith))
          | inl (id, q) ↦
              rw (e, auth_pre_handler, q)
                (
                  sound,
                  λ a jwt f u.
                      let context : AuthContext = record { owner_id = id; user_jwt = some token } in
                      let same : context ≡ a = ok_injective context a f in
                      let named : token ≡ jwt =
                        some_injective token jwt (ap (λ (x : AuthContext). x.user_jwt) same ∙ u) in
                      subst
                        (λ j.
                          (some token ≡ some j)
                          × ((until : ℕ) × IsConfirmed j a.owner_id until × (now < until)))
                        named
                        (
                          refl,
                          subst
                              (λ (x : AuthContext).
                                (until : ℕ) × IsConfirmed token x.owner_id until × (now < until))
                              same (found id q),
                        ),
                )
        ]
  ]

  auth_all-IsSound :
      (before : List (ℕ × Option Text)) (cache : Map CacheEntry)
      → IsSound cache
      → IsSound (auth_all lookup dev before cache)
  unfolding auth_all
  auth_all-IsSound [] cache s = s
  auth_all-IsSound ((now, header) ∷ rest) cache s =
      auth_all-IsSound rest (auth_pre_handler lookup dev header now cache).0
        (auth_pre_handler-Answers header now cache s).0

  -- After any requests since the start of the process, at any times: a request that is let in with a token
  -- has that token in its header, and its owner is what the authentication service answered to that token at
  -- a time less than five minutes before, or later.
  pub owner-IsConfirmed :
      (before : List (ℕ × Option Text)) (header : Option Text) (now : ℕ) (a : AuthContext)
      (jwt : Text)
      → (auth_pre_handler lookup dev header now (auth_all lookup dev before [])).1 ≡ ok a
      → a.user_jwt ≡ some jwt
      → (get_bearer_token header ≡ some jwt)
        × ((until : ℕ) × IsConfirmed jwt a.owner_id until × (now < until))
  owner-IsConfirmed before header now a jwt e u =
      let sound =
        auth_all-IsSound before [] (unfold Map.get in λ k entry f. absurd (ground arith)) in
      (auth_pre_handler-Answers header now (auth_all lookup dev before []) sound).1 a jwt e u
