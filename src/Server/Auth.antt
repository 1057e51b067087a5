-- ===== src/Server/Auth.antt =====
-- src/server/auth.ts: who a request comes from. `lookup` is the answer of the authentication service to a
-- token, at a time. Lookups that overlap share their answer, which one after another they do by the cache.
use modular_agentic_system.Base.{
  ℕ, ◌+◌, Bool, false, ◌||◌, List, [], ◌∷◌, Option, none, some, Text, codes, ◌==◌, take, drop, ltb,
  nat_eq, or_else, text_or, if◌then◌else◌,
}
use modular_agentic_system.Base.Map
use modular_agentic_system.Base.Map.{Map}
use modular_agentic_system.Base.Outcome.{Outcome, ok, throws}
use modular_agentic_system.Chat.Tools.{lower}
use modular_agentic_system.Memory.{is_space, trim_start}

abbrev is_line_end : ℕ → Bool
is_line_end c = nat_eq c 10 || nat_eq c 13 || nat_eq c 8232 || nat_eq c 8233

unfoldable pub has_line_end : Text → Bool
has_line_end [] = false
has_line_end (c ∷ cs) = is_line_end c || has_line_end cs

-- The last unit of a text that is all spaces: `\s+` gives one back to `.+`.
unfoldable pub last_space : Text → Option Text
last_space [] = none
last_space (c ∷ []) = if is_line_end c then none else some (c ∷ [])
last_space (c ∷ d ∷ cs) = last_space (d ∷ cs)

-- `\s+(.+)$`, at what follows the word.
unfoldable pub token_after : Text → Option Text
unfolding has_line_end last_space is_space trim_start
token_after [] = none
token_after (c ∷ cs) =
    if is_space c
    then elim (trim_start cs) [
      | [] ↦ last_space cs
      | x ∷ xs ↦ if has_line_end (x ∷ xs) then none else some (x ∷ xs)
    ]
    else none

unfoldable pub get_bearer_token : Option Text → Option Text
unfolding token_after lower ◌==◌
get_bearer_token none = none
get_bearer_token (some value) =
    if lower (take 6 value) == codes "bearer" then token_after (drop 6 value) else none

pub record CacheEntry : Type 0 where
  pub owner_id : Text
  pub expires_at : ℕ

-- Five minutes, in milliseconds.
abbrev pub ttl_ms : ℕ
ttl_ms = 300000

pub record AuthContext : Type 0 where
  pub owner_id : Text
  pub user_jwt : Option Text

-- `process.env.DEV_NO_AUTH` and `process.env.DEV_OWNER_ID`.
pub record DevEnv : Type 0 where
  pub no_auth : Option Text
  pub dev_owner_id : Option Text

abbrev pub dev_alice : Text
dev_alice = codes "11111111-1111-1111-1111-111111111111"

-- Throwing is the response 401.
module _ (lookup : ℕ → Text → Outcome Text) where
  unfoldable pub ask_owner : Text → (now : ℕ) → Map CacheEntry → Map CacheEntry × Outcome Text
  ask_owner jwt now cache = elim (lookup now jwt) [
    | ok id ↦ (Map.set jwt (record { owner_id = id; expires_at = now + ttl_ms }) cache, ok id)
    | throws m ↦ (cache, throws (codes "Unauthorized"))
  ]

  unfoldable pub resolve_owner_id :
      Text → (now : ℕ) → Map CacheEntry → Map CacheEntry × Outcome Text
  unfolding ask_owner
  resolve_owner_id jwt now cache = elim (Map.get jwt cache) [
    | some hit ↦
        if ltb now hit.expires_at then (cache, ok hit.owner_id) else ask_owner jwt now cache
    | none ↦ ask_owner jwt now cache
  ]

abbrev pub authenticated : Text → Outcome Text → Outcome AuthContext
authenticated jwt (ok id) = ok (record { owner_id = id; user_jwt = some jwt })
authenticated jwt (throws m) = throws (codes "invalid or expired token")

module _ (lookup : ℕ → Text → Outcome Text) (dev : DevEnv) where
  unfoldable pub auth_pre_handler :
      Option Text → (now : ℕ) → Map CacheEntry → Map CacheEntry × Outcome AuthContext
  unfolding get_bearer_token resolve_owner_id
  auth_pre_handler header now cache = elim (get_bearer_token header) [
    | none ↦
        if or_else dev.no_auth [] == codes "1"
        then (
          cache,
          ok (record {
            owner_id = text_or (or_else dev.dev_owner_id []) dev_alice;
            user_jwt = none;
          }),
        )
        else (cache, throws (codes "missing bearer token"))
    | some jwt ↦
        let (cache', outcome) = resolve_owner_id lookup jwt now cache in
        (cache', authenticated jwt outcome)
  ]

  -- Requests, one after another, each at its time.
  unfoldable pub auth_all : List (ℕ × Option Text) → Map CacheEntry → Map CacheEntry
  unfolding auth_pre_handler
  auth_all [] cache = cache
  auth_all ((now, header) ∷ rest) cache = auth_all rest (auth_pre_handler header now cache).0
