-- ===== src/Http/Redirect.antt =====
-- native/langhuan/src/http.rs: `FeedClient::redirect_policy`, and the chain of requests that reqwest
-- makes under it.
use langhuan.Prelude.{
  ℕ, suc, ◌≤◌, ◌≡◌, true, not, Option, none, some, List, [], ◌∷◌, Text, arith, ltb, length, All,
  if◌then◌else◌,
}
use langhuan.Http.Url.{UrlParser}
use langhuan.Http.Domain.{domain_allowed}

-- `MAX_REDIRECTS`
abbrev pub max_redirects : ℕ
max_redirects = 10

-- What a policy answers to an attempt: `attempt.error`, `attempt.stop`, `attempt.follow`.
pub data Action : Type 0 where
  refuse stop follow : Action

module _ (urls : UrlParser) where
  -- The policy over the URLs requested before and the next one.
  unfoldable pub redirect_policy : Option (List Text) → ℕ → Text → Action
  redirect_policy allowlist previous url =
      if ltb max_redirects previous then refuse else elim allowlist [
        | none ↦ follow
        | some domains ↦ if not (domain_allowed urls url domains) then stop else follow
      ]

  -- The requests of one call, latest first: reqwest asks the policy before each hop, with the URLs
  -- requested so far, and requests the target only on `follow`.
  pub data Chain (allowlist : Option (List Text)) (start : Text) : List Text → Type 0 where
    first : Chain allowlist start (start ∷ [])
    hop :
        {previous : List Text} (next : Text)
        → Chain allowlist start previous
        → redirect_policy allowlist (length previous) next ≡ follow
        → Chain allowlist start (next ∷ previous)

  follow_allowed :
      (domains : List Text) (n : ℕ) (url : Text)
      → redirect_policy (some domains) n url ≡ follow
      → (domain_allowed urls url domains ≡ true) × (n ≤ max_redirects)
  unfolding redirect_policy
  follow_allowed domains n url h = ground arith

  -- Every URL of a chain of redirects that the policy lets through is inside the allowlist when the
  -- first is, and at most ten follow it.
  pub Chain-allowed :
      (domains : List Text) (start : Text) (visited : List Text)
      → domain_allowed urls start domains ≡ true
      → Chain (some domains) start visited
      → All (λ url. domain_allowed urls url domains ≡ true) visited
        × (length visited ≤ suc max_redirects)
  Chain-allowed domains start visited h first = ((h, tt), omega arith)
  Chain-allowed domains start visited h (hop {previous = p} next c f) =
      let (inside, n) = follow_allowed domains (length p) next f in
      let (before, _) = Chain-allowed domains start p h c in ((inside, before), omega arith)
