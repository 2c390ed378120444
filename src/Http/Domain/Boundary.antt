-- ===== src/Http/Domain/Boundary.antt =====
-- What an allowlist admits, in terms of DNS labels.
use langhuan.Prelude.{
  subst, ℕ, ◌+◌, ◌-◌, ◌≡◌, ◌↔◌, ◌⊎◌, refl, sym, ap, ap₂, ◌∙◌, true, none, some, List, ◌∷◌, ◌++◌,
  Option, Text, text_eq, same_iff, arith, length, length-append, get_elem?, get_elem?-append, Any,
  any_iff, append_assoc, Option-cases, drop, take, split_at, suc, inl, inr, text_beq_iff, [],
}
use langhuan.Prelude.Bytes.{
  codes, to_ascii_lowercase, strip_prefix, strip_prefix_iff, ends_with, ends_with_iff,
}
use langhuan.Http.Url.{UrlParser}
use langhuan.Http.Domain.{
  dot, wildcard_matches, match_entry, entry_allows, host_allowed, request_host, domain_allowed,
}

-- `host` is `suffix` below at least one more label, at a label boundary.
abbrev pub IsBelow : Text → Text → Type 0
IsBelow suffix host = (labels : Text) × (host ≡ labels ++ dot ∷ suffix)

module _ (host suffix : Text) where
  IsBelow-of_matches : wildcard_matches host suffix ≡ true → IsBelow suffix host
  unfolding wildcard_matches ends_with
  IsBelow-of_matches h =
      let i : ℕ = length host - length suffix - 1 in
      let at : get_elem? host i ≡ some dot = ground (arith, Option-cases (get_elem? host i)) in
      let n : suc i ≡ length host - length suffix = ground arith in
      let d : drop (length host - length suffix) host ≡ suffix =
        (text_beq_iff _ suffix).0 (ground arith) in
      (
        take i host,
        split_at host i dot at
            ∙ ap₂ (λ (k : ℕ) (t : Text). take i host ++ dot ∷ t) n (ap (λ k. drop k host) n ∙ d),
      )

  matches-of_IsBelow : IsBelow suffix host → wildcard_matches host suffix ≡ true
  unfolding wildcard_matches
  matches-of_IsBelow (labels, e) =
      let n : length host ≡ length labels + suc (length suffix) =
        ap length e ∙ length-append labels (dot ∷ suffix) in
      let at : get_elem? host (length host - length suffix - 1) ≡ some dot =
        ap₂ get_elem? e (omega arith) ∙ get_elem?-append labels suffix dot in
      let ends : ends_with host suffix ≡ true =
        (ends_with_iff host suffix).1
          (labels ++ dot ∷ [], e ∙ sym (append_assoc labels (dot ∷ []) suffix)) in
      ground (arith, ends, at)

  wildcard_matches_iff : (wildcard_matches host suffix ≡ true) ↔ IsBelow suffix host
  wildcard_matches_iff = (IsBelow-of_matches, matches-of_IsBelow)

-- What an entry says: a lower-case entry `*.suffix` means a host below `suffix`, any other itself.
abbrev pub Matches : Text → Text → Type 0
Matches host entry =
    ((suffix : Text) × (entry ≡ codes "*." ++ suffix) × IsBelow suffix host)
    ⊎ ((strip_prefix (codes "*.") entry ≡ none) × (host ≡ entry))

abbrev pub Permits : Text → Text → Type 0
Permits host entry = Matches host (to_ascii_lowercase entry)

match_entry_iff :
    (host entry : Text) (o : Option Text)
    → strip_prefix (codes "*.") entry ≡ o
    → (match_entry host entry o ≡ true) ↔ Matches host entry
match_entry_iff host entry none e = (
  λ h. inr (e, (same_iff host entry).0 h),
  elim [
    | inl (suffix, p, _) ↦ absurd (cc (e, (strip_prefix_iff (codes "*.") entry suffix).1 p))
    | inr (_, p) ↦ (same_iff host entry).1 p
  ],
)
match_entry_iff host entry (some suffix) e = (
  λ h. inl (
    suffix,
    (strip_prefix_iff (codes "*.") entry suffix).0 e,
    (wildcard_matches_iff host suffix).0 h,
  ),
  elim [
    | inl (s, p, below) ↦
        let q : s ≡ suffix = cc (e, (strip_prefix_iff (codes "*.") entry s).1 p) in
        (wildcard_matches_iff host suffix).1 (subst (λ t. IsBelow t host) q below)
    | inr (p, _) ↦ absurd (cc (e, p))
  ],
)

entry_allows_iff : (host entry : Text) → (entry_allows host entry ≡ true) ↔ Permits host entry
unfolding entry_allows
entry_allows_iff host entry = match_entry_iff host (to_ascii_lowercase entry) _ refl

host_allowed_iff :
    (o : Option Text) (ds : List Text)
    → (host_allowed o ds ≡ true) ↔ ((host : Text) × (o ≡ some host) × Any (Permits host) ds)
host_allowed_iff none ds = (λ e. absurd (cc), λ (host, e, _). absurd (cc))
host_allowed_iff (some host) ds = (
  λ h. (host, refl, (any_iff (entry_allows_iff host) ds).0 h),
  λ (h, e, a).
      let q : h ≡ host = cc in
      (any_iff (entry_allows_iff host) ds).1 (subst (λ t. Any (Permits t) ds) q a),
)

-- A URL passes the allowlist exactly when it has a host and some entry, read in lower case, permits
-- that host, read in lower case without dots at its end: `*.suffix` permits what is below `suffix`
-- at a dot, and any other entry permits itself.
pub domain_allowed_iff :
    (urls : UrlParser) (url : Text) (access_domains : List Text)
    → (domain_allowed urls url access_domains ≡ true)
      ↔ ((host : Text) × (request_host urls url ≡ some host) × Any (Permits host) access_domains)
unfolding domain_allowed
domain_allowed_iff urls url ds = host_allowed_iff (request_host urls url) ds
