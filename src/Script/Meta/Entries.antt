-- ===== src/Script/Meta/Entries.antt =====
-- native/langhuan/src/script/meta.rs: what the builder holds after the entries of a header.
use langhuan.Prelude.{
  ℕ, ◌≡◌, refl, ap, ◌∙◌, true, false, Option, none, some, List, [], ◌∷◌, Text, text_eq, text_beq,
  same, same_iff, contains, arith, Bool-cases, inl, inr, if◌then◌else◌, ◌⊎◌, All, AreNew, subst,
}
use langhuan.Error.{ok, Result-cases}
use langhuan.Script.Meta.{HeaderEntry, FeedMetaBuilder, set_field, set, set_all}
use langhuan.Script.Meta.Fields.{
  TextField, id, name, version, author, description, base_url, key_of, held, domain_key,
  with_domain, schema_of, IsKnown, set_field-held, set_field-seen, set_field-domains,
  set_field-schema, set_field-is_known, is_known_sound,
}

-- The value of the first entry with a key.
abbrev pub declared : Text → List HeaderEntry → Option Text
declared key [] = none
declared key (entry ∷ rest) = if same entry.key key then some entry.value else declared key rest

-- The keys but `access_domain`, which may be repeated.
abbrev pub scalar_keys : List HeaderEntry → List Text
scalar_keys [] = []
scalar_keys (entry ∷ rest) =
    if same entry.key domain_key then scalar_keys rest else entry.key ∷ scalar_keys rest

-- The domains that are declared, as a set, after some.
abbrev pub domains_after : List Text → List HeaderEntry → List Text
domains_after domains [] = domains
domains_after domains (entry ∷ rest) =
    domains_after (if same entry.key domain_key then with_domain domains entry.value else domains)
      rest

abbrev pub or_else : Option Text → Option Text → Option Text
or_else none old = old
or_else (some value) old = some value

-- The version that is declared, or one that is there.
abbrev pub schema_after : Option ℕ → List HeaderEntry → Option ℕ
schema_after old [] = old
schema_after old (entry ∷ rest) = schema_after (schema_of entry.key entry.value old) rest

-- What the builder holds after some entries.
pub record Declares (b : FeedMetaBuilder) (entries : List HeaderEntry) (b' : FeedMetaBuilder)
    : Type 0 where
  pub new_keys : AreNew b.seen (scalar_keys entries)
  pub known : All (λ entry. IsKnown entry.key) entries
  pub texts : (f : TextField) → held f b' ≡ or_else (declared (key_of f) entries) (held f b)
  pub schema : b'.schema_version ≡ schema_after b.schema_version entries
  pub domains : b'.access_domains ≡ domains_after b.access_domains entries

-- A key that has been seen is not declared again.
pub declared-seen :
    (seen : List Text) (key : Text) (entries : List HeaderEntry)
    → same key domain_key ≡ false
    → AreNew seen (scalar_keys entries)
    → contains seen key ≡ true
    → declared key entries ≡ none
unfolding contains
declared-seen seen key [] h new c = refl
declared-seen seen key (entry ∷ rest) h new c = elim (Bool-cases (same entry.key domain_key)) [
  | inl domain ↦
      let miss : same entry.key key ≡ false =
        ground
          (arith, same_iff entry.key domain_key, same_iff entry.key key, same_iff key domain_key) in
      rw miss (declared-seen seen key rest h (rw domain at new) c)
  | inr scalar ↦
      let (fresh, later) : (contains seen entry.key ≡ false)
          × AreNew (entry.key ∷ seen) (scalar_keys rest) =
        rw scalar at new in
      let miss : same entry.key key ≡ false = ground (arith, same_iff entry.key key) in
      rw miss (declared-seen (entry.key ∷ seen) key rest h later (ground (arith)))
]

held-seen :
    (f : TextField) (b : FeedMetaBuilder) (seen : List Text)
    → held f (record b { seen = seen }) ≡ held f b
held-seen id b seen = refl
held-seen name b seen = refl
held-seen version b seen = refl
held-seen author b seen = refl
held-seen description b seen = refl
held-seen base_url b seen = refl

key_of-scalar : (f : TextField) → same (key_of f) domain_key ≡ false
unfolding text_beq
key_of-scalar id = refl
key_of-scalar name = refl
key_of-scalar version = refl
key_of-scalar author = refl
key_of-scalar description = refl
key_of-scalar base_url = refl

-- What follows the entry's key in `seen`.
abbrev IsMarked : FeedMetaBuilder → FeedMetaBuilder → Text → Type 0
IsMarked b b1 key =
    ((same key domain_key ≡ true) × (b1.seen ≡ b.seen))
    ⊎ ((same key domain_key ≡ false) × (contains b.seen key ≡ false) × (b1.seen ≡ key ∷ b.seen))

-- One entry that is accepted.
set_lem :
    (b b' : FeedMetaBuilder) (key value : Text) (line : ℕ)
    → set b key value line ≡ ok b'
    → (b1 : FeedMetaBuilder) × (set_field b1 key value line ≡ ok b')
      × ((f : TextField) → held f b1 ≡ held f b)
      × (b1.schema_version ≡ b.schema_version)
      × (b1.access_domains ≡ b.access_domains)
      × (((same key domain_key ≡ true) × (b1.seen ≡ b.seen))
          ⊎ ((same key domain_key ≡ false)
              × (contains b.seen key ≡ false)
              × (b1.seen ≡ key ∷ b.seen)))
unfolding set
set_lem b b' key value line e = elim (Bool-cases (same key domain_key)) [
  | inl domain ↦ (b, rw domain at e, λ f. refl, refl, refl, inl (domain, refl))
  | inr scalar ↦ elim (Bool-cases (contains b.seen key)) [
    | inl old ↦ absurd (cc (rw (scalar, old) at e))
    | inr new ↦ (
      record b { seen = key ∷ b.seen },
      rw (scalar, new) at e,
      λ f. held-seen f b (key ∷ b.seen),
      refl,
      refl,
      inr (scalar, new, refl),
    )
  ]
]

module _ (b b1 b2 b' : FeedMetaBuilder) (entry : HeaderEntry) (rest : List HeaderEntry)
    (field : set_field b1 entry.key entry.value entry.line ≡ ok b2)
    (marked : IsMarked b b1 entry.key) (more : Declares b2 rest b') where
  seen_then : b2.seen ≡ b1.seen
  seen_then = set_field-seen b1 b2 entry.key entry.value entry.line field

  keys_then : AreNew b.seen (scalar_keys (entry ∷ rest))
  keys_then =
      let later = more.new_keys in
      elim marked [
        | inl (domain, kept) ↦
            rw domain (subst (λ s. AreNew s (scalar_keys rest)) (seen_then ∙ kept) later)
        | inr (scalar, new, grown) ↦
            rw scalar (new, subst (λ s. AreNew s (scalar_keys rest)) (seen_then ∙ grown) later)
      ]

  not_again : (f : TextField) → same entry.key (key_of f) ≡ true → declared (key_of f) rest ≡ none
  unfolding contains
  not_again f hit =
      let e : entry.key ≡ key_of f = (same_iff entry.key (key_of f)).0 hit in
      elim marked [
        | inl (domain, kept) ↦ absurd (cc (domain, key_of-scalar f, e))
        | inr (scalar, new, grown) ↦
            declared-seen b2.seen (key_of f) rest (key_of-scalar f) more.new_keys
              (rw (seen_then ∙ grown, hit) refl)
      ]

  texts_then :
      (f : TextField)
      → held f b1 ≡ held f b
      → held f b' ≡ or_else (declared (key_of f) (entry ∷ rest)) (held f b)
  texts_then f kept =
      let now = set_field-held f b1 b2 entry.key entry.value entry.line field in
      elim (Bool-cases (same entry.key (key_of f))) [
        | inl hit ↦ more.texts f ∙ rw (not_again f hit, now, hit) refl
        | inr miss ↦ more.texts f ∙ rw (now, miss, kept) refl
      ]

pub all_declared :
    (b b' : FeedMetaBuilder) (entries : List HeaderEntry)
    → set_all b entries ≡ ok b'
    → Declares b entries b'
unfolding set_all
all_declared b b' [] e =
    let done : b' ≡ b = cc in
    rw done (record { new_keys = tt; known = tt; texts = λ f. refl; schema = refl; domains = refl })
all_declared b b' (entry ∷ rest) e = elim (Result-cases (set b entry.key entry.value entry.line)) [
  | inr (x, bad) ↦ absurd (cc (rw bad at e))
  | inl (b2, fine) ↦
      let more = all_declared b2 b' rest (rw fine at e) in
      let (b1, field, same_texts, same_schema, same_domains, marked) =
        set_lem b b2 entry.key entry.value entry.line fine in
      record {
        new_keys = keys_then b b1 b2 b' entry rest field marked more;
        known = (
          is_known_sound entry.key
              (set_field-is_known b1 b2 entry.key entry.value entry.line field),
          more.known,
        );
        texts = λ f. texts_then b b1 b2 b' entry rest field marked more f (same_texts f);
        schema =
            more.schema
            ∙ ap (λ o. schema_after o rest)
                (set_field-schema b1 b2 entry.key entry.value entry.line field
                  ∙ ap (schema_of entry.key entry.value) same_schema);
        domains =
            more.domains
            ∙ ap (λ s. domains_after s rest)
                (set_field-domains b1 b2 entry.key entry.value entry.line field
                  ∙ ap (λ s. if same entry.key domain_key then with_domain s entry.value else s)
                      same_domains);
      }
]
