-- ===== src/Script/Meta/Fields.antt =====
-- native/langhuan/src/script/meta.rs: what one entry of a header sets.
use langhuan.Prelude.{
  ℕ, ◌≡◌, refl, Bool, true, ◌||◌, Option, none, some, List, Text, text_eq, same, same_iff, arith,
  Bool-cases, inl, inr, if◌then◌else◌, ◌==◌, length, ◌↔◌, ◌⊎◌,
}
use langhuan.Prelude.Bytes.{codes, trim}
use langhuan.Prelude.Decimal.{parse_u32}
use langhuan.Error.{ok}
use langhuan.Script.Meta.{FeedMetaBuilder, insert_into, set_schema_version, set_field}

-- The fields that hold a text, with their keys.
pub data TextField : Type 0 where
  id name version author description base_url : TextField

abbrev pub key_of : TextField → Text
key_of id = codes "id"
key_of name = codes "name"
key_of version = codes "version"
key_of author = codes "author"
key_of description = codes "description"
key_of base_url = codes "base_url"

abbrev pub held : TextField → FeedMetaBuilder → Option Text
held id b = b.id
held name b = b.name
held version b = b.version
held author b = b.author
held description b = b.description
held base_url b = b.base_url

-- The tests that `set_field` makes of a key.
key_tests :
    (key : Text)
    → ((same key (codes "id") ≡ true) ↔ (key ≡ codes "id"))
      × ((same key (codes "name") ≡ true) ↔ (key ≡ codes "name"))
      × ((same key (codes "version") ≡ true) ↔ (key ≡ codes "version"))
      × ((same key (codes "author") ≡ true) ↔ (key ≡ codes "author"))
      × ((same key (codes "description") ≡ true) ↔ (key ≡ codes "description"))
      × ((same key (codes "base_url") ≡ true) ↔ (key ≡ codes "base_url"))
      × ((same key (codes "access_domain") ≡ true) ↔ (key ≡ codes "access_domain"))
      × ((same key (codes "schema_version") ≡ true) ↔ (key ≡ codes "schema_version"))
key_tests key = (
  same_iff key _,
  same_iff key _,
  same_iff key _,
  same_iff key _,
  same_iff key _,
  same_iff key _,
  same_iff key _,
  same_iff key _,
)

pub set_field-held :
    (f : TextField) (b b' : FeedMetaBuilder) (key value : Text) (line : ℕ)
    → set_field b key value line ≡ ok b'
    → held f b' ≡ (if same key (key_of f) then some value else held f b)
unfolding set_field
set_field-held id b b' key value line e = ground (arith, key_tests key)
set_field-held name b b' key value line e = ground (arith, key_tests key)
set_field-held version b b' key value line e = ground (arith, key_tests key)
set_field-held author b b' key value line e = ground (arith, key_tests key)
set_field-held description b b' key value line e = ground (arith, key_tests key)
set_field-held base_url b b' key value line e = ground (arith, key_tests key)

pub set_field-seen :
    (b b' : FeedMetaBuilder) (key value : Text) (line : ℕ)
    → set_field b key value line ≡ ok b'
    → b'.seen ≡ b.seen
unfolding set_field
set_field-seen b b' key value line e = ground (arith, key_tests key)

abbrev pub schema_key : Text
schema_key = codes "schema_version"

abbrev pub domain_key : Text
domain_key = codes "access_domain"

-- The set of domains after one more value.
abbrev pub with_domain : List Text → Text → List Text
with_domain domains value =
    if length (trim value) == 0 then domains else insert_into domains (trim value)

pub set_field-domains :
    (b b' : FeedMetaBuilder) (key value : Text) (line : ℕ)
    → set_field b key value line ≡ ok b'
    → b'.access_domains
      ≡ (if same key domain_key then with_domain b.access_domains value else b.access_domains)
unfolding set_field
set_field-domains b b' key value line e = ground (arith, key_tests key)

set_schema_version_sound :
    (b b' : FeedMetaBuilder) (line : ℕ) (o : Option ℕ)
    → set_schema_version b line o ≡ ok b'
    → (n : ℕ) × (o ≡ some n) × (b'.schema_version ≡ some n)
set_schema_version_sound b b' line none e = absurd (cc)
set_schema_version_sound b b' line (some n) e = (n, refl, ground arith)

-- The version that a key and a value set, if they set one.
abbrev pub schema_of : Text → Text → Option ℕ → Option ℕ
schema_of key value old = if same key schema_key then parse_u32 (trim value) else old

pub set_field-schema :
    (b b' : FeedMetaBuilder) (key value : Text) (line : ℕ)
    → set_field b key value line ≡ ok b'
    → b'.schema_version ≡ schema_of key value b.schema_version
unfolding set_field
set_field-schema b b' key value line e = ground (arith, key_tests key)

-- A key that a header may have.
abbrev pub IsKnown : Text → Type 0
IsKnown key = ((f : TextField) × (key ≡ key_of f)) ⊎ ((key ≡ schema_key) ⊎ (key ≡ domain_key))

abbrev pub is_known : Text → Bool
is_known key =
    same key (codes "id")
    || (same key (codes "name")
        || (same key (codes "version")
            || (same key (codes "author")
                || (same key (codes "description")
                    || (same key (codes "base_url")
                        || (same key domain_key || same key schema_key))))))

pub set_field-is_known :
    (b b' : FeedMetaBuilder) (key value : Text) (line : ℕ)
    → set_field b key value line ≡ ok b'
    → is_known key ≡ true
unfolding set_field
set_field-is_known b b' key value line e = ground (arith, key_tests key)

IsKnown-or :
    (key : Text) (t : Text) (k : IsKnown t) (rest : Bool)
    → (same key t || rest) ≡ true
    → (rest ≡ true → IsKnown key)
    → IsKnown key
IsKnown-or key t k rest h more = elim (Bool-cases (same key t)) [
  | inl hit ↦ rw ((same_iff key t).0 hit) k
  | inr miss ↦ more (ground arith)
]

pub is_known_sound : (key : Text) → is_known key ≡ true → IsKnown key
is_known_sound key h = IsKnown-or key _ (inl (id, refl)) _ h λ h.
    IsKnown-or key _ (inl (name, refl)) _ h λ h. IsKnown-or key _ (inl (version, refl)) _ h λ h.
      IsKnown-or key _ (inl (author, refl)) _ h λ h.
        IsKnown-or key _ (inl (description, refl)) _ h λ h.
          IsKnown-or key _ (inl (base_url, refl)) _ h λ h.
            IsKnown-or key domain_key (inr (inr refl)) _ h
              λ h. inr (inl ((same_iff key schema_key).0 h))
