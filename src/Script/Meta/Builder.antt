-- ===== src/Script/Meta/Builder.antt =====
-- native/langhuan/src/script/meta.rs: what a header that is accepted declares.
use langhuan.Prelude.{
  ℕ, ◌≡◌, ◌≢◌, refl, sym, ap, ◌∙◌, false, Option, none, some, List, [], ◌∷◌, Text, text_eq,
  text_beq, same, same_iff, contains, arith, Bool-cases, inl, inr, All, AreNew,
}
use langhuan.Prelude.Bytes.{codes, trim}
use langhuan.Prelude.Decimal.{parse_u32}
use langhuan.Error.{Result, ok, err, ◌>>=◌}
use langhuan.Http.Url.{UrlParser}
use langhuan.Script.Meta.{
  HeaderEntry, FeedMeta, default_builder, require, build, set_all, build_meta, normalize_all,
  require_schema,
}
use langhuan.Script.Meta.Fields.{
  TextField, id, name, version, author, description, base_url, key_of, held, schema_key, domain_key,
  IsKnown,
}
use langhuan.Script.Meta.Entries.{
  declared, scalar_keys, domains_after, or_else, schema_after, declared-seen, all_declared,
}

require_sound : (o : Option Text) (t : Text) → require o ≡ ok t → (o ≡ some t) × (t ≢ [])
require_sound none t e = absurd (cc)
require_sound (some []) t e = absurd (cc)
require_sound (some (c ∷ s)) t e = (ground arith, λ p. absurd (cc (p, e)))

require_schema_sound :
    (urls : UrlParser) (o : Option ℕ) (n : ℕ) → require_schema urls o ≡ ok n → o ≡ some n
require_schema_sound urls none n e = absurd (cc)
require_schema_sound urls (some m) n e = ground arith

-- A chain that succeeds has a first step that succeeds, and goes on from its value.
first_step {ℓ κ} :
    {Field : Type ℓ} {Whole : Type κ} (step : Result Field) (rest : Field → Result Whole)
    (whole : Whole)
    → (step >>= rest) ≡ ok whole
    → (field : Field) × (step ≡ ok field) × (rest field ≡ ok whole)
first_step (err x) rest whole done = absurd (cc)
first_step (ok field) rest whole done = (field, refl, done)

or_else-none : (o : Option Text) → or_else o none ≡ o
or_else-none none = refl
or_else-none (some t) = refl

-- A builder holds nothing before the first entry.
text_default : (f : TextField) (o : Option Text) → or_else o (held f default_builder) ≡ o
text_default id o = or_else-none o
text_default name o = or_else-none o
text_default version o = or_else-none o
text_default author o = or_else-none o
text_default description o = or_else-none o
text_default base_url o = or_else-none o

-- The version that the text of an entry says.
abbrev pub version_of : Option Text → Option ℕ
version_of none = none
version_of (some t) = parse_u32 (trim t)

schema_after-none :
    (old : Option ℕ) (entries : List HeaderEntry)
    → declared schema_key entries ≡ none
    → schema_after old entries ≡ old
schema_after-none old [] h = refl
schema_after-none old (entry ∷ rest) h = elim (Bool-cases (same entry.key schema_key)) [
  | inl hit ↦ absurd (ground arith)
  | inr miss ↦ rw miss (schema_after-none old rest (ground arith))
]

schema_after-declared :
    (seen : List Text) (entries : List HeaderEntry)
    → AreNew seen (scalar_keys entries)
    → schema_after none entries ≡ version_of (declared schema_key entries)
unfolding contains text_beq
schema_after-declared seen [] new = refl
schema_after-declared seen (entry ∷ rest) new = elim (Bool-cases (same entry.key schema_key)) [
  | inl hit ↦
      let e : entry.key ≡ schema_key = (same_iff entry.key schema_key).0 hit in
      let scalar : same entry.key domain_key ≡ false = rw e refl in
      let (fresh, later) : (contains seen entry.key ≡ false)
          × AreNew (entry.key ∷ seen) (scalar_keys rest) =
        rw scalar at new in
      let again : declared schema_key rest ≡ none =
        declared-seen (entry.key ∷ seen) schema_key rest refl later (rw hit refl) in
      rw hit (schema_after-none (parse_u32 (trim entry.value)) rest again)
  | inr miss ↦ elim (Bool-cases (same entry.key domain_key)) [
    | inl domain ↦ rw miss (schema_after-declared seen rest (rw domain at new))
    | inr scalar ↦
        let (fresh, later) : (contains seen entry.key ≡ false)
            × AreNew (entry.key ∷ seen) (scalar_keys rest) =
          rw scalar at new in
        rw miss (schema_after-declared (entry.key ∷ seen) rest later)
  ]
]

-- What the metadata of a header's entries say.
pub record IsDeclaredBy (urls : UrlParser) (entries : List HeaderEntry) (meta : FeedMeta)
    : Type 0 where
  pub distinct : AreNew [] (scalar_keys entries)
  pub known : All (λ entry. IsKnown entry.key) entries
  pub id_said : declared (codes "id") entries ≡ some meta.id
  pub name_said : declared (codes "name") entries ≡ some meta.name
  pub version_said : declared (codes "version") entries ≡ some meta.version
  pub base_url_said : declared (codes "base_url") entries ≡ some meta.base_url
  pub author_said : declared (codes "author") entries ≡ meta.author
  pub description_said : declared (codes "description") entries ≡ meta.description
  pub filled : (meta.id ≢ []) × (meta.name ≢ []) × (meta.version ≢ []) × (meta.base_url ≢ [])
  pub schema_said : version_of (declared schema_key entries) ≡ some meta.schema_version
  pub domains_said : normalize_all urls (domains_after [] entries) ≡ ok meta.access_domains

-- A header that is accepted declares no field twice but `access_domain`, and none that is unknown;
-- the metadata are what it declares, with an identifier, a name, a version and a base URL that are
-- not empty, a schema version that is a number of 32 bits, and access domains that are all valid.
pub build_meta_sound :
    (urls : UrlParser) (entries : List HeaderEntry) (meta : FeedMeta)
    → build_meta urls entries ≡ ok meta
    → IsDeclaredBy urls entries meta
unfolding build_meta build
build_meta_sound urls entries meta e =
    let (b, all, built) = first_step (set_all default_builder entries) (build urls) meta e in
    let d = all_declared default_builder b entries all in
    let (n, schema, e1) = first_step (require_schema urls b.schema_version) _ meta built in
    let (i, id_there, e2) = first_step (require b.id) _ meta e1 in
    let (m, name_there, e3) = first_step (require b.name) _ meta e2 in
    let (v, version_there, e4) = first_step (require b.version) _ meta e3 in
    let (u, url_there, e5) = first_step (require b.base_url) _ meta e4 in
    let (ds, domains, e6) = first_step (normalize_all urls b.access_domains) _ meta e5 in
    let (id_held, id_filled) = require_sound b.id i id_there in
    let (name_held, name_filled) = require_sound b.name m name_there in
    let (version_held, version_filled) = require_sound b.version v version_there in
    let (url_held, url_filled) = require_sound b.base_url u url_there in
    let said : (f : TextField) → declared (key_of f) entries ≡ held f b =
      λ f. sym (d.texts f ∙ text_default f (declared (key_of f) entries)) in
    let whole : meta ≡ record {
      id = i;
      name = m;
      version = v;
      author = b.author;
      description = b.description;
      base_url = u;
      access_domains = ds;
      schema_version = n;
    } =
      cc in
    rw whole (record {
      distinct = d.new_keys;
      known = d.known;
      id_said = said id ∙ id_held;
      name_said = said name ∙ name_held;
      version_said = said version ∙ version_held;
      base_url_said = said base_url ∙ url_held;
      author_said = said author;
      description_said = said description;
      filled = (id_filled, name_filled, version_filled, url_filled);
      schema_said =
          sym (schema_after-declared [] entries d.new_keys)
          ∙ sym d.schema
          ∙ require_schema_sound urls b.schema_version n schema;
      domains_said = ap (normalize_all urls) (sym d.domains) ∙ domains;
    })
