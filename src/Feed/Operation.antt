-- ===== src/Feed/Operation.antt =====
-- native/langhuan/src/script/js/feed.rs: the operations of a feed, and the capabilities of a script.
use langhuan.Prelude.{
  ℕ, ◌≡◌, refl, Bool, false, not, ◌&&◌, ◌||◌, List, [], ◌∷◌, Text, text_eq, same, same_iff, arith,
  if◌then◌else◌, all, any, leb, ltb, ◌==◌, length, ◌↔◌, ◌⊎◌, Bool-cases, inl, inr, text_beq,
}
use langhuan.Prelude.Bytes.{codes, starts_with}
use langhuan.Error.{Result, ok, err, invalid_feed, javascript}

-- `OperationKind`
pub data OperationKind : Type 0 where
  chapter_comments paragraph_comments search book_info chapters paragraphs auth_status :
      OperationKind

-- `OperationKind::kind`
unfoldable pub kind : OperationKind → Text
kind chapter_comments = codes "comments.chapter"
kind paragraph_comments = codes "comments.paragraph"
kind search = codes "search"
kind book_info = codes "bookInfo"
kind chapters = codes "chapters"
kind paragraphs = codes "paragraphs"
kind auth_status = codes "login.status"

-- `OperationKind::parse`
unfoldable pub parse : Text → Result OperationKind
parse value =
    if same value (codes "comments.chapter")
    then ok chapter_comments
    else if same value (codes "comments.paragraph")
    then ok paragraph_comments
    else if same value (codes "search")
    then ok search
    else if same value (codes "bookInfo")
    then ok book_info
    else if same value (codes "chapters")
    then ok chapters
    else if same value (codes "paragraphs")
    then ok paragraphs
    else if same value (codes "login.status")
    then ok auth_status
    else err invalid_feed

-- `OperationKind::handler`: the path of a handler in the script's object.
unfoldable pub handler : OperationKind → List Text
handler chapter_comments = codes "comments" ∷ codes "chapter" ∷ []
handler paragraph_comments = codes "comments" ∷ codes "paragraph" ∷ []
handler search = codes "search" ∷ []
handler book_info = codes "bookInfo" ∷ []
handler chapters = codes "chapters" ∷ []
handler paragraphs = codes "paragraphs" ∷ []
handler auth_status = codes "login" ∷ codes "status" ∷ []

-- `operation.kind().starts_with("comments.")`
unfoldable pub is_comments : OperationKind → Bool
unfolding kind starts_with
is_comments k = starts_with (kind k) (codes "comments.")

-- `REQUIRED_HANDLERS`
abbrev pub required_handlers : List (List Text)
required_handlers =
    (codes "search" ∷ [])
    ∷ (codes "bookInfo" ∷ [])
    ∷ (codes "chapters" ∷ [])
    ∷ (codes "paragraphs" ∷ [])
    ∷ []

-- `REQUIRED_LOGIN_HANDLERS`
abbrev pub required_login_handlers : List (List Text)
required_login_handlers =
    (codes "login" ∷ codes "entry" ∷ [])
    ∷ (codes "login" ∷ codes "parse" ∷ [])
    ∷ (codes "login" ∷ codes "patchRequest" ∷ [])
    ∷ []

-- `has_function` tells which paths of the exported object are functions.
module _ (has_function : List Text → Bool) where
  -- `require_handlers`
  unfoldable pub require_handlers : Result (Unit {0})
  require_handlers = if all has_function required_handlers then ok tt else err invalid_feed

  -- `login_capabilities`: whether the script can log in, and whether it can tell its status.
  unfoldable pub login_capabilities : Result (Bool × Bool)
  unfolding handler
  login_capabilities =
      let has_auth_status = has_function (handler auth_status) in
      let has_login = all has_function required_login_handlers in
      if (any has_function required_login_handlers || has_auth_status) && not has_login
      then err invalid_feed
      else ok (has_login, has_auth_status)

-- `MAX_USER_AGENT_BYTES`
abbrev pub max_user_agent_bytes : ℕ
max_user_agent_bytes = 512

-- `chars().any(char::is_control)`, on UTF-8: a character below 32, 127, or one from 128 to 159, which
-- is written as 0xC2 and a byte from 0x80 to 0x9F.
unfoldable pub has_control : Text → Bool
has_control [] = false
has_control (c ∷ []) = ltb c 32 || c == 127
has_control (c ∷ d ∷ s) =
    ltb c 32 || c == 127 || (c == 194 && leb 128 d && leb d 159) || has_control (d ∷ s)

-- `validate_user_agent`
unfoldable pub validate_user_agent : Text → Result (Unit {0})
unfolding has_control
validate_user_agent user_agent =
    if length user_agent == 0
    then err javascript
    else if ltb max_user_agent_bytes (length user_agent)
    then err javascript
    else if has_control user_agent
    then err javascript
    else ok tt

parse-kind : (k : OperationKind) → parse (kind k) ≡ ok k
unfolding parse kind text_beq
parse-kind chapter_comments = refl
parse-kind paragraph_comments = refl
parse-kind search = refl
parse-kind book_info = refl
parse-kind chapters = refl
parse-kind paragraphs = refl
parse-kind auth_status = refl

-- One test of the chain.
tested :
    (value name : Text) (c k : OperationKind) (rest : Result OperationKind)
    → (if same value name then ok c else rest) ≡ ok k
    → ((value ≡ name) × (c ≡ k)) ⊎ (rest ≡ ok k)
tested value name c k rest e = elim (Bool-cases (same value name)) [
  | inl hit ↦ inl ((same_iff value name).0 hit, ground arith)
  | inr miss ↦ inr (ground arith)
]

parse_sound : (value : Text) (k : OperationKind) → parse value ≡ ok k → value ≡ kind k
unfolding parse kind
parse_sound value k e = elim (tested value (codes "comments.chapter") chapter_comments k _ e) [
  | inl (hit, same_kind) ↦ rw (← same_kind) hit
  | inr e0 ↦ elim (tested value (codes "comments.paragraph") paragraph_comments k _ e0) [
    | inl (hit, same_kind) ↦ rw (← same_kind) hit
    | inr e1 ↦ elim (tested value (codes "search") search k _ e1) [
      | inl (hit, same_kind) ↦ rw (← same_kind) hit
      | inr e2 ↦ elim (tested value (codes "bookInfo") book_info k _ e2) [
        | inl (hit, same_kind) ↦ rw (← same_kind) hit
        | inr e3 ↦ elim (tested value (codes "chapters") chapters k _ e3) [
          | inl (hit, same_kind) ↦ rw (← same_kind) hit
          | inr e4 ↦ elim (tested value (codes "paragraphs") paragraphs k _ e4) [
            | inl (hit, same_kind) ↦ rw (← same_kind) hit
            | inr e5 ↦ elim (tested value (codes "login.status") auth_status k _ e5) [
              | inl (hit, same_kind) ↦ rw (← same_kind) hit
              | inr e6 ↦ absurd (cc e6)
            ]
          ]
        ]
      ]
    ]
  ]
]

-- Every kind is named by one text, and no other text names it.
pub parse_iff : (value : Text) (k : OperationKind) → (parse value ≡ ok k) ↔ (value ≡ kind k)
parse_iff value k = (parse_sound value k, λ e. rw e (parse-kind k))
