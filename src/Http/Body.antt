-- ===== src/Http/Body.antt =====
-- native/langhuan/src/http.rs: `FeedClient::read_body`, which reads a body under the size cap.
use langhuan.Prelude.{
  ℕ, ◌+◌, ◌*◌, ◌≤◌, ◌≡◌, ◌↔◌, refl, List, [], ◌∷◌, ◌++◌, append_assoc, Text, arith, ltb, length,
  length-append, if◌then◌else◌, inl, inr, Bool-cases, ap, ◌∙◌, append-nil, subst, sym,
}
use langhuan.Error.{HttpFailure}
use langhuan.Http.Response.{Chunk, bytes, broken}

-- `MAX_RESPONSE_BYTES`
abbrev pub max_response_bytes : ℕ
max_response_bytes = 5 * 1024 * 1024

-- `Result<Bytes, BodyReadError>`
pub data BodyRead : Type 0 where
  whole : Text → BodyRead
  transport : HttpFailure → BodyRead
  too_large : BodyRead

-- The loop over the stream, with the buffer.
unfoldable pub read_chunks : ℕ → Text → List (Chunk HttpFailure) → BodyRead
read_chunks cap buf [] = whole buf
read_chunks cap buf (broken e ∷ rest) = transport e
read_chunks cap buf (bytes chunk ∷ rest) =
    let next = read_chunks cap (buf ++ chunk) rest in
    if ltb cap (length buf + length chunk) then too_large else next

unfoldable pub read_body : List (Chunk HttpFailure) → BodyRead
unfolding read_chunks
read_body chunks = read_chunks max_response_bytes [] chunks

-- The chunks all arrive, and `body` is their concatenation.
abbrev pub Streams : List (Chunk HttpFailure) → Text → Type 0
Streams [] body = body ≡ []
Streams (broken e ∷ rest) body = ⊥
Streams (bytes chunk ∷ rest) body = (tail : Text) × (body ≡ chunk ++ tail) × Streams rest tail

-- The number of bytes of a stream, if it arrives whole.
module _ (cap : ℕ) where
  -- What the buffer holds never passes the cap, and nothing that arrived is lost.
  read_chunks_sound :
      (buf : Text) (chunks : List (Chunk HttpFailure)) (body : Text)
      → length buf ≤ cap
      → read_chunks cap buf chunks ≡ whole body
      → (tail : Text) × (body ≡ buf ++ tail) × Streams chunks tail × (length body ≤ cap)
  unfolding read_chunks
  read_chunks_sound buf [] body n h = ([], cc (append-nil buf), refl, ground arith)
  read_chunks_sound buf (broken e ∷ rest) body n h = absurd (cc)
  read_chunks_sound buf (bytes c ∷ rest) body n h =
      elim (Bool-cases (ltb cap (length buf + length c))) [
        | inl big ↦ absurd (ground arith)
        | inr fits ↦
            let (tail, e, s, m) =
              read_chunks_sound (buf ++ c) rest body (ground (arith, length-append buf c))
                (ground arith) in
            (c ++ tail, e ∙ append_assoc buf c tail, (tail, refl, s), m)
      ]

  read_chunks_complete :
      (buf : Text) (chunks : List (Chunk HttpFailure)) (tail : Text)
      → Streams chunks tail
      → length buf + length tail ≤ cap
      → read_chunks cap buf chunks ≡ whole (buf ++ tail)
  unfolding read_chunks
  read_chunks_complete buf [] tail s n = ap whole (cc (append-nil buf))
  read_chunks_complete buf (broken e ∷ rest) tail s n = elim s [ ]
  read_chunks_complete buf (bytes c ∷ rest) tail (t, e, s) n =
      let m : length tail ≡ length c + length t = ap length e ∙ length-append c t in
      let k = length-append buf c in
      ground (arith, read_chunks_complete (buf ++ c) rest t s (omega arith), append_assoc buf c t)

-- A body is read whole exactly when every chunk arrives and their concatenation, which is the body,
-- fits the size cap.
pub read_body_iff :
    (chunks : List (Chunk HttpFailure)) (body : Text)
    → (read_body chunks ≡ whole body) ↔ (Streams chunks body × (length body ≤ max_response_bytes))
unfolding read_body
read_body_iff chunks body = (
  λ h.
      let (tail, e, s, n) = read_chunks_sound max_response_bytes [] chunks body (omega arith) h in
      (subst (Streams chunks) (sym e) s, n),
  λ (s, n). read_chunks_complete max_response_bytes [] chunks body s (omega arith),
)
