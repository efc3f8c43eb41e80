-- ===== src/Token/Words.antt =====
-- Which bytes of a buffer spell which word.
use asl.Base.{
  ℕ, ◌≡◌, refl, sym, ap, ◌∙◌, Bool, true, false, not, ◌||◌, [], ◌∷◌, ◌++◌, ◌==◌, arith, append-nil,
  append_assoc, if◌then◌else◌,
}
use asl.Base.Text.{Bytes}
use asl.Token.{
  eof, text, ParseState, Mode, plain, quoted, push, is_blank, turn, read_text, skip_blanks,
  skip_comment, next_token,
}

-- A byte that stands for itself outside of quotes.
abbrev pub is_plain : ℕ → Bool
is_plain c = not (is_blank c || c == b'\n' || c == b'"' || c == b'\\')

-- A byte that a backslash makes stand for itself.
abbrev pub is_escapable : ℕ → Bool
is_escapable c = not (c == b'n' || c == b'r' || c == b't' || c == b'\\' || c == b'\r' || c == b'\n')

-- No byte of the text closes the quotes.
pub data IsQuotable : Bytes → Type 0 where
  nil : IsQuotable []
  cons : {c : ℕ} {cs : Bytes} → (c == b'"') ≡ false → IsQuotable cs → IsQuotable (c ∷ cs)

-- `Spells s w`: the source bytes `s` stand for the word `w`.
pub data Spells : Bytes → Bytes → Type 0 where
  finish : Spells [] []
  byte : {c : ℕ} {s w : Bytes} → is_plain c ≡ true → Spells s w → Spells (c ∷ s) (c ∷ w)
  escape :
      {c : ℕ} {s w : Bytes} → is_escapable c ≡ true → Spells s w → Spells (b'\\' ∷ c ∷ s) (c ∷ w)
  quote : {q s w : Bytes} → IsQuotable q → Spells s w → Spells (b'"' ∷ (q ++ b'"' ∷ s)) (q ++ w)

-- The state with more bytes of the word stored.
abbrev stored : ParseState → Bytes → ParseState
stored p w = record p { word = p.word ++ w }

stored_nil : (m : Mode) (p : ParseState) (r : Bytes) → read_text m (stored p []) r ≡ read_text m p r
stored_nil m p r = rw append-nil

stored_cons :
    (m : Mode) (p : ParseState) (c : ℕ) (w r : Bytes)
    → read_text m (stored (push p c) w) r ≡ read_text m (stored p (c ∷ w)) r
stored_cons m p c w r = rw append_assoc

stored_append :
    (m : Mode) (p : ParseState) (v w r : Bytes)
    → read_text m (stored (stored p v) w) r ≡ read_text m (stored p (v ++ w)) r
stored_append m p v w r = rw append_assoc

read_plain :
    (p : ParseState) (c : ℕ) (r : Bytes)
    → is_plain c ≡ true
    → read_text plain p (c ∷ r) ≡ read_text plain (push p c) r
unfolding read_text turn
read_plain p c r h = ground arith

read_escapable :
    (p : ParseState) (c : ℕ) (r : Bytes)
    → is_escapable c ≡ true
    → read_text plain p (b'\\' ∷ c ∷ r) ≡ read_text plain (push p c) r
unfolding read_text turn
read_escapable p c r h = ground arith

read_quotable :
    {q : Bytes} (p : ParseState) (r : Bytes)
    → IsQuotable q
    → read_text quoted p (q ++ b'"' ∷ r) ≡ read_text plain (stored p q) r
unfolding read_text turn
read_quotable p r nil = sym (stored_nil plain p r)
read_quotable p r (cons {c} {cs} h t) =
    ground (arith, read_quotable (push p c) r t, stored_cons plain p c cs r)

read_quote : (p : ParseState) (r : Bytes) → read_text plain p (b'"' ∷ r) ≡ read_text quoted p r
unfolding read_text turn
read_quote p r = refl

-- What is spelled is stored, whatever stands behind it.
pub read_text-Spells :
    {s w : Bytes} (p : ParseState) (r : Bytes)
    → Spells s w
    → read_text plain p (s ++ r) ≡ read_text plain (stored p w) r
read_text-Spells p r finish = sym (stored_nil plain p r)
read_text-Spells p r (byte {c} {s} {w} h t) =
    read_plain p c (s ++ r) h ∙ read_text-Spells (push p c) r t ∙ stored_cons plain p c w r
read_text-Spells p r (escape {c} {s} {w} h t) =
    read_escapable p c (s ++ r) h ∙ read_text-Spells (push p c) r t ∙ stored_cons plain p c w r
read_text-Spells p r (quote {q} {s} {w} h t) =
    read_quote p ((q ++ b'"' ∷ s) ++ r)
    ∙ ap (read_text quoted p) (append_assoc q (b'"' ∷ s) r)
    ∙ read_quotable p (s ++ r) h
    ∙ read_text-Spells (stored p q) r t
    ∙ stored_append plain p q w r

-- A source text that begins a word: it is not empty, and its first byte is no blank, no newline and
-- no mark of a comment.
abbrev pub Begins : Bytes → Type 0
Begins [] = ⊥
Begins (c ∷ s) = (is_blank c ≡ false) × ((c == b'\n') ≡ false) × ((c == b'#') ≡ false)

next_token-read_text :
    (p : ParseState) (s r : Bytes)
    → p.nexttoken ≡ eof
    → p.ptr ≡ s ++ r
    → Begins s
    → next_token p ≡ read_text plain (record p { word = [] }) (s ++ r)
unfolding next_token skip_blanks skip_comment
next_token-read_text p [] r e h b = absurd b
next_token-read_text p (c ∷ s) r e h b = ground (arith, b.0, b.1, b.2)

-- In front of a blank, source bytes that begin and spell a word are read as that word, and the
-- input goes on behind the blank.
pub next_token-Spells :
    {s w : Bytes} (p : ParseState) (b : ℕ) (r : Bytes)
    → p.nexttoken ≡ eof
    → p.ptr ≡ s ++ b ∷ r
    → Begins s
    → is_blank b ≡ true
    → Spells s w
    → next_token p ≡ (text, record p { word = w; ptr = r })
next_token-Spells {s} {w} p b r e h begins blank sp =
    next_token-read_text p s (b ∷ r) e h begins
    ∙ read_text-Spells (record p { word = [] }) (b ∷ r) sp
    ∙ unfold read_text turn in ground arith

-- The byte that an escape letter stands for.
abbrev pub control : ℕ → ℕ
control c = if c == b'n' then b'\n' else if c == b'r' then b'\r' else b'\t'

abbrev pub is_control_letter : ℕ → Bool
is_control_letter c = c == b'n' || c == b'r' || c == b't'

read_control :
    (p : ParseState) (c : ℕ) (r : Bytes)
    → is_control_letter c ≡ true
    → read_text plain p (b'\\' ∷ c ∷ r) ≡ read_text plain (push (push p (control c)) c) r
unfolding read_text turn
read_control p c r h = ground arith

Begins-append : (s t : Bytes) → Begins s → Begins (s ++ t)
Begins-append [] t b = absurd b
Begins-append (c ∷ s) t b = b

-- An escape letter n, r or t behind a backslash stays in the word: behind the byte that the escape
-- stands for, the letter follows as a byte of its own.
pub next_token_escape_letter :
    {s w t v : Bytes} (p : ParseState) (c b : ℕ) (r : Bytes)
    → p.nexttoken ≡ eof
    → p.ptr ≡ s ++ b'\\' ∷ c ∷ (t ++ b ∷ r)
    → Begins s
    → is_control_letter c ≡ true
    → is_blank b ≡ true
    → Spells s w
    → Spells t v
    → next_token p ≡ (text, record p { word = w ++ control c ∷ c ∷ v; ptr = r })
next_token_escape_letter {s} {w} {t} {v} p c b r e h begins letter blank sw tv =
    let p0 = record p { word = [] } in
    next_token-read_text p s (b'\\' ∷ c ∷ (t ++ b ∷ r)) e h begins
    ∙ read_text-Spells p0 _ sw
    ∙ read_control (stored p0 w) c (t ++ b ∷ r) letter
    ∙ read_text-Spells (push (push (stored p0 w) (control c)) c) (b ∷ r) tv
    ∙ unfold read_text turn in rw (append_assoc, append_assoc) (ground arith)
