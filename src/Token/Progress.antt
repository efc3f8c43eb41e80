-- ===== src/Token/Progress.antt =====
-- The tokenizer uses its buffer up, and its writes stay behind its reads.
use asl.Base.{
  ℕ, ◌+◌, ◌≤◌, ◌<◌, ◌≡◌, ◌≢◌, ◌⊎◌, inl, inr, refl, false, [], ◌∷◌, ◌++◌, ◌==◌, arith, length,
  length-append,
}
use asl.Base.Text.{Bytes}
use asl.Token.{
  Token, eof, text, newline, ParseState, Mode, plain, quoted, escaped, skipping, Turn, more, done,
  is_blank, turn, read_text, skip_comment, skip_blanks, next_token,
}

Turn-cases :
    (t : Turn)
    → ((m : Mode) × (q : ParseState) × (t ≡ more m q)) ⊎ ((q : ParseState) × (t ≡ done q))
Turn-cases (more m q) = inl (m, q, refl)
Turn-cases (done q) = inr (q, refl)

-- A token that is put back counts as one byte.
abbrev pub weight : Token → ℕ
weight eof = 0
weight _ = 1

-- What is left of the input, the token that is put back included.
abbrev pub left : ParseState → ℕ
left p = length p.ptr + weight p.nexttoken

-- Behind a backslash one byte is read and not yet stored.
abbrev spare : Mode → ℕ
spare escaped = 1
spare _ = 0

abbrev Stores : ℕ → Turn → Type 0
Stores n (more m q) = length q.word + spare m ≤ n + 1
Stores n (done q) = length q.word ≤ n

turn-Stores :
    (m : Mode) (p : ParseState) (c : ℕ) (cs : Bytes)
    → Stores (length p.word + spare m) (turn m p c cs)
unfolding turn
turn-Stores plain p c cs = ground (arith, length-append p.word (c ∷ []))
turn-Stores quoted p c cs = ground (arith, length-append p.word (c ∷ []))
turn-Stores skipping p c cs = ground (arith, length-append p.word (c ∷ []))
turn-Stores escaped p c cs = ground (
  arith,
  length-append p.word (c ∷ []),
  length-append p.word (b'\n' ∷ []),
  length-append p.word (b'\r' ∷ []),
  length-append p.word (b'\t' ∷ []),
  length-append p.word (b'\\' ∷ []),
  length-append (p.word ++ b'\n' ∷ []) (c ∷ []),
  length-append (p.word ++ b'\r' ∷ []) (c ∷ []),
  length-append (p.word ++ b'\t' ∷ []) (c ∷ []),
  length-append (p.word ++ b'\\' ∷ []) (c ∷ []),
)

abbrev Keeps : Token → Turn → Type 0
Keeps t (more m q) = q.nexttoken ≡ t
Keeps t (done q) = weight q.nexttoken ≤ weight t + 1

turn-Keeps : (m : Mode) (p : ParseState) (c : ℕ) (cs : Bytes) → Keeps p.nexttoken (turn m p c cs)
unfolding turn
turn-Keeps plain p c cs = ground arith
turn-Keeps quoted p c cs = ground arith
turn-Keeps skipping p c cs = ground arith
turn-Keeps escaped p c cs = ground arith

-- `n` bytes are free behind the word when `s` is unread.
abbrev Behind : ℕ → ParseState → Type 0
Behind n q = (q.ptr ≡ []) × (length q.word ≤ n) ⊎ (length q.word + length q.ptr < n)

read_text-Behind :
    (s : Bytes) (m : Mode) (p : ParseState)
    → Behind (length p.word + spare m + length s) (read_text m p s).1
unfolding read_text
read_text-Behind [] m p = inl (refl, omega arith)
read_text-Behind (c ∷ cs) m p = elim (Turn-cases (turn m p c cs)) [
  | inl (m', q, e) ↦
      let fits : length q.word + spare m' ≤ length p.word + spare m + 1 =
        rw e at (turn-Stores m p c cs) in
      let later = read_text-Behind cs m' q in rw (e, read_text) (ground (arith))
  | inr (q, e) ↦
      let fits : length q.word ≤ length p.word + spare m = rw e at (turn-Stores m p c cs) in
      rw (e, read_text) (inr (omega arith))
]

read_text-left :
    (s : Bytes) (m : Mode) (p : ParseState)
    → left (read_text m p s).1 ≤ length s + weight p.nexttoken
unfolding read_text
read_text-left [] m p = omega arith
read_text-left (c ∷ cs) m p = elim (Turn-cases (turn m p c cs)) [
  | inl (m', q, e) ↦
      let same : q.nexttoken ≡ p.nexttoken = rw e at (turn-Keeps m p c cs) in
      rw (e, read_text) (ground (arith, read_text-left cs m' q))
  | inr (q, e) ↦
      let one : weight q.nexttoken ≤ weight p.nexttoken + 1 = rw e at (turn-Keeps m p c cs) in
      rw (e, read_text) (omega arith)
]

-- The first byte of a word is no blank and no newline, so the word takes it.
read_text-left_first :
    (p : ParseState) (c : ℕ) (cs : Bytes)
    → is_blank c ≡ false
    → (c == b'\n') ≡ false
    → left (read_text plain p (c ∷ cs)).1 ≤ length cs + weight p.nexttoken
read_text-left_first p c cs b n = elim (Turn-cases (turn plain p c cs)) [
  | inl (m', q, e) ↦
      let same : q.nexttoken ≡ p.nexttoken = rw e at (turn-Keeps plain p c cs) in
      unfold read_text in rw (e, read_text) (ground (arith, read_text-left cs m' q))
  | inr (q, e) ↦ unfold turn in ground arith
]

skip_comment-left :
    (s : Bytes) (p : ParseState)
    → p.nexttoken ≡ eof
    → (skip_comment p s).0 ≢ eof
    → left (skip_comment p s).1 < length s
unfolding skip_comment
skip_comment-left [] p h k = absurd (k refl)
skip_comment-left (c ∷ cs) p h k = ground (arith, skip_comment-left cs p)

skip_blanks-left :
    (s : Bytes) (p : ParseState)
    → p.nexttoken ≡ eof
    → (skip_blanks p s).0 ≢ eof
    → left (skip_blanks p s).1 < length s
unfolding skip_blanks
skip_blanks-left [] p h k = absurd (k refl)
skip_blanks-left (c ∷ cs) p h k = ground (
  arith,
  skip_blanks-left cs p,
  skip_comment-left (c ∷ cs) p,
  read_text-left_first (record p { word = [] }) c cs,
)

-- Every call of `next_token` that does not answer T_EOF uses input up: fewer bytes and tokens are
-- left after it than before.
pub next_token-left : (p : ParseState) → (next_token p).0 ≢ eof → left (next_token p).1 < left p
unfolding next_token
next_token-left p k = go p.nexttoken refl k
  where
    go : (t : Token) → p.nexttoken ≡ t → (next_token p).0 ≢ eof → left (next_token p).1 < left p
    go eof e k = ground (arith, skip_blanks-left p.ptr p)
    go text e k = ground arith
    go newline e k = ground arith

skip_comment-ne-text : (s : Bytes) (p : ParseState) → (skip_comment p s).0 ≢ text
unfolding skip_comment
skip_comment-ne-text [] p h = cc
skip_comment-ne-text (c ∷ cs) p h = ground (arith, skip_comment-ne-text cs p)

skip_blanks-Behind :
    (s : Bytes) (p : ParseState)
    → (skip_blanks p s).0 ≡ text
    → Behind (length s) (skip_blanks p s).1
unfolding skip_blanks skip_comment
skip_blanks-Behind [] p h = cc
skip_blanks-Behind (c ∷ cs) p h = ground (
  arith,
  skip_blanks-Behind cs p,
  skip_comment-ne-text (c ∷ cs) p,
  read_text-Behind (c ∷ cs) plain (record p { word = [] }),
)

-- `next_token` writes the word and its final 0 over the bytes that it has read: where a word is
-- returned with input left, word and 0 fit in front of that input, and at the end of the buffer
-- they fit into the buffer.
pub next_token_in_place :
    (p : ParseState)
    → p.nexttoken ≡ eof
    → (next_token p).0 ≡ text
    → ((next_token p).1.ptr ≡ []) × (length (next_token p).1.word ≤ length p.ptr)
      ⊎ (length (next_token p).1.word + 1 + length (next_token p).1.ptr ≤ length p.ptr)
unfolding next_token
next_token_in_place p e h = ground (arith, skip_blanks-Behind p.ptr p)
