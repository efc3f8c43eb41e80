-- ===== src/Token.antt =====
-- The tokenizer of system/core/init/parser.c: `next_token`.
pub mod Progress
pub mod Words
mod Tests
use asl.Base.{ℕ, ◌+◌, ◌≡◌, Bool, true, false, ◌||◌, List, [], ◌∷◌, ◌++◌, ◌==◌, if◌then◌else◌}
use asl.Base.Text.{Bytes}

-- T_EOF, T_TEXT and T_NEWLINE
pub data Token : Type 0 where
  eof text newline : Token

-- `struct parse_state`: `ptr` is what is unread of the buffer up to its final 0, and `word` is the
-- string at `text`. The callbacks and the file name are the parser's. `nexttoken` is `eof`, the
-- token 0, when no token is put back.
pub record ParseState : Type 0 where
  pub ptr : Bytes
  pub word : Bytes
  pub line : ℕ
  pub nexttoken : Token

-- Where the loops at `textresume` stand: outside of quotes, inside of them, behind a backslash, or
-- in the blanks behind a line continuation.
pub data Mode : Type 0 where
  plain quoted escaped skipping : Mode

-- One turn of a loop: it goes on, or it jumps to `textdone` with `x` behind the byte.
pub data Turn : Type 0 where
  more : Mode → ParseState → Turn
  done : ParseState → Turn

-- `*s++ = c`
abbrev pub push : ParseState → ℕ → ParseState
push p c = record p { word = p.word ++ c ∷ [] }

abbrev pub is_blank : ℕ → Bool
is_blank c = c == b' ' || c == b'\t' || c == b'\r'

-- The switch of the loop at `textresume`.
plain_turn : ParseState → ℕ → Turn
plain_turn p c =
    if is_blank c
    then done p
    else if c == b'\n'
    then done (record p { nexttoken = newline })
    else if c == b'"'
    then more quoted p
    else if c == b'\\'
    then more escaped p
    else more plain (push p c)

quoted_turn : ParseState → ℕ → Turn
quoted_turn p c = if c == b'"' then more plain p else more quoted (push p c)

abbrev heads : ℕ → Bytes → Bool
heads b [] = false
heads b (c ∷ cs) = c == b

-- The switch behind a backslash. The cases for n, r, t and the backslash store their byte and leave
-- `x` where it is, so the loop at `textresume` reads the byte once more. `rest` is `x + 1`.
escaped_turn : ParseState → ℕ → Bytes → Turn
unfolding plain_turn
escaped_turn p c rest =
    if c == b'n'
    then plain_turn (push p b'\n') c
    else if c == b'r'
    then plain_turn (push p b'\r') c
    else if c == b't'
    then plain_turn (push p b'\t') c
    else if c == b'\\'
    then plain_turn (push p b'\\') c
    else if c == b'\r'
    then (if heads b'\n' rest then more skipping (record p { line = p.line + 1 }) else more plain p)
    else if c == b'\n'
    then more skipping (record p { line = p.line + 1 })
    else more plain (push p c)

-- `while ((*x == ' ') || (*x == '\t')) x++`
skipping_turn : ParseState → ℕ → Turn
unfolding plain_turn
skipping_turn p c = if c == b' ' || c == b'\t' then more skipping p else plain_turn p c

unfoldable pub turn : Mode → ParseState → ℕ → Bytes → Turn
unfolding plain_turn quoted_turn escaped_turn skipping_turn
turn plain p c rest = plain_turn p c
turn quoted p c rest = quoted_turn p c
turn escaped p c rest = escaped_turn p c rest
turn skipping p c rest = skipping_turn p c

-- At the final 0 of the buffer.
unfoldable pub text_end : Mode → Token
text_end quoted = eof
text_end _ = text

-- From `textresume` to the return.
unfoldable pub read_text : Mode → ParseState → Bytes → Token × ParseState
unfolding text_end
read_text m p [] = (text_end m, record p { ptr = [] })
read_text m p (c ∷ cs) = elim (turn m p c cs) [
  | more m' q ↦ read_text m' q cs
  | done q ↦ (text, record q { ptr = cs })
]

unfoldable pub skip_comment : ParseState → Bytes → Token × ParseState
skip_comment p [] = (eof, record p { ptr = [] })
skip_comment p (c ∷ cs) = if c == b'\n' then (newline, record p { ptr = cs }) else skip_comment p cs

-- The loop in front of a token.
unfoldable pub skip_blanks : ParseState → Bytes → Token × ParseState
unfolding skip_comment
skip_blanks p [] = (eof, record p { ptr = [] })
skip_blanks p (c ∷ cs) =
    if c == b'\n'
    then (newline, record p { ptr = cs })
    else if is_blank c
    then skip_blanks p cs
    else if c == b'#'
    then skip_comment p (c ∷ cs)
    else read_text plain (record p { word = [] }) (c ∷ cs)

put_back : Token → ParseState → Token × ParseState
put_back eof p = skip_blanks p p.ptr
put_back t p = (t, record p { nexttoken = eof })

unfoldable pub next_token : ParseState → Token × ParseState
unfolding put_back
next_token p = put_back p.nexttoken p
