-- ===== src/Token/Tests.antt =====
-- Runs of `next_token` on short buffers.
use asl.Base.{ℕ, suc, zero, ◌≡◌, refl, List, [], ◌∷◌}
use asl.Base.Text.{Bytes, codes}
use asl.Token.{Token, eof, text, newline, ParseState, turn, read_text, skip_blanks, next_token}
use asl.Token.Words.{Spells, finish, byte, quote, nil, cons, next_token-Spells}

abbrev at_start : Bytes → ParseState
at_start s = record { ptr = s; word = []; line = 0; nexttoken = eof }

tokens_of : ℕ → ParseState → List (Token × Bytes)
tokens_of zero p = []
tokens_of (suc n) p = let (t, q) = next_token p in (t, q.word) ∷ tokens_of n q

two_words :
    tokens_of 4 (at_start (codes "  on \"a b\"\n# x\n"))
    ≡ (text, codes "on")
      ∷ (text, codes "a b")
      ∷ (newline, codes "a b")
      ∷ (newline, codes "a b")
      ∷ []
unfolding tokens_of next_token skip_blanks read_text turn
two_words = refl

escapes : (next_token (at_start (codes "a\\nb c"))).1.word ≡ codes "a\nnb"
unfolding next_token skip_blanks read_text turn
escapes = refl

crlf : tokens_of 2 (at_start (codes "a\\\r\n b")) ≡ (text, codes "a") ∷ (newline, codes "a") ∷ []
unfolding tokens_of next_token skip_blanks read_text turn
crlf = refl

quoted_blank : Spells (codes "a\"b c\"") (codes "ab c")
quoted_blank = byte refl (quote (cons refl (cons refl (cons refl nil))) finish)

next_token-Spells_example :
    next_token (at_start (codes "a\"b c\" d"))
    ≡ (text, record { ptr = codes "d"; word = codes "ab c"; line = 0; nexttoken = eof })
next_token-Spells_example =
    next_token-Spells (at_start (codes "a\"b c\" d")) b' ' (codes "d") refl refl (refl, refl, refl)
      refl quoted_blank
