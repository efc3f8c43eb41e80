-- ===== src/Service/Argv.antt =====
-- The argument vector that the child of `service_start` hands to `execve`, in init.c.
use asl.Base.{
  append-nil, append_assoc, All, length-take, ℕ, zero, suc, ◌+◌, ◌-◌, ◌≤◌, ◌<◌, ◌≡◌, refl, ap, sym,
  ◌∙◌, true, false, Option, none, some, List, [], ◌∷◌, ◌++◌, arith, length, if◌then◌else◌,
  length-append, take, ◌==◌,
}
use asl.Base.Text.{Bytes}
use asl.Service.{Service}

-- INIT_PARSER_MAXARGS
abbrev pub init_parser_maxargs : ℕ
init_parser_maxargs = 64

-- `strsep(&next, " ")` until it gives null: the words between single blanks, empty ones included.
words_from : Bytes → Bytes → List Bytes
words_from word [] = word ∷ []
words_from word (c ∷ cs) = elim (c == b' ') [
  | true ↦ word ∷ words_from [] cs
  | false ↦ words_from (word ++ c ∷ []) cs
]

unfoldable pub words : Bytes → List Bytes
unfolding words_from
words s = words_from [] s

-- The loop: a word is stored at `arg_idx`, and the loop ends when that reaches the maximum.
store_words : List Bytes → ℕ → List Bytes → List Bytes
store_words arg_ptrs arg_idx [] = arg_ptrs
store_words arg_ptrs arg_idx (bword ∷ more) =
    let stored = arg_ptrs ++ bword ∷ [] in
    let rest = store_words stored (arg_idx + 1) more in
    if arg_idx + 1 == init_parser_maxargs then stored else rest

unfoldable pub exec_args : Service → Option Bytes → List Bytes
unfolding store_words
exec_args svc none = svc.args
exec_args svc (some dynamic_args) = store_words svc.args (length svc.args) (words dynamic_args)

store_words-take :
    (arg_ptrs : List Bytes) (i room : ℕ) (more : List Bytes)
    → i + suc room ≡ init_parser_maxargs
    → store_words arg_ptrs i more ≡ arg_ptrs ++ take (suc room) more
unfolding store_words
store_words-take arg_ptrs i room [] h = sym (append-nil arg_ptrs)
store_words-take arg_ptrs i zero (bword ∷ more) h = ground arith
store_words-take arg_ptrs i (suc room) (bword ∷ more) h =
    let later = store_words-take (arg_ptrs ++ bword ∷ []) (i + 1) room more in
    ground (arith, later, append_assoc arg_ptrs (bword ∷ []) (take (suc room) more))

-- A word without blanks, and the blanks between words.
abbrev pub IsWord : Bytes → Type 0
IsWord = All (λ c. (c == b' ') ≡ false)

abbrev pub join : Bytes → List Bytes → Bytes
join w [] = w
join w (v ∷ ws) = w ++ b' ' ∷ join v ws

words_from-word :
    (word w rest : Bytes) → IsWord w → words_from word (w ++ rest) ≡ words_from (word ++ w) rest
unfolding words_from
words_from-word word [] rest h = rw append-nil refl
words_from-word word (c ∷ w) rest h =
    rw (h.0, words_from)
      (words_from-word (word ++ c ∷ []) w rest h.1
        ∙ ap (λ u. words_from u rest) (append_assoc word (c ∷ []) w))

words_from-join :
    (w : Bytes) (ws : List Bytes) → All IsWord (w ∷ ws) → words_from [] (join w ws) ≡ w ∷ ws
unfolding words_from
words_from-join w [] h = ap (words_from []) (sym (append-nil w)) ∙ words_from-word [] w [] h.0
words_from-join w (v ∷ ws) h =
    words_from-word [] w (b' ' ∷ join v ws) h.0 ∙ ap (◌∷◌ w) (words_from-join v ws h.1)

room_left : (n : ℕ) → n < init_parser_maxargs → suc (63 - n) ≡ init_parser_maxargs - n
room_left n h = omega arith

store_words_room :
    (args ws : List Bytes)
    → length args < init_parser_maxargs
    → store_words args (length args) ws ≡ args ++ take (init_parser_maxargs - length args) ws
store_words_room args ws room =
    store_words-take args (length args) (63 - length args) ws (omega arith)
    ∙ ap (λ n. args ++ take n ws) (room_left (length args) room)

-- If the service has less than 64 arguments, the child's arguments are the service's own, and behind
-- them the words of the dynamic arguments, which single blanks separate, as far as they fit into 64.
pub exec_args-join :
    (svc : Service) (w : Bytes) (ws : List Bytes)
    → length svc.args < init_parser_maxargs
    → All IsWord (w ∷ ws)
    → exec_args svc (some (join w ws))
      ≡ svc.args ++ take (init_parser_maxargs - length svc.args) (w ∷ ws)
unfolding exec_args words
exec_args-join svc w ws room h =
    ap (store_words svc.args (length svc.args)) (words_from-join w ws h)
    ∙ store_words_room svc.args (w ∷ ws) room

-- The child stores at most 64 arguments, which leaves room for the final null in its array of 65,
-- if the service has less than 64 of its own.
pub exec_args_bound :
    (svc : Service) (dynamic_args : Option Bytes)
    → length svc.args < init_parser_maxargs
    → length (exec_args svc dynamic_args) ≤ init_parser_maxargs
unfolding exec_args
exec_args_bound svc none room = omega arith
exec_args_bound svc (some a) room =
    let kept = take (init_parser_maxargs - length svc.args) (words a) in
    rw (store_words_room svc.args (words a) room) (
      omega (
        arith,
        length-append svc.args kept,
        length-take (init_parser_maxargs - length svc.args) (words a),
      ))
