-- ===== src/Parser/Export.antt =====
-- `init_export_rc_file` of init_parser.c: the lines `export NAME VALUE` of a file.
use asl.Base.{
  ℕ, zero, suc, ◌+◌, ◌≤◌, ◌<◌, ◌≡◌, ◌≢◌, refl, Option, none, some, List, [], arith, if◌then◌else◌,
  length, inl, inr,
}
use asl.Base.Text.{Bytes, codes, str_eq}
use asl.Token.{Token, eof, text, newline, ParseState, next_token}
use asl.Token.Progress.{left, next_token-left}
use asl.Service.Environ.{add_environment, add_environment_room}
use asl.Parser.Finish.{Token-cases}

-- `export_rc_state_t`
pub data ExportRcState : Type 0 where
  env_notready env_name env_value env_waitfornextline : ExportRcState

-- The variables of the function, with init's environment.
pub record Exporter : Type 0 where
  pub tokens : ParseState
  pub env : Bytes
  pub env_state : ExportRcState
  pub environ : List Bytes

-- The case T_TEXT.
export_text : ExportRcState → Exporter → Exporter
export_text env_notready e = record e {
  env_state = if str_eq e.tokens.word (codes "export") then env_name else env_waitfornextline;
}
export_text env_name e = record e { env = e.tokens.word; env_state = env_value }
export_text env_value e = record e {
  environ = (add_environment e.env e.tokens.word e.environ).0;
  env_state = env_waitfornextline;
}
export_text env_waitfornextline e = e

unfoldable pub export_token : Token → Exporter → Exporter
unfolding export_text
export_token eof e = e
export_token newline e = record e { env_state = env_notready }
export_token text e = export_text e.env_state e

abbrev next : Exporter → Exporter
next e = record e { tokens = (next_token e.tokens).1 }

-- The loop, which returns at T_EOF; none is for the fuel that does not last until there.
unfoldable pub export_tokens : ℕ → Exporter → Option Exporter
unfolding export_token
export_tokens zero e = none
export_tokens (suc fuel) e = elim (next_token e.tokens).0 [
  | eof ↦ some (next e)
  | text ↦ export_tokens fuel (export_token text (next e))
  | newline ↦ export_tokens fuel (export_token newline (next e))
]

-- The state in front of the loop; `env` is null, and is set before it is used.
abbrev start_exporter : Bytes → List Bytes → Exporter
start_exporter content environ' = record {
  tokens = record { ptr = content; word = []; line = 0; nexttoken = eof };
  env = [];
  env_state = env_notready;
  environ = environ';
}

-- The environment behind the function, for the bytes of the file or none where `read_file` fails.
environ_of : Option Exporter → Option (List Bytes)
environ_of none = none
environ_of (some e) = some e.environ

unfoldable pub init_export_rc_file : Option Bytes → List Bytes → Option (List Bytes)
unfolding environ_of export_tokens
init_export_rc_file none environ = some environ
init_export_rc_file (some content) environ =
    environ_of (export_tokens (length content + 1) (start_exporter content environ))

abbrev HasRoom : Exporter → Type 0
HasRoom e = length e.environ ≤ 31

export_token-HasRoom : (t : Token) (e : Exporter) → HasRoom e → HasRoom (export_token t e)
unfolding export_token
export_token-HasRoom eof e h = h
export_token-HasRoom newline e h = h
export_token-HasRoom text e h = go e.env_state
  where
    go : (s : ExportRcState) → HasRoom (export_text s e)
    go env_notready = h
    go env_name = h
    go env_value = (add_environment_room e.env e.tokens.word e.environ h).1
    go env_waitfornextline = h

export_token-tokens : (t : Token) (e : Exporter) → (export_token t e).tokens ≡ e.tokens
unfolding export_token
export_token-tokens eof e = refl
export_token-tokens newline e = refl
export_token-tokens text e = go e.env_state
  where
    go : (s : ExportRcState) → (export_text s e).tokens ≡ e.tokens
    go env_notready = refl
    go env_name = refl
    go env_value = refl
    go env_waitfornextline = refl

abbrev Exports : Option Exporter → Type 0
Exports o = (e : Exporter) × (o ≡ some e) × HasRoom e

export_tokens-HasRoom :
    (fuel : ℕ) (e : Exporter) → left e.tokens < fuel → HasRoom e → Exports (export_tokens fuel e)
unfolding export_tokens
export_tokens-HasRoom zero e few h = absurd (omega arith)
export_tokens-HasRoom (suc fuel) e few h =
    let again : (t : Token)
        → (next_token e.tokens).0 ≢ eof
        → Exports (export_tokens fuel (export_token t (next e))) =
      λ t more.
        export_tokens-HasRoom fuel (export_token t (next e))
          (ground (arith, few, next_token-left e.tokens more, export_token-tokens t (next e)))
          (export_token-HasRoom t (next e) h) in
    elim (Token-cases (next_token e.tokens).0) [
      | inl q ↦ rw (q, export_tokens) (next e, refl, h)
      | inr (more, k) ↦ elim k [
        | inl q ↦ rw (q, export_tokens) (again text more)
        | inr q ↦ rw (q, export_tokens) (again newline more)
      ]
    ]

-- Whatever the file holds, `init_export_rc_file` comes to an end, and an environment of at most the
-- 31 entries that leave room for the final null is left as such.
pub init_export_rc_file_ends :
    (file : Option Bytes) (environ : List Bytes)
    → length environ ≤ 31
    → (environ' : List Bytes) × (init_export_rc_file file environ ≡ some environ')
      × (length environ' ≤ 31)
unfolding init_export_rc_file environ_of
init_export_rc_file_ends none environ h = (environ, refl, h)
init_export_rc_file_ends (some content) environ h =
    let (e, q, room) =
      export_tokens-HasRoom (length content + 1) (start_exporter content environ) (omega arith) h in
    (e.environ, rw q refl, room)
