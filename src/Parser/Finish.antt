-- ===== src/Parser/Finish.antt =====
-- The loop of `parse_config` to its end.
use asl.Base.{
  ℕ, zero, suc, ◌+◌, ◌<◌, ◌≡◌, ◌≢◌, ◌⊎◌, inl, inr, refl, ◌∙◌, Option, none, some, List, arith,
  length, ltb, ◌==◌, if◌then◌else◌, if_elim, ap,
}
use asl.Base.Text.{Bytes}
use asl.Token.{Token, eof, text, newline, next_token}
use asl.Token.Progress.{left, next_token-left}
use asl.Number.{AndroidIdInfo}
use asl.Keyword.{Keyword, k_service, k_on, k_import, lookup_keyword, kw_is_section}
use asl.Service.{Service}
use asl.Parser.{Action, Args, parse_service, parse_action}
use asl.Service.Argv.{init_parser_maxargs}
use asl.Parser.Config.{
  Parser, parse_line, end_line, store_text, on_token, advance, parse_tokens, start_parser,
  parse_config, open_service, open_action, add_import, parse_import, parse_new_section, Context,
  no_op, in_service, in_action,
}
use asl.Parser.Invariant.{IsLoaded, IsGood}
use asl.Parser.Lines.{on_token-IsGood}

pub Token-cases : (t : Token) → (t ≡ eof) ⊎ ((t ≢ eof) × ((t ≡ text) ⊎ (t ≡ newline)))
Token-cases eof = inl refl
Token-cases text = inr (λ e. cc, inl refl)
Token-cases newline = inr (λ e. cc, inr refl)

module _ (expand : Bytes → Option Bytes) (ids : List AndroidIdInfo) where
  -- The handling of a line leaves the unread bytes alone.
  parse_line-tokens :
      (nargs : ℕ) (context : Context) (p : Parser)
      → (parse_line expand ids nargs context p).tokens ≡ p.tokens
  unfolding parse_line
  parse_line-tokens nargs no_op p = refl
  parse_line-tokens nargs (in_service i) p = refl
  parse_line-tokens nargs (in_action i) p = refl

  open_service-tokens :
      (o : Option (List Service)) (p : Parser) → (open_service expand ids o p).tokens ≡ p.tokens
  unfolding open_service
  open_service-tokens none p = refl
  open_service-tokens (some services) p = refl

  open_action-tokens :
      (o : Option (List Action)) (p : Parser) → (open_action expand ids o p).tokens ≡ p.tokens
  unfolding open_action
  open_action-tokens none p = refl
  open_action-tokens (some actions) p = refl

  add_import-tokens :
      (o : Option Bytes) (p : Parser) → (add_import expand ids o p).tokens ≡ p.tokens
  unfolding add_import
  add_import-tokens none p = refl
  add_import-tokens (some conf_file) p = refl

  parse_import-tokens : (p : Parser) → (parse_import expand ids p).tokens ≡ p.tokens
  unfolding parse_import
  parse_import-tokens p =
      if_elim (λ (q : Parser). q.tokens ≡ p.tokens) (p.nargs == 2) _ _
        (λ e. add_import-tokens (expand (p.args 1)) p) (λ e. refl)

  parse_new_section-tokens :
      (kw : Keyword) (p : Parser) → (parse_new_section expand ids kw p).tokens ≡ p.tokens
  unfolding parse_new_section
  parse_new_section-tokens k_service p =
      open_service-tokens (parse_service p.nargs p.args p.services) p
  parse_new_section-tokens k_on p = open_action-tokens (parse_action p.nargs p.args p.actions) p
  parse_new_section-tokens k_import p = parse_import-tokens p
  parse_new_section-tokens _ p = refl

  end_line-tokens : (p : Parser) → (end_line expand ids p).tokens ≡ p.tokens
  unfolding end_line
  end_line-tokens p =
      if_elim (λ (q : Parser). q.tokens ≡ p.tokens) (p.nargs == 0) _ _ (λ e. refl) (λ e. line)
    where
      kw : Keyword
      kw = lookup_keyword (p.args 0)

      line :
          (if kw_is_section kw
            then parse_new_section expand ids kw (parse_line expand ids 0 p.context p)
            else parse_line expand ids p.nargs p.context p).tokens
          ≡ p.tokens
      line =
          if_elim (λ (q : Parser). q.tokens ≡ p.tokens) (kw_is_section kw) _ _
            (λ e. parse_new_section-tokens kw _ ∙ parse_line-tokens 0 p.context p)
            (λ e. parse_line-tokens p.nargs p.context p)

  on_token-left : (t : Token) (p : Parser) → left (on_token expand ids t p).tokens ≡ left p.tokens
  unfolding on_token store_text
  on_token-left eof p = ap left (parse_line-tokens 0 p.context p)
  on_token-left newline p = ap left (end_line-tokens _)
  on_token-left text p =
      if_elim (λ (q : Parser). left q.tokens ≡ left p.tokens) (ltb p.nargs init_parser_maxargs) _ _
        (λ e. refl) (λ e. refl)

  abbrev Finishes : Option Parser → Type 0
  Finishes o = (q : Parser) × (o ≡ some q) × IsGood q

  advance-IsGood :
      (t : Token) (p : Parser) → IsGood p → IsGood (on_token expand ids t (advance expand ids p))
  advance-IsGood t p h =
      on_token-IsGood expand ids t (advance expand ids p)
        (record { loaded = h.loaded; words = h.words })

  fewer :
      (fuel : ℕ) (t : Token) (p : Parser)
      → left p.tokens < suc fuel
      → (next_token p.tokens).0 ≢ eof
      → left (on_token expand ids t (advance expand ids p)).tokens < fuel
  fewer fuel t p few more =
      omega (arith, next_token-left p.tokens more, on_token-left t (advance expand ids p))

  parse_tokens-IsGood :
      (fuel : ℕ) (p : Parser)
      → left p.tokens < fuel
      → IsGood p
      → Finishes (parse_tokens expand ids fuel p)
  unfolding parse_tokens
  parse_tokens-IsGood zero p few h = absurd (omega arith)
  parse_tokens-IsGood (suc fuel) p few h =
      let again : (t : Token)
          → (next_token p.tokens).0 ≢ eof
          → Finishes (parse_tokens expand ids fuel (on_token expand ids t (advance expand ids p))) =
        λ t more.
          parse_tokens-IsGood fuel (on_token expand ids t (advance expand ids p))
            (fewer fuel t p few more) (advance-IsGood t p h) in
      elim (Token-cases (next_token p.tokens).0) [
        | inl e ↦ rw (e, parse_tokens) (_, refl, advance-IsGood eof p h)
        | inr (more, k) ↦ elim k [
          | inl e ↦ rw (e, parse_tokens) (again text more)
          | inr e ↦ rw (e, parse_tokens) (again newline more)
        ]
      ]

  -- Whatever the bytes of a file are, its parsing comes to an end, and it leaves the lists in order
  -- if it found them so: every service is as the parser may leave it, no two services have the same
  -- name, and every command of an action is complete.
  pub parse_config-IsLoaded :
      (s : Bytes) (garbage : Args) (service_list : List Service) (action_list : List Action)
      → IsLoaded service_list action_list
      → (p : Parser) × (parse_config expand ids s garbage service_list action_list ≡ some p)
        × IsLoaded p.services p.actions
  unfolding parse_config
  parse_config-IsLoaded s garbage service_list action_list h =
      let (q, e, good) =
        parse_tokens-IsGood (length s + 1)
          (start_parser expand ids s garbage service_list action_list) (omega arith)
          (record { loaded = h; words = omega arith }) in
      (q, e, good.loaded)
