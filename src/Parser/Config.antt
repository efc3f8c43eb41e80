-- ===== src/Parser/Config.antt =====
-- The loop over the tokens of a file: `parse_new_section`, `parse_import` and `parse_config`.
use asl.Base.{
  ℕ, zero, suc, ◌+◌, Option, none, some, List, [], ◌∷◌, ◌++◌, ◌==◌, ltb, if◌then◌else◌, length,
}
use asl.Base.Text.{Bytes}
use asl.Token.{Token, eof, text, newline, ParseState, next_token}
use asl.Number.{AndroidIdInfo}
use asl.Keyword.{Keyword, k_service, k_on, k_import, lookup_keyword, kw_is_section}
use asl.Service.{Service}
use asl.Service.Argv.{init_parser_maxargs}
use asl.Parser.{Action, Args, parse_service, parse_action, parse_line_action}
use asl.Parser.Options.{parse_line_service}

-- `parse_line` with its `context`, which is a place in one of the lists.
pub data Context : Type 0 where
  no_op : Context
  in_service in_action : ℕ → Context

-- The global lists `service_list` and `action_list`, and the variables of `parse_config`.
pub record Parser : Type 0 where
  pub services : List Service
  pub actions : List Action
  pub import_list : List Bytes
  pub context : Context
  pub tokens : ParseState
  pub args : Args
  pub nargs : ℕ

-- A change of the element at a place.
abbrev pub modify {ℓ} : {A : Type ℓ} → ℕ → (A → A) → List A → List A
modify i f [] = []
modify zero f (x ∷ xs) = f x ∷ xs
modify (suc i) f (x ∷ xs) = x ∷ modify i f xs

-- `args[i] = s`
abbrev store : ℕ → Bytes → Args → Args
store i s args j = if j == i then s else args j

-- `expand_props` into an array of PATH_MAX bytes, and the table of the ids.
module _ (expand : Bytes → Option Bytes) (android_ids : List AndroidIdInfo) where
  unfoldable pub parse_line : ℕ → Context → Parser → Parser
  parse_line nargs no_op p = p
  parse_line nargs (in_service i) p = record p {
    services = modify i (parse_line_service android_ids nargs p.args) p.services;
  }
  parse_line nargs (in_action i) p = record p {
    actions = modify i (parse_line_action nargs p.args) p.actions;
  }

  unfoldable pub add_import : Option Bytes → Parser → Parser
  add_import none p = p
  add_import (some conf_file) p = record p { import_list = p.import_list ++ conf_file ∷ [] }

  unfoldable pub parse_import : Parser → Parser
  unfolding add_import
  parse_import p = if p.nargs == 2 then add_import (expand (p.args 1)) p else p

  unfoldable pub open_service : Option (List Service) → Parser → Parser
  open_service none p = record p { context = no_op }
  open_service (some services') p = record p {
    services = services';
    context = in_service (length p.services);
  }

  unfoldable pub open_action : Option (List Action) → Parser → Parser
  open_action none p = record p { context = no_op }
  open_action (some actions') p = record p {
    actions = actions';
    context = in_action (length p.actions);
  }

  unfoldable pub parse_new_section : Keyword → Parser → Parser
  unfolding open_service open_action parse_import
  parse_new_section k_service p = open_service (parse_service p.nargs p.args p.services) p
  parse_new_section k_on p = open_action (parse_action p.nargs p.args p.actions) p
  parse_new_section k_import p = record (parse_import p) { context = no_op }
  parse_new_section _ p = record p { context = no_op }

  -- The case T_NEWLINE, with the line counted.
  unfoldable pub end_line : Parser → Parser
  unfolding parse_line parse_new_section
  end_line p =
      if p.nargs == 0
      then p
      else (let kw = lookup_keyword (p.args 0) in
          record (if kw_is_section kw
            then parse_new_section kw (parse_line 0 p.context p)
            else parse_line p.nargs p.context p) { nargs = 0 })

  -- The case T_TEXT.
  unfoldable pub store_text : Parser → Parser
  store_text p =
      if ltb p.nargs init_parser_maxargs
      then record p { args = store p.nargs p.tokens.word p.args; nargs = p.nargs + 1 }
      else p

  unfoldable pub on_token : Token → Parser → Parser
  unfolding end_line store_text
  on_token eof p = parse_line 0 p.context p
  on_token newline p = end_line (record p { tokens = record p.tokens { line = p.tokens.line + 1 } })
  on_token text p = store_text p

  abbrev pub advance : Parser → Parser
  advance p = record p { tokens = (next_token p.tokens).1 }

  -- The loop, which ends at T_EOF; none is for the fuel that does not last until there.
  unfoldable pub parse_tokens : ℕ → Parser → Option Parser
  parse_tokens zero p = none
  parse_tokens (suc fuel) p = elim (next_token p.tokens).0 [
    | eof ↦ some (on_token eof (advance p))
    | text ↦ parse_tokens fuel (on_token text (advance p))
    | newline ↦ parse_tokens fuel (on_token newline (advance p))
  ]

  -- The state in front of the loop. The lists are global, and `garbage` is what the array holds.
  abbrev pub start_parser : Bytes → Args → List Service → List Action → Parser
  start_parser s garbage service_list action_list = record {
    services = service_list;
    actions = action_list;
    import_list = [];
    context = no_op;
    tokens = record { ptr = s; word = []; line = 0; nexttoken = eof };
    args = garbage;
    nargs = 0;
  }

  -- `parse_config` up to `parser_done`. There are no more tokens than bytes.
  unfoldable pub parse_config : Bytes → Args → List Service → List Action → Option Parser
  parse_config s garbage service_list action_list =
      parse_tokens (length s + 1) (start_parser s garbage service_list action_list)
