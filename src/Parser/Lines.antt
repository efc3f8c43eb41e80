-- ===== src/Parser/Lines.antt =====
-- The handling of a line and of a token keeps the lists in order.
use asl.Base.{
  ℕ, sym, subst, Option, none, some, List, ◌==◌, ltb, arith, if◌then◌else◌, if_elim, All,
}
use asl.Base.Text.{Bytes}
use asl.Token.{Token, eof, text, newline}
use asl.Number.{AndroidIdInfo}
use asl.Keyword.{Keyword, k_service, k_on, k_import, lookup_keyword, kw_is_section}
use asl.Service.{Service}
use asl.Parser.{Action, parse_line_action, parse_service, parse_action}
use asl.Parser.Options.{parse_line_service}
use asl.Parser.WellFormed.{IsCommand, IsParsed, parse_line_service-IsParsed}
use asl.Service.Argv.{init_parser_maxargs}
use asl.Parser.Config.{
  Context, no_op, in_service, in_action, Parser, parse_line, add_import, parse_import, open_service,
  open_action, parse_new_section, end_line, store_text, on_token,
}
use asl.Parser.Invariant.{
  IsGood, Loads, LoadsActions, parse_service-Loads, parse_action-Loads, All-modify, names-modify,
  parse_line_service-name, parse_line_action_complete, Unique,
}

module _ (expand : Bytes → Option Bytes) (ids : List AndroidIdInfo) where
  parse_line-IsGood :
      (nargs : ℕ) (context : Context) (p : Parser)
      → IsGood p
      → IsGood (parse_line expand ids nargs context p)
  unfolding parse_line
  parse_line-IsGood nargs no_op p h = h
  parse_line-IsGood nargs (in_service i) p h = record {
    loaded = record {
      parsed =
          All-modify IsParsed (parse_line_service ids nargs p.args) i p.services
            (parse_line_service-IsParsed ids nargs p.args) h.loaded.parsed;
      unique =
          subst Unique
            (sym (
              names-modify (parse_line_service ids nargs p.args) i p.services
                (parse_line_service-name ids nargs p.args)))
            h.loaded.unique;
      complete = h.loaded.complete;
    };
    words = h.words;
  }
  parse_line-IsGood nargs (in_action i) p h = record {
    loaded = record {
      parsed = h.loaded.parsed;
      unique = h.loaded.unique;
      complete =
          All-modify (λ (act : Action). All IsCommand act.commands) (parse_line_action nargs p.args)
            i p.actions (parse_line_action_complete nargs p.args) h.loaded.complete;
    };
    words = h.words;
  }

  open_service-IsGood :
      (o : Option (List Service)) (p : Parser)
      → IsGood p
      → Loads p.actions o
      → IsGood (open_service expand ids o p)
  unfolding open_service
  open_service-IsGood none p h k = record { loaded = h.loaded; words = h.words }
  open_service-IsGood (some services) p h k = record { loaded = k; words = h.words }

  open_action-IsGood :
      (o : Option (List Action)) (p : Parser)
      → IsGood p
      → LoadsActions p.services o
      → IsGood (open_action expand ids o p)
  unfolding open_action
  open_action-IsGood none p h k = record { loaded = h.loaded; words = h.words }
  open_action-IsGood (some actions) p h k = record { loaded = k; words = h.words }

  add_import-IsGood :
      (o : Option Bytes) (p : Parser) → IsGood p → IsGood (add_import expand ids o p)
  unfolding add_import
  add_import-IsGood none p h = h
  add_import-IsGood (some conf_file) p h = record { loaded = h.loaded; words = h.words }

  parse_import-IsGood : (p : Parser) → IsGood p → IsGood (parse_import expand ids p)
  unfolding parse_import
  parse_import-IsGood p h =
      if_elim IsGood (p.nargs == 2) _ _ (λ e. add_import-IsGood (expand (p.args 1)) p h) (λ e. h)

  parse_new_section-IsGood :
      (kw : Keyword) (p : Parser) → IsGood p → IsGood (parse_new_section expand ids kw p)
  unfolding parse_new_section
  parse_new_section-IsGood k_service p h =
      open_service-IsGood (parse_service p.nargs p.args p.services) p h
        (parse_service-Loads p.nargs p.args p.services p.actions h.words h.loaded)
  parse_new_section-IsGood k_on p h =
      open_action-IsGood (parse_action p.nargs p.args p.actions) p h
        (parse_action-Loads p.nargs p.args p.services p.actions h.loaded)
  parse_new_section-IsGood k_import p h =
      let q = parse_import-IsGood p h in record { loaded = q.loaded; words = q.words }
  parse_new_section-IsGood _ p h = record { loaded = h.loaded; words = h.words }

  end_line-IsGood : (p : Parser) → IsGood p → IsGood (end_line expand ids p)
  unfolding end_line
  end_line-IsGood p h =
      if_elim IsGood (p.nargs == 0) _ _ (λ e. h)
        (λ e. record { loaded = line.loaded; words = omega arith })
    where
      kw : Keyword
      kw = lookup_keyword (p.args 0)

      line : IsGood (
          if kw_is_section kw
          then parse_new_section expand ids kw (parse_line expand ids 0 p.context p)
          else parse_line expand ids p.nargs p.context p)
      line =
          if_elim IsGood (kw_is_section kw) _ _
            (λ e. parse_new_section-IsGood kw _ (parse_line-IsGood 0 p.context p h))
            (λ e. parse_line-IsGood p.nargs p.context p h)

  pub on_token-IsGood : (t : Token) (p : Parser) → IsGood p → IsGood (on_token expand ids t p)
  unfolding on_token store_text
  on_token-IsGood eof p h = parse_line-IsGood 0 p.context p h
  on_token-IsGood newline p h = end_line-IsGood _ (record { loaded = h.loaded; words = h.words })
  on_token-IsGood text p h =
      if_elim IsGood (ltb p.nargs init_parser_maxargs) _ _
        (λ few. record { loaded = h.loaded; words = ground arith }) (λ e. h)
