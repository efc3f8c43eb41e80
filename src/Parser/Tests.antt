-- ===== src/Parser/Tests.antt =====
-- A small rc file, and the theorems at it.
use asl.Base.{
  ℕ, ◌<◌, All, Bool-cases, inl, inr, sym, ap, ◌∙◌, subst, zero, suc, ◌≤◌, ◌≡◌, refl, true, Option,
  none, some, List, [], ◌∷◌, arith, if◌then◌else◌, length,
}
use asl.Base.Text.{Bytes, codes, str_eq}
use asl.Token.{next_token, skip_blanks, read_text, turn}
use asl.Number.{AndroidIdInfo}
use asl.Keyword.{k_mkdir, k_start, keyword_info, lookup_keyword}
use asl.Service.{Service, builtin, io_rt}
use asl.Parser.{
  Action, Args, find_service, parse_service, parse_action, parse_line_action, new_service,
}
use asl.Parser.Config.{Parser, start_parser, parse_config, on_token, parse_tokens}
use asl.Parser.Invariant.{IsLoaded}
use asl.Parser.Finish.{parse_config-IsLoaded}
use asl.Parser.Export.{init_export_rc_file, init_export_rc_file_ends}
use asl.Parser.Imports.{Lists, Falls, init_parse_config_file, init_parse_config_file-IsLoaded}

abbrev rc : Bytes
rc =
    codes
      "on init\n mkdir /data\n start vold\nservice vold /system/bin/vold -v\n ioprio rt 4\n class core\n"

abbrev expand : Bytes → Option Bytes
expand s = some s

abbrev android_ids : List AndroidIdInfo
android_ids =
    record { name = codes "root"; aid = 0 } ∷ record { name = codes "system"; aid = 1000 } ∷ []

abbrev garbage : Args
garbage i = []

actions_of : Option Parser → List Action
actions_of none = []
actions_of (some p) = p.actions

-- What the file says.
actions_of-rc :
    actions_of (parse_config expand android_ids rc garbage [] [])
    ≡ record {
      name = codes "init";
      commands =
          record { func = builtin k_mkdir; args = codes "mkdir" ∷ codes "/data" ∷ [] }
          ∷ record { func = builtin k_start; args = codes "start" ∷ codes "vold" ∷ [] }
          ∷ [];
    }
      ∷ []
unfolding actions_of parse_config parse_tokens next_token skip_blanks read_text turn on_token
    keyword_info lookup_keyword str_eq parse_action parse_service find_service parse_line_action
actions_of-rc = refl

parse_config-IsLoaded_example :
    (p : Parser) × (parse_config expand android_ids rc garbage [] [] ≡ some p)
    × IsLoaded p.services p.actions
parse_config-IsLoaded_example =
    parse_config-IsLoaded expand android_ids rc garbage [] []
      (record { parsed = tt; unique = tt; complete = tt })

-- A file with one service.
abbrev one_service : Bytes
one_service = codes "service vold /system/bin/vold\n"

abbrev or_start : Option Parser → Parser
or_start none = start_parser expand android_ids one_service garbage [] []
or_start (some p) = p

abbrev parsed : Parser
parsed = or_start (parse_config expand android_ids one_service garbage [] [])

abbrev vold : Service
vold = new_service (codes "vold") (codes "/system/bin/vold" ∷ [])

abbrev oneshot_line : Args
oneshot_line i = codes "oneshot"

abbrev fast : Service
fast = record vold { ioprio_class = io_rt; ioprio_pri = 4 }

abbrev vold_line : Args
vold_line zero = codes "service"
vold_line (suc zero) = codes "vold"
vold_line (suc (suc i)) = codes "/system/bin/vold"

abbrev exports : Option Bytes
exports = some (codes "export PATH /sbin\nexport TMP /tmp\n")

init_export_rc_file_ends_example :
    (environ' : List Bytes) × (init_export_rc_file exports (codes "PATH=/bin" ∷ []) ≡ some environ')
    × (length environ' ≤ 31)
init_export_rc_file_ends_example =
    init_export_rc_file_ends exports (codes "PATH=/bin" ∷ []) (omega arith)

-- A file that imports one that is not there.
abbrev importing : Bytes
importing = codes "import /a.rc\n"

abbrev read_file : Bytes → Option Bytes
read_file fn = if str_eq fn (codes "/init.rc") then some importing else none

abbrev stale : Bytes → Args
stale fn i = []

abbrev rank : Bytes → ℕ
rank fn = if str_eq fn (codes "/init.rc") then 1 else 0

abbrev imports_of : Option Parser → List Bytes
imports_of none = []
imports_of (some p) = p.import_list

imports_of-importing :
    (fn : Bytes) (l : Lists)
    → imports_of (parse_config expand android_ids importing (stale fn) l.services l.actions)
      ≡ codes "/a.rc" ∷ []
unfolding parse_config parse_tokens next_token skip_blanks read_text turn on_token keyword_info
    lookup_keyword str_eq
imports_of-importing fn l = refl

falls : Falls expand android_ids read_file stale rank
falls fn content l p e q = elim (Bool-cases (str_eq fn (codes "/init.rc"))) [
  | inr other ↦ absurd (ground (arith, e, other))
  | inl same ↦ rw same (lower same)
]
  where
    lower : str_eq fn (codes "/init.rc") ≡ true → All (λ f. rank f < 1) p.import_list
    lower same =
        let given : some importing ≡ some content = ground (arith, e, same) in
        let text : content ≡ importing = cc given in
        let parses : parse_config expand android_ids importing (stale fn) l.services l.actions
            ≡ some p =
          subst (λ c. parse_config expand android_ids c (stale fn) l.services l.actions ≡ some p)
            text q in
        let imports : p.import_list ≡ codes "/a.rc" ∷ [] =
          sym (ap imports_of parses) ∙ imports_of-importing fn l in
        subst (All (λ f. rank f < 1)) (sym imports) (unfold str_eq in omega arith, tt)

abbrev no_lists : Lists
no_lists = record { services = []; actions = [] }

init_parse_config_file-IsLoaded_example :
    (l : Lists) × (init_parse_config_file expand android_ids read_file stale 2
        (codes "/init.rc")
        no_lists
      ≡ some l)
    × IsLoaded l.services l.actions
init_parse_config_file-IsLoaded_example =
    init_parse_config_file-IsLoaded expand android_ids read_file stale rank 2 (codes "/init.rc")
      no_lists falls (unfold str_eq in omega arith)
      (record { parsed = tt; unique = tt; complete = tt })
