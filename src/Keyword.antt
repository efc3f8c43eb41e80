-- ===== src/Keyword.antt =====
-- The keywords of the rc language: system/core/init/keywords.h, and the table and the lookup of
-- system/core/init/init_parser.c.
pub mod Lookup
mod Tests
use asl.Base.{ℕ, ◌+◌, Bool, true, false, List, [], ◌∷◌, ◌==◌, if◌then◌else◌}
use asl.Base.Text.{Bytes, codes, str_eq}

-- The enumeration of keywords.h, in its order.
pub data Keyword : Type 0 where
  k_unknown k_capability k_chdir k_chroot k_class k_class_start k_class_stop k_class_reset : Keyword
  k_console k_critical k_disabled k_domainname k_exec k_export k_export_rc k_group k_hostname :
      Keyword
  k_ifup k_insmod k_import k_keycodes k_log k_mkdir k_mount_all k_mount k_on k_oneshot : Keyword
  k_onrestart k_restart k_restorecon k_rm k_rmdir k_seclabel k_service k_setcon k_setenforce :
      Keyword
  k_setenv k_setkey k_setprop k_setrlimit k_setsebool k_socket k_start k_stop k_trigger k_symlink :
      Keyword
  k_sysclktz k_user k_wait k_write k_copy k_chown k_chmod k_loglevel k_load_persist_props : Keyword
  k_ioprio : Keyword

-- The flags 0, SECTION, COMMAND and OPTION. No keyword has two.
pub data Kind : Type 0 where
  neither section command option : Kind

-- A line of `keyword_info`. The function is the `do_` function of the keyword's name, for a command
-- and for no other keyword, so the keyword stands for it.
pub record Info : Type 0 where
  pub name : Bytes
  pub kind : Kind
  pub nargs : ℕ

-- `KEYWORD(symbol, flags, nargs, func)`
abbrev keyword : Bytes → Kind → ℕ → Info
keyword symbol flags n = record { name = symbol; kind = flags; nargs = n + 1 }

unfoldable pub keyword_info : Keyword → Info
keyword_info k_unknown = record { name = codes "unknown"; kind = neither; nargs = 0 }
keyword_info k_capability = keyword (codes "capability") option 0
keyword_info k_chdir = keyword (codes "chdir") command 1
keyword_info k_chroot = keyword (codes "chroot") command 1
keyword_info k_class = keyword (codes "class") option 0
keyword_info k_class_start = keyword (codes "class_start") command 1
keyword_info k_class_stop = keyword (codes "class_stop") command 1
keyword_info k_class_reset = keyword (codes "class_reset") command 1
keyword_info k_console = keyword (codes "console") option 0
keyword_info k_critical = keyword (codes "critical") option 0
keyword_info k_disabled = keyword (codes "disabled") option 0
keyword_info k_domainname = keyword (codes "domainname") command 1
keyword_info k_exec = keyword (codes "exec") command 1
keyword_info k_export = keyword (codes "export") command 2
keyword_info k_export_rc = keyword (codes "export_rc") command 1
keyword_info k_group = keyword (codes "group") option 0
keyword_info k_hostname = keyword (codes "hostname") command 1
keyword_info k_ifup = keyword (codes "ifup") command 1
keyword_info k_insmod = keyword (codes "insmod") command 1
keyword_info k_import = keyword (codes "import") section 1
keyword_info k_keycodes = keyword (codes "keycodes") option 0
keyword_info k_log = keyword (codes "log") command 1
keyword_info k_mkdir = keyword (codes "mkdir") command 1
keyword_info k_mount_all = keyword (codes "mount_all") command 1
keyword_info k_mount = keyword (codes "mount") command 3
keyword_info k_on = keyword (codes "on") section 0
keyword_info k_oneshot = keyword (codes "oneshot") option 0
keyword_info k_onrestart = keyword (codes "onrestart") option 0
keyword_info k_restart = keyword (codes "restart") command 1
keyword_info k_restorecon = keyword (codes "restorecon") command 1
keyword_info k_rm = keyword (codes "rm") command 1
keyword_info k_rmdir = keyword (codes "rmdir") command 1
keyword_info k_seclabel = keyword (codes "seclabel") option 0
keyword_info k_service = keyword (codes "service") section 0
keyword_info k_setcon = keyword (codes "setcon") command 1
keyword_info k_setenforce = keyword (codes "setenforce") command 1
keyword_info k_setenv = keyword (codes "setenv") option 2
keyword_info k_setkey = keyword (codes "setkey") command 0
keyword_info k_setprop = keyword (codes "setprop") command 2
keyword_info k_setrlimit = keyword (codes "setrlimit") command 3
keyword_info k_setsebool = keyword (codes "setsebool") command 1
keyword_info k_socket = keyword (codes "socket") option 0
keyword_info k_start = keyword (codes "start") command 1
keyword_info k_stop = keyword (codes "stop") command 1
keyword_info k_trigger = keyword (codes "trigger") command 1
keyword_info k_symlink = keyword (codes "symlink") command 1
keyword_info k_sysclktz = keyword (codes "sysclktz") command 1
keyword_info k_user = keyword (codes "user") option 0
keyword_info k_wait = keyword (codes "wait") command 1
keyword_info k_write = keyword (codes "write") command 2
keyword_info k_copy = keyword (codes "copy") command 2
keyword_info k_chown = keyword (codes "chown") command 2
keyword_info k_chmod = keyword (codes "chmod") command 2
keyword_info k_loglevel = keyword (codes "loglevel") command 1
keyword_info k_load_persist_props = keyword (codes "load_persist_props") command 0
keyword_info k_ioprio = keyword (codes "ioprio") option 0

abbrev pub kw_name : Keyword → Bytes
kw_name kw = (keyword_info kw).name

abbrev pub kw_nargs : Keyword → ℕ
kw_nargs kw = (keyword_info kw).nargs

abbrev is_command : Kind → Bool
is_command command = true
is_command _ = false

abbrev is_section : Kind → Bool
is_section section = true
is_section _ = false

-- `kw_is(kw, COMMAND)` and `kw_is(kw, SECTION)`
abbrev pub kw_is_command : Keyword → Bool
kw_is_command kw = is_command (keyword_info kw).kind

abbrev pub kw_is_section : Keyword → Bool
kw_is_section kw = is_section (keyword_info kw).kind

abbrev pub Case : Type 0
Case = List (Bytes × Keyword)

-- A row of lines `if (!strcmp(s, "...")) return K_...;` and the return behind the switch.
unfoldable pub first_match : Bytes → Case → Keyword
first_match s [] = k_unknown
first_match s ((tail, kw) ∷ more) = if str_eq s tail then kw else first_match s more

abbrev pub case_c : Case
case_c =
    (codes "opy", k_copy)
    ∷ (codes "apability", k_capability)
    ∷ (codes "hdir", k_chdir)
    ∷ (codes "hroot", k_chroot)
    ∷ (codes "lass", k_class)
    ∷ (codes "lass_start", k_class_start)
    ∷ (codes "lass_stop", k_class_stop)
    ∷ (codes "lass_reset", k_class_reset)
    ∷ (codes "onsole", k_console)
    ∷ (codes "hown", k_chown)
    ∷ (codes "hmod", k_chmod)
    ∷ (codes "ritical", k_critical)
    ∷ []

abbrev pub case_d : Case
case_d = (codes "isabled", k_disabled) ∷ (codes "omainname", k_domainname) ∷ []

abbrev pub case_e : Case
case_e = (codes "xec", k_exec) ∷ (codes "xport", k_export) ∷ (codes "xport_rc", k_export_rc) ∷ []

abbrev pub case_g : Case
case_g = (codes "roup", k_group) ∷ []

abbrev pub case_h : Case
case_h = (codes "ostname", k_hostname) ∷ []

abbrev pub case_i : Case
case_i =
    (codes "oprio", k_ioprio)
    ∷ (codes "fup", k_ifup)
    ∷ (codes "nsmod", k_insmod)
    ∷ (codes "mport", k_import)
    ∷ []

abbrev pub case_k : Case
case_k = (codes "eycodes", k_keycodes) ∷ []

abbrev pub case_l : Case
case_l =
    (codes "oglevel", k_loglevel)
    ∷ (codes "og", k_log)
    ∷ (codes "oad_persist_props", k_load_persist_props)
    ∷ []

abbrev pub case_m : Case
case_m = (codes "kdir", k_mkdir) ∷ (codes "ount_all", k_mount_all) ∷ (codes "ount", k_mount) ∷ []

abbrev pub case_o : Case
case_o = (codes "n", k_on) ∷ (codes "neshot", k_oneshot) ∷ (codes "nrestart", k_onrestart) ∷ []

abbrev pub case_r : Case
case_r =
    (codes "estart", k_restart)
    ∷ (codes "estorecon", k_restorecon)
    ∷ (codes "mdir", k_rmdir)
    ∷ (codes "m", k_rm)
    ∷ []

abbrev pub case_s : Case
case_s =
    (codes "eclabel", k_seclabel)
    ∷ (codes "ervice", k_service)
    ∷ (codes "etcon", k_setcon)
    ∷ (codes "etenforce", k_setenforce)
    ∷ (codes "etenv", k_setenv)
    ∷ (codes "etkey", k_setkey)
    ∷ (codes "etprop", k_setprop)
    ∷ (codes "etrlimit", k_setrlimit)
    ∷ (codes "etsebool", k_setsebool)
    ∷ (codes "ocket", k_socket)
    ∷ (codes "tart", k_start)
    ∷ (codes "top", k_stop)
    ∷ (codes "ymlink", k_symlink)
    ∷ (codes "ysclktz", k_sysclktz)
    ∷ []

abbrev pub case_t : Case
case_t = (codes "rigger", k_trigger) ∷ []

abbrev pub case_u : Case
case_u = (codes "ser", k_user) ∷ []

abbrev pub case_w : Case
case_w = (codes "rite", k_write) ∷ (codes "ait", k_wait) ∷ []

-- The switch on the first byte.
pub cases : ℕ → Case
cases c =
    if c == b'c'
    then case_c
    else if c == b'd'
    then case_d
    else if c == b'e'
    then case_e
    else if c == b'g'
    then case_g
    else if c == b'h'
    then case_h
    else if c == b'i'
    then case_i
    else if c == b'k'
    then case_k
    else if c == b'l'
    then case_l
    else if c == b'm'
    then case_m
    else if c == b'o'
    then case_o
    else if c == b'r'
    then case_r
    else if c == b's'
    then case_s
    else if c == b't'
    then case_t
    else if c == b'u'
    then case_u
    else if c == b'w'
    then case_w
    else []

-- Behind an empty string stands its final 0, for which the switch has no case.
unfoldable pub lookup_keyword : Bytes → Keyword
unfolding cases first_match
lookup_keyword [] = k_unknown
lookup_keyword (c ∷ s) = first_match s (cases c)
