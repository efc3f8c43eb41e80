-- ===== src/Parser/Uses.antt =====
-- What the rest of init relies on in the services of a file.
use asl.Base.{
  ℕ, ◌+◌, ◌-◌, subst, ◌≤◌, ◌<◌, ◌≡◌, ◌≢◌, refl, true, Option, none, some, List, [], ◌∷◌, ◌++◌,
  arith, if◌then◌else◌, if_elim, length, get_elem?, ◌==◌, All-get, Bool-cases, Option-cases, inl,
  inr, sym, ◌∙◌,
}
use asl.Base.Text.{Bytes, str_eq, str_eq→eq}
use asl.Number.{AndroidIdInfo}
use asl.Keyword.{
  Keyword, k_ioprio, k_class, k_group, k_keycodes, k_setenv, k_socket, k_user, lookup_keyword,
}
use asl.Service.{Service, io_none}
use asl.Service.Invariant.{IsConsistent}
use asl.Service.Argv.{exec_args, exec_args_bound}
use asl.Parser.{
  Args, slice, valid_name, find_service, service_find_by_name, new_service, parse_service,
}
use asl.Parser.Options.{
  group_option, keycodes_option, onrestart_option, setenv_option, socket_option, set_option,
  parse_line_service,
}
use asl.Parser.Config.{Parser, parse_config}
use asl.Parser.WellFormed.{IsParsed}
use asl.Parser.Finish.{parse_config-IsLoaded}

valid_name_short : (name : Bytes) → valid_name name ≡ true → length name ≤ 16
unfolding valid_name
valid_name_short name h = ground arith

parsed-IsConsistent : (svc : Service) → IsParsed svc → IsConsistent svc
parsed-IsConsistent svc h = record {
  running_pid = λ r. absurd (ground (arith, r, h.not_running));
  stopped_pid = λ r. h.no_process;
  waiting_stopped = λ w. h.not_running;
  waiting_enabled = λ w. absurd (ground (arith, w, h.not_waiting));
}

-- Every service that a file leaves behind in lists that were empty is consistent, has a name so short that the name of its
-- state property takes no more than 26 bytes with the final 0, and with any dynamic arguments it
-- hands at most 64 arguments to its program.
pub parsed_service_fits :
    (expand : Bytes → Option Bytes) (ids : List AndroidIdInfo) (s : Bytes) (garbage : Args)
    (p : Parser) (i : ℕ) (svc : Service) (dynamic_args : Option Bytes)
    → parse_config expand ids s garbage [] [] ≡ some p
    → get_elem? p.services i ≡ some svc
    → IsConsistent svc × (length svc.name + 10 ≤ 26) × (length (exec_args svc dynamic_args) ≤ 64)
parsed_service_fits expand ids s garbage p i svc dynamic_args parse at =
    let (q, e, loaded) =
      parse_config-IsLoaded expand ids s garbage [] []
        (record { parsed = tt; unique = tt; complete = tt }) in
    let same : some p ≡ some q = sym parse ∙ e in
    let at_q : get_elem? q.services i ≡ some svc = cc (same, at) in
    let h = All-get IsParsed q.services i svc loaded.parsed at_q in
    (
      parsed-IsConsistent svc h,
      omega (arith, valid_name_short svc.name h.name_valid),
      exec_args_bound svc dynamic_args h.room,
    )

set_option-ioprio :
    (ids : List AndroidIdInfo) (kw : Keyword) (nargs : ℕ) (args : Args) (svc : Service)
    → svc.ioprio_class ≡ io_none
    → kw ≢ k_ioprio
    → (set_option ids kw nargs args svc).ioprio_class ≡ io_none
unfolding set_option group_option keycodes_option onrestart_option setenv_option socket_option
set_option-ioprio ids k_ioprio nargs args svc e ne = absurd (ne refl)
set_option-ioprio ids k_class nargs args svc e ne = ground (arith, e)
set_option-ioprio ids k_group nargs args svc e ne = ground (arith, e)
set_option-ioprio ids k_keycodes nargs args svc e ne = ground (arith, e)
set_option-ioprio ids k_setenv nargs args svc e ne = ground (arith, e)
set_option-ioprio ids k_socket nargs args svc e ne = ground (arith, e)
set_option-ioprio ids k_user nargs args svc e ne = ground (arith, e)
set_option-ioprio ids _ nargs args svc e ne = e

-- A line with any other option than ioprio takes the scheduling class away that an ioprio line in
-- front of it set.
pub ioprio_lost :
    (ids : List AndroidIdInfo) (nargs : ℕ) (args : Args) (svc : Service)
    → 0 < nargs
    → lookup_keyword (args 0) ≢ k_ioprio
    → (parse_line_service ids nargs args svc).ioprio_class ≡ io_none
unfolding parse_line_service
ioprio_lost ids nargs args svc some_words other =
    if_elim (λ (r : Service). r.ioprio_class ≡ io_none) (nargs == 0) _ _
      (λ e. absurd (ground arith))
      (λ e.
        set_option-ioprio ids (lookup_keyword (args 0)) nargs args
          (record svc { ioprio_class = io_none }) refl other)

-- A search behind an appended service.
find_by_name-append :
    (n : Bytes) (services : List Service) (new : Service)
    → service_find_by_name n (services ++ new ∷ []) ≡ elim (service_find_by_name n services) [
      | some i ↦ some i
      | none ↦ if str_eq new.name n then some (length services) else none
    ]
unfolding find_service
find_by_name-append n [] new = ground arith
find_by_name-append n (svc ∷ services) new =
    let later = find_by_name-append n services new in
    elim (Bool-cases (str_eq svc.name n)) [
      | inl e ↦ rw e refl
      | inr e ↦ elim (Option-cases (service_find_by_name n services)) [
        | inl f ↦ ground (arith, e, f, later)
        | inr (i, f) ↦ ground (arith, e, f, later)
      ]
    ]

-- The first line of a section, of three words or more, adds a service if its name is valid and
-- new; then the name finds the service, and every other name finds what it found.
pub parse_service-find :
    (nargs : ℕ) (args : Args) (n : Bytes) (services : List Service)
    → 3 ≤ nargs
    → valid_name (args 1) ≡ true
    → service_find_by_name (args 1) services ≡ none
    → (services' : List Service) × (parse_service nargs args services ≡ some services')
      × (service_find_by_name n services'
          ≡ (if str_eq (args 1) n then some (length services) else service_find_by_name n services))
unfolding parse_service
parse_service-find nargs args n services words valid new =
    (services ++ added ∷ [], ground (arith, words, valid, new), found)
  where
    added : Service
    added = new_service (args 1) (slice args 2 (nargs - 2))

    new_n : str_eq (args 1) n ≡ true → service_find_by_name n services ≡ none
    new_n e = subst (λ m. service_find_by_name m services ≡ none) (str_eq→eq (args 1) n e) new

    found :
        service_find_by_name n (services ++ added ∷ [])
        ≡ (if str_eq (args 1) n then some (length services) else service_find_by_name n services)
    found = find_by_name-append n services added ∙ elim (Bool-cases (str_eq (args 1) n)) [
      | inl e ↦ ground (arith, e, new_n e)
      | inr e ↦ elim (Option-cases (service_find_by_name n services)) [
        | inl f ↦ ground (arith, e, f)
        | inr (i, f) ↦ ground (arith, e, f)
      ]
    ]
