-- ===== src/Parser/Invariant.antt =====
-- What a file leaves behind: the names of the services, and the sections that are added.
use asl.Base.{
  ℕ, zero, suc, ◌-◌, ◌≤◌, ◌≡◌, inl, inr, refl, sym, ap, subst, true, false, not, Option, none, some,
  List, [], ◌∷◌, ◌++◌, map, ◌==◌, ltb, arith, if_elim, All, All-append, Option-cases,
}
use asl.Base.Text.{Bytes, str_eq}
use asl.Number.{AndroidIdInfo}
use asl.Keyword.{
  Keyword, k_class, k_ioprio, k_group, k_keycodes, k_setenv, k_socket, k_user, lookup_keyword,
}
use asl.Service.{Service, io_none}
use asl.Parser.{
  Action, Args, slice, valid_name, parse_line_action, new_service, find_service,
  service_find_by_name, parse_service, parse_action,
}
use asl.Parser.Options.{
  ioprio_option, group_option, keycodes_option, onrestart_option, setenv_option, socket_option,
  set_option, parse_line_service,
}
use asl.Parser.WellFormed.{IsCommand, IsParsed, parse_command-IsCommand, length-slice}
use asl.Service.Argv.{init_parser_maxargs}
use asl.Parser.Config.{Parser, modify}

abbrev pub names : List Service → List Bytes
names = map (λ (svc : Service). svc.name)

-- No two names are the same.
abbrev pub Unique : List Bytes → Type 0
Unique [] = Unit
Unique (n ∷ ns) = All (λ m. str_eq n m ≡ false) ns × Unique ns

-- The lists of services and actions as files leave them.
pub record IsLoaded (services : List Service) (actions : List Action) : Type 0 where
  pub parsed : All IsParsed services
  pub unique : Unique (names services)
  pub complete : All (λ (act : Action). All IsCommand act.commands) actions

pub record IsGood (p : Parser) : Type 0 where
  pub loaded : IsLoaded p.services p.actions
  pub words : p.nargs ≤ init_parser_maxargs

Unique-append :
    (ns : List Bytes) (n : Bytes)
    → Unique ns
    → All (λ m. str_eq m n ≡ false) ns
    → Unique (ns ++ n ∷ [])
Unique-append [] n u a = (tt, tt)
Unique-append (m ∷ ns) n u a =
    (All-append (λ k. str_eq m k ≡ false) ns (n ∷ []) u.0 (a.0, tt), Unique-append ns n u.1 a.1)

names-append : (xs ys : List Service) → names (xs ++ ys) ≡ names xs ++ names ys
names-append [] ys = refl
names-append (x ∷ xs) ys = ap (◌∷◌ x.name) (names-append xs ys)

-- The search by name finds nothing only if nothing has the name.
find_by_name-none :
    (n : Bytes) (services : List Service)
    → service_find_by_name n services ≡ none
    → All (λ m. str_eq m n ≡ false) (names services)
unfolding find_service
find_by_name-none n [] h = tt
find_by_name-none n (svc ∷ services) h = elim (Option-cases (service_find_by_name n services)) [
  | inl e ↦ (ground arith, find_by_name-none n services e)
  | inr (i, e) ↦ absurd (ground (arith, h, e))
]

module _ {ℓ} {A : Type ℓ} where
  pub All-modify {κ} :
      (P : A → Type κ) (f : A → A) (i : ℕ) (xs : List A)
      → ((x : A) → P x → P (f x))
      → All P xs
      → All P (modify i f xs)
  All-modify P f i [] k h = tt
  All-modify P f zero (x ∷ xs) k h = (k x h.0, h.1)
  All-modify P f (suc i) (x ∷ xs) k h = (h.0, All-modify P f i xs k h.1)

pub names-modify :
    (f : Service → Service) (i : ℕ) (xs : List Service)
    → ((svc : Service) → (f svc).name ≡ svc.name)
    → names (modify i f xs) ≡ names xs
names-modify f i [] k = refl
names-modify f zero (x ∷ xs) k = ap (λ n. n ∷ names xs) (k x)
names-modify f (suc i) (x ∷ xs) k = ap (◌∷◌ x.name) (names-modify f i xs k)

set_option-name :
    (ids : List AndroidIdInfo) (kw : Keyword) (nargs : ℕ) (args : Args) (svc : Service)
    → (set_option ids kw nargs args svc).name ≡ svc.name
unfolding set_option ioprio_option group_option keycodes_option onrestart_option setenv_option
    socket_option
set_option-name ids k_class nargs args svc = ground arith
set_option-name ids k_ioprio nargs args svc = ground arith
set_option-name ids k_group nargs args svc = ground arith
set_option-name ids k_keycodes nargs args svc = ground arith
set_option-name ids k_setenv nargs args svc = ground arith
set_option-name ids k_socket nargs args svc = ground arith
set_option-name ids k_user nargs args svc = ground arith
set_option-name ids _ nargs args svc = refl

pub parse_line_service-name :
    (ids : List AndroidIdInfo) (nargs : ℕ) (args : Args) (svc : Service)
    → (parse_line_service ids nargs args svc).name ≡ svc.name
unfolding parse_line_service
parse_line_service-name ids nargs args svc = ground (
  arith,
  set_option-name ids (lookup_keyword (args 0)) nargs args (record svc { ioprio_class = io_none }),
)

pub parse_line_action_complete :
    (nargs : ℕ) (args : Args) (act : Action)
    → All IsCommand act.commands
    → All IsCommand (parse_line_action nargs args act).commands
unfolding parse_line_action
parse_line_action_complete nargs args act h =
    if_elim (λ (a : Action). All IsCommand a.commands) (nargs == 0) _ _ (λ e. h)
      (λ e. parse_command-IsCommand nargs args 0 act.commands h)

new_service-IsParsed :
    (nargs : ℕ) (args : Args)
    → nargs ≤ init_parser_maxargs
    → ltb nargs 3 ≡ false
    → valid_name (args 1) ≡ true
    → IsParsed (new_service (args 1) (slice args 2 (nargs - 2)))
new_service-IsParsed nargs args room enough valid = record {
  name_valid = valid;
  program = ground (arith, enough, length-slice args 2 (nargs - 2));
  room = ground (arith, room, length-slice args 2 (nargs - 2));
  groups = omega arith;
  priority = refl;
  socket_types = tt;
  commands = tt;
  no_process = refl;
  not_running = refl;
  not_waiting = refl;
}

abbrev pub Loads : List Action → Option (List Service) → Type 0
Loads actions none = Unit
Loads actions (some services) = IsLoaded services actions

pub parse_service-Loads :
    (nargs : ℕ) (args : Args) (services : List Service) (actions : List Action)
    → nargs ≤ init_parser_maxargs
    → IsLoaded services actions
    → Loads actions (parse_service nargs args services)
unfolding parse_service
parse_service-Loads nargs args services actions room h =
    if_elim (Loads actions) (ltb nargs 3) _ _ (λ e. tt)
      (λ enough.
        if_elim (Loads actions) (not (valid_name (args 1))) _ _ (λ e. tt)
          (λ valid. elim (Option-cases (service_find_by_name (args 1) services)) [
            | inr (i, e) ↦ rw e (tt)
            | inl new ↦ rw new record {
              parsed =
                  All-append IsParsed services _ h.parsed
                    (new_service-IsParsed nargs args room enough (ground (arith, valid)), tt);
              unique = subst Unique (sym (names-append services _)) (
                  Unique-append (names services) (args 1) h.unique
                    (find_by_name-none (args 1) services new));
              complete = h.complete;
            }
          ]))

abbrev pub LoadsActions : List Service → Option (List Action) → Type 0
LoadsActions services none = Unit
LoadsActions services (some actions) = IsLoaded services actions

pub parse_action-Loads :
    (nargs : ℕ) (args : Args) (services : List Service) (actions : List Action)
    → IsLoaded services actions
    → LoadsActions services (parse_action nargs args actions)
unfolding parse_action
parse_action-Loads nargs args services actions h =
    if_elim (LoadsActions services) (ltb nargs 2) _ _ (λ e. tt)
      (λ enough.
        if_elim (LoadsActions services) (ltb 2 nargs) _ _ (λ e. tt)
          (λ single. record {
            parsed = h.parsed;
            unique = h.unique;
            complete =
                All-append (λ (act : Action). All IsCommand act.commands) actions _ h.complete
                  (tt, tt);
          }))
