-- ===== src/Boot/Tests.antt =====
-- The start of init at concrete properties and services.
use asl.Base.{List, map, ◌≡◌, refl, true, false, none, some, [], ◌∷◌, All}
use asl.Base.Text.{codes, str_eq}
use asl.Service.{action_function, Service, StartEnv}
use asl.Parser.{new_service}
use asl.Control.{restart_processes}
use asl.Props.Tests.{store}
use asl.Boot.{Vars}
use asl.Queue.Tests.{init}
use asl.Queue.Order.{Turn, enqueue, execute}
use asl.Boot.Actions.{boot_commands}
use asl.Boot.Loop.{poll_timeout, WakesFor, poll_timeout-WakesFor}

abbrev vars : Vars
vars = record {
  qemu = [];
  battchg_pause = [];
  console = [];
  bootmode = [];
  hardware = [];
  revision = 0;
  emmc_boot = false;
  props = store;
}

abbrev waiting : Service
waiting = record (new_service (codes "vold") (codes "/system/bin/vold" ∷ [])) {
  time_started = 100;
  flags = record (new_service (codes "vold") []).flags { restarting = true };
}

abbrev env : StartEnv
env = record {
  have_console = true;
  stat = λ path. true;
  fork = some 42;
  now = 103;
  properties_inited = true;
}

poll_timeout-WakesFor_example :
    All
      (WakesFor 104 (poll_timeout (restart_processes (λ i. env) (waiting ∷ [])).1 104 true none))
      (restart_processes (λ i. env) (waiting ∷ [])).0.0
poll_timeout-WakesFor_example = poll_timeout-WakesFor (λ i. env) (waiting ∷ []) 104 true none

-- The place 1 is that of an action of a property.
abbrev meanwhile : List Turn
meanwhile = execute ∷ execute ∷ enqueue 1 ∷ execute ∷ []

-- The charger is started in place of the boot.
charger_boot :
    boot_commands (record vars { bootmode = codes "charger" }) init.action_list
    ≡ map
        (λ n. record { func = action_function (codes n); args = [] })
        ("wait_for_coldboot_done" ∷ "keychord_init" ∷ "console_init" ∷ "property_service_init"
          ∷ "signal_init" ∷ "check_startup" ∷ "queue_property_triggers" ∷ [])
unfolding str_eq
charger_boot = refl
