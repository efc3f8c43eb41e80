-- ===== src/Boot/Actions/Order.antt =====
-- That the actions of the boot run in the order of its stages.
use asl.Queue.{Cutils, Init}
use asl.Boot.{Vars}
use asl.Boot.Actions.{queue_boot_actions}

module _ (cutils : Cutils) where
  open cutils use {items}

  -- The state in which `main` begins its loop.
  abbrev pub booted : Vars → Init cutils → Init cutils
  booted vars s = queue_boot_actions cutils vars s
