-- ===== src/Boot/Actions.antt =====
-- The actions that `main` of init.c queues before its loop, and the order that they are meant to
-- have.
pub mod Places
pub mod Clearing
pub mod Stages
pub mod Order
use asl.Base.{Bool, true, false, ◌&&◌, ◌||◌, not, List, [], ◌∷◌, ◌++◌, if◌then◌else◌}
use asl.Base.Text.{Bytes, codes, str_eq}
use asl.Service.{Command, action_function}
use asl.Parser.{Action}
use asl.Queue.{Cutils, Init, queue_builtin_action}
use asl.Queue.Triggers.{action_for_each_trigger}
use asl.Boot.{Vars, charging_value}

module _ (cutils : Cutils) where
  -- The stages of the file systems, which a device that only charges passes over.
  unfoldable pub queue_fs_actions : Bool → Init cutils → Init cutils
  queue_fs_actions emmc_boot s =
      let early = action_for_each_trigger cutils (codes "early-fs") s in
      let fs =
        if emmc_boot
        then action_for_each_trigger cutils (codes "emmc-fs") early
        else action_for_each_trigger cutils (codes "fs") early in
      action_for_each_trigger cutils (codes "post-fs-data")
        (action_for_each_trigger cutils (codes "post-fs") fs)

  unfoldable pub queue_last_stage : Bool → Init cutils → Init cutils
  queue_last_stage is_charger s =
      if is_charger
      then action_for_each_trigger cutils (codes "charger") s
      else action_for_each_trigger cutils (codes "boot")
          (action_for_each_trigger cutils (codes "early-boot") s)

  -- The calls from early-init to the property triggers; `is_charger` is what the boot mode says, and
  -- `pause` whether the battery asks for the charger.
  unfoldable pub queue_actions : Bool → Bool → Bool → Init cutils → Init cutils
  unfolding queue_fs_actions queue_last_stage
  queue_actions emmc_boot is_charger pause s =
      let s1 = action_for_each_trigger cutils (codes "early-init") s in
      let s2 = queue_builtin_action cutils (codes "wait_for_coldboot_done") s1 in
      let s3 = queue_builtin_action cutils (codes "keychord_init") s2 in
      let s4 = queue_builtin_action cutils (codes "console_init") s3 in
      let s5 = action_for_each_trigger cutils (codes "init") s4 in
      let s6 = if is_charger then s5 else queue_fs_actions emmc_boot s5 in
      let s7 = queue_builtin_action cutils (codes "property_service_init") s6 in
      let s8 = queue_builtin_action cutils (codes "signal_init") s7 in
      let s9 = queue_builtin_action cutils (codes "check_startup") s8 in
      let s10 = queue_last_stage (if pause then true else is_charger) s9 in
      queue_builtin_action cutils (codes "queue_property_triggers") s10

  unfoldable pub queue_boot_actions : Vars → Init cutils → Init cutils
  unfolding queue_actions
  queue_boot_actions vars s =
      queue_actions vars.emmc_boot (str_eq vars.bootmode (codes "charger"))
        (str_eq vars.battchg_pause charging_value) s

-- A stage of the boot: the actions of the rc files with a trigger, or a function of init itself.
pub data Stage : Type 0 where
  trigger built_in : Bytes → Stage

-- The stages in their order, for a boot from an emmc, for one in which the boot loader asks for the
-- charger, and for one in which the battery does.
abbrev pub stages : Bool → Bool → Bool → List Stage
stages emmc_boot charger pause =
    trigger (codes "early-init")
    ∷ built_in (codes "wait_for_coldboot_done")
    ∷ built_in (codes "keychord_init")
    ∷ built_in (codes "console_init")
    ∷ trigger (codes "init")
    ∷ ((if charger
          then []
          else trigger (codes "early-fs")
            ∷ trigger (if emmc_boot then codes "emmc-fs" else codes "fs")
            ∷ trigger (codes "post-fs")
            ∷ trigger (codes "post-fs-data")
            ∷ [])
        ++ (built_in (codes "property_service_init")
            ∷ built_in (codes "signal_init")
            ∷ built_in (codes "check_startup")
            ∷ ((if charger || pause
                  then trigger (codes "charger") ∷ []
                  else trigger (codes "early-boot") ∷ trigger (codes "boot") ∷ [])
                ++ built_in (codes "queue_property_triggers") ∷ [])))

-- The commands of the actions that pass a test.
abbrev pub commands_where : (Action → Bool) → List Action → List Command
commands_where test [] = []
commands_where test (act ∷ actions) =
    let rest = commands_where test actions in if test act then act.commands ++ rest else rest

abbrev pub named : Bytes → Action → Bool
named t act = str_eq act.name t

abbrev pub stage_commands : List Action → Stage → List Command
stage_commands actions (trigger t) = commands_where (named t) actions
stage_commands actions (built_in n) = record { func = action_function n; args = [] } ∷ []

-- What the stages run, with the actions of the rc files.
abbrev pub all_stages : List Action → List Stage → List Command
all_stages actions [] = []
all_stages actions (st ∷ sts) = stage_commands actions st ++ all_stages actions sts

-- What the stages of a boot run.
abbrev pub boot_commands : Vars → List Action → List Command
boot_commands vars actions = all_stages actions (
    stages vars.emmc_boot (str_eq vars.bootmode (codes "charger"))
      (str_eq vars.battchg_pause charging_value))
