-- ===== src/Device/Tests.antt =====
-- Rules, events and messages, and the theorems of the device events at them.
use asl.Base.{
  inl, inr, ℕ, ◌≡◌, ◌≢◌, inr, refl, Bool, true, false, not, Option, none, some, List, [], ◌∷◌, ◌==◌,
  arith, all, all-All,
}
use asl.Base.Text.{Bytes, codes, str_eq, starts_with, split_at}
use asl.Number.{AndroidIdInfo}
use asl.Util.{split_at_last}
use asl.Util.Mtd.{scan_number}
use asl.Device.Firmware.{load_firmware, open_firmware}
use asl.Device.Firmware.Sent.{Part, load_firmware-parts}
use asl.Device.{Uevent, parse_event, parse_device_name, new_uevent}
use asl.Device.Rules.{Perms, Rules, get_device_perm}
use asl.Device.Rules.Override.{add_all, override_all, table_of, add_all-override}
use asl.Device.Platform.{find_platform_device}
use asl.Device.Platform.Outermost.{
  Change, added, removed, after, Outermost, find_platform_device-Outermost,
}
use asl.Device.Links.{get_character_device_symlinks}
use asl.Device.Node.{generic_place}
use asl.Device.Events.{handle_generic_device_event, handle_device_event}
use asl.Device.Events.Undo.{BothUndo, acts_of, with_action, handle_device_event-BothUndo}
use asl.Device.Message.{Texts, IsString, lines, message, event_of, parse_event-message}
use asl.Device.Lines.{get_android_id, octal, path_of, rule, set_device_permission}
use asl.Device.Lines.Decides.{line_decides}

abbrev rule_of : Bytes → ℕ → Bool → Perms
rule_of name perm prefix = record {
  name = name;
  attr = none;
  perm = perm;
  uid = 1000;
  gid = 1004;
  prefix = prefix;
}

abbrev no_rules : Rules
no_rules = record { sys_perms = []; dev_perms = [] }

abbrev two_rules : List Perms
two_rules =
    rule_of (codes "/dev/input/") 432 true ∷ rule_of (codes "/dev/input/mice") 438 false ∷ []

add_all-override_example :
    get_device_perm (codes "/dev/input/mice") (add_all two_rules no_rules).dev_perms
    ≡ override_all two_rules (table_of no_rules) (codes "/dev/input/mice")
add_all-override_example = add_all-override two_rules no_rules (codes "/dev/input/mice")

abbrev changes : List Change
changes =
    added (codes "msm_sdcc.1")
    ∷ added (codes "msm_sdcc.1/mmc_host")
    ∷ added (codes "msm_hsusb")
    ∷ removed (codes "msm_hsusb")
    ∷ []

find_platform_device-Outermost_example :
    Outermost
      (codes "msm_sdcc.1/mmc_host/mmc0")
      (after changes [])
      (find_platform_device (codes "msm_sdcc.1/mmc_host/mmc0") (after changes []))
find_platform_device-Outermost_example =
    find_platform_device-Outermost changes (codes "msm_sdcc.1/mmc_host/mmc0")

abbrev texts : Texts
texts = record {
  action = codes "add";
  path = codes "/devices/platform/msm_sdcc.1/mmcblk0p1";
  subsystem = codes "block";
  seqnum = codes "7";
  firmware = none;
  numbers = some (codes "179", codes "1");
  device_name = none;
  partition_num = some (codes "1");
  partition_name = some (codes "boot");
}

abbrev is_string : Bytes → Bool
is_string [] = false
is_string (c ∷ cs) = all (λ d. not (d == 0)) (c ∷ cs)

string : (s : Bytes) → is_string s ≡ true → IsString s
string [] h = absurd (cc h)
string (c ∷ cs) h =
    (λ e. cc e, all-All (λ d. not (d == 0)) (λ d. d ≢ 0) (λ d k e. ground (arith, k, e)) (c ∷ cs) h)

parse_event-message_example : parse_event (message (lines texts)) ≡ event_of texts
parse_event-message_example =
    parse_event-message texts b'a' (codes "dd") refl (omega arith)
      (all-All is_string IsString string (lines texts) refl)

abbrev usb_event : Uevent
usb_event = record new_uevent {
  action = codes "add";
  path = codes "/devices/platform/msm_hsusb/usb1/1-1/1-1:1.0/tty";
  subsystem = codes "misc";
  major = 10;
  minor = 3;
}

-- The message of a device that stands in /devices/platform itself.
abbrev shallow : Bytes
shallow = message (
    codes "add@/devices/platform/kgsl"
    ∷ codes "ACTION=add"
    ∷ codes "DEVPATH=/devices/platform/kgsl"
    ∷ codes "SUBSYSTEM=misc"
    ∷ codes "MAJOR=10"
    ∷ codes "MINOR=3"
    ∷ [])

-- The event of a device that stands in /devices/platform itself: a null pointer is read.
shallow_event :
    handle_device_event (record usb_event { path = codes "/devices/platform/kgsl" }) no_rules []
    ≡ none
unfolding handle_device_event parse_device_name get_character_device_symlinks starts_with str_eq
    split_at generic_place split_at_last handle_generic_device_event
shallow_event = refl

handle_device_event-BothUndo_example :
    BothUndo
      (acts_of (handle_device_event (with_action (codes "remove") usb_event) no_rules []))
      (acts_of (handle_device_event (with_action (codes "add") usb_event) no_rules []))
handle_device_event-BothUndo_example = handle_device_event-BothUndo usb_event no_rules []

abbrev root : AndroidIdInfo
root = record { name = codes "root"; aid = 0 }

abbrev input : AndroidIdInfo
input = record { name = codes "input"; aid = 1004 }

abbrev android_ids : List AndroidIdInfo
android_ids = root ∷ input ∷ []

abbrev no_mtd : Bytes → Option ℕ
no_mtd name = none

-- A user that is not in the table.
line_decides_example :
    (rules' : Rules) × (set_device_permission android_ids no_mtd
        (codes "/dev/input/*" ∷ codes "0660" ∷ codes "nobody" ∷ codes "input" ∷ [])
        no_rules
      ≡ some rules')
    × (get_device_perm (codes "/dev/input/mice") rules'.dev_perms
        ≡ record { perm = 432; uid = 0; gid = 1004 })
unfolding octal scan_number starts_with
line_decides_example =
    line_decides android_ids no_mtd (codes "/dev/input/") b'*' (codes "0660") (codes "nobody")
      (codes "input") (codes "/dev/input/mice") 0 1004 no_rules refl refl
      (inr (((λ e. cc e), ((λ e. cc e), tt)), refl))
      (inl (root ∷ [], input, [], refl, ((λ e. cc e), tt), refl, refl)) (omega arith) (omega arith)

-- The group and the user of a name that is not in the table.
unknown_is_root : get_android_id android_ids (codes "nobody") ≡ 0
unfolding get_android_id str_eq
unknown_is_root = refl

-- A rule for a partition that is not there.
unknown_partition :
    set_device_permission android_ids no_mtd
      (codes "mtd@user" ∷ codes "0660" ∷ codes "root" ∷ codes "root" ∷ [])
      no_rules
    ≡ none
unfolding set_device_permission path_of octal get_android_id scan_number starts_with str_eq rule
unknown_partition = refl

-- The second chunk is taken in two writes, so its first byte is sent again in place of its last.
abbrev firmware : List Part
firmware = (1 ∷ 2 ∷ 3 ∷ 4 ∷ [], 4 ∷ []) ∷ (5 ∷ 6 ∷ 7 ∷ [], 2 ∷ 1 ∷ []) ∷ []

load_firmware-parts_example :
    load_firmware
      (some 7)
      (some (1 ∷ 2 ∷ 3 ∷ 4 ∷ []) ∷ some (5 ∷ 6 ∷ 7 ∷ []) ∷ [])
      (some 4 ∷ some 2 ∷ some 1 ∷ [])
    ≡ some (record {
      loading = codes "1" ∷ codes "0" ∷ [];
      sent = 1 ∷ 2 ∷ 3 ∷ 4 ∷ 5 ∷ 6 ∷ 5 ∷ [];
      ret = true;
    })
load_firmware-parts_example = load_firmware-parts firmware (
  (omega arith, (omega arith, tt), refl),
  ((omega arith, (omega arith, (omega arith, tt)), refl), tt),
)

-- The file is there at the second turn, while the system boots.
late_firmware :
    open_firmware (codes "x.bin") true (
      record { file1 = false; file2 = false; still_booting = true }
      ∷ record { file1 = false; file2 = true; still_booting = true }
      ∷ [])
    ≡ some (some (codes "/vendor/firmware/x.bin"))
unfolding open_firmware
late_firmware = refl
