-- ===== src/Queue/Tests.antt =====
-- Queues that are lists, and the theorems at them.
use asl.Base.{
  ℕ, arith, ◌≡◌, ◌↔◌, ◌≤◌, refl, true, Option, none, some, List, [], ◌∷◌, ◌++◌, length, ap,
  if◌then◌else◌,
}
use asl.Base.Text.{Bytes, codes, str_eq}
use asl.Keyword.{k_start}
use asl.Service.{Command, builtin}
use asl.Parser.{Action}
use asl.Queue.{Cutils, Init, execute_one_command, action_add_queue_tail}
use asl.Queue.Triggers.{triggered_by, triggered_now}
use asl.Queue.Order.{
  Turn, enqueue, execute, run_turns, Apart, pending, all_commands, enqueued, run_turns_in_order,
}
use asl.Queue.Drain
use asl.Queue.Drain.{turns-drain}
use asl.Queue.Match.{IsName, triggered_now_iff}

abbrev tail : List ℕ → List ℕ
tail [] = []
tail (i ∷ is) = is

abbrev pub cutils : Cutils
cutils = record {
  Ring = List ℕ;
  items = λ ring. ring;
  list_add_tail = λ i ring. ring ++ i ∷ [];
  list_remove = tail;
  items-add_tail = λ i ring apart. refl;
  items-remove = λ i is ring e. ap tail e;
}

abbrev start_of : Bytes → Command
start_of svc = record { func = builtin k_start; args = codes "start" ∷ svc ∷ [] }

abbrev usb : Action
usb = record {
  name = codes "property:sys.usb.config=adb";
  commands = start_of (codes "adbd") ∷ start_of (codes "mtpd") ∷ [];
}

abbrev boot : Action
boot = record { name = codes "boot"; commands = start_of (codes "vold") ∷ [] }

abbrev pub init : Init cutils
init = record {
  action_list = boot ∷ usb ∷ [];
  action_queue = [];
  cur_action = none;
  cur_command = none;
}

abbrev turns : List Turn
turns = enqueue 1 ∷ execute ∷ enqueue 0 ∷ execute ∷ execute ∷ []

run_turns_in_order_example :
    (run_turns cutils turns init).1 ++ pending cutils (run_turns cutils turns init).0
    ≡ pending cutils init ++ all_commands cutils init.action_list (enqueued cutils turns)
run_turns_in_order_example = run_turns_in_order cutils turns init apart
  where
    apart : Apart cutils turns init
    apart = unfold execute_one_command action_add_queue_tail in (tt, (tt, tt))

abbrev property_get : Bytes → Option Bytes
property_get name = if str_eq name (codes "sys.usb.config") then some (codes "adb") else none

triggered_now_iff_example : (triggered_now 32 property_get usb ≡ true) ↔ (
    (name : Bytes) × (value : Bytes) × (length name ≤ 32)
    × IsName name
    × (property_get name ≡ some value)
    × (triggered_by name value usb ≡ true))
triggered_now_iff_example = triggered_now_iff 32 property_get usb

abbrev waiting : Init cutils
waiting = record {
  action_list = boot ∷ usb ∷ [];
  action_queue = 0 ∷ [];
  cur_action = some 1;
  cur_command = some 0;
}

turns-drain_example :
    ((run_turns cutils (Drain.turns 3) waiting).1 ≡ pending cutils waiting)
    × (pending cutils (run_turns cutils (Drain.turns 3) waiting).0 ≡ [])
turns-drain_example = turns-drain cutils 3 waiting (omega arith) (omega arith)
