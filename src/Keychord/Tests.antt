-- ===== src/Keychord/Tests.antt =====
-- A service with a key chord behind one without, and the theorem at them.
use asl.Base.{[], ◌∷◌}
use asl.Base.Text.{codes}
use asl.Service.{Service}
use asl.Parser.{new_service}

abbrev plain : Service
plain = new_service (codes "vold") (codes "/system/bin/vold" ∷ [])

abbrev bugreport : Service
bugreport = record (new_service (codes "bugreport") (codes "/system/bin/dumpstate" ∷ [])) {
  keycodes = 114 ∷ 115 ∷ 116 ∷ [];
}

abbrev numbered : Service
numbered = record bugreport { keychord_id = 1 }
