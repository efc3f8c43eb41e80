-- ===== src/Props/Perms.antt =====
-- The white lists of property_service.c, `check_perms` and `check_control_perms`. The build adds no
-- rows (PROPERTY_PERMS_APPEND and CONTROL_PERMS_APPEND are not defined).
use asl.Base.{
  ◌≢◌, refl, ap, ◌∙◌, or_split, and_split, ℕ, ◌≡◌, ◌⊎◌, ◌↔◌, inl, inr, Bool, true, false, not, ◌&&◌,
  ◌||◌, List, [], ◌∷◌, ◌++◌, arith, ◌==◌, if◌then◌else◌, drop, Any, Bool-cases,
}
use asl.Base.Text.{Bytes, codes, str_eq, starts_with, starts_with→append, starts_with-append}

-- The user and group ids of private/android_filesystem_config.h.
pub record AndroidIds : Type 0 where
  pub aid_root : ℕ
  pub aid_system : ℕ
  pub aid_radio : ℕ
  pub aid_dhcp : ℕ
  pub aid_shell : ℕ
  pub aid_graphics : ℕ
  pub aid_log : ℕ

-- A row of `property_perms` or `control_perms`; the row with NULL is the end of the list.
pub record Perm : Type 0 where
  pub prefix : Bytes
  pub uid : ℕ
  pub gid : ℕ

abbrev perm : Bytes → ℕ → ℕ → Perm
perm p u g = record { prefix = p; uid = u; gid = g }

-- `(uid && row.uid == uid) || (gid && row.gid == gid)`
abbrev pub grants : Perm → ℕ → ℕ → Bool
grants row uid gid = (not (uid == 0) && row.uid == uid) || (not (gid == 0) && row.gid == gid)

-- The loop of `check_perms`.
unfoldable pub search_perms : List Perm → Bytes → ℕ → ℕ → Bool
search_perms [] name uid gid = false
search_perms (row ∷ rows) name uid gid =
    if starts_with row.prefix name && grants row uid gid
    then true
    else search_perms rows name uid gid

-- The loop of `check_control_perms`.
unfoldable pub search_control : List Perm → Bytes → ℕ → ℕ → Bool
search_control [] name uid gid = false
search_control (row ∷ rows) name uid gid =
    if str_eq row.prefix name && grants row uid gid then true else search_control rows name uid gid

-- `if(!strncmp(name, "ro.", 3)) name +=3;`
unfoldable pub skip_ro : Bytes → Bytes
skip_ro name = if starts_with (codes "ro.") name then drop 3 name else name

module _ (ids : AndroidIds) where
  open ids use {aid_root, aid_system, aid_radio, aid_dhcp, aid_shell, aid_graphics, aid_log}

  unfoldable pub property_perms : List Perm
  property_perms =
      perm (codes "net.rmnet") aid_radio 0
      ∷ perm (codes "net.gprs.") aid_radio 0
      ∷ perm (codes "net.ppp") aid_radio 0
      ∷ perm (codes "net.qmi") aid_radio 0
      ∷ perm (codes "net.lte") aid_radio 0
      ∷ perm (codes "net.cdma") aid_radio 0
      ∷ perm (codes "ril.") aid_radio 0
      ∷ perm (codes "gsm.") aid_radio 0
      ∷ perm (codes "persist.radio") aid_radio 0
      ∷ perm (codes "net.dns") aid_radio 0
      ∷ perm (codes "sys.usb.config") aid_radio 0
      ∷ perm (codes "net.") aid_system 0
      ∷ perm (codes "dev.") aid_system 0
      ∷ perm (codes "runtime.") aid_system 0
      ∷ perm (codes "hw.") aid_system 0
      ∷ perm (codes "sys.") aid_system 0
      ∷ perm (codes "service.") aid_system 0
      ∷ perm (codes "service.") aid_radio 0
      ∷ perm (codes "wlan.") aid_system 0
      ∷ perm (codes "dhcp.") aid_system 0
      ∷ perm (codes "dhcp.") aid_dhcp 0
      ∷ perm (codes "debug.") aid_system 0
      ∷ perm (codes "debug.") aid_shell 0
      ∷ perm (codes "log.") aid_shell 0
      ∷ perm (codes "service.adb.root") aid_shell 0
      ∷ perm (codes "service.adb.tcp.port") aid_shell 0
      ∷ perm (codes "persist.sys.") aid_system 0
      ∷ perm (codes "persist.service.") aid_system 0
      ∷ perm (codes "persist.service.") aid_radio 0
      ∷ perm (codes "persist.security.") aid_system 0
      ∷ perm (codes "net.pdp") aid_radio aid_radio
      ∷ perm (codes "service.bootanim.exit") aid_graphics 0
      ∷ []

  unfoldable pub control_perms : List Perm
  control_perms =
      perm (codes "dumpstate") aid_shell aid_log
      ∷ perm (codes "ril-daemon") aid_radio aid_radio
      ∷ []

  unfoldable pub check_control_perms : Bytes → ℕ → ℕ → Bool
  check_control_perms name uid gid =
      if uid == aid_system || uid == aid_root
      then true
      else search_control control_perms name uid gid

  unfoldable pub check_perms : Bytes → ℕ → ℕ → Bool
  check_perms name uid gid =
      if uid == 0 then true else search_perms property_perms (skip_ro name) uid gid

-- The row names the client's user or group, which is not root's.
abbrev pub NamesClient : ℕ → ℕ → Perm → Type 0
NamesClient uid gid row = ((uid ≢ 0) × (row.uid ≡ uid)) ⊎ ((gid ≢ 0) × (row.gid ≡ gid))

-- A row that grants the access.
abbrev pub Allows : ℕ → ℕ → Bytes → Perm → Type 0
Allows uid gid name row = ((r : Bytes) × (name ≡ row.prefix ++ r)) × NamesClient uid gid row

-- The name that is looked for: without a leading "ro.".
abbrev pub IsBare : Bytes → Bytes → Type 0
IsBare name bare =
    (name ≡ codes "ro." ++ bare) ⊎ ((starts_with (codes "ro.") name ≡ false) × (name ≡ bare))

skip_ro-IsBare : (name : Bytes) → IsBare name (skip_ro name)
unfolding skip_ro
skip_ro-IsBare name = elim (Bool-cases (starts_with (codes "ro.") name)) [
  | inl e ↦ let (r, eq) = starts_with→append (codes "ro.") name e in rw (e, eq) (inl refl)
  | inr e ↦ rw e (inr (refl, refl))
]

IsBare-skip_ro : (name bare : Bytes) → IsBare name bare → skip_ro name ≡ bare
unfolding skip_ro starts_with
IsBare-skip_ro name bare (inl e) = rw e refl
IsBare-skip_ro name bare (inr (f, e)) = rw f e

grants→NamesClient :
    (row : Perm) (uid gid : ℕ) → grants row uid gid ≡ true → NamesClient uid gid row
grants→NamesClient row uid gid h =
    elim (or_split (not (uid == 0) && row.uid == uid) (not (gid == 0) && row.gid == gid) h) [
      | inl e ↦ inl ((λ z. ground (arith, e, z)), ground (arith, e))
      | inr e ↦ inr ((λ z. ground (arith, e, z)), ground (arith, e))
    ]

NamesClient→grants :
    (row : Perm) (uid gid : ℕ) → NamesClient uid gid row → grants row uid gid ≡ true
NamesClient→grants row uid gid (inl (ne, e)) = ground (arith, ne, e)
NamesClient→grants row uid gid (inr (ne, e)) = ground (arith, ne, e)

search_perms→Any :
    (rows : List Perm) (name : Bytes) (uid gid : ℕ)
    → search_perms rows name uid gid ≡ true
    → Any (Allows uid gid name) rows
unfolding search_perms
search_perms→Any [] name uid gid h = cc
search_perms→Any (row ∷ rows) name uid gid h =
    elim (Bool-cases (starts_with row.prefix name && grants row uid gid)) [
      | inl e ↦
          let both = and_split (starts_with row.prefix name) (grants row uid gid) e in
          inl (starts_with→append row.prefix name both.0, grants→NamesClient row uid gid both.1)
      | inr e ↦ inr (search_perms→Any rows name uid gid (rw e at h))
    ]

Any→search_perms :
    (rows : List Perm) (name : Bytes) (uid gid : ℕ)
    → Any (Allows uid gid name) rows
    → search_perms rows name uid gid ≡ true
unfolding search_perms
Any→search_perms [] name uid gid h = absurd h
Any→search_perms (row ∷ rows) name uid gid (inl ((r, e), g)) =
    rw (e, starts_with-append row.prefix r, NamesClient→grants row uid gid g)
Any→search_perms (row ∷ rows) name uid gid (inr h) =
    ground (arith, Any→search_perms rows name uid gid h)

module _ (ids : AndroidIds) (name : Bytes) (uid gid : ℕ) where
  -- A client may set a property exactly when it is root, or when some row of the white list has a
  -- prefix of the name, less a leading "ro.", and names the client's user or group, root's apart.
  pub check_perms_iff : (check_perms ids name uid gid ≡ true) ↔ (
      (uid ≡ 0)
      ⊎ ((bare : Bytes) × IsBare name bare × Any (Allows uid gid bare) (property_perms ids)))
  unfolding check_perms
  check_perms_iff = (allowed, passes)
    where
      Listed : Type 0
      Listed = (bare : Bytes) × IsBare name bare × Any (Allows uid gid bare) (property_perms ids)

      allowed : check_perms ids name uid gid ≡ true → (uid ≡ 0) ⊎ Listed
      allowed h = elim (Bool-cases (uid == 0)) [
        | inl e ↦ inl (ground arith)
        | inr e ↦ inr (
          skip_ro name,
          skip_ro-IsBare name,
          search_perms→Any (property_perms ids) (skip_ro name) uid gid (rw e at h),
        )
      ]

      passes : (uid ≡ 0) ⊎ Listed → check_perms ids name uid gid ≡ true
      passes (inl e) = ground arith
      passes (inr (bare, is, a)) = ground (
        arith,
        ap (λ n. search_perms (property_perms ids) n uid gid) (IsBare-skip_ro name bare is)
            ∙ Any→search_perms (property_perms ids) bare uid gid a,
      )
