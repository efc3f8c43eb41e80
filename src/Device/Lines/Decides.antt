-- ===== src/Device/Lines/Decides.antt =====
-- What a line of ueventd.rc decides, and the end of the loop over the lines.
use asl.Base.{
  ◌≢◌, ◌⊎◌, ◌^◌, ◌++◌, All, sym, ap, ◌∙◌, subst, if_elim, ℕ, zero, suc, ◌+◌, ◌<◌, ◌≡◌, refl, Bool,
  Bool-cases, false, Option, none, some, List, [], ◌∷◌, arith, if◌then◌else◌, length, inl, inr,
  ◌==◌,
}
use asl.Base.Text.{Bytes, codes, str_eq, str_eq→eq, str_eq_refl, starts_with}
use asl.Token.{eof, ParseState, next_token}
use asl.Token.Progress.{left, next_token-left}
use asl.Parser.Finish.{Token-cases}
use asl.Number.{AndroidIdInfo}
use asl.Device.{is_negative}
use asl.Device.Rules.{Perms, Rules, name_matches, get_device_perm}
use asl.Device.Rules.Override.{add_all-override, add_all}
use asl.Device.Lines.{
  get_android_id, octal, path_of, without_star, add_rule, rule, set_device_permission, add_word,
  parse_device_lines, ueventd_parse_config_file,
}

-- The id of a name: that of the first row with the name, and 0 where the table does not have it.
abbrev pub HasId : List AndroidIdInfo → Bytes → ℕ → Type 0
HasId infos id aid =
    ((front : List AndroidIdInfo) × (info : AndroidIdInfo) × (rest : List AndroidIdInfo) × (infos
        ≡ front ++ info ∷ rest)
      × All (λ row. row.name ≢ id) front
      × (info.name ≡ id)
      × (info.aid ≡ aid))
    ⊎ (All (λ row. row.name ≢ id) infos × (aid ≡ 0))

get_android_id-other :
    (info : AndroidIdInfo) (infos : List AndroidIdInfo) (id : Bytes)
    → info.name ≢ id
    → get_android_id (info ∷ infos) id ≡ get_android_id infos id
unfolding get_android_id
get_android_id-other info infos id ne =
    if_elim (λ (n : ℕ). n ≡ get_android_id infos id) (str_eq id info.name) _ _
      (λ e. absurd (ne (sym (str_eq→eq id info.name e)))) (λ e. refl)

get_android_id-front :
    (front : List AndroidIdInfo) (info : AndroidIdInfo) (rest : List AndroidIdInfo)
    → All (λ row. row.name ≢ info.name) front
    → get_android_id (front ++ info ∷ rest) info.name ≡ info.aid
unfolding get_android_id
get_android_id-front [] info rest h = rw (str_eq_refl info.name) refl
get_android_id-front (row ∷ front) info rest h =
    get_android_id-other row (front ++ info ∷ rest) info.name h.0
    ∙ get_android_id-front front info rest h.1

get_android_id-absent :
    (infos : List AndroidIdInfo) (id : Bytes)
    → All (λ row. row.name ≢ id) infos
    → get_android_id infos id ≡ 0
unfolding get_android_id
get_android_id-absent [] id h = refl
get_android_id-absent (info ∷ infos) id h =
    get_android_id-other info infos id h.0 ∙ get_android_id-absent infos id h.1

HasId-get_android_id :
    (infos : List AndroidIdInfo) (id : Bytes) (aid : ℕ)
    → HasId infos id aid
    → get_android_id infos id ≡ aid
HasId-get_android_id infos id aid (inl (front, info, rest, split, others, named, is)) =
    rw (split, ← named, ← is)
      (get_android_id-front front info rest
        (subst (λ (n : Bytes). All (λ row. row.name ≢ n) front) (sym named) others))
HasId-get_android_id infos id aid (inr (others, is)) =
    get_android_id-absent infos id others ∙ sym is

-- The name that a word stands for: without the star, if the star is its last byte.
abbrev pub named_by : Bytes → ℕ → Bytes
named_by front last = if last == b'*' then front else front ++ last ∷ []

named_by-byte :
    (c : ℕ) (front : Bytes) (last : ℕ) → c ∷ named_by front last ≡ named_by (c ∷ front) last
named_by-byte c front last =
    if_elim (λ (n : Bytes). c ∷ named_by front last ≡ n) (last == b'*') _ _ (λ e. rw e refl)
      (λ e. rw e refl)

without_star-named :
    (front : Bytes) (last : ℕ)
    → ((without_star (front ++ last ∷ [])).0 ≡ named_by front last)
      × ((without_star (front ++ last ∷ [])).1 ≡ (last == b'*'))
unfolding without_star
without_star-named [] last = elim (Bool-cases (last == b'*')) [
  | inl e ↦ rw e (refl, refl)
  | inr e ↦ rw e (refl, refl)
]
without_star-named (c ∷ []) last =
    let (h, k) = without_star-named [] last in (ap (λ n. c ∷ n) h ∙ named_by-byte c [] last, k)
without_star-named (c ∷ d ∷ front) last =
    let (h, k) = without_star-named (d ∷ front) last in
    (ap (λ n. c ∷ n) h ∙ named_by-byte c (d ∷ front) last, k)

without_star_pair :
    (front : Bytes) (last : ℕ)
    → ◌≡◌ {A = Bytes × Bool} (without_star (front ++ last ∷ [])) (named_by front last, last == b'*')
without_star_pair front last i =
    ((without_star-named front last).0 i, (without_star-named front last).1 i)

module _ (android_ids : List AndroidIdInfo) (mtd_name_to_number : Bytes → Option ℕ) where
  -- A word that does not begin with mtd@.
  path_of-word :
      (front : Bytes) (last : ℕ)
      → starts_with (codes "mtd@") (front ++ last ∷ []) ≡ false
      → path_of android_ids mtd_name_to_number (front ++ last ∷ [])
        ≡ some (named_by front last, last == b'*')
  unfolding path_of
  path_of-word [] last plain = rw plain (ap some (without_star_pair [] last))
  path_of-word (c ∷ front) last plain = rw plain (ap some (without_star_pair (c ∷ front) last))

  four_words :
      (front : Bytes) (last : ℕ) (mode user group : Bytes) (rules : Rules)
      → starts_with (codes "#") (front ++ last ∷ []) ≡ false
      → set_device_permission android_ids mtd_name_to_number
          ((front ++ last ∷ []) ∷ mode ∷ user ∷ group ∷ [])
          rules
        ≡ add_rule android_ids mtd_name_to_number
            (path_of android_ids mtd_name_to_number (front ++ last ∷ []))
            none
            (octal mode)
            (get_android_id android_ids user)
            (get_android_id android_ids group)
            rules
  unfolding set_device_permission rule starts_with
  four_words [] last mode user group rules h =
      let other : (last == b'#') ≡ false = ground (arith, h) in rw other refl
  four_words (c ∷ front) last mode user group rules h =
      let other : (c == b'#') ≡ false = ground (arith, h) in rw other refl

  -- A line of four words that is no comment and whose first word is no mtd@ name: if the mode is a
  -- number in base 8, the line decides the mode and the owner of the nodes that its first word names, a
  -- star at the end standing for any rest, and of no others; if the mode is no number, it changes
  -- nothing. The owner has the ids of the user and the group, of which one that the table does not
  -- have is root's; ids of 2 ^ 31 or more are excluded.
  pub line_decides :
      (front : Bytes) (last : ℕ) (mode user group path : Bytes) (uid gid : ℕ) (rules : Rules)
      → starts_with (codes "#") (front ++ last ∷ []) ≡ false
      → starts_with (codes "mtd@") (front ++ last ∷ []) ≡ false
      → HasId android_ids user uid
      → HasId android_ids group gid
      → uid < 2 ^ 31
      → gid < 2 ^ 31
      → (rules' : Rules) × (set_device_permission android_ids mtd_name_to_number
            ((front ++ last ∷ []) ∷ mode ∷ user ∷ group ∷ [])
            rules
          ≡ some rules')
        × (get_device_perm path rules'.dev_perms ≡ (elim (octal mode) [
          | none ↦ get_device_perm path rules.dev_perms
          | some perm ↦
              if name_matches (last == b'*') (named_by front last) path
              then record { perm = perm; uid = uid; gid = gid }
              else get_device_perm path rules.dev_perms
        ]))
  unfolding add_rule
  line_decides front last mode user group path uid gid rules comment plain u g small small' =
      rw
        (
          four_words front last mode user group rules comment,
          path_of-word front last plain,
          HasId-get_android_id android_ids user uid u,
          HasId-get_android_id android_ids group gid g,
        )
        (decided (octal mode))
    where
      dp : ℕ → Perms
      dp perm = record {
        name = named_by front last;
        attr = none;
        perm = perm;
        uid = uid;
        gid = gid;
        prefix = last == b'*';
      }

      positive : is_negative uid ≡ false
      positive = ground (arith, small)

      positive' : is_negative gid ≡ false
      positive' = ground (arith, small')

      decided :
          (perm : Option ℕ)
          → (rules' : Rules) × (add_rule android_ids mtd_name_to_number
                (some (named_by front last, last == b'*'))
                none
                perm
                uid
                gid
                rules
              ≡ some rules')
            × (get_device_perm path rules'.dev_perms ≡ (elim perm [
              | none ↦ get_device_perm path rules.dev_perms
              | some perm ↦
                  if name_matches (last == b'*') (named_by front last) path
                  then record { perm = perm; uid = uid; gid = gid }
                  else get_device_perm path rules.dev_perms
            ]))
      decided none = (rules, refl, refl)
      decided (some perm) =
          rw (positive, positive')
            (add_all (dp perm ∷ []) rules, refl, add_all-override (dp perm ∷ []) rules path)

  abbrev Ends {ℓ} : {A : Type ℓ} → Option A → Type ℓ
  Ends {A = A} o = (a : A) × (o ≡ some a)

  parse_device_lines-Ends :
      (fuel : ℕ) (state : ParseState) (args : List Bytes) (rules : Rules)
      → left state < fuel
      → Ends (parse_device_lines android_ids mtd_name_to_number fuel state args rules)
  unfolding parse_device_lines
  parse_device_lines-Ends zero state args rules few = absurd (omega arith)
  parse_device_lines-Ends (suc fuel) state args rules few =
      elim (Token-cases (next_token state).0) [
        | inl q ↦ rw (q, parse_device_lines) (some rules, refl)
        | inr (more, k) ↦
            let again : (args : List Bytes) (rules : Rules)
                → Ends (
                    parse_device_lines android_ids mtd_name_to_number fuel (next_token state).1 args
                      rules) =
              λ args rules.
                parse_device_lines-Ends fuel (next_token state).1 args rules
                  (omega (arith, few, next_token-left state more)) in
            elim k [
              | inl q ↦
                  rw (q, parse_device_lines) (again (add_word (next_token state).1.word args) rules)
              | inr q ↦
                  rw (q, parse_device_lines)
                    (behind (set_device_permission android_ids mtd_name_to_number args rules)
                      (again []))
            ]
      ]
    where
      behind :
          (o : Option Rules)
          → ((r : Rules)
              → Ends (
                  parse_device_lines android_ids mtd_name_to_number fuel (next_token state).1 [] r))
          → Ends (elim o [
            | none ↦ some none
            | some r ↦
                parse_device_lines android_ids mtd_name_to_number fuel (next_token state).1 [] r
          ])
      behind none again = (none, refl)
      behind (some r) again = again r

  -- Whatever ueventd.rc holds, the loop over its lines comes to an end, on fuel of one more than its
  -- bytes.
  pub ueventd_parse_config_file-Ends :
      (file : Option Bytes) (rules : Rules)
      → (result : Option Rules) × (ueventd_parse_config_file android_ids mtd_name_to_number file
            rules
          ≡ some result)
  unfolding ueventd_parse_config_file
  ueventd_parse_config_file-Ends none rules = (some rules, refl)
  ueventd_parse_config_file-Ends (some content) rules =
      parse_device_lines-Ends (length content + 1)
        (record { ptr = content; word = []; line = 1; nexttoken = eof }) [] rules (omega arith)
