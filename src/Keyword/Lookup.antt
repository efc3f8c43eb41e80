-- ===== src/Keyword/Lookup.antt =====
-- `lookup_keyword` is the inverse of the table of names.
use asl.Base.{
  ℕ, ◌≡◌, ◌≢◌, ◌⊎◌, inl, inr, ◌↔◌, refl, sym, subst, ◌∙◌, ap, [], ◌∷◌, ◌==◌, arith, All, ==_iff,
  Bool-cases, if◌then◌else◌,
}
use asl.Base.Text.{Bytes, str_eq, str_eq→eq}
use asl.Keyword.{
  Keyword, Case, kw_name, keyword_info, first_match, cases, lookup_keyword, k_unknown, case_c,
  case_d, case_e, case_g, case_h, case_i, case_k, case_l, case_m, case_o, case_r, case_s, case_t,
  case_u, case_w,
}

abbrev Names : ℕ → Bytes × Keyword → Type 0
Names c row = c ∷ row.0 ≡ kw_name row.1

-- A row that is found names its keyword.
first_match-Names :
    (c : ℕ) (s : Bytes) (rows : Case)
    → All (Names c) rows
    → (first_match s rows ≡ k_unknown) ⊎ (c ∷ s ≡ kw_name (first_match s rows))
unfolding first_match
first_match-Names c s [] h = inl refl
first_match-Names c s ((tail, kw) ∷ more) (here, there) = elim (Bool-cases (str_eq s tail)) [
  | inl e ↦ rw e (inr (ap (◌∷◌ c) (str_eq→eq s tail e) ∙ here))
  | inr e ↦ rw e (first_match-Names c s more there)
]

case-Names :
    (c letter : ℕ) (rows rest : Case)
    → All (Names letter) rows
    → All (Names c) rest
    → All (Names c) (if c == letter then rows else rest)
case-Names c letter rows rest h k = elim (Bool-cases (c == letter)) [
  | inl e ↦ rw e (subst (λ x. All (Names x) rows) (sym ((==_iff c letter).0 e)) h)
  | inr e ↦ rw e k
]

cases-Names : (c : ℕ) → All (Names c) (cases c)
unfolding cases keyword_info
cases-Names c = case-Names c b'c' case_c _ (ground arith) (
    case-Names c b'd' case_d _ (ground arith) (
      case-Names c b'e' case_e _ (ground arith) (
        case-Names c b'g' case_g _ (ground arith) (
          case-Names c b'h' case_h _ (ground arith) (
            case-Names c b'i' case_i _ (ground arith) (
              case-Names c b'k' case_k _ (ground arith) (
                case-Names c b'l' case_l _ (ground arith) (
                  case-Names c b'm' case_m _ (ground arith) (
                    case-Names c b'o' case_o _ (ground arith) (
                      case-Names c b'r' case_r _ (ground arith) (
                        case-Names c b's' case_s _ (ground arith) (
                          case-Names c b't' case_t _ (ground arith) (
                            case-Names c b'u' case_u _ (ground arith)
                              (case-Names c b'w' case_w _ (ground arith) (tt)))))))))))))))

-- `lookup_keyword` answers K_UNKNOWN, or the keyword whose name it was given.
lookup_keyword-name :
    (s : Bytes) → (lookup_keyword s ≡ k_unknown) ⊎ (s ≡ kw_name (lookup_keyword s))
unfolding lookup_keyword
lookup_keyword-name [] = inl refl
lookup_keyword-name (c ∷ s) = first_match-Names c s (cases c) (cases-Names c)

lookup_keyword-kw_name : (kw : Keyword) → lookup_keyword (kw_name kw) ≡ kw
unfolding lookup_keyword keyword_info str_eq
lookup_keyword-kw_name k_unknown = refl
lookup_keyword-kw_name _ = refl

-- A string is looked up as a keyword other than K_UNKNOWN exactly when it is that keyword's name
-- in the table.
pub lookup_keyword_iff :
    (s : Bytes) (kw : Keyword) → kw ≢ k_unknown → (lookup_keyword s ≡ kw) ↔ (s ≡ kw_name kw)
lookup_keyword_iff s kw known = (found, λ e. rw e (lookup_keyword-kw_name kw))
  where
    found : lookup_keyword s ≡ kw → s ≡ kw_name kw
    found e = elim (lookup_keyword-name s) [
      | inl u ↦ absurd (known (sym e ∙ u))
      | inr n ↦ rw e at n
    ]
