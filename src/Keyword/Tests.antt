-- ===== src/Keyword/Tests.antt =====
-- `lookup_keyword` at single words.
use asl.Base.{◌≡◌, ◌↔◌, refl}
use asl.Base.Text.{codes, str_eq}
use asl.Keyword.{k_unknown, k_class_start, lookup_keyword, kw_name}
use asl.Keyword.Lookup.{lookup_keyword_iff}

not_a_keyword : lookup_keyword (codes "classes") ≡ k_unknown
unfolding lookup_keyword str_eq
not_a_keyword = refl

lookup_keyword_iff_example :
    (lookup_keyword (codes "class_start") ≡ k_class_start)
    ↔ (codes "class_start" ≡ kw_name k_class_start)
lookup_keyword_iff_example = lookup_keyword_iff (codes "class_start") k_class_start (λ e. cc)
