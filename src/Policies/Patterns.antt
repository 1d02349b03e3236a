-- ===== src/Policies/Patterns.antt =====
-- `match` of internal/policies/policies.go: an action or resource pattern against a value.
use harbor_shield.Prelude.{
  ◌≡◌, ◌↔◌, refl, Bool, true, [], ◌++◌, inl, inr, arith, if◌then◌else◌, Bool-cases, Text, codes,
  text_eq, text_eq_iff, text_eq_refl, has_prefix, has_prefix_sound, has_prefix-append, has_suffix,
  has_suffix-append, trim_suffix, trim_suffix-append, trim_suffix_sound,
}

abbrev pub star : Text
star = codes "*"

unfoldable pub match : Text → Text → Bool
match pattern value =
    if text_eq pattern star
    then true
    else if has_suffix pattern star
    then has_prefix value (trim_suffix pattern star)
    else text_eq pattern value

-- What a pattern stands for: itself, and if it ends in a star, whatever begins with its stem.
pub data Matches (pattern value : Text) : Type 0 where
  exact : pattern ≡ value → Matches pattern value
  wildcard :
      (stem rest : Text) → pattern ≡ stem ++ star → value ≡ stem ++ rest → Matches pattern value

suffix_sound :
    (p v : Text) → has_suffix p star ≡ true → has_prefix v (trim_suffix p star) ≡ true → Matches p v
suffix_sound p v h k =
    let (rest, e) = has_prefix_sound v (trim_suffix p star) k in
    wildcard (trim_suffix p star) rest (trim_suffix_sound p star h) e

match_sound : (p v : Text) → match p v ≡ true → Matches p v
unfolding match
match_sound p v h = elim (Bool-cases (text_eq p star)) [
  | inl all ↦ wildcard [] v ((text_eq_iff p star).0 all) refl
  | inr other ↦ elim (Bool-cases (has_suffix p star)) [
    | inl suffix ↦ suffix_sound p v suffix (ground arith)
    | inr literal ↦ exact ((text_eq_iff p v).0 (ground arith))
  ]
]

match-wildcard : (stem rest : Text) → match (stem ++ star) (stem ++ rest) ≡ true
unfolding match
match-wildcard stem rest =
    rw (has_suffix-append stem star, trim_suffix-append stem star, has_prefix-append stem rest)
      (ground arith)

match_self : (p : Text) → match p p ≡ true
unfolding match
match_self p = elim (Bool-cases (has_suffix p star)) [
  | inl suffix ↦ rw (trim_suffix_sound p star suffix) (match-wildcard (trim_suffix p star) star)
  | inr other ↦ ground (arith, text_eq_refl p)
]

match_complete : (p v : Text) → Matches p v → match p v ≡ true
match_complete p v (exact e) = rw (← e) (match_self p)
match_complete p v (wildcard stem rest e k) = rw (e, k) (match-wildcard stem rest)

-- A pattern matches exactly the values that it stands for: itself, and if it ends in a star, every
-- value that begins with what stands before the star.
pub match_iff : (p v : Text) → (match p v ≡ true) ↔ Matches p v
match_iff p v = (match_sound p v, match_complete p v)
