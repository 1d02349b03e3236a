-- ===== src/BucketPolicy/NormalForm.antt =====
-- What normalizeBucketPolicy leaves of a document.
use mathlib.Core.Path.{subst}
use harbor_shield.Prelude.{
  ◌≡◌, refl, sym, ◌∙◌, Bool, true, false, not, ◌&&◌, Option, none, some, List, [], ◌∷◌, ◌++◌, arith,
  Text, text_eq, text_eq_iff, trim_space, is_empty, All, if◌then◌else◌,
}
use harbor_shield.Db.Errors.{Result, ok, err, then_result}
use harbor_shield.BucketPolicy.Json.{Json, as_map}
use harbor_shield.BucketPolicy.Documents.{
  BucketPolicyStatement, BucketPolicyDocument, BucketPolicyCondition,
  NormalizedBucketPolicyStatement, NormalizedBucketPolicyDocument, nonempty, is_operator,
  normalize_entries, normalize_operators, normalize_bucket_policy_conditions, entries_of,
  decode_operators, normalize_effect, is_effect, normalize_string_or_list,
  normalize_bucket_policy_principal, normalize_bucket_policy_statement, normalize_statements,
  policy_version, normalize_parsed, normalize_bucket_policy,
}

-- A condition that the evaluation knows.
pub record IsCondition (c : BucketPolicyCondition) : Type 0 where
  pub operator : is_operator c.operator ≡ true
  pub values : is_empty c.values ≡ false

-- A statement that the evaluation knows: allow or deny; principals or excluded principals, not both;
-- actions and resources; known conditions.
pub record IsNormal (s : NormalizedBucketPolicyStatement) : Type 0 where
  pub effect : is_effect s.effect ≡ true
  pub one_principal : is_empty s.principals ≡ not (is_empty s.not_principals)
  pub actions : is_empty s.actions ≡ false
  pub resources : is_empty s.resources ≡ false
  pub conditions : All IsCondition s.conditions

-- A value that is returned is `P`.
abbrev pub Okay {ℓ} : {A : Type ℓ} → (A → Type 0) → Result A → Type 0
Okay P (ok a) = P a
Okay P (err e) = Unit

Okay-then {ℓ} :
    {A B : Type ℓ} (Q : A → Type 0) (P : B → Type 0) (r : Result A) (f : A → Result B)
    → Okay Q r
    → ((a : A) → Q a → Okay P (f a))
    → Okay P (then_result r f)
Okay-then Q P (ok a) f h k = k a h
Okay-then Q P (err e) f h k = tt

Okay-if {ℓ} :
    {A : Type ℓ} (P : A → Type 0) (b : Bool) (r s : Result A)
    → (b ≡ true → Okay P r)
    → (b ≡ false → Okay P s)
    → Okay P (if b then r else s)
Okay-if P true r s h k = h refl
Okay-if P false r s h k = k refl

-- What is returned, whatever the first result is.
Okay-after {ℓ} :
    {A B : Type ℓ} (P : B → Type 0) (r : Result A) (f : A → Result B)
    → ((a : A) → Okay P (f a))
    → Okay P (then_result r f)
Okay-after P (ok a) f k = k a
Okay-after P (err e) f k = tt

Okay-eq {ℓ} : {A : Type ℓ} (P : A → Type 0) (r : Result A) (a : A) → Okay P r → r ≡ ok a → P a
Okay-eq P (ok b) a h e = let same : b ≡ a = cc in subst P same h
Okay-eq P (err b) a h e = absurd (cc)

Okay-with_eq :
    {A : Type 0} (P : A → Type 0) (r : Result A) → Okay P r → Okay (λ a. P a × (r ≡ ok a)) r
Okay-with_eq P (ok a) h = (h, refl)
Okay-with_eq P (err e) h = tt

IsFilled : List Text → Type 0
IsFilled vs = is_empty vs ≡ false

nonempty-IsFilled : (r : Result (List Text)) → Okay IsFilled (nonempty r)
unfolding nonempty IsFilled
nonempty-IsFilled (ok []) = tt
nonempty-IsFilled (ok (v ∷ vs)) = refl
nonempty-IsFilled (err e) = tt

All-append :
    (xs ys : List BucketPolicyCondition)
    → All IsCondition xs
    → All IsCondition ys
    → All IsCondition (xs ++ ys)
All-append [] ys h k = k
All-append (x ∷ xs) ys h k = (h.0, All-append xs ys h.1 k)

normalize_entries-All :
    (operator : Text) (entries : List (Text × Json))
    → is_operator operator ≡ true
    → Okay (All IsCondition) (normalize_entries operator entries)
unfolding normalize_entries IsFilled
normalize_entries-All operator [] known = tt
normalize_entries-All operator ((key, raw) ∷ entries) known =
    Okay-then IsFilled (All IsCondition) _ _
      (nonempty-IsFilled (normalize_string_or_list (some raw)))
      λ values filled.
        Okay-then (All IsCondition) (All IsCondition) _ _
          (normalize_entries-All operator entries known)
          λ out h. (record { operator = known; values = filled }, h)

normalize_operators-All :
    (operators : List (Text × List (Text × Json)))
    → Okay (All IsCondition) (normalize_operators operators)
unfolding normalize_operators
normalize_operators-All [] = tt
normalize_operators-All ((operator, entries) ∷ rest) =
    Okay-if (All IsCondition) (is_operator operator) _ _
      (λ known.
        Okay-then (All IsCondition) (All IsCondition) _ _
          (normalize_entries-All operator entries known)
          λ here h.
            Okay-then (All IsCondition) (All IsCondition) _ _ (normalize_operators-All rest)
              λ out k. All-append here out h k)
      (λ unknown. tt)

conditions-All :
    (raw : Option Json) → Okay (All IsCondition) (normalize_bucket_policy_conditions raw)
unfolding normalize_bucket_policy_conditions
conditions-All none = tt
conditions-All (some raw) =
    Okay-after (All IsCondition) (entries_of (as_map raw)) _ λ operators.
      Okay-after (All IsCondition) (decode_operators operators) _ normalize_operators-All

statement-IsNormal :
    (s : BucketPolicyStatement) → Okay IsNormal (normalize_bucket_policy_statement s)
unfolding normalize_bucket_policy_statement IsFilled
statement-IsNormal s =
    Okay-if IsNormal (not (is_effect (normalize_effect s.effect))) _ _ (λ _. tt)
      λ known. Okay-after IsNormal (normalize_bucket_policy_principal s.principal) _ λ principals.
        Okay-after IsNormal (normalize_bucket_policy_principal s.not_principal) _ λ excluded.
          Okay-if IsNormal (is_empty principals && is_empty excluded) _ _ (λ _. tt)
            λ some_one.
              Okay-if IsNormal (not (is_empty principals) && not (is_empty excluded)) _ _ (λ _. tt)
                λ not_both. Okay-then IsFilled IsNormal _ _ (nonempty-IsFilled _) λ actions filled.
                  Okay-then IsFilled IsNormal _ _ (nonempty-IsFilled _) λ resources filled'.
                    Okay-then (All IsCondition) IsNormal _ _ (conditions-All s.condition)
                      λ conditions h. record {
                        effect = ground (arith, known);
                        one_principal = ground (arith, some_one, not_both);
                        actions = filled;
                        resources = filled';
                        conditions = h;
                      }

abbrev IsNormalList : List BucketPolicyStatement → List NormalizedBucketPolicyStatement → Type 0
IsNormalList ss out = All IsNormal out × (is_empty out ≡ is_empty ss)

statements-IsNormalList :
    (ss : List BucketPolicyStatement) → Okay (IsNormalList ss) (normalize_statements ss)
unfolding normalize_statements
statements-IsNormalList [] = (tt, refl)
statements-IsNormalList (s ∷ ss) =
    Okay-then IsNormal (IsNormalList (s ∷ ss)) _ _ (statement-IsNormal s) λ next h.
      Okay-then (IsNormalList ss) (IsNormalList (s ∷ ss)) _ _ (statements-IsNormalList ss)
        λ out k. ((h, k.0), refl)

-- What is returned: a normal form of known statements, and a document that has the same one.
unfoldable pub IsNormalized : NormalizedBucketPolicyDocument × BucketPolicyDocument → Type 0
IsNormalized (n, c) =
    All IsNormal n.statement
    × (is_empty n.statement ≡ false)
    × (normalize_bucket_policy (some c) ≡ ok (n, c))

version_filled : text_eq (trim_space policy_version) [] ≡ false
unfolding text_eq trim_space
version_filled = refl

normalize_parsed_of_version :
    (d : BucketPolicyDocument) (ss : List NormalizedBucketPolicyStatement)
    → text_eq d.version policy_version ≡ true
    → is_empty d.statement ≡ false
    → normalize_statements d.statement ≡ ok ss
    → normalize_parsed d ≡ ok (record { version = d.version; id = d.id; statement = ss }, d)
unfolding normalize_parsed
normalize_parsed_of_version d ss v filled h =
    let same : d.version ≡ policy_version = (text_eq_iff d.version policy_version).0 v in
    let spaced : text_eq (trim_space d.version) [] ≡ false =
      subst (λ x. text_eq (trim_space x) [] ≡ false) (sym same) version_filled in
    rw (spaced, v, filled, h)

version_or_default : BucketPolicyDocument → Text
version_or_default d = if text_eq (trim_space d.version) [] then policy_version else d.version

parsed-IsNormalized : (d : BucketPolicyDocument) → Okay IsNormalized (normalize_parsed d)
unfolding normalize_parsed normalize_bucket_policy IsNormalized version_or_default
parsed-IsNormalized d =
    let v = version_or_default d in
    Okay-if IsNormalized (not (text_eq v policy_version)) _ _ (λ _. tt)
      λ known.
        Okay-if IsNormalized (is_empty d.statement) _ _ (λ _. tt)
          λ filled.
            Okay-then
              (λ ss. IsNormalList d.statement ss × (normalize_statements d.statement ≡ ok ss))
              IsNormalized _ _
              (Okay-with_eq (IsNormalList d.statement) _ (statements-IsNormalList d.statement))
              λ ss h. (
                h.0.0,
                h.0.1 ∙ filled,
                normalize_parsed_of_version (record d { version = v }) ss (ground (arith, known))
                    filled h.1,
              )

document-IsNormalized :
    (d : Option BucketPolicyDocument) → Okay IsNormalized (normalize_bucket_policy d)
unfolding normalize_bucket_policy
document-IsNormalized none = tt
document-IsNormalized (some d) = parsed-IsNormalized d

-- A document that is accepted has a normal form with a statement, and every statement of it allows
-- or denies, names principals or excluded principals but not both, has an action and a resource, and
-- has only conditions with a known operator and a value; and the canonical document that is sent to
-- the database has the same normal form, and is its own canonical document.
pub normalize_bucket_policy-IsNormalized :
    (d : Option BucketPolicyDocument) (n : NormalizedBucketPolicyDocument)
    (c : BucketPolicyDocument)
    → normalize_bucket_policy d ≡ ok (n, c)
    → All IsNormal n.statement
      × (is_empty n.statement ≡ false)
      × (normalize_bucket_policy (some c) ≡ ok (n, c))
unfolding IsNormalized
normalize_bucket_policy-IsNormalized d n c h =
    Okay-eq IsNormalized (normalize_bucket_policy d) (n, c) (document-IsNormalized d) h
