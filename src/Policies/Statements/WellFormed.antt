-- ===== src/Policies/Statements/WellFormed.antt =====
-- What holds of role_policy_statements, whatever statements are created, updated and deleted.
use harbor_shield.Prelude.{
  ◌+◌, ◌<◌, ◌≡◌, ◌≢◌, ◌⊎◌, inl, inr, refl, Bool, true, false, not, List, [], ◌∷◌, ◌++◌, arith, Text,
  text_eq, text_eq_symm, keep, All, AllPairs, All-snoc, All-imp, All-zip, AllPairs-snoc,
  All-of_not_any, keep-snoc, any, ◌||◌, Bool-cases, ℕ,
}
use harbor_shield.Policies.Evaluation.{StatementRecord, is_allow, is_deny}
use harbor_shield.Policies.Tables.{Tables, role_exists, same_statement}
use harbor_shield.Policies.Statements.{superadmin, is_bad_pattern, insert_statement}

-- What the checks of validateActionResourceEffect and the foreign key leave of a row.
pub record IsValidRow (roles_of : Text → Bool) (stmt : StatementRecord) : Type 0 where
  pub action : is_bad_pattern stmt.action ≡ false
  pub resource : is_bad_pattern stmt.resource ≡ false
  pub effect : (is_allow stmt.effect ≡ true) ⊎ (is_deny stmt.effect ≡ true)
  pub role : roles_of stmt.role_name ≡ true

-- Two rows have different ids, and are not the same statement.
abbrev pub AreDistinct : StatementRecord → StatementRecord → Type 0
AreDistinct a b =
    (a.id ≢ b.id) × (same_statement b.role_name b.action b.resource b.effect a ≡ false)

-- Its id has been given out.
abbrev pub IsFresh : ℕ → StatementRecord → Type 0
IsFresh next_id stmt = stmt.id < next_id

pub record IsWellFormed (t : Tables) : Type 0 where
  pub rows : All (IsValidRow (role_exists t)) t.statements
  pub distinct : AllPairs AreDistinct t.statements
  pub fresh : All (IsFresh t.next_id) t.statements

abbrev pub is_super : StatementRecord → Bool
is_super stmt = text_eq stmt.role_name superadmin

-- The result is well formed, and the statements of superadmin are what they were.
pub record IsGuarded (s t : Tables) : Type 0 where
  pub well_formed : IsWellFormed t
  pub superadmin_same : keep is_super t.statements ≡ keep is_super s.statements
  pub roles_same : t.roles ≡ s.roles

pub IsGuarded-refl : (t : Tables) → IsWellFormed t → IsGuarded t t
IsGuarded-refl t h = record { well_formed = h; superadmin_same = refl; roles_same = refl }

-- What validateStatementInput has established when it passes.
pub record IsPassed (t : Tables) (role action resource effect : Text) : Type 0 where
  pub role_known : role_exists t role ≡ true
  pub action_good : is_bad_pattern action ≡ false
  pub resource_good : is_bad_pattern resource ≡ false
  pub effect_good : (is_allow effect ≡ true) ⊎ (is_deny effect ≡ true)
  pub not_super : text_eq role superadmin ≡ false

pub same_statement_symm :
    (a b : StatementRecord)
    → same_statement a.role_name a.action a.resource a.effect b
      ≡ same_statement b.role_name b.action b.resource b.effect a
unfolding same_statement
same_statement_symm a b = rw (
  text_eq_symm a.role_name b.role_name,
  text_eq_symm a.action b.action,
  text_eq_symm a.resource b.resource,
  text_eq_symm a.effect b.effect,
)

module _ (role action resource effect : Text) (conditions : List (Text × Text)) (t : Tables) where
  abbrev new_row : StatementRecord
  new_row = record {
    id = t.next_id;
    role_name = role;
    action = action;
    resource = resource;
    effect = effect;
    conditions = conditions;
  }

  insert_accepted :
      IsWellFormed t
      → IsPassed t role action resource effect
      → any (same_statement role action resource effect) t.statements ≡ false
      → IsGuarded t
          (record t { statements = t.statements ++ new_row ∷ []; next_id = t.next_id + 1 })
  unfolding role_exists
  insert_accepted h p free = record {
    well_formed = record {
      rows = All-snoc _ t.statements new_row h.rows (record {
        action = p.action_good;
        resource = p.resource_good;
        effect = p.effect_good;
        role = p.role_known;
      });
      distinct = AllPairs-snoc AreDistinct t.statements new_row h.distinct (
          All-imp _ (λ stmt. AreDistinct stmt new_row) t.statements (λ stmt b. (omega arith, b.1))
            (All-zip (IsFresh t.next_id) _ t.statements h.fresh
              (All-of_not_any (same_statement role action resource effect) t.statements free)));
      fresh =
          All-snoc (IsFresh (t.next_id + 1)) t.statements new_row
            (All-imp (IsFresh t.next_id) (IsFresh (t.next_id + 1)) t.statements
              (λ stmt f. omega arith) h.fresh)
            (omega arith);
    };
    superadmin_same = keep-snoc is_super t.statements new_row p.not_super;
    roles_same = refl;
  }

  pub insert_statement-IsGuarded :
      IsWellFormed t
      → IsPassed t role action resource effect
      → IsGuarded t (insert_statement role action resource effect conditions t).1
  unfolding insert_statement
  insert_statement-IsGuarded h p =
      elim (Bool-cases (
        not (role_exists t role)
        || any (same_statement role action resource effect) t.statements)) [
          | inl refused ↦ rw refused (IsGuarded-refl t h)
          | inr accepted ↦ rw accepted (insert_accepted h p (ground arith))
        ]
