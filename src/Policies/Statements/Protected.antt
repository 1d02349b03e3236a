-- ===== src/Policies/Statements/Protected.antt =====
-- Whatever statements are created, updated and deleted, and whatever the driver does, the table
-- stays well formed and the statements of superadmin stay what they were.
use harbor_shield.Prelude.{
  ℕ, ◌≡◌, ◌⊎◌, refl, ◌∙◌, true, false, not, List, [], ◌∷◌, arith, Text, text_eq, find,
}
use harbor_shield.Db.{World}
use harbor_shield.Db.Keeps.{Keeps-pure, Keeps-raise, Keeps-if, Same-preorder}
use harbor_shield.Db.Errors.{Result, ok, err}
use harbor_shield.Db.Triples.{
  Triple, Reads, Holds, Triple-bind, Triple-write, Triple-statement, Triple-if, Triple-raise,
  Triple-pure, Triple-lift, Triple-attempt, Reads-query, Reads-bind,
}
use harbor_shield.Policies.Evaluation.{is_allow, is_deny}
use harbor_shield.Policies.Tables.{Tables, role_exists}
use harbor_shield.Policies.Statements.{
  superadmin, is_bad_pattern, validate_action_resource_effect, ensure_role_exists,
  validate_statement_input, create_statement, has_id, role_of, statement_role, update_statement,
  delete_statement,
}
use harbor_shield.Policies.Statements.WellFormed.{
  IsWellFormed, IsGuarded, IsGuarded-refl, IsPassed, insert_statement-IsGuarded,
}
use harbor_shield.Policies.Statements.Changes.{
  update_statement_row-IsGuarded, delete_statement_row-IsGuarded,
}

validation_ok : (t : Tables) (r : Result (Unit {0})) → Holds (λ _ _. r ≡ ok tt) t r
validation_ok t (ok tt) = refl
validation_ok t (err e) = tt

validated :
    (action resource effect : Text)
    → validate_action_resource_effect action resource effect ≡ ok tt
    → (is_bad_pattern action ≡ false)
      × (is_bad_pattern resource ≡ false)
      × ((is_allow effect ≡ true) ⊎ (is_deny effect ≡ true))
unfolding validate_action_resource_effect
validated action resource effect h = ground arith

pub ensure_role_exists-Reads :
    {Pre : Tables → Type 0} (role : Text)
    → Reads Pre (λ t _. role_exists t role ≡ true) (ensure_role_exists role)
unfolding ensure_role_exists
ensure_role_exists-Reads role =
    Reads-bind {P = λ t b. role_exists t role ≡ b} _ _ (Reads-query _ (λ t p. refl)) λ exists.
      Triple-if (not exists) _ _ (λ e. Triple-raise _ (λ t p. (refl, tt)))
        (λ e. Triple-pure tt (λ t p. (refl, ground (arith, p.1))))

validate_statement_input-Reads :
    {Pre : Tables → Type 0} (role action resource effect : Text)
    → Reads Pre
        (λ t _. IsPassed t role action resource effect)
        (validate_statement_input role action resource effect)
unfolding validate_statement_input
validate_statement_input-Reads role action resource effect =
    Reads-bind _ _ (ensure_role_exists-Reads role) λ _.
      Reads-bind {P = λ t _. validate_action_resource_effect action resource effect ≡ ok tt} _ _
        (Triple-lift _ (λ t p. (refl, validation_ok t _)))
        λ _.
          Triple-if (text_eq role superadmin) _ _ (λ e. Triple-raise _ (λ t p. (refl, tt)))
            (λ e. Triple-pure tt (λ t p. (
              refl,
              let (a, r, e') = validated action resource effect p.1 in
                  record {
                    role_known = p.0.1;
                    action_good = a;
                    resource_good = r;
                    effect_good = e';
                    not_super = e;
                  },
            )))

role_found : (t : Tables) (r : Result Text) → Holds (λ _ role. r ≡ ok role) t r
role_found t (ok role) = refl
role_found t (err e) = tt

statement_role-Reads :
    {Pre : Tables → Type 0} (id : ℕ)
    → Reads Pre (λ t role. role_of (find (has_id id) t.statements) ≡ ok role) (statement_role id)
unfolding statement_role
statement_role-Reads id =
    Triple-attempt {P = λ t role. role_of (find (has_id id) t.statements) ≡ ok role} _ _
      (Reads-query _ (λ t p. role_found t _))
      (elim [
        | ok role ↦ Triple-pure role (λ t p. (refl, p.1))
        | err e ↦ Triple-raise _ (λ t p. (refl, tt))
      ])

create_statement-IsGuarded :
    (role action resource effect : Text) (conditions : List (Text × Text))
    → Triple IsWellFormed
        (λ t _ t'. IsGuarded t t')
        (create_statement role action resource effect conditions)
unfolding create_statement
create_statement-IsGuarded role action resource effect conditions =
    Triple-bind _ _ (validate_statement_input-Reads role action resource effect)
      (λ t e h. IsGuarded-refl t h)
      λ _.
        Triple-statement _ (λ t h. IsGuarded-refl t h.0)
          (λ t h. insert_statement-IsGuarded role action resource effect conditions t h.0 h.1)

update_statement-IsGuarded :
    (id : ℕ) (action resource effect : Text) (conditions : List (Text × Text))
    → Triple IsWellFormed
        (λ t _ t'. IsGuarded t t')
        (update_statement id action resource effect conditions)
unfolding update_statement
update_statement-IsGuarded id action resource effect conditions =
    Triple-bind _ _ (statement_role-Reads id) (λ t e h. IsGuarded-refl t h)
      λ role.
        Triple-bind _ _ (validate_statement_input-Reads role action resource effect)
          (λ t e h. IsGuarded-refl t h.0)
          λ _.
            Triple-statement _ (λ t h. IsGuarded-refl t h.0.0)
              (λ t h.
                update_statement_row-IsGuarded id role action resource effect conditions t h.0.0 h.1
                  h.0.1)

delete_statement-IsGuarded :
    (id : ℕ) → Triple IsWellFormed (λ t _ t'. IsGuarded t t') (delete_statement id)
unfolding delete_statement
delete_statement-IsGuarded id =
    Triple-bind _ _ (statement_role-Reads id) (λ t e h. IsGuarded-refl t h)
      λ role.
        Triple-if (text_eq role superadmin) _ _ (λ _. Triple-raise _ (λ t h. IsGuarded-refl t h.0))
          (λ other.
            Triple-write IsGuarded _ _
              (Triple-statement _ (λ t h. IsGuarded-refl t h.0)
                (λ t h. delete_statement_row-IsGuarded id role t h.0 h.1 other))
              (λ affected.
                Keeps-if Same-preorder (not affected) _ _ (Keeps-raise Same-preorder _)
                  (Keeps-pure Same-preorder tt)))

-- A call of one of the three operations.
pub data StatementCall : Type 0 where
  create : (role action resource effect : Text) → List (Text × Text) → StatementCall
  update : ℕ → (action resource effect : Text) → List (Text × Text) → StatementCall
  delete : ℕ → StatementCall

-- The world after a call, whatever it returned.
unfoldable pub perform : World Tables → StatementCall → World Tables
perform w (create role action resource effect conditions) =
    (create_statement role action resource effect conditions w).1
perform w (update id action resource effect conditions) =
    (update_statement id action resource effect conditions w).1
perform w (delete id) = (delete_statement id w).1

unfoldable pub perform_all : World Tables → List StatementCall → World Tables
unfolding perform
perform_all w [] = w
perform_all w (c ∷ cs) = perform_all (perform w c) cs

perform-IsGuarded :
    (w : World Tables) (c : StatementCall)
    → IsWellFormed w.tables
    → IsGuarded w.tables (perform w c).tables
unfolding perform
perform-IsGuarded w (create role action resource effect conditions) h =
    (create_statement-IsGuarded role action resource effect conditions).at w h
perform-IsGuarded w (update id action resource effect conditions) h =
    (update_statement-IsGuarded id action resource effect conditions).at w h
perform-IsGuarded w (delete id) h = (delete_statement-IsGuarded id).at w h

-- From a well-formed table, after any calls of CreateStatement, UpdateStatement and DeleteStatement,
-- each of which may fail at any call of the driver, every row still has a known role, an action and
-- a resource without blanks and an effect that is allow or deny; no two rows have one id or are the
-- same statement; and the rows of superadmin are exactly those that were there.
pub perform_all-IsGuarded :
    (w : World Tables) (calls : List StatementCall)
    → IsWellFormed w.tables
    → IsGuarded w.tables (perform_all w calls).tables
unfolding perform_all
perform_all-IsGuarded w [] h = IsGuarded-refl w.tables h
perform_all-IsGuarded w (c ∷ cs) h =
    let one = perform-IsGuarded w c h in
    let rest = perform_all-IsGuarded (perform w c) cs one.well_formed in
    record {
      well_formed = rest.well_formed;
      superadmin_same = rest.superadmin_same ∙ one.superadmin_same;
      roles_same = rest.roles_same ∙ one.roles_same;
    }
