-- ===== src/Policies/Authorize/Grants.antt =====
-- AuthorizeRole: a role is granted what a statement of it allows and none of them denies.
use harbor_shield.Prelude.{
  ◌≡◌, refl, ap, ◌∙◌, Bool, not, ◌&&◌, List, [], ◌∷◌, Text, text_eq, any, any-order_by, keep,
}
use harbor_shield.Db.Triples.{Reads, Triple-pure, Reads-query, Reads-bind}
use harbor_shield.Db.Succeeds.{Succeeds, Succeeds-pure, Succeeds-query, Succeeds-bind}
use harbor_shield.Policies.Evaluation.{StatementRecord, evaluate_role_statements}
use harbor_shield.Policies.Evaluation.Agreement.{
  applies_and_allows, applies_and_denies, evaluate-eq-trace, evaluate_role_statements_lem,
}
use harbor_shield.Policies.Tables.{Tables}
use harbor_shield.Policies.Statements.{statements_of_role, list_statements_for_role}
use harbor_shield.Policies.Authorize.{authorize_statements, authorize_role}

abbrev rows_of_role : Tables → Text → List StatementRecord
rows_of_role t role = keep (λ (stmt : StatementRecord). text_eq stmt.role_name role) t.statements

-- A statement of the role applies and allows, and none applies and denies.
pub grants : Tables → Text → Text → Text → Bool
grants t role action resource =
    any (applies_and_allows action resource) (rows_of_role t role)
    && not (any (applies_and_denies action resource) (rows_of_role t role))

evaluate_rows :
    (role action resource : Text) (rows : List StatementRecord)
    → authorize_statements role action resource rows ≡ (
        any (applies_and_allows action resource) rows
        && not (any (applies_and_denies action resource) rows))
unfolding authorize_statements any
evaluate_rows role action resource [] = refl
evaluate_rows role action resource (row ∷ rows) =
    evaluate-eq-trace role action resource (row ∷ rows)
    ∙ ap (λ (r : Bool × Bool × List StatementRecord). r.0)
        (evaluate_role_statements_lem action resource (row ∷ rows))

pub authorize_statements-eq-grants :
    (t : Tables) (role action resource : Text)
    → authorize_statements role action resource (statements_of_role t role)
      ≡ grants t role action resource
unfolding grants statements_of_role
authorize_statements-eq-grants t role action resource =
    rw (evaluate_rows, any-order_by, any-order_by)

pub trace-eq-grants :
    (t : Tables) (role action resource : Text)
    → (evaluate_role_statements (statements_of_role t role) action resource).0
      ≡ grants t role action resource
unfolding grants statements_of_role
trace-eq-grants t role action resource =
    rw (evaluate_role_statements_lem, any-order_by, any-order_by)

pub authorize_role-Reads :
    {Pre : Tables → Type 0} (role action resource : Text)
    → Reads Pre
        (λ t allowed. allowed ≡ grants t role action resource)
        (authorize_role role action resource)
unfolding authorize_role list_statements_for_role
authorize_role-Reads role action resource =
    Reads-bind {P = λ t rows. rows ≡ statements_of_role t role} _ _ (Reads-query _ (λ t p. refl))
      λ rows.
        Triple-pure _
          (λ t p. (refl, rw p.1 (authorize_statements-eq-grants t role action resource)))

pub authorize_role-Succeeds :
    (role action resource : Text) → Succeeds (authorize_role role action resource)
unfolding authorize_role list_statements_for_role
authorize_role-Succeeds role action resource =
    Succeeds-bind _ _ (Succeeds-query _ (λ t. (_, refl))) λ rows. Succeeds-pure _
