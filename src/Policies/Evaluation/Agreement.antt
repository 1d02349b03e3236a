-- ===== src/Policies/Evaluation/Agreement.antt =====
-- The evaluation that answers requests and the one that explains them give the same verdict.
use harbor_shield.Prelude.{
  ◌≡◌, refl, sym, ◌∙◌, ap, Bool, false, not, ◌&&◌, ◌||◌, List, [], ◌∷◌, ◌++◌, map, arith, Text, any,
  keep, text_eq_refl,
}
use mathlib.Core.List.{append_assoc, append-nil}
use harbor_shield.Policies.Patterns.{match}
use harbor_shield.Policies.Evaluation.{
  StatementRecord, RoleScan, is_deny, is_allow, skipped, evaluate, scan_step, scan_from,
  evaluate_role_statements, as_statement,
}
use harbor_shield.Policies.Evaluation.DenyWins.{allows, denies, evaluate_decides}

module _ (action resource : Text) where
  -- The statement's patterns match the request.
  unfoldable pub applies : StatementRecord → Bool
  applies stmt = match stmt.action action && match stmt.resource resource

  unfoldable pub applies_and_allows : StatementRecord → Bool
  applies_and_allows stmt = applies stmt && is_allow stmt.effect

  unfoldable pub applies_and_denies : StatementRecord → Bool
  applies_and_denies stmt = applies stmt && is_deny stmt.effect

  scan_from-allowed :
      (s : RoleScan) (stmts : List StatementRecord)
      → (scan_from action resource s stmts).allowed ≡ (s.allowed || any applies_and_allows stmts)
  unfolding scan_from scan_step any applies_and_allows applies
  scan_from-allowed s [] = ground arith
  scan_from-allowed s (stmt ∷ rest) =
      scan_from-allowed (scan_step action resource s stmt) rest ∙ ground arith

  scan_from-explicit_deny :
      (s : RoleScan) (stmts : List StatementRecord)
      → (scan_from action resource s stmts).explicit_deny
        ≡ (s.explicit_deny || any applies_and_denies stmts)
  unfolding scan_from scan_step any applies_and_denies applies
  scan_from-explicit_deny s [] = ground arith
  scan_from-explicit_deny s (stmt ∷ rest) =
      scan_from-explicit_deny (scan_step action resource s stmt) rest ∙ ground arith

  scan_step-matched :
      (s : RoleScan) (stmt : StatementRecord)
      → (scan_step action resource s stmt).matched ≡ s.matched ++ keep applies (stmt ∷ [])
  unfolding scan_step applies
  scan_step-matched s stmt = ground (arith, append-nil s.matched)

  keep-cons :
      (stmt : StatementRecord) (rest : List StatementRecord)
      → keep applies (stmt ∷ rest) ≡ keep applies (stmt ∷ []) ++ keep applies rest
  unfolding applies
  keep-cons stmt rest = ground arith

  scan_from-matched :
      (s : RoleScan) (stmts : List StatementRecord)
      → (scan_from action resource s stmts).matched ≡ s.matched ++ keep applies stmts
  unfolding scan_from
  scan_from-matched s [] = sym (append-nil s.matched)
  scan_from-matched s (stmt ∷ rest) =
      scan_from-matched (scan_step action resource s stmt) rest
      ∙ (ap (λ l. l ++ keep applies rest) (scan_step-matched s stmt)
          ∙ (append_assoc s.matched _ _ ∙ ap (λ l. s.matched ++ l) (sym (keep-cons stmt rest))))

  -- The trace of a role holds exactly the statements that apply, in their order; it reports a deny
  -- exactly if one of them denies, and a grant exactly if one allows and none denies.
  pub evaluate_role_statements_lem :
      (stmts : List StatementRecord)
      → evaluate_role_statements stmts action resource ≡ (
        any applies_and_allows stmts && not (any applies_and_denies stmts),
        any applies_and_denies stmts,
        keep applies stmts,
      )
  unfolding evaluate_role_statements
  evaluate_role_statements_lem stmts =
      let s : RoleScan = record { matched = []; allowed = false; explicit_deny = false } in
      ground (
        arith,
        scan_from-allowed s stmts,
        scan_from-explicit_deny s stmts,
        scan_from-matched s stmts,
      )

module _ (role action resource : Text) where
  allows-as_statement :
      (stmts : List StatementRecord)
      → any (allows role action resource) (map (as_statement role) stmts)
        ≡ any (applies_and_allows action resource) stmts
  unfolding any allows skipped applies_and_allows applies as_statement
  allows-as_statement [] = refl
  allows-as_statement (stmt ∷ rest) = ground (arith, text_eq_refl role, allows-as_statement rest)

  denies-as_statement :
      (stmts : List StatementRecord)
      → any (denies role action resource) (map (as_statement role) stmts)
        ≡ any (applies_and_denies action resource) stmts
  unfolding any denies skipped applies_and_denies applies as_statement
  denies-as_statement [] = refl
  denies-as_statement (stmt ∷ rest) = ground (arith, text_eq_refl role, denies-as_statement rest)

  -- For the statements of a role, `Evaluate` grants exactly if the trace of the role does.
  pub evaluate-eq-trace :
      (stmts : List StatementRecord)
      → evaluate (map (as_statement role) stmts) role action resource
        ≡ (evaluate_role_statements stmts action resource).0
  evaluate-eq-trace stmts =
      rw (evaluate_decides, allows-as_statement, denies-as_statement, evaluate_role_statements_lem)
