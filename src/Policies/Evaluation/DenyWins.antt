-- ===== src/Policies/Evaluation/DenyWins.antt =====
-- What `Evaluate` decides: some applicable statement allows, and none denies, in any order.
use mathlib.Core.List.{Perm}
use mathlib.Core.Path.{ap₂}
use harbor_shield.Prelude.{
  ◌≡◌, sym, ◌∙◌, Bool, true, false, not, ◌&&◌, ◌||◌, List, [], ◌∷◌, arith, Text, any, any-perm,
}
use harbor_shield.Policies.Evaluation.{
  Statement, is_deny, is_allow, skipped, evaluate_from, evaluate,
}

module _ (subject action resource : Text) where
  unfoldable pub denies : Statement → Bool
  denies stmt = not (skipped subject action resource stmt) && is_deny stmt.effect

  unfoldable pub allows : Statement → Bool
  allows stmt = not (skipped subject action resource stmt) && is_allow stmt.effect

  evaluate_from-any :
      (allowed : Bool) (stmts : List Statement)
      → evaluate_from subject action resource allowed stmts
        ≡ ((allowed || any allows stmts) && not (any denies stmts))
  unfolding evaluate_from any denies allows
  evaluate_from-any allowed [] = ground arith
  evaluate_from-any allowed (stmt ∷ rest) =
      ground (arith, evaluate_from-any allowed rest, evaluate_from-any true rest)

  -- `Evaluate` grants exactly if a statement that applies allows, and no statement that applies
  -- denies, wherever in the list they stand.
  pub evaluate_decides :
      (stmts : List Statement)
      → evaluate stmts subject action resource ≡ (any allows stmts && not (any denies stmts))
  unfolding evaluate
  evaluate_decides stmts = evaluate_from-any false stmts

-- The order of the statements does not matter to `Evaluate`.
pub evaluate-perm :
    (subject action resource : Text) (xs ys : List Statement)
    → Perm xs ys
    → evaluate xs subject action resource ≡ evaluate ys subject action resource
evaluate-perm subject action resource xs ys q =
    evaluate_decides subject action resource xs
    ∙ (ap₂ (λ a d. a && not d) (any-perm (allows subject action resource) xs ys q)
          (any-perm (denies subject action resource) xs ys q)
        ∙ sym (evaluate_decides subject action resource ys))
