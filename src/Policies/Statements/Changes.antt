-- ===== src/Policies/Statements/Changes.antt =====
-- An UPDATE and a DELETE of one role statement keep the table well formed.
use harbor_shield.Prelude.{
  ℕ, ◌≡◌, inl, inr, refl, ap, ◌∙◌, true, false, not, ◌&&◌, Option, none, some, List, [], ◌∷◌, arith,
  Text, text_eq, find, any, All, AllPairs, All-imp, All-zip, All-keep, All-update, AllPairs-keep,
  AllPairs-update, All-of_not_any, keep-keep, keep-update, if◌then◌else◌, Bool-cases, update,
}
use harbor_shield.Db.Errors.{ok}
use harbor_shield.Policies.Evaluation.{StatementRecord}
use harbor_shield.Policies.Tables.{Tables, role_exists, same_statement}
use harbor_shield.Policies.Statements.{
  superadmin, has_id, role_of, rewrite_statement, update_row, update_statement_row,
  delete_statement_row,
}
use harbor_shield.Policies.Statements.WellFormed.{
  IsValidRow, AreDistinct, IsFresh, IsWellFormed, is_super, IsGuarded, IsGuarded-refl, IsPassed,
  same_statement_symm,
}

-- A primary key finds one row.
find_unique :
    (id : ℕ) (stmt : StatementRecord) (xs : List StatementRecord)
    → AllPairs AreDistinct xs
    → find (has_id id) xs ≡ some stmt
    → All (λ x. has_id id x ≡ true → x ≡ stmt) xs
find_unique id stmt [] h e = tt
find_unique id stmt (x ∷ xs) h e = elim (Bool-cases (has_id id x)) [
  | inl here ↦ (
    (λ _. ground arith),
    All-imp (AreDistinct x) (λ y. has_id id y ≡ true → y ≡ stmt) xs (λ y d k. absurd (ground arith))
        h.0,
  )
  | inr later ↦ ((λ k. ground arith), find_unique id stmt xs h.1 (ground arith))
]

-- What is known of each row when the row `id` of role `role` is rewritten.
abbrev IsUntouched : ℕ → Text → Text → Text → Text → StatementRecord → Type 0
IsUntouched id role action resource effect x =
    (has_id id x ≡ true → x.role_name ≡ role)
    × ((not (has_id id x) && same_statement role action resource effect x) ≡ false)

module _ (id : ℕ) (role action resource effect : Text) (conditions : List (Text × Text)) where
  abbrev rewritten : StatementRecord → StatementRecord
  rewritten x = if has_id id x then rewrite_statement action resource effect conditions x else x

  rewritten-AreDistinct :
      (x y : StatementRecord)
      → IsUntouched id role action resource effect x
      → IsUntouched id role action resource effect y
      → AreDistinct x y
      → AreDistinct (rewritten x) (rewritten y)
  rewritten-AreDistinct x y hx hy d =
      ground (arith, same_statement_symm (rewritten x) y, hx.0, hy.0)

  module _ (t : Tables) (h : IsWellFormed t) (p : IsPassed t role action resource effect) where
    rewritten-IsValidRow :
        (x : StatementRecord)
        → IsValidRow (role_exists t) x
        → IsValidRow (role_exists t) (rewritten x)
    rewritten-IsValidRow x v = ground arith

    update_accepted :
        (stmt : StatementRecord)
        → find (has_id id) t.statements ≡ some stmt
        → stmt.role_name ≡ role
        → any (λ x. not (has_id id x) && same_statement role action resource effect x) t.statements
          ≡ false
        → IsGuarded t (record t {
          statements =
              update (has_id id) (rewrite_statement action resource effect conditions) t.statements;
        })
    unfolding role_exists
    update_accepted stmt e r free =
        let known : All (IsUntouched id role action resource effect) t.statements =
          All-zip (λ x. has_id id x ≡ true → x.role_name ≡ role) _ t.statements
            (All-imp (λ x. has_id id x ≡ true → x ≡ stmt) _ t.statements
              (λ x k i. ap (λ (s : StatementRecord). s.role_name) (k i) ∙ r)
              (find_unique id stmt t.statements h.distinct e))
            (All-of_not_any (λ x. not (has_id id x) && same_statement role action resource effect x)
              t.statements free) in
        record {
          well_formed = record {
            rows = All-update _ (has_id id) _ t.statements rewritten-IsValidRow h.rows;
            distinct =
                AllPairs-update (IsUntouched id role action resource effect) AreDistinct (has_id id)
                  _ t.statements rewritten-AreDistinct known h.distinct;
            fresh =
                All-update (IsFresh t.next_id) (has_id id) _ t.statements (λ x f. ground arith)
                  h.fresh;
          };
          superadmin_same =
              keep-update is_super (has_id id) _ t.statements
                (All-imp _ _ t.statements (λ x u k. ground (arith, u.0 k, p.not_super)) known);
          roles_same = refl;
        }

    update_row-IsGuarded :
        (found : Option StatementRecord)
        → find (has_id id) t.statements ≡ found
        → role_of found ≡ ok role
        → IsGuarded t (update_row id action resource effect conditions found t).1
    unfolding update_row
    update_row-IsGuarded none e r = cc
    update_row-IsGuarded (some stmt) e r =
        elim (Bool-cases (
          any (λ x. not (has_id id x) && same_statement stmt.role_name action resource effect x)
            t.statements)) [
              | inl taken ↦ rw taken (IsGuarded-refl t h)
              | inr free ↦
                  let same : stmt.role_name ≡ role = cc in
                  rw free (update_accepted stmt e same (rw same at free))
            ]

    pub update_statement_row-IsGuarded :
        role_of (find (has_id id) t.statements) ≡ ok role
        → IsGuarded t (update_statement_row id action resource effect conditions t).1
    unfolding update_statement_row
    update_statement_row-IsGuarded r = update_row-IsGuarded (find (has_id id) t.statements) refl r

module _ (id : ℕ) (role : Text) (t : Tables) (h : IsWellFormed t) where
  deleted_not_super :
      (found : Option StatementRecord)
      → find (has_id id) t.statements ≡ found
      → role_of found ≡ ok role
      → text_eq role superadmin ≡ false
      → All (λ x. not (has_id id x) ≡ false → is_super x ≡ false) t.statements
  deleted_not_super none e r k = cc
  deleted_not_super (some stmt) e r k =
      All-imp (λ x. has_id id x ≡ true → x ≡ stmt) _ t.statements
        (λ x f i. ground (arith, ap (λ (s : StatementRecord). s.role_name) (f (ground arith))))
        (find_unique id stmt t.statements h.distinct e)

  pub delete_statement_row-IsGuarded :
      role_of (find (has_id id) t.statements) ≡ ok role
      → text_eq role superadmin ≡ false
      → IsGuarded t (delete_statement_row id t).1
  unfolding delete_statement_row role_exists
  delete_statement_row-IsGuarded r k =
      let p = λ (x : StatementRecord). not (has_id id x) in
      record {
        well_formed = record {
          rows = All-keep _ p t.statements h.rows;
          distinct = AllPairs-keep AreDistinct p t.statements h.distinct;
          fresh = All-keep _ p t.statements h.fresh;
        };
        superadmin_same =
            keep-keep is_super p t.statements
              (deleted_not_super (find (has_id id) t.statements) refl r k);
        roles_same = refl;
      }
