-- ===== src/Db.antt =====
-- The database as the services see it: pgxpool's Query, QueryRow, Exec and Begin.
--
-- A method is an action on a world: the tables it reads and writes, and a schedule that says which
-- of the coming calls of the driver fail (a lost connection, a malformed UUID, a violated
-- constraint that the source does not test for). An SQL statement runs whole or not at all.
pub mod Errors
pub mod Keeps
pub mod Returns
pub mod Triples
pub mod Succeeds
pub mod Transactions
pub mod Ensures
use harbor_shield.Prelude.{Bool, true, false, List, [], ◌∷◌}
use harbor_shield.Db.Errors.{Error, database, Result, ok, err}

pub record World {ℓ} (T : Type ℓ) : Type ℓ where
  pub tables : T
  pub faults : List Bool

-- A world whose driver does not fail.
abbrev pub calm {ℓ} : {T : Type ℓ} → T → World T
calm t = record { tables = t; faults = [] }

abbrev pub Action {ℓ} : Type ℓ → Type ℓ → Type ℓ
Action T A = World T → Result A × World T

module _ {ℓ} {T A : Type ℓ} where
  unfoldable pub pure : A → Action T A
  pure a w = (ok a, w)

  unfoldable pub raise : Error → Action T A
  raise e w = (err e, w)

  unfoldable pub lift : Result A → Action T A
  lift r w = (r, w)

  run_on : (T → Result A × T) → List Bool → T → Result A × World T
  run_on f faults t = let (r, t') = f t in (r, record { tables = t'; faults = faults })

  call_on : (T → Result A × T) → List Bool → T → Result A × World T
  call_on f [] t = run_on f [] t
  call_on f (true ∷ faults) t = (err database, record { tables = t; faults = faults })
  call_on f (false ∷ faults) t = run_on f faults t

  -- One call of the driver that runs the SQL statement `f`.
  unfoldable pub statement : (T → Result A × T) → Action T A
  unfolding call_on run_on
  statement f w = call_on f w.faults w.tables

  -- A statement that only reads.
  unfoldable pub query : (T → Result A) → Action T A
  unfolding statement
  query f = statement (λ t. (f t, t))

module _ {ℓ} {T A B : Type ℓ} where
  abbrev pub continue : Result A → (A → Action T B) → Action T B
  continue (ok a) f w = f a w
  continue (err e) f w = (err e, w)

  infixl 10 ◌>>=◌ ◌>>◌
  unfoldable pub ◌>>=◌ : Action T A → (A → Action T B) → Action T B
  unfolding pure raise lift
  ◌>>=◌ m f w = let (r, w') = m w in continue r f w'

  abbrev pub ◌>>◌ : Action T A → Action T B → Action T B
  m >> n = m >>= λ _. n

  -- `x, err := m()` where the error is looked at, or thrown away.
  unfoldable pub attempt : Action T A → (Result A → Action T B) → Action T B
  attempt m f w = let (r, w') = m w in f r w'

module _ {ℓ} {T A : Type ℓ} where
  settle : T → Result A × World T → Result A × World T
  settle t (ok a, w) = (ok a, w)
  settle t (err e, w) = (err e, record w { tables = t })

  -- Begin, the body, Commit; on any error the deferred Rollback puts the tables back.
  unfoldable pub transaction : Action T A → Action T A
  unfolding settle query ◌>>=◌
  transaction m w = settle w.tables (
      (query {A = Unit} (λ _. ok tt) >>= λ _.
      m >>= λ a. query {A = Unit} (λ _. ok tt) >>= λ _. pure a)
        w)

module _ {S T A : Type 0} where
  -- An action of a part of the tables, or of what stands beside them: `read` finds it, `write` puts
  -- it back.
  unfoldable pub zoom : (T → S) → (S → T → T) → Action S A → Action T A
  zoom read write m w =
      let (r, w') = m (record { tables = read w.tables; faults = w.faults }) in
      (r, record { tables = write w'.tables w.tables; faults = w'.faults })
