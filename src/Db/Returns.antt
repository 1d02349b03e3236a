-- ===== src/Db/Returns.antt =====
-- What the result of an action says: inversion of a successful bind and of a successful statement.
use harbor_shield.Prelude.{if◌then◌else◌, ◌≡◌, refl, ap, Bool, true, false, List, [], ◌∷◌}
use harbor_shield.Db.{World, Action, run_on, call_on, statement, query, ◌>>=◌, continue, attempt}
use harbor_shield.Db.Errors.{Error, database, Result, ok, err}

module _ {ℓ} {T A B : Type ℓ} where
  continue-eq-ok :
      (r : Result A) (f : A → Action T B) (w : World T) {b : B}
      → (continue r f w).0 ≡ ok b
      → (a : A) × (r ≡ ok a) × (continue r f w ≡ f a w)
  continue-eq-ok (ok a) f w h = (a, refl, refl)
  continue-eq-ok (err e) f w h = cc

  pub >>=-eq-ok :
      (m : Action T A) (f : A → Action T B) (w : World T) {b : B}
      → ((m >>= f) w).0 ≡ ok b
      → (a : A) × ((m w).0 ≡ ok a) × ((m >>= f) w ≡ f a (m w).1)
  unfolding ◌>>=◌
  >>=-eq-ok m f w h = let (r, w') = m w in continue-eq-ok r f w' h

  pub >>=_of_ok :
      (m : Action T A) (f : A → Action T B) (w w' : World T) (a : A)
      → m w ≡ (ok a, w')
      → (m >>= f) w ≡ f a w'
  unfolding ◌>>=◌
  >>=_of_ok m f w w' a h = rw h

  pub attempt-eq :
      (m : Action T A) (f : Result A → Action T B) (w w' : World T) (r : Result A)
      → m w ≡ (r, w')
      → attempt m f w ≡ f r w'
  unfolding attempt
  attempt-eq m f w w' r h = ap (λ (p : Result A × World T). f p.0 p.1) h

module _ {ℓ} {T A : Type ℓ} where
  call_on-eq-ok :
      (f : T → Result A × T) (faults : List Bool) (t : T) {a : A}
      → (call_on f faults t).0 ≡ ok a
      → (f t).0 ≡ ok a × (call_on f faults t).1.tables ≡ (f t).1
  unfolding call_on run_on
  call_on-eq-ok f [] t h = (h, refl)
  call_on-eq-ok f (true ∷ faults) t h = cc
  call_on-eq-ok f (false ∷ faults) t h = (h, refl)

  pub statement-eq-ok :
      (f : T → Result A × T) (w : World T) {a : A}
      → (statement f w).0 ≡ ok a
      → ((f w.tables).0 ≡ ok a) × ((statement f w).1.tables ≡ (f w.tables).1)
  unfolding statement
  statement-eq-ok f w h = call_on-eq-ok f w.faults w.tables h

  call_on-cases :
      (f : T → Result A) (faults : List Bool) (t : T)
      → (call_on (λ s. (f s, s)) faults t).1.tables ≡ t
  unfolding call_on run_on
  call_on-cases f [] t = refl
  call_on-cases f (true ∷ faults) t = refl
  call_on-cases f (false ∷ faults) t = refl

  pub tables-query : (f : T → Result A) (w : World T) → (query f w).1.tables ≡ w.tables
  unfolding query statement
  tables-query f w = call_on-cases f w.faults w.tables

  pub query-eq-ok :
      (f : T → Result A) (w : World T) {a : A} → (query f w).0 ≡ ok a → f w.tables ≡ ok a
  unfolding query
  query-eq-ok f w h = (statement-eq-ok (λ t. (f t, t)) w h).0

-- The driver fails the first call.
abbrev pub fails_first : List Bool → Bool
fails_first [] = false
fails_first (b ∷ faults) = b

abbrev pub later : List Bool → List Bool
later [] = []
later (b ∷ faults) = faults

module _ {ℓ} {T A : Type ℓ} where
  call_on-eq :
      (f : T → Result A) (faults : List Bool) (t : T)
      → call_on (λ s. (f s, s)) faults t ≡ (
        (if fails_first faults then err database else f t),
        record { tables = t; faults = later faults },
      )
  unfolding call_on run_on
  call_on-eq f [] t = refl
  call_on-eq f (true ∷ faults) t = refl
  call_on-eq f (false ∷ faults) t = refl

  -- A read returns what the tables say, or the error of the driver.
  pub query-eq :
      (f : T → Result A) (w : World T)
      → query f w ≡ (
        (if fails_first w.faults then err database else f w.tables),
        record { tables = w.tables; faults = later w.faults },
      )
  unfolding query statement
  query-eq f w = call_on-eq f w.faults w.tables

-- `P` if a value is returned, and `Q` if an error is.
abbrev pub ByResult : {A : Type 0} → Result A → Type 0 → Type 0 → Type 0
ByResult (ok a) P Q = P
ByResult (err e) P Q = Q

pub by_result :
    {P Q : Type 0} (r : Result (Unit {0}))
    → (r ≡ ok tt → P)
    → ((e : Error) → r ≡ err e → Q)
    → ByResult r P Q
by_result (ok _) f g = f refl
by_result (err e) f g = g e refl
