-- ===== src/Db/Triples.antt =====
-- Methods that read, decide, and then write once: what they read, and what they leave.
use mathlib.Core.Path.{subst}
use harbor_shield.Prelude.{◌≡◌, refl, sym, Bool, true, false, List, [], ◌∷◌, if◌then◌else◌}
use harbor_shield.Db.{
  World, Action, pure, raise, lift, run_on, call_on, statement, query, ◌>>=◌, continue, attempt,
}
use harbor_shield.Db.Keeps.{Keeps, Same}
use harbor_shield.Db.Errors.{Error, database, Result, ok, err}

-- A value that is returned is `P` of the tables.
abbrev pub Holds {ℓ} : {T A : Type ℓ} → (T → A → Type ℓ) → T → Result A → Type ℓ
Holds P t (ok a) = P t a
Holds P t (err e) = Unit

-- From tables with `Pre`, `Q` holds of the tables before, the result and the tables after.
pub record Triple {ℓ} {T A : Type ℓ} (Pre : T → Type ℓ) (Q : T → Result A → T → Type ℓ)
    (m : Action T A) : Type ℓ where
  pub at : (w : World T) → Pre w.tables → Q w.tables (m w).0 (m w).1.tables

-- `m` leaves the tables alone, and a value that it returns is `P` of them.
abbrev pub Reads {ℓ} : {T A : Type ℓ} → (T → Type ℓ) → (T → A → Type ℓ) → Action T A → Type ℓ
Reads Pre P m = Triple Pre (λ t r t'. (t' ≡ t) × Holds P t r) m

module _ {ℓ} {T A : Type ℓ} where
  call_on-cases :
      (Q : T → Result A → T → Type ℓ) (f : T → Result A × T) (faults : List Bool) (t : T)
      → Q t (err database) t
      → Q t (f t).0 (f t).1
      → Q t (call_on f faults t).0 (call_on f faults t).1.tables
  unfolding call_on run_on
  call_on-cases Q f [] t h k = k
  call_on-cases Q f (true ∷ faults) t h k = h
  call_on-cases Q f (false ∷ faults) t h k = k

module _ {ℓ} {T A : Type ℓ} {Pre : T → Type ℓ} {Q : T → Result A → T → Type ℓ} where
  pub Triple-pure : (a : A) → ((t : T) → Pre t → Q t (ok a) t) → Triple Pre Q (pure a)
  unfolding pure
  Triple-pure a h = record { at = λ w p. h w.tables p }

  pub Triple-raise : (e : Error) → ((t : T) → Pre t → Q t (err e) t) → Triple Pre Q (raise e)
  unfolding raise
  Triple-raise e h = record { at = λ w p. h w.tables p }

  pub Triple-lift : (r : Result A) → ((t : T) → Pre t → Q t r t) → Triple Pre Q (lift r)
  unfolding lift
  Triple-lift r h = record { at = λ w p. h w.tables p }

  pub Triple-statement :
      (f : T → Result A × T)
      → ((t : T) → Pre t → Q t (err database) t)
      → ((t : T) → Pre t → Q t (f t).0 (f t).1)
      → Triple Pre Q (statement f)
  unfolding statement
  Triple-statement f h k = record {
    at = λ w p. call_on-cases Q f w.faults w.tables (h w.tables p) (k w.tables p);
  }

  pub Triple-if :
      (b : Bool) (m n : Action T A)
      → (b ≡ true → Triple Pre Q m)
      → (b ≡ false → Triple Pre Q n)
      → Triple Pre Q (if b then m else n)
  Triple-if true m n h k = h refl
  Triple-if false m n h k = k refl

module _ {ℓ} {T A : Type ℓ} {Pre : T → Type ℓ} {P : T → A → Type ℓ} where
  pub Reads-query : (f : T → Result A) → ((t : T) → Pre t → Holds P t (f t)) → Reads Pre P (query f)
  unfolding query
  Reads-query f h = Triple-statement (λ t. (f t, t)) (λ t p. (refl, tt)) (λ t p. (refl, h t p))

module _ {ℓ} {T A B : Type ℓ} {Pre : T → Type ℓ} {P : T → A → Type ℓ}
    {Q : T → Result B → T → Type ℓ} where
  after_read :
      (r : Result A) (f : A → Action T B) (w' : World T) (t : T)
      → w'.tables ≡ t
      → Pre t
      → Holds P t r
      → ((e : Error) → Q t (err e) t)
      → ((a : A) → Triple (λ s. Pre s × P s a) Q (f a))
      → Q t (continue r f w').0 (continue r f w').1.tables
  after_read (ok a) f w' t e p h k hf =
      subst (λ s. Pre s × P s a → Q s (f a w').0 (f a w').1.tables) e ((hf a).at w') (p, h)
  after_read (err x) f w' t e p h k hf = subst (λ s. Q t (err x) s) (sym e) (k x)

  -- A method that begins with a read: its rest may use what was read.
  pub Triple-bind :
      (m : Action T A) (f : A → Action T B)
      → Reads Pre P m
      → ((t : T) (e : Error) → Pre t → Q t (err e) t)
      → ((a : A) → Triple (λ t. Pre t × P t a) Q (f a))
      → Triple Pre Q (m >>= f)
  unfolding ◌>>=◌
  Triple-bind m f hm hx hf = record {
    at = λ w p.
        let (r, w') = m w in
        let h = hm.at w p in after_read r f w' w.tables h.0 p h.1 (λ e. hx w.tables e p) hf;
  }

module _ {ℓ} {T A B : Type ℓ} {Pre : T → Type ℓ} {P : T → A → Type ℓ} {Q : T → B → Type ℓ} where
  pub Reads-bind :
      (m : Action T A) (f : A → Action T B)
      → Reads Pre P m
      → ((a : A) → Reads (λ t. Pre t × P t a) Q (f a))
      → Reads Pre Q (m >>= f)
  Reads-bind m f hm hf = Triple-bind m f hm (λ t e p. (refl, tt)) hf

module _ {ℓ} {T A B : Type ℓ} {Pre : T → Type ℓ} {P : T → A → Type ℓ}
    {Q : T → Result B → T → Type ℓ} where
  -- A read whose error the rest looks at.
  pub Triple-attempt :
      (m : Action T A) (f : Result A → Action T B)
      → Reads Pre P m
      → ((r : Result A) → Triple (λ t. Pre t × Holds P t r) Q (f r))
      → Triple Pre Q (attempt m f)
  unfolding attempt
  Triple-attempt m f hm hf = record {
    at = λ w p.
        let (r, w') = m w in
        let h = hm.at w p in
        subst (λ t. Pre t × Holds P t r → Q t (f r w').0 (f r w').1.tables) h.0 ((hf r).at w')
          (p, h.1);
  }

module _ {ℓ} {T A B : Type ℓ} (R : T → T → Type ℓ) where
  continue_reading :
      (t : T) (r : Result A) (f : A → Action T B) (w : World T)
      → R t w.tables
      → ((a : A) → Keeps Same (f a))
      → R t (continue r f w).1.tables
  continue_reading t (ok a) f w h k = subst (R t) (sym ((k a).at w)) h
  continue_reading t (err e) f w h k = h

  -- A write, and then a look at its result.
  pub Triple-write :
      {Pre : T → Type ℓ} (m : Action T A) (f : A → Action T B)
      → Triple Pre (λ t _ t'. R t t') m
      → ((a : A) → Keeps Same (f a))
      → Triple Pre (λ t _ t'. R t t') (m >>= f)
  unfolding ◌>>=◌
  Triple-write m f hm k = record {
    at = λ w p. let (r, w') = m w in continue_reading w.tables r f w' (hm.at w p) k;
  }

-- No assumption on the tables.
abbrev pub Always {ℓ} : {T : Type ℓ} → T → Type ℓ
Always t = Unit

Holds-imp {ℓ} :
    {T A : Type ℓ} (P Q : T → A → Type ℓ) (t : T) (r : Result A)
    → ((a : A) → P t a → Q t a)
    → Holds P t r
    → Holds Q t r
Holds-imp P Q t (ok a) f h = f a h
Holds-imp P Q t (err e) f h = tt

module _ {ℓ} {T A : Type ℓ} {Pre : T → Type ℓ} {P Q : T → A → Type ℓ} where
  pub Reads-weaken :
      (m : Action T A)
      → Reads Always P m
      → ((t : T) (a : A) → Pre t → P t a → Q t a)
      → Reads Pre Q m
  Reads-weaken m h f = record {
    at =
        λ w p. let k = h.at w tt in (k.0, Holds-imp P Q w.tables (m w).0 (λ a. f w.tables a p) k.1);
  }

module _ {ℓ} {T A : Type ℓ} {P : T → A → Type ℓ} where
  -- What a value that a read returned says of the tables.
  pub Reads-ok :
      (m : Action T A) → Reads Always P m → (w : World T) (a : A) → (m w).0 ≡ ok a → P w.tables a
  Reads-ok m h w a e = subst (Holds P w.tables) e (h.at w tt).1

-- A fact about the tables alone holds whatever is returned.
pub Holds-const {ℓ} :
    {T A : Type ℓ} (P : T → Type ℓ) (t : T) (r : Result A) → P t → Holds (λ s _. P s) t r
Holds-const P t (ok a) h = h
Holds-const P t (err e) h = tt

module _ {ℓ} {T A B : Type ℓ} {Pre : T → Type ℓ} {Q : T → Result B → T → Type ℓ} where
  -- The result is replaced, and nothing else is done.
  pub Triple-attempt-lift :
      (m : Action T A) (g : Result A → Result B)
      → Triple Pre (λ t r t'. Q t (g r) t') m
      → Triple Pre Q (attempt m (λ r. lift (g r)))
  unfolding attempt lift
  Triple-attempt-lift m g h = record { at = λ w p. h.at w p }
