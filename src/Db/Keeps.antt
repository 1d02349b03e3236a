-- ===== src/Db/Keeps.antt =====
-- What an action does to the tables, whether it returns or fails, and what a result says.
use harbor_shield.Prelude.{◌≡◌, refl, ◌∙◌, Bool, true, false, List, [], ◌∷◌, if◌then◌else◌}
use harbor_shield.Db.{
  World, Action, pure, raise, lift, run_on, call_on, statement, query, ◌>>=◌, continue, attempt,
  transaction, settle,
}
use harbor_shield.Db.Errors.{Error, Result, ok, err}

-- `m` relates the tables before it to the tables after it.
pub record Keeps {ℓ} {T A : Type ℓ} (R : T → T → Type ℓ) (m : Action T A) : Type ℓ where
  pub at : (w : World T) → R w.tables (m w).1.tables

-- Reflexive and transitive, so that actions compose.
pub record IsPreorder {ℓ} {T : Type ℓ} (R : T → T → Type ℓ) : Type ℓ where
  pub reflexive : (t : T) → R t t
  pub transitive : (s t u : T) → R s t → R t u → R s u

module _ {ℓ} {T : Type ℓ} {R : T → T → Type ℓ} (p : IsPreorder R) where
  module _ {A : Type ℓ} where
    pub Keeps-pure : (a : A) → Keeps R (pure {T = T} a)
    unfolding pure
    Keeps-pure a = record { at = λ w. p.reflexive w.tables }

    pub Keeps-raise : (e : Error) → Keeps R (raise {T = T} {A = A} e)
    unfolding raise
    Keeps-raise e = record { at = λ w. p.reflexive w.tables }

    pub Keeps-lift : (r : Result A) → Keeps R (lift {T = T} r)
    unfolding lift
    Keeps-lift r = record { at = λ w. p.reflexive w.tables }

    call_on-R :
        (f : T → Result A × T) (faults : List Bool) (t : T)
        → R t (f t).1
        → R t (call_on f faults t).1.tables
    unfolding call_on run_on
    call_on-R f [] t h = h
    call_on-R f (true ∷ faults) t h = p.reflexive t
    call_on-R f (false ∷ faults) t h = h

    pub Keeps-statement : (f : T → Result A × T) → ((t : T) → R t (f t).1) → Keeps R (statement f)
    unfolding statement
    Keeps-statement f h = record { at = λ w. call_on-R f w.faults w.tables (h w.tables) }

    pub Keeps-query : (f : T → Result A) → Keeps R (query f)
    unfolding query
    Keeps-query f = Keeps-statement (λ t. (f t, t)) p.reflexive

    settle-R : (t : T) (r : Result A) (w : World T) → R t w.tables → R t (settle t (r, w)).1.tables
    unfolding settle
    settle-R t (ok a) w h = h
    settle-R t (err e) w h = p.reflexive t

  module _ {A B : Type ℓ} where
    continue-R :
        (s : T) (r : Result A) (f : A → Action T B) (w : World T)
        → R s w.tables
        → ((a : A) → Keeps R (f a))
        → R s (continue r f w).1.tables
    continue-R s (ok a) f w h k = p.transitive s w.tables _ h ((k a).at w)
    continue-R s (err e) f w h k = h

    pub Keeps-bind :
        (m : Action T A) (f : A → Action T B)
        → Keeps R m
        → ((a : A) → Keeps R (f a))
        → Keeps R (m >>= f)
    unfolding ◌>>=◌
    Keeps-bind m f km kf = record {
      at = λ w. let (r, w') = m w in continue-R w.tables r f w' (km.at w) kf;
    }

    pub Keeps-attempt :
        (m : Action T A) (f : Result A → Action T B)
        → Keeps R m
        → ((r : Result A) → Keeps R (f r))
        → Keeps R (attempt m f)
    unfolding attempt
    Keeps-attempt m f km kf = record {
      at = λ w. let (r, w') = m w in p.transitive w.tables w'.tables _ (km.at w) ((kf r).at w');
    }

  module _ {A : Type ℓ} where
    pub Keeps-transaction : (m : Action T A) → Keeps R m → Keeps R (transaction m)
    unfolding transaction
    Keeps-transaction m km = record {
      at = λ w. settle-R w.tables _ _ (
          (Keeps-bind _ _ (Keeps-query _)
              λ _. Keeps-bind _ _ km λ a. Keeps-bind _ _ (Keeps-query _) λ _. Keeps-pure a).at
            w);
    }

    pub Keeps-if :
        (b : Bool) (m n : Action T A) → Keeps R m → Keeps R n → Keeps R (if b then m else n)
    Keeps-if true m n km kn = km
    Keeps-if false m n km kn = kn

  module _ {A B : Type ℓ} where
    -- A look at a result.
    pub Keeps-elim :
        (f : A → Action T B) (g : Error → Action T B) (r : Result A)
        → ((a : A) → Keeps R (f a))
        → ((e : Error) → Keeps R (g e))
        → Keeps R (elim r as (λ _. Action T B) [ ok a ↦ f a | err e ↦ g e ])
    Keeps-elim f g (ok a) h k = h a
    Keeps-elim f g (err e) h k = k e

-- The tables are not written.
abbrev pub Same {ℓ} : {T : Type ℓ} → T → T → Type ℓ
Same s t = t ≡ s

pub Same-preorder {ℓ} : {T : Type ℓ} → IsPreorder (Same {T = T})
Same-preorder = record { reflexive = λ t. refl; transitive = λ s t u h k. k ∙ h }
