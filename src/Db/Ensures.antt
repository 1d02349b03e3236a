-- ===== src/Db/Ensures.antt =====
-- Methods that write more than once: what their result and the tables after it satisfy.
use mathlib.Core.Path.{subst}
use harbor_shield.Prelude.{◌≡◌, refl, sym}
use harbor_shield.Db.{World, Action, lift, ◌>>=◌, continue, attempt}
use harbor_shield.Db.Errors.{Error, Result, ok, err}
use harbor_shield.Db.Keeps.{Keeps, IsPreorder}
use harbor_shield.Db.Triples.{Triple, Always}

-- From tables with `Pre`, the result and the tables after it satisfy `Post`.
abbrev pub After {ℓ} : {T A : Type ℓ} → (T → Type ℓ) → (Result A → T → Type ℓ) → Action T A → Type ℓ
After Pre Post m = Triple Pre (λ t r t'. Post r t') m

module _ {ℓ} {T A B : Type ℓ} (Mid : Result A → T → Type ℓ) (Post : Result B → T → Type ℓ) where
  after_continue :
      (r : Result A) (f : A → Action T B) (w : World T)
      → Mid r w.tables
      → ((a : A) → After {T = T} (Mid (ok a)) Post (f a))
      → ((e : Error) (t : T) → Mid (err e) t → Post (err e) t)
      → Post (continue r f w).0 (continue r f w).1.tables
  after_continue (ok a) f w h k l = (k a).at w h
  after_continue (err e) f w h k l = l e w.tables h

module _ {ℓ} {T A B : Type ℓ} {Pre : T → Type ℓ} {Mid : Result A → T → Type ℓ}
    {Post : Result B → T → Type ℓ} where
  pub After-attempt :
      (m : Action T A) (f : Result A → Action T B)
      → After Pre Mid m
      → ((r : Result A) → After (Mid r) Post (f r))
      → After Pre Post (attempt m f)
  unfolding attempt
  After-attempt m f h k = record { at = λ w p. let (r, w') = m w in (k r).at w' (h.at w p) }

  pub After-bind :
      (m : Action T A) (f : A → Action T B)
      → After Pre Mid m
      → ((a : A) → After (Mid (ok a)) Post (f a))
      → ((e : Error) (t : T) → Mid (err e) t → Post (err e) t)
      → After Pre Post (m >>= f)
  unfolding ◌>>=◌
  After-bind m f h k l = record {
    at = λ w p. let (r, w') = m w in after_continue Mid Post r f w' (h.at w p) k l;
  }

module _ {ℓ} {T A B : Type ℓ} {Pre : T → Type ℓ} {Post : Result B → T → Type ℓ} where
  -- A value that is at hand.
  pub After-lift-bind :
      (a : A) (f : A → Action T B) → After Pre Post (f a) → After Pre Post (lift (ok a) >>= f)
  unfolding ◌>>=◌ lift
  After-lift-bind a f h = record { at = λ w p. h.at w p }

module _ {ℓ} {T A B : Type ℓ} {R : T → T → Type ℓ} (p : IsPreorder R) where
  continue-then :
      (t : T) (r : Result A) (f : A → Action T B) (w : World T)
      → R t w.tables
      → ((a : A) → Keeps R (f a))
      → R t (continue r f w).1.tables
  continue-then t (ok a) f w h k = p.transitive t w.tables _ h ((k a).at w)
  continue-then t (err e) f w h k = h

  -- A first step that needs `Pre`, and then steps that need nothing.
  pub Triple-then :
      {Pre : T → Type ℓ} (m : Action T A) (f : A → Action T B)
      → Triple Pre (λ t _ t'. R t t') m
      → ((a : A) → Keeps R (f a))
      → Triple Pre (λ t _ t'. R t t') (m >>= f)
  unfolding ◌>>=◌
  Triple-then m f h k = record {
    at = λ w q. let (r, w') = m w in continue-then w.tables r f w' (h.at w q) k;
  }

module _ {ℓ} {T A : Type ℓ} {R : T → T → Type ℓ} where
  pub Keeps-of_Triple : (m : Action T A) → Triple Always (λ t _ t'. R t t') m → Keeps R m
  Keeps-of_Triple m h = record { at = λ w. h.at w tt }

  -- Seen from each tables with which the action begins.
  pub Triple-of_After :
      {Pre : T → Type ℓ} (m : Action T A)
      → ((t : T) → Pre t → After (λ s. s ≡ t) (λ r s. R t s) m)
      → Triple Pre (λ t _ t'. R t t') m
  Triple-of_After m h = record { at = λ w q. (h w.tables q).at w refl }

module _ {ℓ} {T A : Type ℓ} {Pre : T → Type ℓ} {Q : T → Result A → T → Type ℓ} where
  pub Triple-from :
      (m : Action T A) → ((t : T) → Pre t → After (λ s. s ≡ t) (λ r s. Q t r s) m) → Triple Pre Q m
  Triple-from m h = record { at = λ w q. (h w.tables q).at w refl }

  pub After-of_Triple :
      (m : Action T A) (t : T) → Pre t → Triple Pre Q m → After (λ s. s ≡ t) (λ r s. Q t r s) m
  After-of_Triple m t p h = record {
    at = λ w e. let (r, w') = m w in subst (λ s. Q s r w'.tables) e (h.at w (subst Pre (sym e) p));
  }
