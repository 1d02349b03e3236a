-- ===== src/Db/Succeeds.antt =====
-- Reads that return a value whenever the driver does not fail.
use harbor_shield.Prelude.{◌≡◌, refl, ap, Bool, true, false, if◌then◌else◌}
use harbor_shield.Db.{calm, Action, pure, query, ◌>>=◌}
use harbor_shield.Db.Errors.{Result, ok}

pub record Succeeds {ℓ} {T A : Type ℓ} (m : Action T A) : Type ℓ where
  pub at : (t : T) → (a : A) × (m (calm t) ≡ (ok a, calm t))

module _ {ℓ} {T A : Type ℓ} where
  pub Succeeds-pure : (a : A) → Succeeds (pure {T = T} a)
  unfolding pure
  Succeeds-pure a = record { at = λ t. (a, refl) }

  pub Succeeds-query : (f : T → Result A) → ((t : T) → (a : A) × (f t ≡ ok a)) → Succeeds (query f)
  unfolding query
  Succeeds-query f h = record { at = λ t. let (a, e) = h t in (a, ap (λ r. (r, calm t)) e) }

  pub Succeeds-if :
      (b : Bool) (m n : Action T A) → Succeeds m → Succeeds n → Succeeds (if b then m else n)
  Succeeds-if true m n h k = h
  Succeeds-if false m n h k = k

module _ {ℓ} {T A B : Type ℓ} where
  pub Succeeds-bind :
      (m : Action T A) (f : A → Action T B)
      → Succeeds m
      → ((a : A) → Succeeds (f a))
      → Succeeds (m >>= f)
  unfolding ◌>>=◌
  Succeeds-bind m f hm hf = record {
    at = λ t. let (a, e) = hm.at t in let (b, k) = (hf a).at t in (b, rw e k);
  }
