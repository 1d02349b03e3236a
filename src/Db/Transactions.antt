-- ===== src/Db/Transactions.antt =====
-- A transaction leaves what its body leaves if it is committed, and else the tables as they were.
use mathlib.Core.Path.{subst}
use harbor_shield.Prelude.{◌≡◌, sym}
use harbor_shield.Db.{World, Action, pure, query, ◌>>=◌, continue, settle, transaction}
use harbor_shield.Db.Errors.{Error, Result, ok, err}
use harbor_shield.Db.Returns.{tables-query}
use harbor_shield.Db.Triples.{Triple}

-- What holds if a value is returned.
abbrev pub OnOk {ℓ} : {T A : Type ℓ} → (T → Result A → T → Type ℓ) → T → Result A → T → Type ℓ
OnOk Q t (ok a) s = Q t (ok a) s
OnOk Q t (err e) s = Unit

module _ {ℓ} {T A : Type ℓ} (Q : T → Result A → T → Type ℓ) (t : T)
    (undone : (e : Error) → Q t (err e) t) where
  -- What the transaction returns and leaves, from what the inside of it does.
  abbrev Settled : Result A × World T → Type ℓ
  Settled p = Q t (settle t p).0 (settle t p).1.tables

  committed :
      (a : A) (r : Result (Unit {ℓ})) (w : World T)
      → Q t (ok a) w.tables
      → Settled (continue r (λ _. pure a) w)
  unfolding settle pure
  committed a (ok u) w h = h
  committed a (err e) w h = undone e

  after_body :
      (r : Result A) (w : World T)
      → OnOk Q t r w.tables
      → Settled (continue r (λ a. query (λ _. ok tt) >>= λ _. pure a) w)
  unfolding settle ◌>>=◌
  after_body (ok a) w h =
      let (r, w') = query (λ _. ok tt) w in
      committed a r w' (subst (Q t (ok a)) (sym (tables-query (λ _. ok tt) w)) h)
  after_body (err e) w h = undone e

  after_begin :
      {Pre : T → Type ℓ} (m : Action T A) (r : Result (Unit {ℓ})) (w : World T)
      → Triple Pre (OnOk Q) m
      → w.tables ≡ t
      → Pre t
      → Settled (continue r (λ _. m >>= λ a. query (λ _. ok tt) >>= λ _. pure a) w)
  unfolding settle ◌>>=◌
  after_begin {Pre = Pre} m (ok u) w h e p =
      let (r, w') = m w in
      after_body r w' (subst (λ s. OnOk Q s r w'.tables) e (h.at w (subst Pre (sym e) p)))
  after_begin m (err x) w h e p = undone x

OnOk-imp {ℓ} :
    {T A : Type ℓ} (Q : T → Result A → T → Type ℓ) (t : T) (r : Result A) (s : T)
    → Q t r s
    → OnOk Q t r s
OnOk-imp Q t (ok a) s h = h
OnOk-imp Q t (err e) s h = tt

module _ {ℓ} {T A : Type ℓ} {Pre : T → Type ℓ} {Q : T → Result A → T → Type ℓ} where
  -- Of the body it is enough to know what holds when it returns a value.
  pub Triple-committed :
      (m : Action T A)
      → ((t : T) (e : Error) → Pre t → Q t (err e) t)
      → Triple Pre (OnOk Q) m
      → Triple Pre Q (transaction m)
  unfolding transaction ◌>>=◌
  Triple-committed m undone h = record {
    at = λ w p.
        let (r, w') = query {A = Unit {ℓ}} (λ _. ok tt) w in
        after_begin Q w.tables (λ e. undone w.tables e p) m r w' h (tables-query (λ _. ok tt) w) p;
  }

  pub Triple-transaction :
      (m : Action T A)
      → ((t : T) (e : Error) → Pre t → Q t (err e) t)
      → Triple Pre Q m
      → Triple Pre Q (transaction m)
  Triple-transaction m undone h =
      Triple-committed m undone (record { at = λ w p. OnOk-imp Q _ _ _ (h.at w p) })
