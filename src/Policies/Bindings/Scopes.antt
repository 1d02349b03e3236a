-- ===== src/Policies/Bindings/Scopes.antt =====
-- ResolveRole prefers a binding to a narrower scope: the wildcard scope comes last.
use harbor_shield.Prelude.{
  ◌≡◌, refl, inl, inr, Bool, true, false, not, ◌&&◌, List, [], ◌∷◌, map, arith, Text, text_eq, any,
  All, AllPairs, AllPairs-keep, AllPairs-order_by, Bool-cases, text_eq_refl,
}
use harbor_shield.Policies.Patterns.{star}
use harbor_shield.Policies.Tables.{Tables, SubjectBinding}
use harbor_shield.Policies.Bindings.{scoped_first, matching_bindings, role_of, first_or}

-- The binding is to every resource.
abbrev pub is_wild : SubjectBinding → Bool
is_wild b = text_eq b.resource star

abbrev pub WildLater : SubjectBinding → SubjectBinding → Type 0
WildLater a b = is_wild a ≡ true → is_wild b ≡ true

scoped_first-up : (a b : SubjectBinding) → scoped_first a b ≡ true → WildLater a b
unfolding scoped_first
scoped_first-up a b h = ground arith

scoped_first-down : (a b : SubjectBinding) → scoped_first a b ≡ false → WildLater b a
unfolding scoped_first
scoped_first-down a b h = ground arith

pub matching_bindings-WildLater :
    (t : Tables) (subject_type subject_id resource : Text)
    → AllPairs WildLater (matching_bindings t subject_type subject_id resource)
unfolding matching_bindings
matching_bindings-WildLater t subject_type subject_id resource = AllPairs-keep WildLater _ _ (
    AllPairs-order_by WildLater scoped_first scoped_first-up scoped_first-down
      (λ a b c h k w. k (h w)) _)

no_scope_after :
    (b : SubjectBinding) (rest : List SubjectBinding)
    → is_wild b ≡ true
    → All (WildLater b) rest
    → any (λ c. not (is_wild c)) rest ≡ false
unfolding any
no_scope_after b [] w h = refl
no_scope_after b (c ∷ rest) w h = ground (arith, h.0 w, no_scope_after b rest w h.1)

-- The role that ResolveRole takes from sorted rows.
abbrev pub chosen : Text → List SubjectBinding → Text
chosen fallback rows = first_or fallback (map role_of rows)

pub chosen_scoped :
    (fallback : Text) (rows : List SubjectBinding)
    → AllPairs WildLater rows
    → any (λ b. not (is_wild b)) rows ≡ true
    → (b : SubjectBinding) × (is_wild b ≡ false)
      × (chosen fallback rows ≡ b.role_name)
      × (any (λ c. text_eq c.resource b.resource && text_eq c.role_name b.role_name) rows ≡ true)
unfolding any
chosen_scoped fallback [] h k = cc
chosen_scoped fallback (b ∷ rest) h k = elim (Bool-cases (is_wild b)) [
  | inl wild ↦ absurd (ground (arith, no_scope_after b rest wild h.0))
  | inr scoped ↦
      (b, scoped, refl, ground (arith, text_eq_refl b.resource, text_eq_refl b.role_name))
]
