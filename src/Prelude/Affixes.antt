-- ===== src/Prelude/Affixes.antt =====
-- Prefixes and suffixes: the tests against concatenation.
use mathlib.Core.List.{reverse-append, reverse-reverse}
use mathlib.Core.Path.{◌≡◌, refl, sym, ap, ◌∙◌}
use mathlib.Core.Bool.{true}
use mathlib.Core.List.{[], ◌∷◌, ◌++◌, reverse}
use native.Mathlib.Omega.{arith}
use harbor_shield.Prelude.Strings.{Text, has_prefix, has_suffix, trim_suffix, drop_prefix}

pub has_prefix_sound : (s p : Text) → has_prefix s p ≡ true → (rest : Text) × (s ≡ p ++ rest)
unfolding has_prefix
has_prefix_sound s [] h = (s, refl)
has_prefix_sound [] (b ∷ p) h = cc
has_prefix_sound (a ∷ s) (b ∷ p) h =
    let (rest, e) = has_prefix_sound s p (ground arith) in (rest, ground arith)

pub has_prefix-append : (p rest : Text) → has_prefix (p ++ rest) p ≡ true
unfolding has_prefix
has_prefix-append [] rest = refl
has_prefix-append (b ∷ p) rest = ground (arith, has_prefix-append p rest)

drop_prefix-append : (p rest : Text) → drop_prefix (p ++ rest) p ≡ rest
unfolding drop_prefix
drop_prefix-append [] rest = refl
drop_prefix-append (b ∷ p) rest = drop_prefix-append p rest

pub has_suffix-append : (s p : Text) → has_suffix (s ++ p) p ≡ true
unfolding has_suffix
has_suffix-append s p = rw reverse-append (has_prefix-append (reverse p) (reverse s))

pub trim_suffix-append : (s p : Text) → trim_suffix (s ++ p) p ≡ s
unfolding trim_suffix
trim_suffix-append s p =
    rw (has_suffix-append s p, reverse-append) (rw drop_prefix-append (reverse-reverse s))

-- A text with a suffix is what TrimSuffix leaves of it, and the suffix.
pub trim_suffix_sound : (s p : Text) → has_suffix s p ≡ true → s ≡ trim_suffix s p ++ p
trim_suffix_sound s p h =
    let (rest, e) = has_prefix_sound (reverse s) (reverse p) (unfold has_suffix in h) in
    let whole : s ≡ reverse rest ++ p =
      sym (reverse-reverse s)
      ∙ (ap reverse e
          ∙ (reverse-append (reverse p) rest ∙ ap (λ t. reverse rest ++ t) (reverse-reverse p))) in
    rw whole (rw trim_suffix-append)
