-- ===== src/Events/Subscriptions.antt =====
-- What the event types of a target are after normalizeEventTypes, and what they match.
use harbor_shield.Prelude.{
  ◌≡◌, refl, sym, ap, ◌∙◌, inl, inr, Bool, true, false, not, ◌&&◌, ◌||◌, List, [], ◌∷◌, ◌++◌, Text,
  codes, text_eq, text_eq_iff, trim_space, arith, any, any-append, is_empty, All, AllPairs,
  All-snoc, AllPairs-snoc, All-of_not_any, Bool-cases,
}
use mathlib.Core.Path.{subst, ap₂}
use harbor_shield.Events.Targets.{
  was_seen, distinct_from, or_all, normalize_event_types, matches_event_type,
}

any_of_seen :
    (f : Text → Bool) (x : Text) (seen : List Text)
    → was_seen x seen ≡ true
    → f x ≡ true
    → any f seen ≡ true
unfolding was_seen any
any_of_seen f x [] h k = cc
any_of_seen f x (s ∷ seen) h k = elim (Bool-cases (text_eq s x)) [
  | inl its ↦
      let found : f s ≡ true = subst (λ y. f y ≡ true) (sym ((text_eq_iff s x).0 its)) k in
      ground (arith, found)
  | inr other ↦ ground (arith, any_of_seen f x seen (ground (arith, other)) k)
]

-- The item is more than spaces.
pub is_named : Text → Bool
is_named item = not (text_eq (trim_space item) [])

module _ (f : Text → Bool) where
  any-distinct_from :
      (out items : List Text)
      → any f (distinct_from out items)
        ≡ (any f out || any (λ i. is_named i && f (trim_space i)) items)
  unfolding distinct_from any is_named
  any-distinct_from out [] = ground arith
  any-distinct_from out (item ∷ items) =
      let x = trim_space item in
      elim (Bool-cases (text_eq x [])) [
        | inl blank ↦ ground (arith, blank, any-distinct_from out items)
        | inr named ↦ elim (Bool-cases (was_seen x out)) [
          | inl seen ↦ elim (Bool-cases (f x)) [
            | inl yes_f ↦
                ground
                  (arith, named, seen, any-distinct_from out items, any_of_seen f x out seen yes_f)
            | inr no_f ↦ ground (arith, named, seen, no_f, any-distinct_from out items)
          ]
          | inr fresh ↦ ground (
            arith,
            named,
            fresh,
            any-distinct_from (out ++ x ∷ []) items,
            any-append f out (x ∷ []),
          )
        ]
      ]

-- Texts that are not empty, and no two of them the same.
pub record IsNameList (items : List Text) : Type 0 where
  pub named : All (λ s. text_eq s [] ≡ false) items
  pub distinct : AllPairs (λ a b. text_eq a b ≡ false) items

IsNameList-distinct_from :
    (out items : List Text) → IsNameList out → IsNameList (distinct_from out items)
unfolding distinct_from was_seen
IsNameList-distinct_from out [] h = h
IsNameList-distinct_from out (item ∷ items) h =
    let x = trim_space item in
    elim (Bool-cases (text_eq x [])) [
      | inl blank ↦ rw blank (IsNameList-distinct_from out items h)
      | inr named ↦ elim (Bool-cases (was_seen x out)) [
        | inl seen ↦ rw (named, seen) (IsNameList-distinct_from out items h)
        | inr fresh ↦
            rw (named, fresh)
              (IsNameList-distinct_from (out ++ x ∷ []) items (record {
                named = All-snoc _ out x h.named named;
                distinct = AllPairs-snoc _ out x h.distinct (All-of_not_any _ out fresh);
              }))
      ]
    ]

-- An item of the list, without its spaces, is `*` or the event type, or no item is more than spaces.
pub is_subscribed : List Text → Text → Bool
is_subscribed items event_type =
    not (any is_named items)
    || any
        (λ i.
          is_named i && (text_eq (trim_space i) (codes "*") || text_eq (trim_space i) event_type))
        items

any-distinct :
    (f : Text → Bool) (items : List Text)
    → any f (distinct_from [] items) ≡ any (λ i. is_named i && f (trim_space i)) items
unfolding any
any-distinct f items = any-distinct_from f [] items

is_empty-not-any : (xs : List Text) → is_empty xs ≡ not (any (λ _. true) xs)
unfolding any
is_empty-not-any [] = refl
is_empty-not-any (x ∷ xs) = refl

any-and_true : (xs : List Text) → any (λ i. is_named i && true) xs ≡ any is_named xs
unfolding any
any-and_true [] = refl
any-and_true (x ∷ xs) = ground (arith, any-and_true xs)

or_all-matches :
    (out : List Text) (event_type : Text)
    → matches_event_type (or_all out) event_type
      ≡ (is_empty out || any (λ i. text_eq i (codes "*") || text_eq i event_type) out)
unfolding matches_event_type any text_eq
or_all-matches [] event_type = refl
or_all-matches (x ∷ out) event_type = refl

is_empty-distinct :
    (items : List Text) → is_empty (distinct_from [] items) ≡ not (any is_named items)
is_empty-distinct items =
    is_empty-not-any (distinct_from [] items)
    ∙ ap not (any-distinct (λ _. true) items ∙ any-and_true items)

is_empty-or_all : (out : List Text) → is_empty (or_all out) ≡ false
is_empty-or_all [] = refl
is_empty-or_all (x ∷ out) = refl

IsNameList-or_all : (out : List Text) → IsNameList out → IsNameList (or_all out)
unfolding text_eq
IsNameList-or_all [] h = record { named = (refl, tt); distinct = (tt, tt) }
IsNameList-or_all (x ∷ out) h = h

-- The normalized event types are texts that are not empty, no two of them equal and at least one;
-- and they match an event type exactly if some item of the given list is `*` or the event type, once
-- its surrounding spaces are dropped, or if no item is more than spaces.
pub normalize_event_types_lem :
    (items : List Text)
    → IsNameList (normalize_event_types items)
      × (is_empty (normalize_event_types items) ≡ false)
      × ((event_type : Text)
          → matches_event_type (normalize_event_types items) event_type
            ≡ is_subscribed items event_type)
unfolding normalize_event_types is_subscribed any
normalize_event_types_lem [] = (
  IsNameList-or_all [] (record { named = tt; distinct = tt }),
  refl,
  λ event_type. or_all-matches [] event_type ∙ refl,
)
normalize_event_types_lem (item ∷ items) =
    let out = distinct_from [] (item ∷ items) in
    (
      IsNameList-or_all out
          (IsNameList-distinct_from [] (item ∷ items) (record { named = tt; distinct = tt })),
      is_empty-or_all out,
      λ event_type.
          or_all-matches out event_type
          ∙ ap₂ (λ a b. a || b) (is_empty-distinct (item ∷ items)) (any-distinct _ (item ∷ items)),
    )
