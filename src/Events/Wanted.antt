-- ===== src/Events/Wanted.antt =====
-- What the filters of ListDeliveries ask for: internal/events/service.go.
use harbor_shield.Prelude.{
  ◌≡◌, refl, sym, ap, inl, inr, ◌⊎◌, ℕ, true, ◌||◌, [], Option, none, some, Text, text_eq,
  text_eq_iff, ==_iff, arith, Bool-cases,
}
use harbor_shield.Events.Tables.{DeliveryRow}
use harbor_shield.Events.Listing.{DeliveryFilters, status_text, is_wanted_target, passes}

-- The status, the target and the event type are those of the filters that are set.
pub record IsWanted (filters : DeliveryFilters) (d : DeliveryRow) : Type 0 where
  pub status : (filters.status ≡ []) ⊎ (status_text d.status ≡ filters.status)
  pub target : (filters.target_id ≡ none) ⊎ (filters.target_id ≡ some d.target_id)
  pub event : (filters.event_type ≡ []) ⊎ (d.event_type ≡ filters.event_type)

chosen : (s t : Text) → text_eq s [] || text_eq t s ≡ true → (s ≡ []) ⊎ (t ≡ s)
chosen s t h = elim (Bool-cases (text_eq s [])) [
  | inl unset ↦ inl ((text_eq_iff s []).0 unset)
  | inr set ↦ inr ((text_eq_iff t s).0 (ground arith))
]

chosen_target :
    (wanted : Option ℕ) (id : ℕ)
    → is_wanted_target wanted id ≡ true
    → (wanted ≡ none) ⊎ (wanted ≡ some id)
chosen_target none id h = inl refl
chosen_target (some k) id h = inr (ap some (sym ((==_iff id k).0 h)))

pub passes-IsWanted :
    (filters : DeliveryFilters) (d : DeliveryRow) → passes filters d ≡ true → IsWanted filters d
unfolding passes
passes-IsWanted filters d h = record {
  status = chosen filters.status (status_text d.status) (ground arith);
  target = chosen_target filters.target_id d.target_id (ground arith);
  event = chosen filters.event_type d.event_type (ground arith);
}

chosen-test : (s t : Text) → (s ≡ []) ⊎ (t ≡ s) → text_eq s [] || text_eq t s ≡ true
chosen-test s t (inl e) = let unset = (text_eq_iff s []).1 e in ground arith
chosen-test s t (inr e) = let set = (text_eq_iff t s).1 e in ground arith

chosen_target-test :
    (wanted : Option ℕ) (id : ℕ)
    → (wanted ≡ none) ⊎ (wanted ≡ some id)
    → is_wanted_target wanted id ≡ true
chosen_target-test none id h = refl
chosen_target-test (some k) id (inl e) = absurd (cc)
chosen_target-test (some k) id (inr e) = let same : id ≡ k = cc in (==_iff id k).1 same

pub passes_of_IsWanted :
    (filters : DeliveryFilters) (d : DeliveryRow) → IsWanted filters d → passes filters d ≡ true
unfolding passes
passes_of_IsWanted filters d h =
    let status = chosen-test filters.status (status_text d.status) h.status in
    let target = chosen_target-test filters.target_id d.target_id h.target in
    let event = chosen-test filters.event_type d.event_type h.event in ground arith
