-- ===== src/Events/Tests.antt =====
-- A target, its event types, and deliveries to it.
use harbor_shield.Prelude.{
  ◌≡◌, refl, arith, true, false, none, some, List, [], ◌∷◌, ◌++◌, Text, codes, text_eq, trim_space,
  trim_left, is_space, any, keep, is_empty, All, order_by, insert_by, ◌==◌,
}
use harbor_shield.Db.{calm, statement, query, attempt, transaction, pure, ◌>>=◌}
use harbor_shield.Db.Errors.{ok}
use harbor_shield.Events.Tables.{
  TargetRow, retrying, running, dead_letter, DeliveryRow, EventTables,
}
use harbor_shield.Events.Targets.{
  was_seen, distinct_from, normalize_event_types, matches_event_type, emit,
}
use harbor_shield.Events.Deliveries.{
  answered, Outside, is_claimable, is_sooner, next_delivery, claim_delivery, joined, job_of,
  claim_next_delivery, status_after, next_run, failed_row, rewrite_delivery, record_audit,
  mark_failure, record_response, deliver_request, deliver_one, deliver_loop, deliver_pending,
}
use harbor_shield.Db.Triples.{Reads, Always}
use harbor_shield.Events.Listing.{DeliveryFilters, list_deliveries}
use harbor_shield.Events.Pages.{IsPage, list_deliveries-IsPage}
use harbor_shield.Events.Subscriptions.{IsNameList, is_subscribed, normalize_event_types_lem}
use harbor_shield.Events.Emission.{waiting, listening, emit_lem}
use harbor_shield.Events.Schedule.{IsTracked}
use harbor_shield.Events.Tries.{deliver_pending-keeps_schedule}
use harbor_shield.Events.Attempts.{Has, IsNotWaiting, deliver_pending-keeps_settled}

abbrev types : List Text
types = codes " object.created" ∷ [] ∷ codes "object.created" ∷ codes "bucket.deleted" ∷ []

types_normalized :
    normalize_event_types types ≡ codes "object.created" ∷ codes "bucket.deleted" ∷ []
unfolding normalize_event_types distinct_from was_seen any trim_space trim_left is_space text_eq
types_normalized = refl

normalize_event_types_example :
    IsNameList (normalize_event_types types)
    × (is_empty (normalize_event_types types) ≡ false)
    × ((event_type : Text)
        → matches_event_type (normalize_event_types types) event_type
          ≡ is_subscribed types event_type)
normalize_event_types_example = normalize_event_types_lem types

abbrev hook : TargetRow
hook = record {
  id = 1;
  name = codes "hook";
  endpoint_url = codes "https://h";
  signing_secret_ciphertext = [];
  event_types = codes "object.created" ∷ [];
  enabled = true;
  created_at = 0;
}

abbrev stuck : DeliveryRow
stuck = record {
  id = 5;
  target_id = 1;
  event_type = codes "object.created";
  payload = codes "{}";
  status = running;
  attempts = 0;
  next_attempt_at = 0;
  last_error = [];
  last_response_code = none;
  created_at = 0;
  updated_at = 0;
}

abbrev last_try : DeliveryRow
last_try = record stuck { id = 6; status = retrying; attempts = 4 }

abbrev tables : EventTables
tables = record { targets = hook ∷ []; deliveries = stuck ∷ last_try ∷ []; audit_log = [] }

-- Every request is answered with 500.
abbrev failing : Outside
failing = record {
  bad_request = λ url. none;
  open_secret = λ ciphertext. none;
  open_error = codes "open";
  sign = λ secret payload. [];
  send = λ now item signature. answered 500;
  unexpected_status = λ code. codes "unexpected status";
}

given_up :
    (deliver_pending failing true 100 3 (calm tables)).1.tables.deliveries
    ≡ stuck
      ∷ (record last_try {
        status = dead_letter;
        attempts = 5;
        next_attempt_at = 100;
        last_error = codes "unexpected status";
        last_response_code = some 500;
        updated_at = 100;
      })
      ∷ []
unfolding deliver_pending deliver_loop claim_next_delivery claim_delivery next_delivery is_claimable
    is_sooner joined job_of deliver_one deliver_request record_response mark_failure failed_row
    status_after next_run rewrite_delivery record_audit order_by insert_by any text_eq transaction
    attempt statement query pure ◌>>=◌
given_up = refl

stuck_is_settled : All (λ d. IsNotWaiting d.status) (keep (λ d. d.id == 5) tables.deliveries)
stuck_is_settled = (((λ e. cc), (λ e. cc)), tt)

deliver_pending-keeps_settled_example :
    keep (λ d. d.id == 5) (deliver_pending failing true 100 3 (calm tables)).1.tables.deliveries
    ≡ keep (λ d. d.id == 5) tables.deliveries
deliver_pending-keeps_settled_example =
    deliver_pending-keeps_settled failing true 100 3 5 (calm tables) stuck_is_settled

emit_example : emit 100 9 (codes "object.created") (codes "{}") (calm tables) ≡ (
  ok tt,
  calm (record tables {
    deliveries =
        tables.deliveries
        ++ waiting 100 9
            (codes "object.created")
            (codes "{}")
            (listening tables (codes "object.created"));
  }),
)
emit_example = emit_lem 100 9 (codes "object.created") (codes "{}") tables

abbrev dead_letters : DeliveryFilters
dead_letters = record {
  status = codes "dead_letter";
  target_id = some 1;
  event_type = [];
  limit = 5000;
}

list_deliveries-IsPage_example :
    Reads Always (λ t page. IsPage dead_letters t page) (list_deliveries dead_letters)
list_deliveries-IsPage_example = list_deliveries-IsPage dead_letters

last_try-IsTracked : IsTracked 6 tables
unfolding IsTracked Has
last_try-IsTracked = (last_try, refl, record { most = omega arith; unfinished = λ u. omega arith })

deliver_pending-keeps_schedule_example :
    IsTracked 6 (deliver_pending failing true 100 3 (calm tables)).1.tables
deliver_pending-keeps_schedule_example =
    deliver_pending-keeps_schedule failing true 100 3 6 (calm tables) last_try-IsTracked
