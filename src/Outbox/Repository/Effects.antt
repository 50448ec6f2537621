-- ===== src/Outbox/Repository/Effects.antt =====
-- What the methods of the outbox repository wrote, when they returned.
use go_identity_service.Base.{pos, ◌≡◌, none, [], ◌∷◌, ◌++◌, arith}
use go_identity_service.Apperror.{ok}
use go_identity_service.World.{World, Tables, sql_now}
use go_identity_service.World.Rules.{map_err-ok, call-ok}
use go_identity_service.Outbox.Model.{Event, new}
use go_identity_service.Outbox.Repository.{insert_event, create}

-- The row that Create inserts.
abbrev pub event_row : Event → World → Event
event_row e w = record e {
  id = pos w.sequences.event_id;
  status = new;
  attempts = 0;
  last_error = none;
  locked_at = none;
  processed_at = none;
  created_at = sql_now w;
}

abbrev pub with_event : Tables → Event → Tables
with_event t e = record t { outbox_events = t.outbox_events ++ e ∷ [] }

pub record EventCreated (e : Event) (w : World) (w' : World) : Type 0 where
  pub tables : w'.tables ≡ with_event w.tables (event_row e w)
  pub clock : w'.clock ≡ w.clock

insert_event-ok :
    (e : Event) (w : World) {c : Event} {w' : World}
    → insert_event e w ≡ (ok c, w')
    → EventCreated e w w'
unfolding insert_event
insert_event-ok e w h = ground arith

pub create-ok :
    (e : Event) (w : World) {c : Event} {w' : World} → create e w ≡ (ok c, w') → EventCreated e w w'
unfolding create
create-ok e w h =
    let (rest, p) = call-ok (insert_event e) w (map_err-ok _ _ w h) in
    let k = insert_event-ok e (record w { answers = rest }) p in
    record { tables = k.tables; clock = k.clock }
