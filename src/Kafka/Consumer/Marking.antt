-- ===== src/Kafka/Consumer/Marking.antt =====
-- The transaction of processRecord in internal/kafkaconsumer/consumer.go: the handler and the mark.
use go_identity_service.Base.{
  [], ◌∷◌, ◌++◌, Text, ◌≡◌, refl, sym, ap, subst, ◌∙◌, Bool, true, false, ◌⊎◌, inl, inr, any,
  any-append_last, if◌then◌else◌, Bool-cases, text_eq_refl, arith,
}
use go_identity_service.Apperror.{Error, Result, ok, err}
use go_identity_service.World.{World, Tables, ◌>>◌, pure}
use go_identity_service.World.Rules.{bind-ok, map_err-ok, call-ok, pure-ok}
use go_identity_service.World.Transaction.{TxOutcome, committed, in_doubt, rolled_back}
use go_identity_service.Kafka.Model.{Event}
use go_identity_service.Kafka.Stores.{
  is_row_of, row_of, select_processed, was_processed, insert_processed, mark_processed,
}
use go_identity_service.Kafka.Handler.{EventHandler}
use go_identity_service.Kafka.Consumer.{process_tx}

-- Whether the idempotency table has the event.
abbrev pub is_processed : Text → Tables → Bool
is_processed event_id t = any (is_row_of event_id) t.processed_kafka_events

was_processed-ok :
    (event_id : Text) (w : World) {b : Bool} {w' : World}
    → was_processed event_id w ≡ (ok b, w')
    → (b ≡ is_processed event_id w.tables) × (w'.tables ≡ w.tables)
unfolding was_processed
was_processed-ok event_id w h =
    let (rest, e) = call-ok (select_processed event_id) w (map_err-ok _ _ w h) in
    unfold select_processed in ground arith

-- The tables with the event in the idempotency table.
abbrev pub with_processed : Event → Tables → Tables
with_processed e t =
    if is_processed e.event_id t
    then t
    else record t { processed_kafka_events = t.processed_kafka_events ++ row_of e ∷ [] }

pub is_processed-with_processed :
    (e : Event) (t : Tables) → is_processed e.event_id (with_processed e t) ≡ true
unfolding is_row_of
is_processed-with_processed e t = elim (Bool-cases (is_processed e.event_id t)) [
  | inl old ↦ rw old old
  | inr new ↦ rw new (
      any-append_last (is_row_of e.event_id) t.processed_kafka_events (row_of e)
        (text_eq_refl e.event_id))
]

tables-insert_processed :
    (e : Event) (w : World) → (insert_processed e w).1.tables ≡ with_processed e w.tables
unfolding insert_processed
tables-insert_processed e w = elim (Bool-cases (is_processed e.event_id w.tables)) [
  | inl old ↦ rw old refl
  | inr new ↦ rw new refl
]

mark_processed-ok :
    (e : Event) (w : World) {w' : World}
    → mark_processed e w ≡ (ok tt, w')
    → w'.tables ≡ with_processed e w.tables
unfolding mark_processed
mark_processed-ok e w {w'} h =
    let (rest, p) = call-ok (insert_processed e) w (map_err-ok _ _ w h) in
    ap (λ (y : Result (Unit {0}) × World). y.1.tables) (sym p)
    ∙ tables-insert_processed e (record w { answers = rest })

-- The event was new: the handler was called for it with these tables and returned, and then the event
-- was written into the idempotency table.
pub record Delivered (handle : EventHandler) (e : Event) (t t' : Tables) : Type 0 where
  pub new : is_processed e.event_id t ≡ false
  pub before : World
  pub after : World
  pub same : before.tables ≡ t
  pub handled : handle e before ≡ (ok tt, after)
  pub noted : t' ≡ with_processed e after.tables

-- The transaction found the event in the table and changed nothing, or delivered it to the handler.
abbrev pub Handled : EventHandler → Event → Tables → Tables → Bool → Type 0
Handled handle e t t' duplicate =
    ((duplicate ≡ true) × (is_processed e.event_id t ≡ true) × (t' ≡ t))
    ⊎ ((duplicate ≡ false) × Delivered handle e t t')

module _ (handle : EventHandler) where
  process_tx-ok :
      (e : Event) (w : World) {b : Bool} {w' : World}
      → process_tx handle e w ≡ (ok b, w')
      → Handled handle e w.tables w'.tables b
  unfolding process_tx
  process_tx-ok e w h = bind-ok _ _ w h λ processed v p q.
      let (is_b, same) = was_processed-ok e.event_id w p in branch processed v is_b same q
    where
      branch :
          (processed : Bool) (v : World) {b : Bool} {w' : World}
          → processed ≡ is_processed e.event_id w.tables
          → v.tables ≡ w.tables
          → (if processed then pure true else (do handle e; mark_processed e; pure false)) v
            ≡ (ok b, w')
          → Handled handle e w.tables w'.tables b
      branch true v is_b same q =
          let (is_r, is_w) = pure-ok true v q in
          inl (sym is_r, sym is_b, ap (λ (y : World). y.tables) (sym is_w) ∙ same)
      branch false v is_b same q = bind-ok _ _ v q λ u v1 p1 q1. bind-ok _ _ v1 q1 λ u2 v2 p2 q2.
          let (is_r, is_w) = pure-ok false v2 q2 in
          inr (
            sym is_r,
            record {
              new = sym is_b;
              before = v;
              after = v1;
              same = same;
              handled = p1;
              noted = ap (λ (y : World). y.tables) (sym is_w) ∙ mark_processed-ok e v1 p2;
            },
          )

  -- What the transaction left when it returned, and what it left when it failed.
  pub returned-Handled :
      (e : Event) (w : World) {b : Bool} {r : Result Bool × World}
      → TxOutcome (process_tx handle e) w r
      → r.0 ≡ ok b
      → Handled handle e w.tables r.1.tables b
  returned-Handled e w {b} {r} (committed rest v a p t q) h =
      subst (λ (c : Bool). Handled handle e w.tables r.1.tables c) (cc)
        (subst (λ (y : Tables). Handled handle e w.tables y a) (sym t) (process_tx-ok e _ p))
  returned-Handled e w (in_doubt rest v a e' starts p reply t q) h = cc
  returned-Handled e w (rolled_back e' t q) h = cc

  pub failed-Handled :
      (e : Event) (w : World) {e' : Error} {r : Result Bool × World}
      → TxOutcome (process_tx handle e) w r
      → r.0 ≡ err e'
      → (r.1.tables ≡ w.tables) ⊎ ((b : Bool) × Handled handle e w.tables r.1.tables b)
  failed-Handled e w (committed rest v a p t q) h = cc
  failed-Handled e w (in_doubt rest v a e'' starts p reply t q) h =
      inr (a, subst (λ (y : Tables). Handled handle e w.tables y a) (sym t) (process_tx-ok e _ p))
  failed-Handled e w (rolled_back e'' t q) h = inl t
