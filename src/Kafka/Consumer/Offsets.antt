-- ===== src/Kafka/Consumer/Offsets.antt =====
-- Which offsets the consumer commits, and what its loop over a partition skips.
use go_identity_service.Base.{
  ℕ, suc, ◌<◌, ◌==◌, ◌≡◌, sym, ap, ◌∙◌, Bool, true, false, subst, All, List, [], ◌∷◌, if◌then◌else◌,
  arith,
}
use go_identity_service.Apperror.{Error, wrapped, Result, ok, err}
use go_identity_service.World.{
  World, M, ◌>>=◌, pure, fail, on_err, attempt, call, recover, carry_out, next_answer, Answer,
  answered, refused, lost,
}
use go_identity_service.World.Rules.{bind_cases, bind-ok, map_err-ok, call-ok, pair_path}
use go_identity_service.World.Keeps.{Keeps, Keeps-bind, Keeps-pure, Keeps-if}
use go_identity_service.Kafka.Model.{Event, Record}
use go_identity_service.Kafka.Tx.{within_tx}
use go_identity_service.Kafka.Handler.{EventHandler}
use go_identity_service.Kafka.Consumer.{
  event_from_record, process_tx, process_record, commit_offset, commit_records, process_partition,
  next_record,
}
use go_identity_service.Kafka.Consumer.Idempotence.{decode_changes_nothing}
use go_identity_service.Kafka.Consumer.Untouched.{
  offsets, within_tx-offsets, was_processed-offsets, mark_processed-offsets,
}

-- The group's offsets once the record is committed.
abbrev pub advanced : Record → (ℕ → ℕ) → ℕ → ℕ
advanced r committed p = if p == r.partition then suc r.offset else committed p

committed-commit_records :
    (r : Record) (v : World) {v' : World}
    → commit_records r v ≡ (ok tt, v')
    → v'.committed ≡ advanced r v.committed
unfolding commit_records commit_offset
committed-commit_records r v e =
    let (rest, p) = call-ok (commit_offset r) v (map_err-ok _ _ v e) in
    ap (λ (y : Result (Unit {0}) × World). y.1.committed) (sym p)

module _ (handle : EventHandler) (k : (e : Event) → Keeps offsets (handle e)) where
  process_tx-offsets : (e : Event) → Keeps offsets (process_tx handle e)
  unfolding process_tx
  process_tx-offsets e = Keeps-bind _ _ (was_processed-offsets e.event_id) λ processed.
      Keeps-if processed _ _ (Keeps-pure true) (
        Keeps-bind _ _ (k e)
          (λ u. Keeps-bind _ _ (mark_processed-offsets e) (λ u. Keeps-pure false)))

  -- With a handler that leaves the offsets alone, a record that was processed without an error moves the
  -- group's offset in its partition just behind it, and no other offset.
  pub committed-process_record :
      (r : Record) (w : World) {w' : World}
      → process_record handle r w ≡ (ok tt, w')
      → w'.committed ≡ advanced r w.committed
  unfolding process_record
  committed-process_record r w {w'} h = bind-ok _ _ w h λ event v p q.
      bind-ok _ _ v q λ duplicate v1 p1 q1.
        let same : v.committed ≡ w.committed =
          ap (λ (y : Result Event × World). y.1.committed) (sym p)
          ∙ ap offsets ((decode_changes_nothing r).at w) in
        let same1 : v1.committed ≡ v.committed =
          ap (λ (y : Result Bool × World). y.1.committed) (sym p1)
          ∙ (within_tx-offsets _ (process_tx-offsets event)).at v in
        committed-commit_records r v1 q1 ∙ ap (advanced r) (same1 ∙ same)

  module _ (o p : ℕ) where
    -- The group's offset in the partition is past `o`.
    abbrev Past : World → Type 0
    Past w = o < w.committed p

    commit_offset-Past :
        (r : Record) (w : World) → o < r.offset → Past w → Past (commit_offset r w).1
    unfolding commit_offset
    commit_offset-Past r w behind h = ground arith

    call-Past :
        (r : Record) (l : List Answer) (w : World)
        → o < r.offset
        → Past w
        → Past (carry_out (next_answer l w).0 (commit_offset r) (next_answer l w).1).1
    call-Past r [] w behind h = commit_offset-Past r w behind h
    call-Past r (answered ∷ rest) w behind h =
        commit_offset-Past r (record w { answers = rest }) behind h
    call-Past r (refused ∷ rest) w behind h = h
    call-Past r (lost ∷ rest) w behind h =
        commit_offset-Past r (record w { answers = rest }) behind h

    commit_records-Past :
        (r : Record) (w : World) → o < r.offset → Past w → Past (commit_records r w).1
    unfolding commit_records call on_err fail
    commit_records-Past r w behind h =
        go (call (commit_offset r) w).0 (call (commit_offset r) w).1
          (call-Past r w.answers w behind h)
      where
        go :
            (x : Result (Unit {0})) (v : World)
            → Past v
            → Past (recover x (λ e. fail (wrapped "commit kafka record" e)) v).1
        go (ok u) v q = q
        go (err e) v q = q

    -- Whatever becomes of a later record, the offset stays past.
    process_record-Past :
        (r : Record) (w : World) → o < r.offset → Past w → Past (process_record handle r w).1
    unfolding process_record
    process_record-Past r w behind h =
        bind_cases (λ (y : Result (Unit {0}) × World). Past y.1) (event_from_record r) _ w
          (λ event e.
            bind_cases (λ (y : Result (Unit {0}) × World). Past y.1)
              (within_tx (process_tx handle event)) _ (event_from_record r w).1
              (λ b q. commit_records-Past r _ behind (transacted event)) (λ e q. transacted event))
          (λ e q. decoded)
      where
        decoded : Past (event_from_record r w).1
        decoded = subst (λ (v : World). Past v) (sym ((decode_changes_nothing r).at w)) h

        transacted :
            (event : Event) → Past (within_tx (process_tx handle event) (event_from_record r w).1).1
        transacted event =
            subst (λ (f : ℕ → ℕ). o < f p)
              (sym ((within_tx-offsets _ (process_tx-offsets event)).at (event_from_record r w).1))
              decoded

    next_record-Past :
        (m : M (Unit {0})) (x : Result (Unit {0})) (v : World)
        → ((u : World) → Past u → Past (m u).1)
        → Past v
        → Past (next_record handle m x v).1
    unfolding next_record pure
    next_record-Past m (ok u) v next q = next v q
    next_record-Past m (err e) v next q = q

    process_partition-Past :
        (rs : List Record) (w : World)
        → All (λ r. o < r.offset) rs
        → Past w
        → Past (process_partition handle rs w).1
    unfolding process_partition ◌>>=◌ attempt pure
    process_partition-Past [] w behind h = h
    process_partition-Past (r ∷ rs) w behind h =
        next_record-Past (process_partition handle rs) (process_record handle r w).0
          (process_record handle r w).1 (λ u. process_partition-Past rs u behind.1)
          (process_record-Past r w behind.0 h)

  -- The loop over a partition stops at a record that fails.
  world-failed :
      (r : Record) (rs : List Record) (w : World) {e : Error}
      → (process_record handle r w).0 ≡ err e
      → (process_partition handle (r ∷ rs) w).1 ≡ (process_record handle r w).1
  unfolding process_partition ◌>>=◌ attempt pure
  world-failed r rs w h =
      ap (λ x. (next_record handle (process_partition handle rs) x (process_record handle r w).1).1)
        h

  world-succeeded :
      (r : Record) (rs : List Record) (w : World)
      → (process_record handle r w).0 ≡ ok tt
      → (process_partition handle (r ∷ rs) w).1
        ≡ (process_partition handle rs (process_record handle r w).1).1
  unfolding process_partition ◌>>=◌ attempt pure
  world-succeeded r rs w h =
      ap (λ x. (next_record handle (process_partition handle rs) x (process_record handle r w).1).1)
        h

  -- With a handler that leaves the offsets alone: when a record fails, nothing is done for the records
  -- behind it in the batch of its partition; and when the first record of the next batch of the
  -- partition succeeds, and all offsets of that batch are greater than that of the failed record, the
  -- group's offset is past the failed record after this batch, whatever becomes of its other records.
  pub failed_record_passed_over :
      (r1 r2 : Record) (rest1 rest2 : List Record) (w : World) {e : Error}
      → (process_record handle r1 w).0 ≡ err e
      → (process_record handle r2 (process_partition handle (r1 ∷ rest1) w).1).0 ≡ ok tt
      → r2.partition ≡ r1.partition
      → r1.offset < r2.offset
      → All (λ r. r1.offset < r.offset) rest2
      → ((process_partition handle (r1 ∷ rest1) w).1 ≡ (process_record handle r1 w).1)
        × (r1.offset
            < (process_partition handle
                  (r2 ∷ rest2)
                  (process_partition handle (r1 ∷ rest1) w).1).1.committed
                r1.partition)
  failed_record_passed_over r1 r2 rest1 rest2 w h1 h2 same_partition behind later =
      let w1 = (process_partition handle (r1 ∷ rest1) w).1 in
      let committed = committed-process_record r2 w1 (pair_path (process_record handle r2 w1) h2) in
      (
        world-failed r1 rest1 w h1,
        subst (λ (v : World). r1.offset < v.committed r1.partition)
            (sym (world-succeeded r2 rest2 w1 h2))
            (process_partition-Past r1.offset r1.partition rest2 (process_record handle r2 w1).1
              later (rw committed (rw same_partition (ground arith)))),
      )
