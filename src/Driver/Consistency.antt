-- ===== src/Driver/Consistency.antt =====
-- crates/smb/src/runtime/recovery_driver.rs: every operation on the admissions keeps waits and reply
-- channels paired.
use smb_rs.Prelude.{
  if_rule, ℕ, ◌+◌, ◌<◌, ◌≡◌, refl, sym, ap, ◌∙◌, subst, true, false, not, ◌||◌, Option, none, some,
  List, [], ◌∷◌, ◌++◌, ◌==◌, leb, keys, insert, insert-IsDistinct, nat_eq, All, length, arith,
  Bool-cases, Option-cases, inl, inr, Result, ok, err, stuck, checked_add, u64_max,
}
use smb_rs.Clock.{MonotonicTime, Duration}
use smb_rs.Reducer.{GenerationId}
use smb_rs.Objects.Data.{ObjectToken, token_eq, token_iff, RecoveryQueue, RecoveryWait, full}
use smb_rs.Objects.Queue.{enqueue}
use smb_rs.Driver.{
  RecoveryError, RecoveryAdmissions, admit, begin_recovery, finish_recovery, fail_waiters,
  remove_wait,
}
use smb_rs.Driver.{Admission, queue_error, resolved, waits, wait_deadline}
use smb_rs.Objects.Data.{RecoveryQueueError}
use smb_rs.Driver.Waiting.{
  wait_ids, AreUsed, AreUsed-empty, AreOn, IsConsistent, insert_below, finish_recovery_lem,
  fail_waiters_lem,
}
use smb_rs.Driver.Removal.{
  left_of, left_of_nil, AreOn-left_of, cancel-left_of, keys-remove, AreUsed-remove,
  remove-IsDistinct,
}

wait_ids-append :
    (ws : List RecoveryWait) (w : RecoveryWait) → wait_ids (ws ++ w ∷ []) ≡ wait_ids ws ++ w.id ∷ []
wait_ids-append [] w = refl
wait_ids-append (x ∷ ws) w = ap (λ (ids : List ℕ). x.id ∷ ids) (wait_ids-append ws w)

AreOn-append :
    (token : ObjectToken) (ws : List RecoveryWait) (w : RecoveryWait)
    → AreOn token ws
    → w.dependency ≡ token
    → AreOn token (ws ++ w ∷ [])
AreOn-append token [] w h e = (e, tt)
AreOn-append token (x ∷ ws) w (h, rest) e = (h, AreOn-append token ws w rest e)

All-below-append :
    (id : ℕ) (ids : List ℕ) → All (λ k. k < id) ids → All (λ k. k < id + 1) (ids ++ id ∷ [])
All-below-append id [] h = (omega arith, tt)
All-below-append id (k ∷ ids) (h, rest) = (omega (arith, h), All-below-append id ids rest)

AreUsed-append :
    (id : ℕ) (ids : List ℕ)
    → All (λ k. k < id) ids
    → AreUsed (checked_add u64_max id 1) (ids ++ id ∷ [])
AreUsed-append id ids h =
    if_rule (λ (next : Option ℕ). AreUsed next (ids ++ id ∷ [])) (leb (id + 1) u64_max)
      (λ e. All-below-append id ids h) (λ e. tt)

module _ (q : RecoveryQueue) (dependency : ObjectToken) (until : MonotonicTime) where
  enqueue_full :
      leb q.capacity (length q.waits) ≡ true → enqueue q dependency (some until) ≡ (q, err full)
  unfolding enqueue
  enqueue_full h = rw (enqueue, h) refl

  enqueue_exhausted :
      leb q.capacity (length q.waits) ≡ false
      → q.next_id ≡ none
      → enqueue q dependency (some until) ≡ (q, err RecoveryQueueError.id_exhausted)
  unfolding enqueue
  enqueue_exhausted h e = ground (arith, h, e)

  enqueue_next :
      (id : ℕ)
      → leb q.capacity (length q.waits) ≡ false
      → q.next_id ≡ some id
      → enqueue q dependency (some until) ≡ (
        record q {
          next_id = checked_add u64_max id 1;
          waits =
              q.waits ++ record { id = id; dependency = dependency; deadline = some until } ∷ [];
        },
        ok id,
      )
  unfolding enqueue
  enqueue_next id h e = ground (arith, h, e)

module _ {Channel : Type 0} where
  -- Admissions outside a recovery, with nobody waiting.
  IsConsistent-settled :
      (token : ObjectToken) (q : RecoveryQueue)
      → IsConsistent {Channel = Channel} (record {
        active_connection = token;
        recovering = false;
        queue = record q { waits = [] };
        completions = [];
      })
  IsConsistent-settled token q = record {
    paired = refl;
    distinct = tt;
    used = AreUsed-empty q.next_id;
    on_active = tt;
    idle = λ h. refl;
  }

  pub finish_recovery-IsConsistent :
      (replacement : ObjectToken) (a : RecoveryAdmissions Channel)
      → IsConsistent a
      → IsConsistent (finish_recovery replacement a).0
  finish_recovery-IsConsistent replacement a v =
      rw (finish_recovery_lem a replacement v) (IsConsistent-settled replacement a.queue)

  pub fail_waiters-IsConsistent :
      (a : RecoveryAdmissions Channel) → IsConsistent a → IsConsistent (fail_waiters a).0
  fail_waiters-IsConsistent a v =
      rw (fail_waiters_lem a v) (IsConsistent-settled a.active_connection a.queue)

  pub begin_recovery-IsConsistent :
      (generation : GenerationId) (a : RecoveryAdmissions Channel)
      → IsConsistent a
      → IsConsistent (begin_recovery generation a).0
  unfolding begin_recovery
  begin_recovery-IsConsistent generation a v =
      if_rule (λ (r : RecoveryAdmissions Channel × Option RecoveryError). IsConsistent r.0)
        (not (a.active_connection.generation == generation) || a.recovering) (λ h. v)
        (λ h. record {
          paired = v.paired;
          distinct = v.distinct;
          used = v.used;
          on_active = v.on_active;
          idle = λ e. absurd (cc e);
        })

  -- A caller that enters the queue.
  queued-IsConsistent :
      (id : ℕ) (until : MonotonicTime) (reply : Channel) (a : RecoveryAdmissions Channel)
      → a.recovering ≡ true
      → a.queue.next_id ≡ some id
      → IsConsistent a
      → IsConsistent (record a {
        queue = record a.queue {
          next_id = checked_add u64_max id 1;
          waits =
              a.queue.waits
              ++ record { id = id; dependency = a.active_connection; deadline = some until } ∷ [];
        };
        completions = insert id reply a.completions;
      })
  queued-IsConsistent id until reply a on next v =
      let below : All (λ k. k < id) (keys a.completions) =
        subst (λ n. AreUsed n (keys a.completions)) next v.used in
      let wait : RecoveryWait = record {
        id = id;
        dependency = a.active_connection;
        deadline = some until;
      } in
      let keyed = insert_below id reply a.completions below in
      record {
        paired =
            keyed
            ∙ ap (λ (ids : List ℕ). ids ++ id ∷ []) v.paired
            ∙ sym (wait_ids-append a.queue.waits wait);
        distinct = insert-IsDistinct id reply a.completions v.distinct;
        used =
            subst (AreUsed (checked_add u64_max id 1)) (sym keyed)
              (AreUsed-append id (keys a.completions) below);
        on_active = AreOn-append a.active_connection a.queue.waits wait v.on_active refl;
        idle = λ e. absurd (cc e);
      }

  -- What `admit` makes of the answer of the queue is consistent.
  abbrev Enters :
      (until : MonotonicTime) (reply : Channel) (a : RecoveryAdmissions Channel)
      → RecoveryQueue × Result RecoveryQueueError ℕ
      → Type 0
  Enters until reply a (queue, ok id) =
      IsConsistent (record a { queue = queue; completions = insert id reply a.completions })
  Enters until reply a (queue, err e) = IsConsistent (record a { queue = queue })
  Enters until reply a (queue, stuck) = IsConsistent a

  entered-IsConsistent :
      (until : MonotonicTime) (reply : Channel) (a : RecoveryAdmissions Channel)
      (r : RecoveryQueue × Result RecoveryQueueError ℕ)
      → Enters until reply a r
      → IsConsistent
          (elim r.1 as (λ r'. RecoveryAdmissions Channel × Admission) [
            | ok id ↦ (
              record a { queue = r.0; completions = insert id reply a.completions },
              waits id until,
            )
            | err e ↦ (record a { queue = r.0 }, resolved (err (queue_error e)))
            | stuck ↦ (a, resolved stuck)
          ]).0
  entered-IsConsistent until reply a (queue, ok id) h = h
  entered-IsConsistent until reply a (queue, err e) h = h
  entered-IsConsistent until reply a (queue, stuck) h = h

  enqueue-Enters :
      (until : MonotonicTime) (reply : Channel) (a : RecoveryAdmissions Channel)
      → a.recovering ≡ true
      → IsConsistent a
      → Enters until reply a (enqueue a.queue a.active_connection (some until))
  enqueue-Enters until reply a on v =
      let token = a.active_connection in
      elim (Bool-cases (leb a.queue.capacity (length a.queue.waits))) [
        | inl crowded ↦
            subst (Enters until reply a) (sym (enqueue_full a.queue token until crowded)) v
        | inr room ↦ elim (Option-cases a.queue.next_id) [
          | inl exhausted ↦
              subst (Enters until reply a)
                (sym (enqueue_exhausted a.queue token until room exhausted)) v
          | inr (id, next) ↦
              subst (Enters until reply a) (sym (enqueue_next a.queue token until id room next))
                (queued-IsConsistent id until reply a on next v)
        ]
      ]

  pub admit-IsConsistent :
      (default_wait : Duration) (now : MonotonicTime) (dependency : ObjectToken)
      (deadline : Option MonotonicTime) (reply : Channel) (a : RecoveryAdmissions Channel)
      → IsConsistent a
      → IsConsistent (admit default_wait now dependency deadline reply a).0
  unfolding admit
  admit-IsConsistent default_wait now dependency deadline reply a v =
      if_rule (λ (r : RecoveryAdmissions Channel × Admission). IsConsistent r.0) (not a.recovering)
        (λ h. v)
        (λ on.
          if_rule (λ (r : RecoveryAdmissions Channel × Admission). IsConsistent r.0)
            (not (token_eq dependency a.active_connection)) (λ h. v)
            (λ same.
              let at : dependency ≡ a.active_connection =
                (token_iff dependency a.active_connection).0 (ground (arith, same)) in
              let until = wait_deadline default_wait now deadline in
              let recovering : a.recovering ≡ true = ground (arith, on) in
              entered-IsConsistent until reply a _ (
                subst (λ token. Enters until reply a (enqueue a.queue token (some until))) (sym at)
                  (enqueue-Enters until reply a recovering v))))

  pub remove_wait-IsConsistent :
      (id : ℕ) (a : RecoveryAdmissions Channel) → IsConsistent a → IsConsistent (remove_wait id a)
  unfolding remove_wait
  remove_wait-IsConsistent id a v = rw (cancel-left_of a.queue id) (record {
    paired = keys-remove id a.completions a.queue.waits v.paired v.distinct;
    distinct = remove-IsDistinct id a.completions v.distinct;
    used = AreUsed-remove a.queue.next_id id a.completions v.used;
    on_active = AreOn-left_of id a.active_connection a.queue.waits v.on_active;
    idle = λ e. ap (left_of id) (v.idle e) ∙ left_of_nil id;
  })
