-- ===== src/Driver/Waiting.antt =====
-- crates/smb/src/runtime/recovery_driver.rs: the waits in the queue and the reply channels belong to
-- one another, and all of them are answered when a recovery ends.
use smb_rs.Prelude.{
  ℕ, ◌<◌, ◌≡◌, refl, sym, ap, ◌∙◌, subst, Bool, true, false, Option, none, some, List, [], ◌∷◌,
  ◌++◌, map, ◌==◌, Assoc, keys, get, insert, remove, IsDistinct, nat_eq, All, arith, Result, ok,
  err,
}
use smb_rs.Objects.Data.{
  ObjectToken, token_eq, token_iff, RecoveryWait, RecoveryWaitOutcome, ready, ancestor_failed,
}
use smb_rs.Objects.Queue.{
  retain, release, redirect, publish_replacement, release_dependency, fail_all,
}
use smb_rs.Driver.{
  RecoveryError, wait_failed, RecoveryAdmissions, Replies, outcome_id, wait_result, complete_waits,
  finish_recovery, fail_waiters,
}

abbrev pub wait_ids : List RecoveryWait → List ℕ
wait_ids ws = map (λ w. w.id) ws

-- The ids below the next one.
abbrev pub AreUsed : Option ℕ → List ℕ → Type 0
AreUsed none ids = Unit {0}
AreUsed (some next) ids = All (λ id. id < next) ids

pub AreUsed-empty : (next : Option ℕ) → AreUsed next []
AreUsed-empty none = tt
AreUsed-empty (some next) = tt

abbrev pub AreOn : ObjectToken → List RecoveryWait → Type 0
AreOn token ws = All (λ w. w.dependency ≡ token) ws

retain_everything :
    (drops : RecoveryWait → Bool) (outcome : ℕ → RecoveryWaitOutcome) (ws : List RecoveryWait)
    → All (λ w. drops w ≡ true) ws
    → retain drops outcome ws ≡ ([], map outcome (wait_ids ws))
unfolding retain
retain_everything drops outcome [] h = refl
retain_everything drops outcome (w ∷ ws) (h, rest) =
    rw (h, retain_everything drops outcome ws rest) refl

wait_ids-redirect :
    (previous replacement : ObjectToken) (ws : List RecoveryWait)
    → wait_ids (map (redirect previous replacement) ws) ≡ wait_ids ws
wait_ids-redirect previous replacement [] = refl
wait_ids-redirect previous replacement (w ∷ ws) =
    ap (λ (ids : List ℕ). w.id ∷ ids) (wait_ids-redirect previous replacement ws)

All-redirect :
    (previous replacement : ObjectToken) (ws : List RecoveryWait)
    → AreOn previous ws
    → All (λ w. token_eq w.dependency replacement ≡ true) (map (redirect previous replacement) ws)
All-redirect previous replacement [] h = tt
All-redirect previous replacement (w ∷ ws) (h, rest) =
    let same : token_eq w.dependency previous ≡ true = (token_iff w.dependency previous).1 h in
    let itself : token_eq replacement replacement ≡ true =
      (token_iff replacement replacement).1 refl in
    (rw same itself, All-redirect previous replacement ws rest)

map-wait_ids :
    (ws : List RecoveryWait)
    → map (λ w. ancestor_failed w.id) ws ≡ map ancestor_failed (wait_ids ws)
map-wait_ids [] = refl
map-wait_ids (w ∷ ws) =
    ap (λ (outcomes : List RecoveryWaitOutcome). ancestor_failed w.id ∷ outcomes) (map-wait_ids ws)

module _ {Channel : Type 0} where
  -- Every wait has a reply channel of its own and depends on the active connection, and nobody
  -- waits outside a recovery.
  pub record IsConsistent (a : RecoveryAdmissions Channel) : Type 0 where
    pub paired : keys a.completions ≡ wait_ids a.queue.waits
    pub distinct : IsDistinct a.completions
    pub used : AreUsed a.queue.next_id (keys a.completions)
    pub on_active : AreOn a.active_connection a.queue.waits
    pub idle : a.recovering ≡ false → a.queue.waits ≡ []

  -- Every channel gets one answer, the earliest first.
  abbrev pub answer_all : Result RecoveryError ObjectToken → Assoc ℕ Channel → Replies Channel
  answer_all result completions = map (λ entry. (entry.1, result)) completions

  get_below : (next : ℕ) (m : Assoc ℕ Channel) → All (λ id. id < next) (keys m) → get next m ≡ none
  unfolding get
  get_below next [] h = refl
  get_below next ((k, v) ∷ m) (h, rest) = ground (arith, get_below next m rest)

  pub insert_below :
      (next : ℕ) (v : Channel) (m : Assoc ℕ Channel)
      → All (λ id. id < next) (keys m)
      → keys (insert next v m) ≡ keys m ++ next ∷ []
  unfolding insert
  insert_below next v [] h = refl
  insert_below next v ((k, w) ∷ m) (h, rest) =
      let apart : (k == next) ≡ false = ground (arith, h) in
      rw apart (ap (λ (ids : List ℕ). k ∷ ids) (insert_below next v m rest))

  pub remove_absent : (id : ℕ) (m : Assoc ℕ Channel) → get id m ≡ none → remove id m ≡ m
  unfolding get remove
  remove_absent id [] h = refl
  remove_absent id ((k, v) ∷ m) h = ground (arith, remove_absent id m)

  -- Outcomes for all ids in their order empty the completions.
  complete_waits_everything :
      (outcome : ℕ → RecoveryWaitOutcome) (replacement : Option ObjectToken)
      (result : Result RecoveryError ObjectToken) (m : Assoc ℕ Channel)
      → ((id : ℕ) → outcome_id (outcome id) ≡ id)
      → ((id : ℕ) → wait_result (outcome id) replacement ≡ result)
      → IsDistinct m
      → complete_waits (map outcome (keys m)) replacement m ≡ ([], answer_all result m)
  unfolding complete_waits
  complete_waits_everything outcome replacement result [] names gives d = refl
  complete_waits_everything outcome replacement result ((k, v) ∷ m) names gives (fresh, d) =
      let id_of = sym (names k) in
      let found : get (outcome_id (outcome k)) ((k, v) ∷ m) ≡ some v =
        subst (λ id. get id ((k, v) ∷ m) ≡ some v) id_of (unfold get in ground arith) in
      let gone : remove (outcome_id (outcome k)) ((k, v) ∷ m) ≡ m =
        subst (λ id. remove id ((k, v) ∷ m) ≡ m) id_of
          (unfold remove in ground (arith, remove_absent k m fresh)) in
      rw
        (
          complete_waits,
          found,
          gone,
          complete_waits_everything outcome replacement result m names gives d,
          gives k,
        )
        refl

  -- A recovery that ends with a replacement answers every caller that waits with that, in the order
  -- in which they came, and leaves nobody waiting.
  pub finish_recovery_lem :
      (a : RecoveryAdmissions Channel) (replacement : ObjectToken)
      → IsConsistent a
      → finish_recovery replacement a ≡ (
        record {
          active_connection = replacement;
          recovering = false;
          queue = record a.queue { waits = [] };
          completions = [];
        },
        answer_all (ok replacement) a.completions,
      )
  unfolding finish_recovery publish_replacement release_dependency release
  finish_recovery_lem a replacement v =
      let moved = map (redirect a.active_connection replacement) a.queue.waits in
      let all_out : retain (λ w. token_eq w.dependency replacement) ready moved
          ≡ ([], map ready (keys a.completions)) =
        retain_everything (λ w. token_eq w.dependency replacement) ready moved
          (All-redirect a.active_connection replacement a.queue.waits v.on_active)
        ∙ ap (λ (ids : List ℕ). ([], map ready ids))
            (wait_ids-redirect a.active_connection replacement a.queue.waits ∙ sym v.paired) in
      rw
        (
          all_out,
          complete_waits_everything ready (some replacement) (ok replacement) a.completions
              (λ id. refl) (λ id. refl) v.distinct,
        )
        refl

  -- A recovery that fails, or is closed, answers every caller that waits with an error, and leaves
  -- nobody waiting.
  pub fail_waiters_lem :
      (a : RecoveryAdmissions Channel)
      → IsConsistent a
      → fail_waiters a ≡ (
        record a { recovering = false; queue = record a.queue { waits = [] }; completions = [] },
        answer_all (err wait_failed) a.completions,
      )
  unfolding fail_waiters fail_all
  fail_waiters_lem a v =
      let all_out : map (λ w. ancestor_failed w.id) a.queue.waits
          ≡ map ancestor_failed (keys a.completions) =
        map-wait_ids a.queue.waits
        ∙ ap (λ (ids : List ℕ). map ancestor_failed ids) (sym v.paired) in
      rw
        (
          all_out,
          complete_waits_everything ancestor_failed none (err wait_failed) a.completions
              (λ id. refl) (λ id. refl) v.distinct,
        )
        refl
