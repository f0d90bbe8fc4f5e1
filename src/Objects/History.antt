-- ===== src/Objects/History.antt =====
-- The registry of crates/smb/src/runtime/object_state.rs over a history of calls: it stays a tree.
use smb_rs.Prelude.{
  ℕ, ◌≡◌, refl, subst, inl, inr, List, [], ◌∷◌, arith, Result, ok, err, stuck, >>=-ok, Result-cases,
  Bool-cases,
}
use smb_rs.Objects.Data.{
  ObjectToken, ObjectKind, ObjectError, CloseDecision, parent_not_active, ObjectEffect,
  ObjectRegistry, is_recovering, revoked, closed,
}
use smb_rs.Objects.Registry.{
  new, find_record, create_child, begin_recovery, publish_replacement, descendant_ids,
  revoke_descendants, publish_replacement_revoking_descendants, fail_recovery, phase_after_close,
  begin_close, complete_close, lose_generation, require,
}
use smb_rs.Objects.Hierarchy.{
  IsTree, new-IsTree, alike-IsTree, set_phase-IsTree, begin_recovery-IsTree, revoke_all-AreAlike,
  lose_records-AreAlike,
}
use smb_rs.Objects.Growth.{create_child-IsTree}
use smb_rs.Objects.Replacement.{publish_replacement-IsTree}

-- A call of the registry.
pub data RegistryCall : Type 0 where
  creates : ObjectToken → ObjectKind → RegistryCall
  recovers replaces replaces_revoking fails begins_close completes_close :
      ObjectToken → RegistryCall
  loses_generation : RegistryCall

-- The registry after a call that fails is the one before it.
abbrev kept {ℓ} :
    {A : Type ℓ} → ObjectRegistry → Result ObjectError (ObjectRegistry × A) → ObjectRegistry
kept s (ok x) = x.0
kept s _ = s

abbrev recovered : ObjectRegistry → Result ObjectError ObjectRegistry → ObjectRegistry
recovered s (ok t) = t
recovered s _ = s

unfoldable pub call : ObjectRegistry → RegistryCall → ObjectRegistry
call s (creates parent kind) = kept s (create_child s parent kind)
call s (recovers token) = recovered s (begin_recovery s token)
call s (replaces token) = kept s (publish_replacement s token)
call s (replaces_revoking token) = (publish_replacement_revoking_descendants s token).0
call s (fails token) = kept s (fail_recovery s token)
call s (begins_close token) = kept s (begin_close s token)
call s (completes_close token) = kept s (complete_close s token)
call s loses_generation = (lose_generation s).0

unfoldable pub run : ObjectRegistry → List RegistryCall → ObjectRegistry
run s [] = s
run s (c ∷ cs) = run (call s c) cs

kept-IsTree :
    {A : Type 0} (s : ObjectRegistry) (m : Result ObjectError (ObjectRegistry × A))
    → ((t : ObjectRegistry) (a : A) → m ≡ ok (t, a) → IsTree t)
    → IsTree s
    → IsTree (kept s m)
kept-IsTree s (ok (t, a)) h v = h t a refl
kept-IsTree s (err e) h v = v
kept-IsTree s stuck h v = v

recovered-IsTree :
    (s : ObjectRegistry) (m : Result ObjectError ObjectRegistry)
    → ((t : ObjectRegistry) → m ≡ ok t → IsTree t)
    → IsTree s
    → IsTree (recovered s m)
recovered-IsTree s (ok t) h v = h t refl
recovered-IsTree s (err e) h v = v
recovered-IsTree s stuck h v = v

revoke_descendants-IsTree :
    (s : ObjectRegistry) (ancestor : ObjectToken)
    → IsTree s
    → IsTree (revoke_descendants s ancestor).0
unfolding revoke_descendants
revoke_descendants-IsTree s ancestor v =
    alike-IsTree s (revoke_descendants s ancestor).0
      (revoke_all-AreAlike s.records (descendant_ids s ancestor s.records)) refl refl v

lose_generation-IsTree : (s : ObjectRegistry) → IsTree s → IsTree (lose_generation s).0
unfolding lose_generation
lose_generation-IsTree s v =
    alike-IsTree s (lose_generation s).0 (lose_records-AreAlike s.records) refl refl v

begin_close-IsTree :
    (s t : ObjectRegistry) (token : ObjectToken) (d : CloseDecision)
    → begin_close s token ≡ ok (t, d)
    → IsTree s
    → IsTree t
unfolding begin_close
begin_close-IsTree s t token d e v =
    let (r, found, e1) = >>=-ok (find_record s token) _ e in
    subst IsTree (ground arith) (set_phase-IsTree s token r (phase_after_close r.phase) found v)

fail_recovery-IsTree :
    (s t : ObjectRegistry) (token : ObjectToken) (es : List ObjectEffect)
    → fail_recovery s token ≡ ok (t, es)
    → IsTree s
    → IsTree t
unfolding fail_recovery
fail_recovery-IsTree s t token es e v =
    let u = (revoke_descendants s token).0 in
    let (r, _, e1) = >>=-ok (find_record s token) _ e in
    let (_, _, e2) = >>=-ok (require (is_recovering r.phase) parent_not_active) _ e1 in
    let (q, found, e3) = >>=-ok (find_record u token) _ e2 in
    subst IsTree (ground arith)
      (set_phase-IsTree u token q revoked found (revoke_descendants-IsTree s token v))

complete_close-IsTree :
    (s t : ObjectRegistry) (token : ObjectToken) (es : List ObjectEffect)
    → complete_close s token ≡ ok (t, es)
    → IsTree s
    → IsTree t
unfolding complete_close
complete_close-IsTree s t token es e v =
    let u = (revoke_descendants s token).0 in
    let (r, _, e1) = >>=-ok (find_record s token) _ e in
    let (q, found, e2) = >>=-ok (find_record u token) _ e1 in
    subst IsTree (ground arith)
      (set_phase-IsTree u token q closed found (revoke_descendants-IsTree s token v))

replaces_revoking-IsTree :
    (s : ObjectRegistry) (token : ObjectToken)
    → IsTree s
    → IsTree (publish_replacement_revoking_descendants s token).0
unfolding publish_replacement_revoking_descendants
replaces_revoking-IsTree s token v = elim (Result-cases (find_record s token)) [
  | inr (inl (e, failed)) ↦ rw (failed, publish_replacement_revoking_descendants) v
  | inr (inr failed) ↦ rw (failed, publish_replacement_revoking_descendants) v
  | inl (r, found) ↦ elim (Bool-cases (is_recovering r.phase)) [
    | inr other ↦ rw (found, publish_replacement_revoking_descendants) (rw other v)
    | inl waiting ↦
        let u = (revoke_descendants s token).0 in
        let w = revoke_descendants-IsTree s token v in
        elim (Result-cases (publish_replacement u token)) [
          | inr (inl (e, failed)) ↦
              rw (found, publish_replacement_revoking_descendants) (rw waiting (rw failed w))
          | inr (inr failed) ↦
              rw (found, publish_replacement_revoking_descendants) (rw waiting (rw failed w))
          | inl ((t, effect), done) ↦
              rw (found, publish_replacement_revoking_descendants)
                (rw waiting (rw done (publish_replacement-IsTree u t token effect done w)))
        ]
  ]
]

call-IsTree : (s : ObjectRegistry) (c : RegistryCall) → IsTree s → IsTree (call s c)
unfolding call
call-IsTree s (creates parent kind) v =
    kept-IsTree s (create_child s parent kind)
      (λ t child e. create_child-IsTree s t parent child kind e v) v
call-IsTree s (recovers token) v =
    recovered-IsTree s (begin_recovery s token) (λ t e. begin_recovery-IsTree s t token e v) v
call-IsTree s (replaces token) v =
    kept-IsTree s (publish_replacement s token)
      (λ t effect e. publish_replacement-IsTree s t token effect e v) v
call-IsTree s (replaces_revoking token) v = replaces_revoking-IsTree s token v
call-IsTree s (fails token) v =
    kept-IsTree s (fail_recovery s token) (λ t es e. fail_recovery-IsTree s t token es e v) v
call-IsTree s (begins_close token) v =
    kept-IsTree s (begin_close s token) (λ t d e. begin_close-IsTree s t token d e v) v
call-IsTree s (completes_close token) v =
    kept-IsTree s (complete_close s token) (λ t es e. complete_close-IsTree s t token es e v) v
call-IsTree s loses_generation v = lose_generation-IsTree s v

run_from-IsTree : (s : ObjectRegistry) (cs : List RegistryCall) → IsTree s → IsTree (run s cs)
unfolding run
run_from-IsTree s [] v = v
run_from-IsTree s (c ∷ cs) v = run_from-IsTree (call s c) cs (call-IsTree s c v)

-- Whatever calls reach a new registry, every record stands under its own id and the registry's
-- generation below the next id, and has a current parent of the kind that its own asks for, with a
-- smaller id, or is the connection.
pub run-IsTree : (g : ℕ) (cs : List RegistryCall) → IsTree (run (new g) cs)
run-IsTree g cs = run_from-IsTree (new g) cs (new-IsTree g)
