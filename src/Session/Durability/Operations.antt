-- ===== src/Session/Durability/Operations.antt =====
-- A successful operation has stored what it returns, and changed the loaded record as planned.
use mathlib.Core.Path.{subst, subst₂}
use podlaz.Common.{suc, ◌≡◌, ◌≢◌, ◌∙◌, Option, none, some, Result, ok, arith, refl}
use podlaz.Api.{ConnectRequest, validate_connect_request}
use podlaz.Session.Model.{SessionState, Error, resume, max_epoch}
use podlaz.Session.Model
use podlaz.Session.Validation.{wrap}
use podlaz.Session.Plan.{Plan, return_as_is, store_first, plan_resume, fresh_state, advance_epoch}
use podlaz.Session.Plan.Resume.{planned, plan_resume-SameSession}
use podlaz.Session.Io.{Env, World, lift, load_locked, save, current_boot_id, new_session_id}
use podlaz.Session.Store.{
  save_and_return, perform, begin, begin_or_resume, apply_update, update, begin_recovery_attempt,
}
use podlaz.Session.Durability.{Stores, after-eq-ok, after-pure-eq-ok, save-Stores}
use podlaz.Session.Durability.Load.{load_locked-Loads}

module _ (env : Env) where
  save_and_return-Stores :
      (x : SessionState) (d : World) (s : SessionState) (d' : World)
      → save_and_return env x d ≡ (ok s, d')
      → Stores d' s × (x ≡ s)
  unfolding save_and_return
  save_and_return-Stores x d s d' h =
      let (u, saved, same) = after-pure-eq-ok x (save env x d) h in
      (subst (Stores d') same (save-Stores env x d saved), same)

  return_as_is-eq :
      (x : SessionState) (r : ConnectRequest) {y : SessionState}
      → plan_resume x r ≡ ok (return_as_is y)
      → x ≡ y
  unfolding plan_resume
  return_as_is-eq x r h = ground arith

  perform-Stores :
      (x : SessionState) (r : ConnectRequest) (p : Plan) (d : World) (s : SessionState) (d' : World)
      → Stores d x
      → plan_resume x r ≡ ok p
      → perform env p d ≡ (ok s, d')
      → Stores d' s × (planned p ≡ s)
  unfolding perform
  perform-Stores x r (return_as_is y) d s d' st e h =
      let moved : d ≡ d' = ground arith in
      let same : y ≡ s = ground arith in
      (subst₂ Stores moved (return_as_is-eq x r e ∙ same) st, same)
  perform-Stores x r (store_first y) d s d' st e h = save_and_return-Stores y d s d' h

  begin-Stores :
      (r : ConnectRequest) (o : Option SessionState) (d : World) (s : SessionState) (d' : World)
      → ((x : SessionState) → o ≡ some x → Stores d x)
      → begin env r o d ≡ (ok s, d')
      → Stores d' s × (s.request ≡ r) × (s.intent ≡ resume)
  unfolding begin
  begin-Stores r (some x) d s d' st h =
      let (p, e, lifted, h1) = after-eq-ok (perform env) (lift (plan_resume x r) d) h in
      let planned_ok : plan_resume x r ≡ ok p = ground arith in
      let same_world : d ≡ e = ground arith in
      let (stored, same) =
        perform-Stores x r p e s d' (subst (λ w. Stores w x) same_world (st x refl)) planned_ok
          h1 in
      let (kept, asked, resumed) = plan_resume-SameSession x r planned_ok in
      (stored, ground arith, ground (arith, kept.intent))
  begin-Stores r none d s d' st h =
      let (boot, e, _, h1) = after-eq-ok _ (current_boot_id env d) h in
      let (id, g, _, h2) = after-eq-ok _ (new_session_id env e) h1 in
      let (stored, same) = save_and_return-Stores (fresh_state r boot id) g s d' h2 in
      (stored, ground arith, ground arith)

  -- A session that is begun or resumed is stored before it is returned: the file holds it, valid,
  -- with the request that was made and the intent to resume.
  pub begin_or_resume-Stores :
      (r : ConnectRequest) (d : World) (s : SessionState) (d' : World)
      → begin_or_resume env r d ≡ (ok s, d')
      → Stores d' s × (s.request ≡ r) × (s.intent ≡ resume)
  unfolding begin_or_resume
  begin_or_resume-Stores r d s d' h =
      let (u, e, _, h1) =
        after-eq-ok _ (lift (wrap Model.bad_request (validate_connect_request r)) d) h in
      let (o, g, loaded, h2) = after-eq-ok (begin env r) (load_locked env e) h1 in
      begin-Stores r o g s d' (λ x q. (load_locked-Loads env e x g (ground arith)).0) h2

  apply_update-Stores :
      (f : SessionState → Result Error SessionState) (o : Option SessionState) (d : World)
      (s' : SessionState) (d' : World)
      → apply_update env f o d ≡ (ok (some s'), d')
      → (s : SessionState) × (o ≡ some s) × (f s ≡ ok s') × Stores d' s'
  unfolding apply_update
  apply_update-Stores f none d s' d' h = absurd (ground arith)
  apply_update-Stores f (some s) d s' d' h =
      let (x, e, lifted, h1) = after-eq-ok _ (lift (f s) d) h in
      let (u, saved, same) = after-pure-eq-ok (some x) (save env x e) h1 in
      let same' : x ≡ s' = ground arith in
      (s, refl, ground arith, subst (Stores d') same' (save-Stores env x e saved))

  -- An update that returns a record has stored it, and it is what the change makes of the record
  -- that was loaded.
  pub update-Stores :
      (f : SessionState → Result Error SessionState) (d : World) (s' : SessionState) (d' : World)
      → update env f d ≡ (ok (some s'), d')
      → (s : SessionState) × (e : World) × (load_locked env d ≡ (ok (some s), e))
        × (f s ≡ ok s')
        × Stores d' s'
  unfolding update
  update-Stores f d s' d' h =
      let (o, e, loaded, h1) = after-eq-ok (apply_update env f) (load_locked env d) h in
      let (s, found, changed, stored) = apply_update-Stores f o e s' d' h1 in
      (s, e, ground arith, changed, stored)

  advance_epoch-eq-ok :
      (s : SessionState) {s' : SessionState}
      → advance_epoch s ≡ ok s'
      → (s.recovery_epoch ≢ max_epoch) × (s' ≡ record s { recovery_epoch = suc s.recovery_epoch })
  unfolding advance_epoch
  advance_epoch-eq-ok s e = ground arith

  -- A recovery attempt that returns a record has stored it: it is the record that was loaded, with
  -- its epoch raised by one and nothing else changed, and the epoch had not reached 2⁶⁴ - 1.
  pub begin_recovery_attempt-Stores :
      (d : World) (s' : SessionState) (d' : World)
      → begin_recovery_attempt env d ≡ (ok (some s'), d')
      → (s : SessionState) × (e : World) × (load_locked env d ≡ (ok (some s), e))
        × Stores d' s'
        × (s.recovery_epoch ≢ max_epoch)
        × (s' ≡ record s { recovery_epoch = suc s.recovery_epoch })
  unfolding begin_recovery_attempt
  begin_recovery_attempt-Stores d s' d' h =
      let (s, e, loaded, changed, stored) = update-Stores advance_epoch d s' d' h in
      let (below, raised) = advance_epoch-eq-ok s changed in (s, e, loaded, stored, below, raised)
