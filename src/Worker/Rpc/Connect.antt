-- ===== src/Worker/Rpc/Connect.antt =====
-- What `connect_vm` of wapod/src/prpc_service.rs finds, against what a query finds. The instances of
-- an app stand in its map under the sequence number of their run, and `connect_vm` asks for the key 0.
use wapo.Prelude.{
  ℕ, ◌≡◌, refl, ◌∙◌, ap, ◌==◌, ltb, if◌then◌else◌, List, [], ◌∷◌, none, some, Bool, true, false,
  not, ◌&&◌, ◌||◌, All, arith,
}
use wapo.Prelude.Result.{Result, ok, err}
use wapo.Worker.{WorkerState, Error, AppState, Instance, get_app, set_app, on_going_query_inc}
use wapo.Worker.Instances.{M, ◌>>=◌, Launch, is_nil}
use wapo.Worker.Queries.{
  QueryGuard, begin_query, prepare_instance_for_query, get_instance, first_instance,
  choose_instance, or_drop, start_for_query,
}
use wapo.Worker.Instances.Resize.Counts.{get_app-set_app}
use wapo.Worker.Reads.{sender_for}
use wapo.Worker.Rpc.{no_command_sender, connect_prepared, connect_vm}

get_instance-none :
    (sn : ℕ) (m : List (ℕ × Instance)) → All (λ e. (e.0 == sn) ≡ false) m → get_instance sn m ≡ none
unfolding get_instance
get_instance-none sn [] h = refl
get_instance-none sn ((k, i) ∷ m) h = ground (arith, get_instance-none sn m h.1, h.0)

bind-is :
    {A B : Type 0} (m : M A) (f : A → M B) (w v : WorkerState) (a : A)
    → m w ≡ (ok a, v)
    → (m >>= f) w ≡ f a v
bind-is {B = B} m f w v a h =
    ap
      (λ o. elim o.0 as (λ x. Result Error B × WorkerState) [
        | ok x ↦ f x o.1
        | err e ↦ (err e, o.1)
      ])
      h

module _ (launch : Launch) (now address : ℕ) (app : AppState) (w : WorkerState) where
  abbrev reusing : QueryGuard
  reusing = record { address = address; reuse = app.reuse_instance; instance_id = none }

  abbrev counted : WorkerState
  counted = record w { apps = set_app address (on_going_query_inc app) w.apps }

  begin-reused :
      get_app address w.apps ≡ some app
      → app.reuse_instance ≡ true
      → is_nil app.instances ≡ false
      → begin_query address 0 w ≡ (ok (false, reusing), counted)
  unfolding begin_query
  begin-reused e r n =
      let big : ltb app.manifest.max_query_size 0 ≡ false = ground arith in
      let idle : (not app.reuse_instance || (is_nil app.instances && app.manifest.on_demand))
          ≡ false =
        ground arith in
      rw (e, begin_query, big, idle) refl

  prepare-reused :
      get_app address w.apps ≡ some app
      → app.reuse_instance ≡ true
      → is_nil app.instances ≡ false
      → prepare_instance_for_query launch now address 0 w ≡ (ok reusing, counted)
  unfolding prepare_instance_for_query
  prepare-reused e r n =
      let next : Bool × QueryGuard → M QueryGuard =
        λ p. if p.0 then or_drop now p.1 (start_for_query launch now p.1) else (λ v. (ok p.1, v)) in
      bind-is (begin_query address 0) next w counted (false, reusing) (begin-reused e r n)

  sender_for-counted :
      get_app address w.apps ≡ some app
      → All (λ e. (e.0 == 0) ≡ false) app.instances
      → sender_for address 0 counted ≡ none
  unfolding sender_for on_going_query_inc
  sender_for-counted e h =
      let there = get_app-set_app address app (on_going_query_inc app) w.apps e in
      let missing = get_instance-none 0 app.instances h in rw (sender_for, there, missing) refl

  choose_instance-counted :
      (key : ℕ) (i : Instance) (others : List (ℕ × Instance))
      → get_app address w.apps ≡ some app
      → app.instances ≡ (key, i) ∷ others
      → choose_instance reusing counted ≡ ok i.vm_handle
  unfolding choose_instance first_instance on_going_query_inc
  choose_instance-counted key i others e s =
      let there = get_app-set_app address app (on_going_query_inc app) w.apps e in
      rw (choose_instance, there, s) refl

  failed :
      (path_is_text : Bool)
      → sender_for address 0 counted ≡ none
      → (connect_prepared now address path_is_text (ok reusing) counted).0 ≡ err no_command_sender
  unfolding connect_prepared
  failed path_is_text m = rw (connect_prepared, m) refl

  -- Of an app that reuses its instances and has some, none of which is the first run that the
  -- program ever started, a query finds the first instance, but `connect_vm` finds none and fails.
  pub connect_vm-misses :
      (key : ℕ) (i : Instance) (others : List (ℕ × Instance)) (path_is_text : Bool)
      → get_app address w.apps ≡ some app
      → app.reuse_instance ≡ true
      → app.instances ≡ (key, i) ∷ others
      → All (λ e. (e.0 == 0) ≡ false) app.instances
      → ((connect_vm launch now (some address) path_is_text w).0 ≡ err no_command_sender)
        × ((g : QueryGuard) × ((prepare_instance_for_query launch now address 0 w).0 ≡ ok g)
            × (choose_instance g (prepare_instance_for_query launch now address 0 w).1
                ≡ ok i.vm_handle))
  unfolding connect_vm
  connect_vm-misses key i others path_is_text e r s h =
      let prepared = prepare-reused e r (ap is_nil s) in
      (
        ap (λ o. (connect_prepared now address path_is_text o.0 o.1).0) prepared
            ∙ failed path_is_text (sender_for-counted e h),
        (
          reusing,
          ap (λ o. o.0) prepared,
          ap (λ o. choose_instance reusing o.1) prepared ∙ choose_instance-counted key i others e s,
        ),
      )
