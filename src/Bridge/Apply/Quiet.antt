-- ===== src/Bridge/Apply/Quiet.antt =====
-- What `apply_plan` of wapod-pherry/src/bridge.rs relies on of a worker, and the calls of it that
-- change no app.
use wapo.Prelude.{
  ℕ, ◌==◌, ◌≡◌, refl, ◌∙◌, inl, inr, if◌then◌else◌, List, [], ◌∷◌, Option, none, some, Bool, true,
  false,
}
use wapo.Prelude.Assoc.{find}
use wapo.Prelude.Calls.{Call, ◌>>=◌, return}
use wapo.Prelude.Result.{Result-cases, ok}
use wapo.Bridge.{Error, Ticket, Services}
use wapo.Bridge.Apply.{
  contains_key, ticket_deps, valid_cid, put_found, app_deps, put_blob, upload_blob, upload_blobs,
  insert_deps,
}

-- What the bridge relies on of a worker: which apps run changes by `app_deploy` and `app_remove`
-- only, and they change no other app.
pub record IsWorker {App W : Type 0} (s : Services App W) (runs : W → ℕ → Bool) : Type 0 where
  pub info_quiet : (w : W) (a : ℕ) → runs (s.info w).1 a ≡ runs w a
  pub app_list_quiet : (w : W) (a : ℕ) → runs (s.app_list w).1 a ≡ runs w a
  pub blob_exists_quiet : (h : ℕ) (w : W) (a : ℕ) → runs (s.blob_exists h w).1 a ≡ runs w a
  pub blob_put_quiet : (h b : ℕ) (w : W) (a : ℕ) → runs (s.blob_put h b w).1 a ≡ runs w a
  pub read_quiet : (c : ℕ) (w : W) (a : ℕ) → runs (s.read c w).1 a ≡ runs w a
  pub deploy_keeps :
      (app : App) (r : Bool) (w : W) (a : ℕ)
      → runs w a ≡ true
      → runs (s.app_deploy app r w).1 a ≡ true
  pub deploy_other :
      (app : App) (r : Bool) (w : W) (a : ℕ)
      → (s.address app == a) ≡ false
      → runs (s.app_deploy app r w).1 a ≡ runs w a
  pub remove_other :
      (b : ℕ) (w : W) (a : ℕ) → (b == a) ≡ false → runs (s.app_remove b w).1 a ≡ runs w a
  pub remove_starts_none :
      (b : ℕ) (w : W) (a : ℕ) → runs w a ≡ false → runs (s.app_remove b w).1 a ≡ false

-- What it relies on besides, to reach its plan: an app that is deployed runs, one that is removed does
-- not, and `app_list` tells the truth where the apps are few enough for one answer.
pub record IsHonest {App W : Type 0} (s : Services App W) (runs : W → ℕ → Bool) (Few : W → Type 0)
    : Type 0 where
  pub app_list_true :
      (w : W) (apps : List (ℕ × ℕ))
      → Few w
      → (s.app_list w).0 ≡ ok apps
      → (a : ℕ) → contains_key a apps ≡ runs w a
  pub deploy_runs :
      (app : App) (r : Bool) (w : W) (b : ℕ)
      → (s.app_deploy app r w).0 ≡ ok b
      → runs (s.app_deploy app r w).1 (s.address app) ≡ true
  pub remove_ends :
      (b : ℕ) (w : W) → (s.app_remove b w).0 ≡ ok tt → runs (s.app_remove b w).1 b ≡ false

module _ {App W : Type 0} (s : Services App W) (runs : W → ℕ → Bool)
    (worker : IsWorker s runs) where
  -- A call that leaves alone which apps run.
  abbrev pub IsQuiet : {A : Type 0} → Call Error W A → Type 0
  IsQuiet m = (w : W) (a : ℕ) → runs (m w).1 a ≡ runs w a

  pub >>=-IsQuiet :
      {A B : Type 0} (m : Call Error W A) (f : A → Call Error W B)
      → IsQuiet m
      → ((x : A) → IsQuiet (f x))
      → IsQuiet (m >>= f)
  >>=-IsQuiet m f q r w a = elim (Result-cases (m w).0) [
    | inl (e, h) ↦ rw (h) (q w a)
    | inr (x, h) ↦ rw (h) (r x (m w).1 a ∙ q w a)
  ]

  if-IsQuiet :
      {A : Type 0} (b : Bool) (m n : Call Error W A)
      → IsQuiet m
      → IsQuiet n
      → IsQuiet (if b then m else n)
  if-IsQuiet true m n p q = p
  if-IsQuiet false m n p q = q

  ticket_deps-IsQuiet : (t : Option (Ticket App)) → IsQuiet (ticket_deps s t)
  unfolding ticket_deps
  ticket_deps-IsQuiet none w a = refl
  ticket_deps-IsQuiet (some t) w a = refl

  pub app_deps-IsQuiet :
      (tickets : List (ℕ × Ticket App)) (ids : List ℕ) (deps : List (ℕ × ℕ))
      → IsQuiet (app_deps s tickets ids deps)
  unfolding app_deps
  app_deps-IsQuiet tickets [] deps = λ w a. refl
  app_deps-IsQuiet tickets (id ∷ ids) deps =
      >>=-IsQuiet (ticket_deps s (find id tickets))
        (λ blobs. app_deps s tickets ids (insert_deps blobs deps))
        (ticket_deps-IsQuiet (find id tickets))
        (λ blobs. app_deps-IsQuiet tickets ids (insert_deps blobs deps))

  put_blob-IsQuiet : (hash blob : ℕ) → IsQuiet (put_blob s hash blob)
  unfolding put_blob
  put_blob-IsQuiet hash blob w a = elim (Result-cases (s.blob_put hash blob w).0) [
    | inl (e, h) ↦ rw (put_blob, h) (worker.blob_put_quiet hash blob w a)
    | inr (u, h) ↦ rw (put_blob, h) (worker.blob_put_quiet hash blob w a)
  ]

  put_found-IsQuiet : (hash : ℕ) (found : Option ℕ) → IsQuiet (put_found s hash found)
  unfolding put_found
  put_found-IsQuiet hash none w a = refl
  put_found-IsQuiet hash (some blob) w a = put_blob-IsQuiet hash blob w a

  valid_cid-IsQuiet : (cid : Option ℕ) → IsQuiet (valid_cid s cid)
  unfolding valid_cid
  valid_cid-IsQuiet none w a = refl
  valid_cid-IsQuiet (some cid) w a = refl

  upload_blob-IsQuiet : (hash cid : ℕ) → IsQuiet (upload_blob s hash cid)
  unfolding upload_blob
  upload_blob-IsQuiet hash cid =
      >>=-IsQuiet (valid_cid s (s.parse_cid cid)) (λ c. s.read c >>= put_found s hash)
        (valid_cid-IsQuiet (s.parse_cid cid))
        (λ c.
          >>=-IsQuiet (s.read c) (put_found s hash) (worker.read_quiet c) (put_found-IsQuiet hash))

  pub upload_blobs-IsQuiet : (deps : List (ℕ × ℕ)) → IsQuiet (upload_blobs s deps)
  unfolding upload_blobs
  upload_blobs-IsQuiet [] = λ w a. refl
  upload_blobs-IsQuiet ((hash, cid) ∷ deps) =
      let go : Bool → Call Error W Bool =
        λ there. if there then upload_blobs s deps else return false in
      let up : Bool → Call Error W Bool =
        λ uploaded. if uploaded then return true else upload_blob s hash cid in
      >>=-IsQuiet (s.blob_exists hash) (λ uploaded. up uploaded >>= go)
        (worker.blob_exists_quiet hash)
        (λ uploaded.
          >>=-IsQuiet (up uploaded) go
            (if-IsQuiet uploaded (return true) (upload_blob s hash cid) (λ w a. refl)
              (upload_blob-IsQuiet hash cid))
            (λ there.
              if-IsQuiet there (upload_blobs s deps) (return false) (upload_blobs-IsQuiet deps)
                (λ w a. refl)))
