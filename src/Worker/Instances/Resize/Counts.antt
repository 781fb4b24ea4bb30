-- ===== src/Worker/Instances/Resize/Counts.antt =====
-- What starting and stopping do to the number of instances.
use wapo.Prelude.{
  ℕ, zero, suc, ◌+◌, ◌≤◌, ◌≡◌, refl, subst, ap, sym, ◌∙◌, arith, List, [], ◌∷◌, ◌++◌, Option, none,
  some, length, length-append, Option-cases, inl, inr, Bool-cases, not, ◌&&◌,
}
use wapo.Prelude.Result.{Result, ok, err}
use wapo.Worker.{WorkerState, AppState, Instance, Error, get_app, set_app, running_instances}
use wapo.Worker.Instances.{
  M, ◌>>=◌, Launch, is_nil, is_none, pop_last, start_found, start_app, start_many,
}

-- Changing an app changes the total by as much as it changes the app's own number.
pub running-set_app :
    (k : ℕ) (a b : AppState) (m : List (ℕ × AppState))
    → get_app k m ≡ some a
    → running_instances (set_app k b m) + length a.instances
      ≡ running_instances m + length b.instances
unfolding get_app set_app running_instances
running-set_app k a b [] e = cc
running-set_app k a b ((j, c) ∷ m) e = ground (arith, running-set_app k a b m)

pub get_app-set_app :
    (k : ℕ) (a b : AppState) (m : List (ℕ × AppState))
    → get_app k m ≡ some a
    → get_app k (set_app k b m) ≡ some b
unfolding get_app set_app
get_app-set_app k a b [] e = cc
get_app-set_app k a b ((j, c) ∷ m) e = ground (arith, get_app-set_app k a b m)

pub pop_last-none {ℓ} : {A : Type ℓ} (xs : List A) → pop_last xs ≡ none → xs ≡ []
unfolding pop_last
pop_last-none [] e = refl
pop_last-none (x ∷ xs) e = ground arith

pub pop_last-snoc {ℓ} :
    {A : Type ℓ} (xs : List A) (x : A) (rest : List A)
    → pop_last xs ≡ some (x, rest)
    → xs ≡ rest ++ x ∷ []
unfolding pop_last
pop_last-snoc [] x rest e = cc
pop_last-snoc (y ∷ ys) x rest e = elim (Option-cases (pop_last ys)) [
  | inl p ↦ ground (arith, pop_last-none ys p)
  | inr ((z, left), p) ↦ ground (arith, pop_last-snoc ys z left p)
]

-- Exactly `made` instances of the app at the address are new, and nothing else is counted otherwise.
pub record Starts (made address : ℕ) (w w' : WorkerState) : Type 0 where
  pub total : running_instances w'.apps ≡ running_instances w.apps + made
  pub args : w'.args ≡ w.args
  pub app :
      (a : AppState)
      → get_app address w.apps ≡ some a
      → (a' : AppState) × (get_app address w'.apps ≡ some a')
        × (length a'.instances ≡ length a.instances + made)
        × (a'.manifest ≡ a.manifest)

Starts-none :
    (address : ℕ) (w w' : WorkerState) → w'.apps ≡ w.apps → w'.args ≡ w.args → Starts 0 address w w'
Starts-none address w w' p q = record {
  total = ap running_instances p ∙ omega arith;
  args = q;
  app = λ a e. (a, ap (get_app address) p ∙ e, omega arith, refl);
}

-- How many instances a call made: as many as it was asked for, if it succeeds.
abbrev pub Made {ℓ} : {A : Type ℓ} → ℕ → ℕ → WorkerState → Result Error A × WorkerState → Type ℓ
Made {A} n address w out =
    (made : ℕ) × (made ≤ n) × Starts made address w out.1 × ((a : A) → out.0 ≡ ok a → made ≡ n)

Starts-one :
    (address : ℕ) (a a' : AppState) (i : ℕ × Instance) (w w' : WorkerState)
    → get_app address w.apps ≡ some a
    → a'.instances ≡ a.instances ++ i ∷ []
    → a'.manifest ≡ a.manifest
    → w'.apps ≡ set_app address a' w.apps
    → w'.args ≡ w.args
    → Starts 1 address w w'
Starts-one address a a' i w w' e p m q r =
    let longer = ap length p ∙ length-append a.instances (i ∷ []) in
    record {
      total = omega (arith, ap running_instances q, running-set_app address a a' w.apps e, longer);
      args = r;
      app = λ b f.
          let same : b ≡ a = cc in
          (
            a',
            ap (get_app address) q ∙ get_app-set_app address a a' w.apps e,
            omega (arith, longer, ap (λ c. length c.instances) same),
            m ∙ ap (λ c. c.manifest) (sym same),
          );
    }

Starts-add :
    (m n address : ℕ) (u v w : WorkerState)
    → Starts m address u v
    → Starts n address v w
    → Starts (m + n) address u w
Starts-add m n address u v w s t = record {
  total = omega (arith, s.total, t.total);
  args = t.args ∙ s.args;
  app = λ a e.
      let (b, f, p, same) = s.app a e in
      let (c, g, q, same') = t.app b f in (c, g, omega (arith, p, q), same' ∙ same);
}

many_then :
    (m n address sn : ℕ) (u v : WorkerState) (out : Result Error (List ℕ) × WorkerState)
    → Starts 1 address u v
    → m ≡ suc n
    → Made n address v out
    → Made m address u (((λ _. out) >>= λ created w. (ok (sn ∷ created), w)) v)
many_then m n address sn u v (ok l, w) s p (made, h, t, all) =
    (1 + made, omega arith, Starts-add 1 made address u v w s t, λ x e. omega (arith, all l refl))
many_then m n address sn u v (err x, w) s p (made, h, t, all) =
    (1 + made, omega arith, Starts-add 1 made address u v w s t, λ x e. cc)

many_first :
    (n address : ℕ) (u : WorkerState) (out : Result Error ℕ × WorkerState) (rest : M (List ℕ))
    → Made 1 address u out
    → ((v : WorkerState) → Made n address v (rest v))
    → Made
        (suc n)
        address
        u
        (((λ _. out) >>= λ sn. (rest >>= λ created w. (ok (sn ∷ created), w))) u)
many_first n address u (err x, v) rest (made, h, t, all) f = (made, omega arith, t, λ x e. cc)
many_first n address u (ok sn, v) rest (made, h, t, all) f =
    many_then (suc n) n address sn u v (rest v) (subst (λ k. Starts k address u v) (all sn refl) t)
      refl (f v)

module _ (launch : Launch) where
  start_found-Made :
      (address : ℕ) (time_limit : Option ℕ) (a : AppState) (w : WorkerState)
      → get_app address w.apps ≡ some a
      → Made 1 address w (start_found launch address time_limit a w)
  unfolding start_found
  start_found-Made address time_limit a w e =
      elim (Bool-cases
        (not a.manifest.resizable && not (is_nil a.instances) && is_none time_limit)) [
          | inl b ↦
              rw (b, start_found) (0, omega arith, Starts-none address w w refl refl, λ x h. cc)
          | inr b ↦
              rw (b, start_found)
                (elim (Option-cases (launch w.launches a.manifest.code_hash)) [
                  | inl l ↦ rw l (0, omega arith, Starts-none address w _ refl refl, λ x h. cc)
                  | inr (h, l) ↦ rw l (
                    1,
                    omega arith,
                    Starts-one address a _ _ w _ e refl refl refl refl,
                    λ x h. refl,
                  )
                ])
        ]

  pub start_app-Made :
      (address : ℕ) (time_limit : Option ℕ) (w : WorkerState)
      → Made 1 address w (start_app launch address time_limit w)
  unfolding start_app
  start_app-Made address time_limit w = elim (Option-cases (get_app address w.apps)) [
    | inl e ↦ rw (e, start_app) (0, omega arith, Starts-none address w w refl refl, λ x h. cc)
    | inr (a, e) ↦ rw (e, start_app) (start_found-Made address time_limit a w e)
  ]

  pub start_many-Made :
      (n address : ℕ) (time_limit : Option ℕ) (w : WorkerState)
      → Made n address w (start_many launch n address time_limit w)
  unfolding start_many
  start_many-Made zero address time_limit w =
      (0, omega arith, Starts-none address w w refl refl, λ x h. refl)
  start_many-Made (suc n) address time_limit w =
      many_first n address w (start_app launch address time_limit w)
        (start_many launch n address time_limit) (start_app-Made address time_limit w)
        (start_many-Made n address time_limit)
