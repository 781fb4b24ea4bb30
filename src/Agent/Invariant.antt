-- ===== src/Agent/Invariant.antt =====
-- What holds of the agent in every state that it can reach.
pub mod Steps
use wapo.Prelude.{
  ℕ, suc, ◌+◌, ◌≡◌, refl, sym, ap, subst, ◌∙◌, arith, List, [], ◌∷◌, ◌++◌, Option, some, none, Bool,
  true, false, Option-cases, Bool-cases, inl, inr, if◌then◌else◌,
}
use wapo.Prelude.Result.{Result, ok, err}
use wapo.Prelude.Assoc.{
  find, replace, erase, find-replace, Values, Values-find, Values-replace, Values-erase,
}
use wapo.Agent.{
  Mpsc, Subscribe, SubState, AgentState, is_nil, first_entry, retain, clear_timeout_connections,
  first_send, join_domain, open_domain, subscribe, dispatch_to, dispatch_connection, unsubscribe,
  remove_sub, check_timeouts,
}

-- A domain has a subscription; and where subscriptions are reused, no connection waits.
abbrev pub Served : {Tx : Type 0} → Bool → SubState Tx → Type 0
Served true sub = (is_nil sub.subscriptions ≡ false) × (sub.queue ≡ [])
Served false sub = is_nil sub.subscriptions ≡ false

abbrev pub Calls : Bool → ℕ → Type 0
Calls true created = created ≡ 0
Calls false created = Unit {0}

-- Every domain that is listed is served, and no instance is asked for where subscriptions are reused.
pub record IsServed {Tx L : Type 0} (s : AgentState Tx L) : Type 0 where
  pub domains : Values (Served s.reuse_subscriber) s.subscribers
  pub calls : Calls s.reuse_subscriber s.created

pub data AgentStep {Tx L : Type 0} (mpsc : Mpsc Tx) (net : Subscribe L) (s : AgentState Tx L)
    : AgentState Tx L → Type 0 where
  subscribes : (id domain key : ℕ) → AgentStep mpsc net s (subscribe mpsc net id domain key s).1
  dispatches :
      (now domain conn : ℕ)
      → AgentStep mpsc net s (dispatch_connection mpsc net now domain conn s).1
  unsubscribes : (domain : ℕ) → AgentStep mpsc net s (unsubscribe domain s).1
  removes : (domain id : ℕ) → AgentStep mpsc net s (remove_sub domain id s).1
  checks : (now domain : ℕ) → AgentStep mpsc net s (check_timeouts now domain s)

pub data AgentSteps {Tx L : Type 0} (mpsc : Mpsc Tx) (net : Subscribe L) (s : AgentState Tx L)
    : AgentState Tx L → Type 0 where
  here : AgentSteps mpsc net s s
  next :
      {t u : AgentState Tx L}
      → AgentSteps mpsc net s t
      → AgentStep mpsc net t u
      → AgentSteps mpsc net s u

-- An agent that was just made.
abbrev pub new_agent : {Tx L : Type 0} → L → Bool → ℕ → AgentState Tx L
new_agent l reuse timeout = record {
  listener = l;
  subscribers = [];
  reuse_subscriber = reuse;
  connect_timeout = timeout;
  created = 0;
}

is_nil-snoc {ℓ} : {A : Type ℓ} (xs : List A) (x : A) → is_nil (xs ++ x ∷ []) ≡ false
is_nil-snoc [] x = refl
is_nil-snoc (y ∷ ys) x = refl

is_nil-replace {ℓ} :
    {A : Type ℓ} (k : ℕ) (v : A) (m : List (ℕ × A)) → is_nil (replace k v m) ≡ is_nil m
unfolding replace
is_nil-replace k v [] = refl
is_nil-replace k v ((j, a) ∷ m) = ground arith

module _ {Tx L : Type 0} (mpsc : Mpsc Tx) (net : Subscribe L) where
  snoc-Served :
      (b : Bool) (q q' : List (ℕ × ℕ)) (subs : List (ℕ × Tx)) (e : ℕ × Tx)
      → Served b (record { queue = q; subscriptions = subs })
      → (q ≡ [] → q' ≡ [])
      → Served b (record { queue = q'; subscriptions = subs ++ e ∷ [] })
  snoc-Served true q q' subs e v h = (is_nil-snoc subs e, h v.1)
  snoc-Served false q q' subs e v h = is_nil-snoc subs e

  first_send-nil : (q : List (ℕ × ℕ)) → q ≡ [] → (first_send mpsc net q).1 ≡ []
  unfolding first_send
  first_send-nil [] e = refl
  first_send-nil (x ∷ q) e = cc

  join_domain-IsServed :
      (id domain : ℕ) (sub : SubState Tx) (answer : Bool × L) (s : AgentState Tx L)
      → Served s.reuse_subscriber sub
      → IsServed s
      → IsServed (join_domain mpsc net id domain sub answer s).1
  unfolding join_domain
  join_domain-IsServed id domain sub (false, l) s h v = record {
    domains = v.domains;
    calls = v.calls;
  }
  join_domain-IsServed id domain sub (true, l) s h v = record {
    domains = Values-replace (Served s.reuse_subscriber) domain _ s.subscribers v.domains (
        snoc-Served s.reuse_subscriber sub.queue (first_send mpsc net sub.queue).1 sub.subscriptions
          _ h (first_send-nil sub.queue));
    calls = v.calls;
  }

  new-Served : (b : Bool) (e : ℕ × Tx) → Served b (record { queue = []; subscriptions = e ∷ [] })
  new-Served true e = (refl, refl)
  new-Served false e = refl

  open_domain-IsServed :
      (id domain : ℕ) (answer : Bool × L) (s : AgentState Tx L)
      → IsServed s
      → IsServed (open_domain mpsc net id domain answer s).1
  unfolding open_domain
  open_domain-IsServed id domain (false, l) s v = record { domains = v.domains; calls = v.calls }
  open_domain-IsServed id domain (true, l) s v = record {
    domains = (new-Served s.reuse_subscriber _, v.domains);
    calls = v.calls;
  }

  pub subscribe-IsServed :
      (id domain key : ℕ) (s : AgentState Tx L)
      → IsServed s
      → IsServed (subscribe mpsc net id domain key s).1
  unfolding subscribe
  subscribe-IsServed id domain key s v = elim (Option-cases (find domain s.subscribers)) [
    | inl e ↦
        rw (subscribe, e) (open_domain-IsServed id domain (net.subscribe domain key s.listener) s v)
    | inr (sub, e) ↦
        rw (subscribe, e)
          (join_domain-IsServed id domain sub (net.update_key domain key s.listener) s
            (Values-find (Served s.reuse_subscriber) domain sub s.subscribers v.domains e) v)
  ]
