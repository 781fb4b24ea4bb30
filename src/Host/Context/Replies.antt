-- ===== src/Host/Context/Replies.antt =====
-- Requests that are pushed to the guest, and the replies to them.
use wapo.Prelude.{
  ℕ, ◌≤◌, ◌≡◌, ◌≢◌, refl, sym, ap, subst, ◌∙◌, arith, List, Option, none, some, Bool, length, set,
  get_elem?, Option-cases, Bool-cases, inl, inr, get_elem?-set_self, get_elem?-set_ne, get_elem?-lt,
  ◌==◌, ==_iff,
}
use wapo.Prelude.Result.{ok, err}
use wapo.Env.{OcallError, OcallResult}
use wapo.Host.Resources.{
  Resource, as_usize, get_mut, present, first_vacant, push_at, push, take_slot, resource_id_max,
}
use wapo.Host.Resources.Slots.{Pushed, push-Pushed}
use wapo.Host.Context.{
  WapoCtx, charge, push_resource, close_resource, reply_to, oneshot_send, PushError, send_query,
  push_query,
}

-- The ids that the guest knows name what they named before.
abbrev pub SameOpen : List (Option Resource) → List (Option Resource) → Type 0
SameOpen t t' = (id : ℕ) → get_mut id t' ≡ get_mut id t

empty_slot :
    (s : Option (Option Resource))
    → ((x : Resource) → s ≢ some (some x))
    → present s ≡ err OcallError.not_found
empty_slot none h = refl
empty_slot (some none) h = refl
empty_slot (some (some x)) h = absurd (h x refl)

-- Emptying the slot that a push filled takes the push back.
closed-SameOpen :
    (r : Resource) (id : ℕ) (t t' : List (Option Resource))
    → Pushed r id t t'
    → SameOpen t (set t' id none)
unfolding get_mut
closed-SameOpen r id t t' p j =
    let k = as_usize j in
    elim (Bool-cases (k == id)) [
      | inl e ↦
          let same = (==_iff k id).0 e in
          subst (λ n. present (get_elem? (set t' id none) n) ≡ present (get_elem? t n)) (sym same)
            (ap present (get_elem?-set_self t' id none (get_elem?-lt t' id (some r) p.stored))
              ∙ sym (empty_slot (get_elem? t id) p.unused))
      | inr e ↦
          let differ : k ≢ id = λ h. cc ((==_iff k id).1 h, e) in
          ap present (get_elem?-set_ne t' id k none (λ h. differ (sym h)) ∙ p.others k differ)
    ]

-- A push that is refused changes nothing.
refused :
    (o : Option ℕ) (r : Resource) (t : List (Option Resource)) (e : OcallError)
    → (push_at o r t).0 ≡ err e
    → (push_at o r t).1 ≡ t
unfolding push_at
refused (some i) r t e h = ground arith
refused none r t e h = ground arith

close_resource-stored :
    (r : Resource) (id : ℕ) (c : WapoCtx)
    → get_elem? c.resources id ≡ some (some r)
    → (close_resource id c).1 ≡ record c { resources = set c.resources id none }
unfolding close_resource take_slot
close_resource-stored r id c e = rw (close_resource, take_slot, e)

sent-SameOpen :
    (accepts : ℕ → ℕ → Bool) (tx : ℕ) (r : Resource) (e : PushError) (c : WapoCtx)
    (out : OcallResult ℕ × List (Option Resource))
    → length c.resources ≤ resource_id_max
    → push r c.resources ≡ out
    → (send_query accepts tx (out.0, record c { resources = out.1 })).0 ≡ err e
    → SameOpen c.resources
        (send_query accepts tx (out.0, record c { resources = out.1 })).1.resources
unfolding send_query push
sent-SameOpen accepts tx r e c (err x, t) b p h =
    let kept : t ≡ c.resources =
      sym (ap (λ o. o.1) p)
      ∙ refused (first_vacant 0 c.resources) r c.resources x (ap (λ o. o.0) p) in
    λ id. ap (get_mut id) kept
sent-SameOpen accepts tx r e c (ok id, t) b p h = elim (Bool-cases (accepts tx id)) [
  | inl a ↦ absurd (ground arith)
  | inr a ↦
      let q = push-Pushed r id c.resources t b p in
      let closed = close_resource-stored r id (record c { resources = t }) q.stored in
      rw (send_query, a)
        (subst (λ (v : WapoCtx). SameOpen c.resources v.resources) (sym closed)
          (closed-SameOpen r id c.resources t q))
]

-- If a query cannot be passed on to the guest, for want of an id for its reply channel or because the
-- guest's channel takes no more, then every id names what it named before: no reply channel is left
-- open.
pub push_query-SameOpen :
    (accepts : ℕ → ℕ → Bool) (reply : ℕ) (e : PushError) (c : WapoCtx)
    → length c.resources ≤ resource_id_max
    → (push_query accepts reply c).0 ≡ err e
    → SameOpen c.resources (push_query accepts reply c).1.resources
unfolding push_query push_resource
push_query-SameOpen accepts reply e c b = elim (Option-cases c.query_tx) [
  | inl q ↦ rw (push_query, q) (λ h. cc)
  | inr (tx, q) ↦
      rw (push_query, q)
        (λ h.
          sent-SameOpen accepts tx (Resource.oneshot_tx (some reply)) e c
            (push (Resource.oneshot_tx (some reply)) c.resources) b refl h)
]

replied :
    (accepts : ℕ → Bool) (id n tx : ℕ) (c : WapoCtx)
    → get_mut id c.resources ≡ ok (Resource.oneshot_tx (some tx))
    → (oneshot_send accepts id n c).1.resources
      ≡ set c.resources (as_usize id) (some (Resource.oneshot_tx none))
unfolding oneshot_send reply_to charge
replied accepts id n tx c e = rw (oneshot_send, e)

used_up :
    (accepts : ℕ → Bool) (id n : ℕ) (c : WapoCtx)
    → get_mut id c.resources ≡ ok (Resource.oneshot_tx none)
    → (oneshot_send accepts id n c).0 ≡ err OcallError.io_error
unfolding oneshot_send reply_to charge
used_up accepts id n c e = rw (oneshot_send, e)

slot_of : (s : Option (Option Resource)) (r : Resource) → present s ≡ ok r → s ≡ some (some r)
slot_of none r e = cc
slot_of (some none) r e = cc
slot_of (some (some x)) r e = cc

-- A reply channel is used once: after an attempt to reply, whatever it answered, another reply to the
-- same id fails with an I/O error.
oneshot_send-once :
    (accepts accepts' : ℕ → Bool) (id n m tx : ℕ) (c : WapoCtx)
    → get_mut id c.resources ≡ ok (Resource.oneshot_tx (some tx))
    → (oneshot_send accepts' id m (oneshot_send accepts id n c).1).0 ≡ err OcallError.io_error
unfolding get_mut
oneshot_send-once accepts accepts' id n m tx c e =
    let here = slot_of (get_elem? c.resources (as_usize id)) (Resource.oneshot_tx (some tx)) e in
    used_up accepts' id m (oneshot_send accepts id n c).1 (
      ap (get_mut id) (replied accepts id n tx c e)
      ∙ ap present (
          get_elem?-set_self c.resources (as_usize id) (some (Resource.oneshot_tx none))
            (get_elem?-lt c.resources (as_usize id) (some (Resource.oneshot_tx (some tx))) here)))
