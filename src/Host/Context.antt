-- ===== src/Host/Context.antt =====
-- wapo-host/src/runtime/vm_context.rs, `WapoCtx`: the host's side of one instance, and the ocalls that
-- change it. What tokio or the worker answers is an argument. An ocall first charges its gas.
pub mod Polls
pub mod Replies
pub mod Services
use wapo.Prelude.{
  ℕ, ◌+◌, ◌*◌, ◌/◌, ltb, if◌then◌else◌, List, [], ◌∷◌, Option, none, some, Bool, true, false, set,
}
use wapo.Prelude.Int.{ℤ}
use wapo.Prelude.Result.{Result, ok, err}
use wapo.Metrics.{Meter, record_gas, record_tcp_connect_start, record_tls_connect_start, add_tip}
use wapo.Env.{OcallResult, OcallError}
use wapo.Host.TaskSet.{TaskSet, push_task, pop_task, take_awake_wakers}
use wapo.Host.Resources.{Resource, as_usize, get_mut, push, take_slot}

-- `WapoCtx`, less its configuration and what it only calls.
pub record WapoCtx : Type 0 where
  pub resources : List (Option Resource)
  pub temp_return_value : Option (List ℕ)
  pub ocall_trace_enabled : Bool
  pub query_tx : Option ℕ
  pub http_connect_tx : Option ℕ
  pub tasks : TaskSet
  pub weight : ℕ
  pub meter : Meter

abbrev pub Ocall : Type 0 → Type 0
Ocall A = WapoCtx → OcallResult A × WapoCtx

unfoldable pub charge : ℕ → WapoCtx → WapoCtx
unfolding record_gas
charge gas c = record c { meter = record_gas gas c.meter }

unfoldable pub push_resource : Resource → Ocall ℕ
push_resource r c = let (id, t) = push r c.resources in (id, record c { resources = t })

unfoldable pub put_return : List ℕ → WapoCtx → WapoCtx
put_return rv c = record c { temp_return_value = some rv }

unfoldable pub take_return : WapoCtx → Option (List ℕ) × WapoCtx
take_return c = (c.temp_return_value, record c { temp_return_value = none })

-- The inherent `WapoCtx::close`.
unfoldable pub close_resource : ℕ → Ocall (Unit {0})
close_resource resource_id c =
    let (r, t) = take_slot resource_id c.resources in
    (elim r [ none ↦ err OcallError.not_found | some x ↦ ok tt ], record c { resources = t })

-- The ocall `close`.
unfoldable pub close : ℕ → Ocall (Unit {0})
unfolding charge close_resource
close resource_id c = close_resource resource_id (charge 200 c)

unfoldable pub mark_task_ready : ℕ → Ocall (Unit {0})
unfolding charge
mark_task_ready task_id c =
    let c' = charge 200 c in (ok tt, record c' { tasks = push_task task_id c'.tasks })

unfoldable pub next_ready_task : Ocall ℕ
unfolding charge
next_ready_task c =
    let c' = charge 200 c in
    let (task, ts) = pop_task c'.tasks in
    (elim task [ none ↦ err OcallError.not_found | some id ↦ ok id ], record c' { tasks = ts })

-- `timer` stands for the new `Sleep`.
unfoldable pub create_timer : ℕ → Ocall ℕ
unfolding charge push_resource
create_timer timer c = push_resource (Resource.sleep timer) (charge 500 c)

unfoldable pub enable_ocall_trace : Bool → Ocall (Unit {0})
unfolding charge
enable_ocall_trace enable c = (ok tt, record (charge 100 c) { ocall_trace_enabled = enable })

-- `host_len` is the length of the host's name, `allowed` what `tcp_connect_allowed` answers, and
-- `fut` the future that connects.
unfoldable pub tcp_connect : ℕ → Bool → ℕ → Ocall ℕ
unfolding charge push_resource
tcp_connect host_len allowed fut c =
    let c' = charge 1000 c in
    if ltb 253 host_len
    then (err OcallError.invalid_parameter, c')
    else if allowed
    then push_resource (Resource.tcp_connect fut)
        (record c' { meter = record_tcp_connect_start c'.meter })
    else (err OcallError.forbiden, c')

-- `valid` says whether the host is a valid server name.
unfoldable pub tcp_connect_tls : ℕ → Bool → Bool → ℕ → Ocall ℕ
unfolding charge push_resource
tcp_connect_tls host_len allowed valid fut c =
    let c' = charge 1000 c in
    if ltb 253 host_len
    then (err OcallError.invalid_parameter, c')
    else if allowed
    then if valid
      then push_resource (Resource.tls_connect fut)
          (record c' { meter = record_tls_connect_start c'.meter })
      else (err OcallError.invalid_parameter, c')
    else (err OcallError.forbiden, c')

unfoldable pub awake_wakers : Ocall (List ℤ)
unfolding charge
awake_wakers c =
    let c' = charge 500 c in
    let (ids, ts) = take_awake_wakers c'.tasks in (ok ids, record c' { tasks = ts })

-- The match of `oneshot_send` and `oneshot_send_error` on the resource; `accepts` is what the send
-- on a reply channel answers.
unfoldable pub reply_to : (ℕ → Bool) → ℕ → OcallResult Resource → Ocall (Unit {0})
reply_to accepts resource_id (err e) c = (err e, c)
reply_to accepts resource_id (ok (Resource.oneshot_tx (some tx))) c = (
  if accepts tx then ok tt else err OcallError.io_error,
  record c { resources = set c.resources (as_usize resource_id) (some (Resource.oneshot_tx none)) },
)
reply_to accepts resource_id (ok (Resource.oneshot_tx none)) c = (err OcallError.io_error, c)
reply_to accepts resource_id (ok r) c = (err OcallError.unsupported_operation, c)

-- `oneshot_send`, and `oneshot_send_error`, which charges the same for its text.
unfoldable pub oneshot_send : (ℕ → Bool) → ℕ → ℕ → Ocall (Unit {0})
unfolding charge reply_to
oneshot_send accepts resource_id data_len c =
    reply_to accepts resource_id (get_mut resource_id c.resources)
      (charge (1000 + data_len / 128) c)

unfoldable pub tip : ℕ → Ocall (Unit {0})
unfolding charge
tip value c = let c' = charge 100 c in (ok tt, record c' { meter = add_tip value c'.meter })

unfoldable pub set_weight : ℕ → WapoCtx → WapoCtx
set_weight weight c = record c { weight = weight }

pub data InputChannel : Type 0 where
  query http_request : InputChannel

-- The field of a channel.
unfoldable pub channel_of : InputChannel → WapoCtx → Option ℕ
channel_of query c = c.query_tx
channel_of http_request c = c.http_connect_tx

unfoldable pub with_channel : InputChannel → ℕ → WapoCtx → WapoCtx
with_channel query tx c = record c { query_tx = some tx }
with_channel http_request tx c = record c { http_connect_tx = some tx }

-- `create_input_channel`, for a new channel `tx`.
unfoldable pub create_input_channel : InputChannel → ℕ → Ocall ℕ
unfolding charge push_resource channel_of with_channel
create_input_channel ch tx c =
    let c' = charge 1000 c in
    elim (channel_of ch c') [
      | some old ↦ (err OcallError.already_exists, c')
      | none ↦
          let (id, c'') = push_resource (Resource.channel_rx tx) c' in
          elim id [ ok res ↦ (ok res, with_channel ch tx c'') | err e ↦ (err e, c'') ]
    ]

pub data PushError : Type 0 where
  ocall : OcallError → PushError
  not_sent : PushError

-- `push_query`, once the reply channel has its id or none.
unfoldable pub send_query :
    (ℕ → ℕ → Bool) → ℕ → OcallResult ℕ × WapoCtx → Result PushError (Unit {0}) × WapoCtx
unfolding close_resource
send_query accepts tx (err e, c) = (err (ocall e), c)
send_query accepts tx (ok id, c) =
    if accepts tx id then (ok tt, c) else (err not_sent, (close_resource id c).1)

-- `push_query`; `accepts` is what `try_send` on a channel answers for the request with that id.
unfoldable pub push_query : (ℕ → ℕ → Bool) → ℕ → WapoCtx → Result PushError (Unit {0}) × WapoCtx
unfolding push_resource send_query
push_query accepts reply c = elim c.query_tx [
  | none ↦ (ok tt, c)
  | some tx ↦ send_query accepts tx (push_resource (Resource.oneshot_tx (some reply)) c)
]

-- `push_http_request`, once the body has its id or none.
unfoldable pub send_http_request :
    (ℕ → ℕ → ℕ → Bool) → ℕ → ℕ → OcallResult ℕ × WapoCtx → Result PushError (Unit {0}) × WapoCtx
unfolding close_resource
send_http_request accepts tx response (err e, c) = (err (ocall e), (close_resource response c).1)
send_http_request accepts tx response (ok body, c) =
    if accepts tx response body
    then (ok tt, c)
    else (err not_sent, (close_resource body (close_resource response c).1).1)

unfoldable pub with_response :
    (ℕ → ℕ → ℕ → Bool) → ℕ → ℕ → OcallResult ℕ × WapoCtx → Result PushError (Unit {0}) × WapoCtx
unfolding push_resource send_http_request
with_response accepts tx body (err e, c) = (err (ocall e), c)
with_response accepts tx body (ok response, c) =
    send_http_request accepts tx response (push_resource (Resource.duplex_stream body) c)

unfoldable pub push_http_request :
    (ℕ → ℕ → ℕ → Bool) → ℕ → ℕ → WapoCtx → Result PushError (Unit {0}) × WapoCtx
unfolding push_resource with_response
push_http_request accepts reply body c = elim c.http_connect_tx [
  | none ↦ (ok tt, c)
  | some tx ↦ with_response accepts tx body (push_resource (Resource.oneshot_tx (some reply)) c)
]
