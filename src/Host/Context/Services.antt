-- ===== src/Host/Context/Services.antt =====
-- wapo-host/src/runtime/vm_context.rs, the ocalls of `WapoCtx` that ask the worker, the disk or the
-- network for something. What those answer is an argument, as is the length of what the guest passes.
use wapo.Prelude.{
  ℕ, ◌+◌, ◌*◌, ◌/◌, ltb, leb, if◌then◌else◌, ◌&&◌, Option, none, some, Bool, length, List, set,
}
use wapo.Prelude.Result.{Result, ok, err}
use wapo.Env.{OcallResult, OcallError}
use wapo.Host.Blobs.{BlobError}
use wapo.Host.Context.{Ocall, charge, push_resource}
use wapo.Host.Resources.{Resource, as_usize, get_mut}

-- `Sleep::reset` of the timer behind a resource; `deadline` is none if it overflows, and else stands for
-- the timer that is reset.
unfoldable pub reset_to : ℕ → Option ℕ → OcallResult Resource → Ocall (Unit {0})
reset_to id deadline (err e) c = (err e, c)
reset_to id (some timer) (ok (Resource.sleep t)) c =
    (ok tt, record c { resources = set c.resources (as_usize id) (some (Resource.sleep timer)) })
reset_to id none (ok (Resource.sleep t)) c = (err OcallError.invalid_parameter, c)
reset_to id deadline (ok r) c = (err OcallError.invalid_parameter, c)

unfoldable pub reset_timer : ℕ → Option ℕ → Ocall (Unit {0})
unfolding charge reset_to
reset_timer id deadline c = reset_to id deadline (get_mut id c.resources) (charge 300 c)

-- `tcp_listen`: the port of the address, if it parses; the range of ports that is allowed; and the
-- listener, or the error of binding it or of its TLS configuration.
unfoldable pub tcp_listen : Option ℕ → ℕ × ℕ → OcallResult ℕ → Ocall ℕ
unfolding charge push_resource
tcp_listen none range listener c = (err OcallError.invalid_parameter, charge 1000 c)
tcp_listen (some port) (first, last) listener c =
    let c' = charge 1000 c in
    if leb first port && leb port last
    then (elim listener [ err e ↦ (err e, c') | ok l ↦ push_resource (Resource.tcp_listener l) c' ])
    else (err OcallError.forbiden, c')

-- `tls_listen_sni`: whether there is an SNI listener, and its subscription, if certificate and name are
-- taken.
unfoldable pub tls_listen_sni : Bool → Option ℕ → Ocall ℕ
unfolding charge push_resource
tls_listen_sni has_listener subscription c =
    let c' = charge 1000 c in
    if has_listener
    then (elim subscription [
      | none ↦ (err OcallError.invalid_parameter, c')
      | some s ↦ push_resource (Resource.sni_subscription s) (charge 10000 c')
    ])
    else (err OcallError.forbiden, c')

unfoldable pub log : ℕ → Ocall (Unit {0})
unfolding charge
log message_len c = (ok tt, charge message_len c)

-- `getrandom`, with the bytes it draws.
unfoldable pub getrandom : List ℕ → Ocall (List ℕ)
unfolding charge
getrandom drawn c = (ok drawn, charge (length drawn * 10) c)

unfoldable pub app_address : ℕ → Ocall ℕ
unfolding charge
app_address id c = (ok id, charge 100 c)

unfoldable pub emit_program_output : ℕ → Ocall (Unit {0})
unfolding charge
emit_program_output output_len c = (ok tt, charge (output_len / 128) c)

-- `blob_get`, with what the loader answers.
unfoldable pub blob_get : Result BlobError (Option (List ℕ)) → Ocall (List ℕ)
unfolding charge
blob_get (err e) c = (err OcallError.io_error, charge 100 c)
blob_get (ok none) c = (err OcallError.not_found, charge 100 c)
blob_get (ok (some obj)) c = (ok obj, charge (length obj / 128) (charge 100 c))

-- 8 MiB, the most that `sign` and `sgx_quote` take.
abbrev pub max_signed_len : ℕ
max_signed_len = 1024 * 1024 * 8

-- `sign`, with the signature.
unfoldable pub sign : ℕ → ℕ → Ocall ℕ
unfolding charge
sign data_len signature c =
    if ltb max_signed_len data_len
    then (err OcallError.invalid_parameter, charge 100 c)
    else (ok signature, charge (1000 + data_len) c)

unfoldable pub worker_pubkey : ℕ → Ocall ℕ
unfolding charge
worker_pubkey pubkey c = (ok pubkey, charge 100 c)

-- `sgx_quote`, with the quote, if the worker can make one.
unfoldable pub sgx_quote : ℕ → Option ℕ → Ocall (Option ℕ)
unfolding charge
sgx_quote data_len quote c =
    if ltb max_signed_len data_len
    then (err OcallError.invalid_parameter, charge 100 c)
    else (ok quote, charge (1000 + data_len) c)

-- `app_gas_consumed`, with the gas and the token of `app_metrics`.
unfoldable pub app_gas_consumed : ℕ × ℕ → Ocall (ℕ × ℕ)
unfolding charge
app_gas_consumed answer c = (ok answer, charge 1000 c)

-- `derive_secret`, with the secret.
unfoldable pub derive_secret : ℕ → ℕ → Ocall ℕ
unfolding charge
derive_secret path_len secret c =
    let c' = charge (1000 + path_len) c in
    if ltb 256 path_len then (err OcallError.invalid_parameter, c') else (ok secret, c')

-- `app_try_lock` and `app_unlock`, with what `try_lock` or `unlock` of the worker answers.
unfoldable pub app_lock : Bool → Ocall (Unit {0})
app_lock answer c = (if answer then ok tt else err OcallError.condition_error, c)
