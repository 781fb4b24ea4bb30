-- ===== src/Guest/Io.antt =====
-- wapo/src/net.rs, channel.rs and time.rs: the futures of the guest that wait for the host. An ocall is a
-- parameter that acts on the host `H`; `none` says that it does not come back. A waker is known by the
-- data word of its `RawWaker`.
pub mod Sleep
use wapo.Prelude.{
  ℕ, ◌-◌, ◌%◌, ltb, ◌==◌, if◌then◌else◌, List, [], ◌∷◌, Option, none, some, Bool, true, false, ◌||◌,
  u32_mod,
}
use mathlib.Core.List.{reverse}
use wapo.Prelude.Result.{Result, ok, err}
use wapo.Env.{OcallResult, OcallError, to_code}
use wapo.Guest.Wakers.{Wakers, intern_waker}
use wapo.Host.Resources.{as_usize}

-- The ocalls that poll.
pub record Ocalls (H : Type 0) : Type 0 where
  pub poll : ℕ → ℕ → H → Option (OcallResult (List ℕ)) × H
  pub poll_read : ℕ → ℕ → ℕ → H → Option (OcallResult (ℕ × List ℕ)) × H
  pub poll_write : List ℕ → ℕ → ℕ → H → Option (OcallResult ℕ) × H
  pub poll_shutdown : ℕ → ℕ → H → Option (OcallResult (Unit {0})) × H
  pub poll_res : ℕ → ℕ → H → Option (OcallResult ℕ) × H
  pub tcp_accept : ℕ → ℕ → H → Option (OcallResult (ℕ × ℕ)) × H

pub record Guest (H : Type 0) : Type 0 where
  pub wakers : Wakers
  pub host : H

-- What a poll of a future ends in.
pub data Outcome (A : Type 0) : Type 0 where
  pending panics hangs : Outcome A
  ready : A → Outcome A

-- An error of `std::io`, made from an error code.
abbrev pub io_error : {A : Type 0} → OcallError → Result ℕ A
io_error e = err (to_code e)

unfoldable pub into_poll : {A : Type 0} → OcallResult A → Outcome (Result ℕ A)
into_poll (ok v) = ready (ok v)
into_poll (err OcallError.pending) = pending
into_poll (err e) = ready (io_error e)

-- An answer with its error as it is.
unfoldable pub or_pending :
    {A B : Type 0} → (A → Outcome (OcallResult B)) → OcallResult A → Outcome (OcallResult B)
or_pending f (ok a) = f a
or_pending f (err OcallError.pending) = pending
or_pending f (err e) = ready (err e)

-- What `poll_read` of tokio's `AsyncRead` makes of the answer, for a buffer with room for `remaining`.
unfoldable pub filled : ℕ → OcallResult (ℕ × List ℕ) → Outcome (Result ℕ ℕ)
filled remaining (ok (len, bytes)) =
    if ltb remaining len then ready (io_error OcallError.invalid_encoding) else ready (ok len)
filled remaining (err OcallError.pending) = pending
filled remaining (err e) = ready (io_error e)

-- `Sleep`: any other error is a panic.
unfoldable pub woken_up : OcallResult (ℕ × List ℕ) → Outcome (Unit {0})
woken_up (ok n) = ready tt
woken_up (err OcallError.pending) = pending
woken_up (err e) = panics

-- `Next`, with the decoding of a message.
unfoldable pub next_message :
    {M : Type 0} → (List ℕ → Option M) → OcallResult (List ℕ) → Outcome (Option M)
next_message decode (ok msg) = elim (decode msg) [ none ↦ panics | some m ↦ ready (some m) ]
next_message decode (err OcallError.end_of_file) = ready none
next_message decode (err OcallError.pending) = pending
next_message decode (err e) = panics

module _ {H : Type 0} where
  -- `intern_waker(cx.waker().clone())`, the ocall, and what is made of its answer.
  unfoldable pub ask :
      {A B : Type 0}
      → ℕ
      → (ℕ → H → Option (OcallResult A) × H)
      → (OcallResult A → Outcome B)
      → Guest H
      → Outcome B × Guest H
  unfolding intern_waker
  ask waker ocall f s = elim (intern_waker waker s.wakers) [
    | none ↦ (panics, s)
    | some (id, wakers) ↦
        let (r, host) = ocall id s.host in
        (elim r [ none ↦ hangs | some x ↦ f x ], record { wakers = wakers; host = host })
  ]

module _ {H : Type 0} (ocalls : Ocalls H) where
  -- `parse` reads a remote address.
  unfoldable pub poll_tcp_accept :
      {Addr : Type 0}
      → (ℕ → Option Addr)
      → ℕ
      → ℕ
      → Guest H
      → Outcome (OcallResult (ℕ × Addr)) × Guest H
  unfolding ask or_pending
  poll_tcp_accept parse res_id waker =
      ask waker (λ id. ocalls.tcp_accept id res_id)
        (or_pending (λ a. elim (parse a.1) [ none ↦ panics | some addr ↦ ready (ok (a.0, addr)) ]))

  -- `TcpConnector`, which may hold the error of the connecting ocall.
  unfoldable pub connector_poll : OcallResult ℕ → ℕ → Guest H → Outcome (OcallResult ℕ) × Guest H
  unfolding ask or_pending
  connector_poll (err e) waker s = (ready (err e), s)
  connector_poll (ok res_id) waker s =
      ask waker (λ id. ocalls.poll_res id res_id) (or_pending (λ id. ready (ok id))) s

  -- `AsyncRead` of tokio, for a buffer with room for `remaining`.
  unfoldable pub tokio_read : ℕ → ℕ → ℕ → Guest H → Outcome (Result ℕ ℕ) × Guest H
  unfolding ask filled
  tokio_read res_id remaining waker =
      ask waker (λ id. ocalls.poll_read remaining id res_id) (filled remaining)

  -- `AsyncRead` of futures.
  unfoldable pub futures_read : ℕ → ℕ → ℕ → Guest H → Outcome (Result ℕ (ℕ × List ℕ)) × Guest H
  unfolding ask into_poll
  futures_read res_id len waker = ask waker (λ id. ocalls.poll_read len id res_id) into_poll

  -- `AsyncWrite` of both.
  unfoldable pub stream_write : ℕ → List ℕ → ℕ → Guest H → Outcome (Result ℕ ℕ) × Guest H
  unfolding ask into_poll
  stream_write res_id buf waker = ask waker (λ id. ocalls.poll_write buf id res_id) into_poll

  unfoldable pub stream_close : ℕ → ℕ → Guest H → Outcome (Result ℕ (Unit {0})) × Guest H
  unfolding ask into_poll
  stream_close res_id waker = ask waker (λ id. ocalls.poll_shutdown id res_id) into_poll

  unfoldable pub sleep_poll : ℕ → ℕ → Guest H → Outcome (Unit {0}) × Guest H
  unfolding ask woken_up
  sleep_poll res_id waker = ask waker (λ id. ocalls.poll_read 0 id res_id) woken_up

  unfoldable pub next_poll :
      {M : Type 0} → (List ℕ → Option M) → ℕ → ℕ → Guest H → Outcome (Option M) × Guest H
  unfolding ask next_message
  next_poll decode res_id waker = ask waker (λ id. ocalls.poll id res_id) (next_message decode)

-- `poll_flush`.
unfoldable stream_flush : {H : Type 0} → Guest H → Outcome (Result ℕ (Unit {0})) × Guest H
stream_flush s = (ready (ok tt), s)

-- `Breath::poll`: whether it wakes its waker, what it answers, and its field `pending` after it.
unfoldable breath_poll : Bool → Bool × Outcome (Unit {0}) × Bool
breath_poll true = (true, pending, false)
breath_poll false = (false, ready tt, false)

-- `trim_matches(|c| c == '[' || c == ']')`.
unfoldable trim_start : List ℕ → List ℕ
trim_start [] = []
trim_start (c ∷ cs) = let rest = trim_start cs in if c == b'[' || c == b']' then rest else c ∷ cs

unfoldable trim_brackets : List ℕ → List ℕ
unfolding trim_start
trim_brackets cs = reverse (trim_start (reverse (trim_start cs)))

-- `connect_with_components`, for a scheme that is "https" or not: the arguments of `connect`.
unfoldable connect_with_components : Bool → Option (List ℕ) → Option ℕ → List ℕ × ℕ × Bool
unfolding trim_brackets
connect_with_components is_https host port =
    let default_port : ℕ = if is_https then 443 else 80 in
    (
      trim_brackets (elim host [ none ↦ [] | some h ↦ h ]),
      elim port [ none ↦ default_port | some p ↦ p ],
      is_https,
    )

-- `duration.as_millis() as i32`, as a bit pattern.
unfoldable pub timeout_arg : ℕ → ℕ
timeout_arg millis = millis % u32_mod

-- `checked_duration_since(now).unwrap_or_default()`, in milliseconds.
unfoldable millis_until : ℕ → ℕ → ℕ
millis_until now instant = instant - now

-- The milliseconds that the host's `create_timer` waits, `timeout as u64`.
unfoldable pub host_millis : ℕ → ℕ
unfolding as_usize
host_millis timeout = as_usize timeout

-- `sleep`, up to the host's timer.
unfoldable pub sleep_millis : ℕ → ℕ
unfolding timeout_arg host_millis
sleep_millis millis = host_millis (timeout_arg millis)
