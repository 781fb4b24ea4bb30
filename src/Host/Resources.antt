-- ===== src/Host/Resources.antt =====
-- wapo-host/src/runtime/resource.rs, `Resource` and `ResourceTable`: what a guest has opened on the host,
-- and the ids that it knows it by. An id is the bit pattern of an i32; streams, timers, channels and
-- futures are numbers that stand for objects of tokio.
pub mod Poll
pub mod Slots
use wapo.Prelude.{
  ℕ, suc, ◌+◌, ◌-◌, ltb, leb, if◌then◌else◌, List, [], ◌∷◌, ◌++◌, Option, none, some, length, set,
  get_elem?, min, u32_mod, u64_mod,
}
use wapo.Prelude.Result.{ok, err}
use wapo.Env.{OcallResult, OcallError}

pub data Resource : Type 0 where
  sleep channel_rx tcp_listener tcp_stream tls_stream : ℕ → Resource
  tcp_connect tls_connect duplex_stream sni_subscription : ℕ → Resource
  -- The sender of a reply, until it is used.
  oneshot_tx : Option ℕ → Resource

-- `RESOURCE_ID_MAX`, and `i32::MAX`.
abbrev pub resource_id_max : ℕ
resource_id_max = 8192

abbrev pub i32_max : ℕ
i32_max = 0x7fff_ffff

-- `id as usize` of an i32, on a 64-bit host.
unfoldable pub as_usize : ℕ → ℕ
as_usize id = if leb id i32_max then id else id + (u64_mod - u32_mod)

-- `Option::as_mut` and `ok_or`.
abbrev pub present : Option (Option Resource) → OcallResult Resource
present none = err OcallError.not_found
present (some none) = err OcallError.not_found
present (some (some r)) = ok r

unfoldable pub get_mut : ℕ → List (Option Resource) → OcallResult Resource
unfolding as_usize
get_mut id t = present (get_elem? t (as_usize id))

-- The first slot from the one with the number `i` on that is none.
unfoldable pub first_vacant : ℕ → List (Option Resource) → Option ℕ
first_vacant i [] = none
first_vacant i (none ∷ t) = some i
first_vacant i (some r ∷ t) = first_vacant (suc i) t

-- `push`, once the first vacant slot is known.
unfoldable pub push_at :
    Option ℕ → Resource → List (Option Resource) → OcallResult ℕ × List (Option Resource)
push_at (some i) resource t =
    if leb i i32_max then (ok i, set t i (some resource)) else (err OcallError.resource_limited, t)
push_at none resource t =
    if leb (min resource_id_max i32_max) (length t)
    then (err OcallError.resource_limited, t)
    else if leb (length t) i32_max
    then (ok (length t), t ++ some resource ∷ [])
    else (err OcallError.resource_limited, t)

unfoldable pub push : Resource → List (Option Resource) → OcallResult ℕ × List (Option Resource)
unfolding first_vacant push_at
push resource t = push_at (first_vacant 0 t) resource t

-- `resource_id as u32 as usize` is the bit pattern itself.
unfoldable pub take_slot : ℕ → List (Option Resource) → Option Resource × List (Option Resource)
take_slot resource_id t = elim (get_elem? t resource_id) [
  | none ↦ (none, t)
  | some r ↦ (r, set t resource_id none)
]
