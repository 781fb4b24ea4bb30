-- ===== src/Env.antt =====
-- wapo-env/src/lib.rs and args_stack.rs: the error codes, and how arguments and results of an ocall
-- are carried across the boundary between guest and host. An `i32`, a `u32` and an `IntPtr` are all
-- bit patterns below 2 ^ 32, and an `IntRet` (`i64`) is a bit pattern below 2 ^ 64.
pub mod Codec
pub mod Int64
pub mod Stack
use wapo.Prelude.{ℕ, ◌==◌, leb, Option, none, some, ◌&&◌, if◌then◌else◌}
use wapo.Prelude.Result.{Result}

-- `reserved n` is `Reserved<n>`, which the enum has for each n from 19 to 255.
pub data OcallError : Type 0 where
  success unknown_call_number invalid_address invalid_parameter invalid_encoding : OcallError
  no_memory not_found unsupported_operation io_error resource_limited pending : OcallError
  end_of_file gas_exhausted stifled already_exists data_corruption forbiden : OcallError
  condition_error : OcallError
  reserved : ℕ → OcallError

-- `*self as u8`, from `#[repr(u8)]` and the discriminants.
unfoldable pub to_code : OcallError → ℕ
to_code success = 0
to_code unknown_call_number = 1
to_code invalid_address = 2
to_code invalid_parameter = 3
to_code invalid_encoding = 4
to_code no_memory = 5
to_code not_found = 7
to_code unsupported_operation = 8
to_code io_error = 9
to_code resource_limited = 10
to_code pending = 11
to_code end_of_file = 12
to_code gas_exhausted = 13
to_code stifled = 14
to_code already_exists = 15
to_code data_corruption = 16
to_code forbiden = 17
to_code condition_error = 18
to_code (reserved n) = n

-- `TryFromPrimitive`: the variant with the discriminant, if there is one (6 has none).
unfoldable pub try_from_code : ℕ → Option OcallError
try_from_code n =
    if n == 0
    then some success
    else if n == 1
    then some unknown_call_number
    else if n == 2
    then some invalid_address
    else if n == 3
    then some invalid_parameter
    else if n == 4
    then some invalid_encoding
    else if n == 5
    then some no_memory
    else if n == 7
    then some not_found
    else if n == 8
    then some unsupported_operation
    else if n == 9
    then some io_error
    else if n == 10
    then some resource_limited
    else if n == 11
    then some pending
    else if n == 12
    then some end_of_file
    else if n == 13
    then some gas_exhausted
    else if n == 14
    then some stifled
    else if n == 15
    then some already_exists
    else if n == 16
    then some data_corruption
    else if n == 17
    then some forbiden
    else if n == 18
    then some condition_error
    else if leb 19 n && leb n 255
    then some (reserved n)
    else none

-- `wapo_env::Result`.
abbrev pub OcallResult : Type 0 → Type 0
OcallResult A = Result OcallError A
