-- ===== src/Guest/Io/Sleep.antt =====
-- wapo/src/time.rs: how long `sleep` sleeps.
use wapo.Prelude.{ℕ, ◌<◌, ◌≡◌, arith, ltb, ◌==◌}
use wapo.Guest.Io.{timeout_arg, host_millis, sleep_millis}
use wapo.Host.Resources.{as_usize}

-- For a duration below 2^63 milliseconds, `sleep` makes a timer for that duration if and only if it is
-- less than 2^31 milliseconds: from there on `as i32` changes it.
pub sleep_millis-keeps :
    (millis : ℕ)
    → millis < 0x8000_0000_0000_0000
    → (sleep_millis millis == millis) ≡ ltb millis 0x8000_0000
unfolding sleep_millis host_millis timeout_arg as_usize
sleep_millis-keeps millis h = ground (arith, h)
