-- ===== src/Host/Service/Runs.antt =====
-- How the task of an instance, wapo-host/src/service.rs, restarts the program.
use wapo.Prelude.{
  ℕ, ◌+◌, ◌*◌, ◌-◌, ◌≤◌, ◌<◌, ◌≡◌, refl, sym, subst, ◌∙◌, inl, inr, ltb, List, [], ◌∷◌, Option,
  none, some, true, false, Bool-cases, arith,
}
use wapo.Host.Service.{
  Config, Run, Turn, Event, break, next, stop, run_ended, command, control, meter_stopped,
  update_weight, min_live_time, need_restart, on_event, limited, wait, and_then, select, serve,
}

-- The state that a turn leaves.
abbrev pub left : Turn → Run
left (break at reason r) = r
left (next r) = r

-- What a turn may do to the restarts: each comes more than `min_live_time` after the last start.
abbrev pub Spaced : Run → Run → Type 0
Spaced r s =
    (r.restarts ≤ s.restarts)
    × ((s.restarts - r.restarts) * min_live_time + r.start_time ≤ s.start_time)

need_restart-gap :
    (c : Config) (now : ℕ) (r : Run)
    → need_restart c now r ≡ true
    → r.start_time + min_live_time < now
unfolding need_restart
need_restart-gap c now r h = ground arith

need_restart-meter :
    (c : Config) (now : ℕ) (r : Run) → r.meter_off ≡ true → need_restart c now r ≡ false
unfolding need_restart
need_restart-meter c now r h = ground arith

on_event-Spaced :
    (c : Config) (now : ℕ) (e : Event) (r : Run) → Spaced r (left (on_event c now e r))
unfolding on_event need_restart
on_event-Spaced c now (run_ended rv) r = elim (Bool-cases (need_restart c now r)) [
  | inl n ↦
      let gap = need_restart-gap c now r n in
      elim (Bool-cases (c.rerun r.restarts)) [
        | inl k ↦ rw (on_event, n, k) (omega arith, omega (arith, gap))
        | inr k ↦ rw (on_event, n, k) (omega arith, omega (arith, gap))
      ]
  | inr n ↦ rw (on_event, n) (omega arith, omega arith)
]
on_event-Spaced c now (command none) r = (omega arith, omega arith)
on_event-Spaced c now (command (some d)) r = (omega arith, omega arith)
on_event-Spaced c now (control none) r = (omega arith, omega arith)
on_event-Spaced c now (control (some stop)) r = (omega arith, omega arith)
on_event-Spaced c now (control (some (update_weight w))) r = (omega arith, omega arith)
on_event-Spaced c now meter_stopped r = (omega arith, omega arith)

Spaced-trans : (p q r : Run) → Spaced p q → Spaced q r → Spaced p r
Spaced-trans p q r h k = (omega (arith, h.0, k.0), omega (arith, h.0, h.1, k.0, k.1))

limited-left :
    (P : Run → Type 0) (limit : Option ℕ) (now : ℕ) (r : Run) (turn : Turn)
    → P r
    → P (left turn)
    → P (left (limited limit now r turn))
unfolding limited
limited-left P none now r turn p q = q
limited-left P (some limit) now r turn p q = elim (Bool-cases (ltb (r.since + limit) now)) [
  | inl e ↦ rw (limited, e) p
  | inr e ↦ rw (limited, e) q
]

wait-left : (limit : Option ℕ) (r : Run) → left (wait limit r) ≡ r
unfolding wait
wait-left none r = refl
wait-left (some limit) r = refl

and_then-Spaced :
    (r : Run) (t : Turn) (f : Run → Turn)
    → Spaced r (left t)
    → ((s : Run) → Spaced s (left (f s)))
    → Spaced r (left (and_then t f))
and_then-Spaced r (break at reason s) f h k = h
and_then-Spaced r (next s) f h k = Spaced-trans r s (left (f s)) h (k s)

-- Whatever happens to an instance, the program is restarted at most once in any ten seconds: the
-- last start comes at least ten seconds per restart after the first one.
pub serve-Spaced : (c : Config) (es : List (ℕ × Event)) (r : Run) → Spaced r (left (serve c es r))
unfolding serve select
serve-Spaced c [] r = subst (Spaced r) (sym (wait-left c.time_limit r)) (omega arith, omega arith)
serve-Spaced c ((now, e) ∷ es) r =
    and_then-Spaced r (select c now e r) (serve c es)
      (limited-left (Spaced r) c.time_limit now r (on_event c now e r) (omega arith, omega arith)
        (on_event-Spaced c now e r))
      (serve-Spaced c es)

-- A turn keeps the meter stopped, and starts nothing again once it is.
abbrev Quits : Run → Run → Type 0
Quits r s = r.meter_off ≡ true → (s.meter_off ≡ true) × (s.restarts ≡ r.restarts)

on_event-Quits : (c : Config) (now : ℕ) (e : Event) (r : Run) → Quits r (left (on_event c now e r))
unfolding on_event
on_event-Quits c now (run_ended rv) r h =
    let n = need_restart-meter c now r h in rw (on_event, n) (h, refl)
on_event-Quits c now (command none) r h = (h, refl)
on_event-Quits c now (command (some d)) r h = (h, refl)
on_event-Quits c now (control none) r h = (h, refl)
on_event-Quits c now (control (some stop)) r h = (h, refl)
on_event-Quits c now (control (some (update_weight w))) r h = (h, refl)
on_event-Quits c now meter_stopped r h = (refl, refl)

and_then-Quits :
    (r : Run) (t : Turn) (f : Run → Turn)
    → Quits r (left t)
    → ((s : Run) → Quits s (left (f s)))
    → Quits r (left (and_then t f))
and_then-Quits r (break at reason s) f h k m = h m
and_then-Quits r (next s) f h k m =
    let first = h m in let second = k s first.0 in (second.0, second.1 ∙ first.1)

serve-Quits : (c : Config) (es : List (ℕ × Event)) (r : Run) → Quits r (left (serve c es r))
unfolding serve select
serve-Quits c [] r = subst (Quits r) (sym (wait-left c.time_limit r)) (λ h. (h, refl))
serve-Quits c ((now, e) ∷ es) r =
    and_then-Quits r (select c now e r) (serve c es)
      (limited-left (Quits r) c.time_limit now r (on_event c now e r) (λ h. (h, refl))
        (on_event-Quits c now e r))
      (serve-Quits c es)
