-- ===== src/Host/Service/Ends.antt =====
-- How the task of an instance, wapo-host/src/service.rs, ends: by a Stop command, and by its time
-- limit.
use wapo.Prelude.{
  ℕ, ◌+◌, ◌≤◌, ◌≡◌, refl, sym, subst, inl, inr, ltb, if◌then◌else◌, List, [], ◌∷◌, ◌++◌, Option,
  none, some, false, Bool-cases, arith,
}
use wapo.Host.Service.{
  ExitReason, Command, Config, Run, Turn, Event, break, next, stopped, stop, command, control,
  on_event, limited, wait, and_then, select, serve,
}

-- The loop ends.
abbrev pub Ends : Turn → Type 0
Ends t = (at : ℕ) × (reason : ExitReason) × (r : Run) × (t ≡ break at reason r)

limited-stops :
    (limit : Option ℕ) (now : ℕ) (r s : Run) → Ends (limited limit now r (break now stopped s))
unfolding limited
limited-stops none now r s = (now, stopped, s, refl)
limited-stops (some limit) now r s = elim (Bool-cases (ltb (r.since + limit) now)) [
  | inl e ↦ rw (limited, e) (r.since + limit, stopped, r, refl)
  | inr e ↦ rw (limited, e) (now, stopped, s, refl)
]

and_then-Ends : (t : Turn) (f : Run → Turn) → ((s : Run) → Ends (f s)) → Ends (and_then t f)
and_then-Ends (break at reason r) f h = (at, reason, r, refl)
and_then-Ends (next r) f h = h r

Ends-and_then : (t : Turn) (f : Run → Turn) → Ends t → Ends (and_then t f)
Ends-and_then (break at reason r) f h = (at, reason, r, refl)
Ends-and_then (next r) f (at, reason, s, e) = cc

-- Once the command Stop is among the events of an instance, its task ends, whatever comes before and
-- after it.
pub serve-stops :
    (c : Config) (before after : List (ℕ × Event)) (now : ℕ) (r : Run)
    → Ends (serve c (before ++ (now, control (some stop)) ∷ after) r)
unfolding serve select on_event
serve-stops c [] after now r =
    Ends-and_then (select c now (control (some stop)) r) (serve c after)
      (limited-stops c.time_limit now r r)
serve-stops c ((t, e) ∷ before) after now r =
    and_then-Ends (select c t e r) (serve c (before ++ (now, control (some stop)) ∷ after))
      (serve-stops c before after now)

-- The instants of the events, each at most `limit` after the one before it.
abbrev pub Frequent : ℕ → ℕ → List ℕ → Type 0
Frequent limit since [] = Unit
Frequent limit since (t ∷ ts) = (t ≤ since + limit) × Frequent limit t ts

abbrev pub last : ℕ → List ℕ → ℕ
last since [] = since
last since (t ∷ ts) = last t ts

abbrev pub commands : (ℕ → Command) → List ℕ → List (ℕ × Event)
commands d [] = []
commands d (t ∷ ts) = (t, command (some (d t))) ∷ commands d ts

-- Every command starts the time limit of an instance again: an instance that gets commands, each of
-- them within the limit after the one before, is stopped the limit after the last one, however many
-- they are.
pub serve-commands :
    (c : Config) (limit : ℕ) (d : ℕ → Command) (ts : List ℕ) (r : Run)
    → c.time_limit ≡ some limit
    → Frequent limit r.since ts
    → (s : Run) × (serve c (commands d ts) r ≡ break (last r.since ts + limit) stopped s)
unfolding serve select on_event limited wait
serve-commands c limit d [] r e h =
    (r, subst (λ o. wait o r ≡ break (r.since + limit) stopped r) (sym e) refl)
serve-commands c limit d (t ∷ ts) r e h =
    let s = record r { since = t; pushed = r.pushed ++ d t ∷ [] } in
    let (q, rest) = serve-commands c limit d ts s e h.1 in
    let early : ltb (r.since + limit) t ≡ false = ground (arith, h.0) in
    (
      q,
      subst
          (λ o.
            and_then (limited o t r (next s)) (serve c (commands d ts))
            ≡ break (last t ts + limit) stopped q)
          (sym e)
          (subst
            (λ b.
              and_then (if b then break (r.since + limit) stopped r else next s)
                (serve c (commands d ts))
              ≡ break (last t ts + limit) stopped q)
            (sym early) rest),
    )
