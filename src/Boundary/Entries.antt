-- ===== src/Boundary/Entries.antt =====
-- The entries, an id with the waker that it stands for, that handles and drop events carry.
use mathlib.Core.List.{Mem, Perm, append_assoc, append-nil, mem-cons_of_mem, perm_middle}
use mathlib.Core.List.Perm
use wapo.Prelude.{ℕ, ◌≡◌, refl, ap, subst, List, [], ◌∷◌, ◌++◌, map}
use wapo.Prelude.Int.{ℤ, pos, negsuc}
use wapo.Boundary.{Handle}

-- An id with the waker that it stands for.
abbrev pub Entry : Type 0
Entry = ℕ × ℕ

abbrev pub entries : List Handle → List Entry
entries = map (λ h. (h.id, h.waker))

-- The entries of the drop events, and the wakers of the wake events.
abbrev pub drops : List (ℤ × ℕ) → List Entry
drops [] = []
drops ((pos id, w) ∷ es) = drops es
drops ((negsuc n, w) ∷ es) = (n, w) ∷ drops es

abbrev pub wakes_of : List (ℤ × ℕ) → List ℕ
wakes_of [] = []
wakes_of ((pos id, w) ∷ es) = w ∷ wakes_of es
wakes_of ((negsuc n, w) ∷ es) = wakes_of es

abbrev pub ids : List Entry → List ℕ
ids = map (λ e. e.0)

-- Each wake event is about a handle that lives, or that a later event drops.
abbrev pub InTime : List Entry → List (ℤ × ℕ) → Type 0
InTime hs [] = Unit
InTime hs ((pos id, w) ∷ es) = Mem (id, w) (hs ++ drops es) × InTime hs es
InTime hs ((negsuc n, w) ∷ es) = InTime hs es

pub drops-append : (es fs : List (ℤ × ℕ)) → drops (es ++ fs) ≡ drops es ++ drops fs
drops-append [] fs = refl
drops-append ((pos id, w) ∷ es) fs = drops-append es fs
drops-append ((negsuc n, w) ∷ es) fs = ap (◌∷◌ (n, w)) (drops-append es fs)

-- More events at the end, and other handles, as long as no entry is lost.
pub InTime-append :
    (hs hs' : List Entry) (es fs : List (ℤ × ℕ))
    → ((x : Entry) (ds : List Entry) → Mem x (hs ++ ds) → Mem x (hs' ++ (ds ++ drops fs)))
    → InTime hs es
    → InTime hs' fs
    → InTime hs' (es ++ fs)
InTime-append hs hs' [] fs f t u = u
InTime-append hs hs' ((pos id, w) ∷ es) fs f t u =
    (rw (drops-append es fs) (f (id, w) (drops es) t.0), InTime-append hs hs' es fs f t.1 u)
InTime-append hs hs' ((negsuc n, w) ∷ es) fs f t u = InTime-append hs hs' es fs f t u

pub InTime-cons :
    (e : Entry) (hs : List Entry) (es : List (ℤ × ℕ)) → InTime hs es → InTime (e ∷ hs) es
InTime-cons e hs [] t = tt
InTime-cons e hs ((pos id, w) ∷ es) t = (mem-cons_of_mem e t.0, InTime-cons e hs es t.1)
InTime-cons e hs ((negsuc n, w) ∷ es) t = InTime-cons e hs es t

-- The last clone's entry moves from the handles to the drop events.
pub move_last :
    (before after ds : List Entry) (e : Entry)
    → Perm ((before ++ e ∷ after) ++ ds) ((before ++ after) ++ (ds ++ e ∷ []))
move_last before after ds e =
    let rest = (before ++ after) ++ ds in
    let left : Perm ((before ++ e ∷ after) ++ ds) (e ∷ rest) =
      Perm.append_right ds (perm_middle before after) in
    let right : Perm (rest ++ e ∷ []) (e ∷ rest) =
      subst (λ l. Perm (rest ++ e ∷ []) (e ∷ l)) (append-nil rest) (perm_middle rest []) in
    Perm.trans left (Perm.symm (rw append_assoc at right))
