-- ===== src/Prelude/Assoc.antt =====
-- Maps from numbers as association lists: what `get`, a change through `get_mut`, and `remove` do.
use mathlib.Core.List.{List, [], ◌∷◌}
use mathlib.Core.Option.{Option, none, some}
use mathlib.Core.Path.{◌≡◌, subst}
use mathlib.Core.Logic.{inl, inr}
use native.Mathlib.Omega.{arith}
use Prim.Native.Nat.{ℕ}
use wapo.Prelude.Tests.{◌==◌, if◌then◌else◌, Bool-cases}
use wapo.Prelude.Lists.{All}

module _ {ℓ} {A : Type ℓ} where
  unfoldable pub find : ℕ → List (ℕ × A) → Option A
  find k [] = none
  find k ((j, a) ∷ m) = if j == k then some a else find k m

  unfoldable pub replace : ℕ → A → List (ℕ × A) → List (ℕ × A)
  replace k v [] = []
  replace k v ((j, a) ∷ m) = if j == k then (j, v) ∷ m else (j, a) ∷ replace k v m

  unfoldable pub erase : ℕ → List (ℕ × A) → List (ℕ × A)
  erase k [] = []
  erase k ((j, a) ∷ m) = if j == k then m else (j, a) ∷ erase k m

  pub find-replace :
      (k : ℕ) (a v : A) (m : List (ℕ × A)) → find k m ≡ some a → find k (replace k v m) ≡ some v
  unfolding find replace
  find-replace k a v [] e = cc
  find-replace k a v ((j, b) ∷ m) e = ground (arith, find-replace k a v m)

  -- A predicate on the values.
  abbrev pub Values {κ} : (A → Type κ) → List (ℕ × A) → Type κ
  Values P = All (λ e. P e.1)

  pub Values-find {κ} :
      (P : A → Type κ) (k : ℕ) (a : A) (m : List (ℕ × A)) → Values P m → find k m ≡ some a → P a
  unfolding find
  Values-find P k a [] v e = cc
  Values-find P k a ((j, b) ∷ m) v e = elim (Bool-cases (j == k)) [
    | inl h ↦ let same : b ≡ a = ground arith in subst P same v.0
    | inr h ↦ Values-find P k a m v.1 (ground arith)
  ]

  pub Values-replace {κ} :
      (P : A → Type κ) (k : ℕ) (v : A) (m : List (ℕ × A))
      → Values P m
      → P v
      → Values P (replace k v m)
  unfolding replace
  Values-replace P k v [] h p = tt
  Values-replace P k v ((j, b) ∷ m) h p = elim (Bool-cases (j == k)) [
    | inl e ↦ rw (replace, e) (p, h.1)
    | inr e ↦ rw (replace, e) (h.0, Values-replace P k v m h.1 p)
  ]

  pub Values-erase {κ} :
      (P : A → Type κ) (k : ℕ) (m : List (ℕ × A)) → Values P m → Values P (erase k m)
  unfolding erase
  Values-erase P k [] h = tt
  Values-erase P k ((j, b) ∷ m) h = elim (Bool-cases (j == k)) [
    | inl e ↦ rw (erase, e) h.1
    | inr e ↦ rw (erase, e) (h.0, Values-erase P k m h.1)
  ]
