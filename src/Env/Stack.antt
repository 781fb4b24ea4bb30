-- ===== src/Env/Stack.antt =====
-- args_stack.rs, `StackedArgs` and `Nargs`: how the nested pairs of ocall arguments are laid out in
-- the four machine words of a call. A word is an `IntPtr`.
use mathlib.Core.List.{append_assoc}
use wapo.Prelude.{
  ℕ, ◌+◌, ◌-◌, ◌≤◌, ◌≡◌, refl, arith, List, [], ◌∷◌, ◌++◌, Option, none, some, length, take,
  replicate, length-append, take-append_length,
}

-- The argument types that implement `Nargs`.
pub data Shape : Type 0 where
  unit : Shape
  ptr : Shape
  pair : Shape → Shape → Shape

abbrev pub Args : Shape → Type 0
Args unit = Unit
Args ptr = ℕ
Args (pair s t) = Args s × Args t

-- `OCALL_N_ARGS`.
abbrev pub ocall_n_args : ℕ
ocall_n_args = 4

-- `Nargs::N_ARGS`.
unfoldable pub n_args : Shape → ℕ
n_args unit = 0
n_args ptr = 1
n_args (pair s t) = n_args s + n_args t

-- `Nargs::load`: the value, and what is left of the buffer.
unfoldable pub load : (s : Shape) → List ℕ → Option (Args s × List ℕ)
load unit buf = some (tt, buf)
load ptr [] = none
load ptr (me ∷ buf) = some (me, buf)
load (pair s t) buf = elim (load t buf) [
  | none ↦ none
  | some (b, rest) ↦ elim (load s rest) [ none ↦ none | some (a, left) ↦ some ((a, b), left) ]
]

-- `Nargs::dump`: the array of four words, those past `N_ARGS` zero.
unfoldable pub dump : (s : Shape) → Args s → List ℕ
unfolding n_args
dump unit a = replicate ocall_n_args 0
dump ptr me = me ∷ replicate 3 0
dump (pair s t) (a, b) =
    take (n_args t) (dump t b)
    ++ (take (n_args s) (dump s a) ++ replicate (ocall_n_args - (n_args s + n_args t)) 0)

-- The words of a value with no padding.
words : (s : Shape) → Args s → List ℕ
words unit a = []
words ptr me = me ∷ []
words (pair s t) (a, b) = words t b ++ words s a

length-words : (s : Shape) (a : Args s) → length (words s a) ≡ n_args s
unfolding words n_args
length-words unit a = refl
length-words ptr me = refl
length-words (pair s t) (a, b) =
    omega (arith, length-append (words t b) (words s a), length-words s a, length-words t b)

take-words :
    (s : Shape) (a : Args s) (rest : List ℕ) → take (n_args s) (words s a ++ rest) ≡ words s a
take-words s a rest = rw (← length-words s a) (take-append_length (words s a) rest)

dump-words :
    (s : Shape) (a : Args s)
    → n_args s ≤ ocall_n_args
    → dump s a ≡ words s a ++ replicate (ocall_n_args - n_args s) 0
unfolding dump words n_args
dump-words unit a h = refl
dump-words ptr me h = refl
dump-words (pair s t) (a, b) h = rw (
  dump-words s a (omega arith),
  dump-words t b (omega arith),
  take-words s a (replicate (ocall_n_args - n_args s) 0),
  take-words t b (replicate (ocall_n_args - n_args t) 0),
  append_assoc,
)

load-words : (s : Shape) (a : Args s) (rest : List ℕ) → load s (words s a ++ rest) ≡ some (a, rest)
unfolding load words
load-words unit a rest = refl
load-words ptr me rest = refl
load-words (pair s t) (a, b) rest =
    rw (append_assoc, load-words t b (words s a ++ rest), load-words s a rest)

-- Arguments of at most four words, dumped by the guest into the four words of a call and loaded by
-- the host at the same type, come out as they were, and what is left over is padding.
pub load-dump :
    (s : Shape) (a : Args s)
    → n_args s ≤ ocall_n_args
    → load s (dump s a) ≡ some (a, replicate (ocall_n_args - n_args s) 0)
load-dump s a h = rw (dump-words s a h) (load-words s a _)
