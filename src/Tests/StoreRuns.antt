-- ===== src/Tests/StoreRuns.antt =====
-- Blobs, boot data and spawned tasks, at concrete inputs.
use wapo.Prelude.{
  ℕ, ◌-◌, ◌+◌, ◌≡◌, refl, ap, ◌∙◌, leb, if◌then◌else◌, List, [], ◌∷◌, ◌++◌, Option, none, some,
  length, length-append, take, take-append_length, replicate, All, true, arith,
}
use wapo.Prelude.Result.{ok, err}
use wapo.Metrics.{default_meter}
use wapo.Host.Blobs.{
  HashAlgo, sha256, HashValue, LruCache, BlobLoader, Cipher, Boot, io_error, max_boot_data_size,
  accepts, stored_hash, write_boot_data, read_boot_data,
}
use wapo.Host.Blobs.Names.{Hex, display, put, Holds, put-Holds}
use wapo.Host.Blobs.RoundTrips.{read_boot_data-write_boot_data}
use wapo.Host.TaskSet.{TaskSet, with_task0}
use wapo.Guest.Tasks.{start_tasks}
use wapo.Guest.Tasks.Spawned.{IsStarted, Kept, start_tasks-starts}

-- A hash that is the length, and a cache that keeps nothing.
abbrev toy_hasher : HashAlgo → List ℕ → ℕ
toy_hasher algo bytes = length bytes

abbrev no_cache : LruCache (Unit {0})
no_cache = record { get = λ k c. (none, c); put = λ k b c. c; pop = λ k c. c }

abbrev empty_loader : BlobLoader (Unit {0})
empty_loader = record { cache = tt; store_dir = (9, 1 ∷ []) ∷ [] }

abbrev unknown : HashValue
unknown = record { algo = sha256; hash = none }

-- Texts of one digit.
abbrev toy_hex : Hex
toy_hex = record {
  encode = λ h. elim h [ none ↦ [] | some n ↦ n ∷ [] ];
  decode = λ s. elim s [ [] ↦ some none | n ∷ ns ↦ some (some n) ];
}

toy_hex_decodes : (h : Option ℕ) → toy_hex.decode (toy_hex.encode h) ≡ some h
toy_hex_decodes none = refl
toy_hex_decodes (some n) = refl

put-Holds_example :
    Holds toy_hex toy_hasher
      (display toy_hex (stored_hash sha256 3))
      (7 ∷ 8 ∷ 9 ∷ [])
      (put toy_hex toy_hasher (display toy_hex unknown) (7 ∷ 8 ∷ 9 ∷ []) empty_loader).1
unfolding put display accepts
put-Holds_example =
    put-Holds toy_hex toy_hex_decodes toy_hasher (display toy_hex unknown) (7 ∷ 8 ∷ 9 ∷ [])
      (display toy_hex (stored_hash sha256 3)) empty_loader refl

-- A cipher that appends sixteen zeros.
abbrev tag : List ℕ
tag = replicate 16 0

abbrev toy_cipher : Cipher
toy_cipher = record {
  encrypt_in_place = λ n d. d ++ tag;
  decrypt_in_place = λ n d. some (take (length d - 16) d);
}

toy_opens :
    (n d : List ℕ) → toy_cipher.decrypt_in_place n (toy_cipher.encrypt_in_place n d) ≡ some d
toy_opens n d =
    let at : length (d ++ tag) - 16 ≡ length d = omega (arith, length-append d tag) in
    ap (λ k. some (take k (d ++ tag))) at ∙ ap (λ l. some l) (take-append_length d tag)

toy_tagged : (n d : List ℕ) → length (toy_cipher.encrypt_in_place n d) ≡ length d + 16
toy_tagged n d = omega (arith, length-append d tag)

abbrev instance_ : Boot (Unit {0})
instance_ = record { meter = default_meter 0; blob_loader = empty_loader; boot_filename = 5 }

abbrev nonce : List ℕ
nonce = replicate 12 1

read_boot_data-write_boot_data_example :
    ((write_boot_data no_cache toy_cipher true nonce (4 ∷ 5 ∷ []) instance_).0 ≡ ok tt)
    × ((read_boot_data no_cache toy_cipher
          (write_boot_data no_cache toy_cipher true nonce (4 ∷ 5 ∷ []) instance_).1).0
        ≡ (if leb (2 + 28) max_boot_data_size then ok (some (4 ∷ 5 ∷ [])) else err io_error))
read_boot_data-write_boot_data_example =
    read_boot_data-write_boot_data no_cache toy_cipher toy_opens toy_tagged (λ k c. refl) nonce
      (4 ∷ 5 ∷ []) refl instance_ (omega arith)

abbrev two_tasks : List (Option ℕ)
two_tasks = some 10 ∷ none ∷ some 12 ∷ []

start_tasks-starts_example :
    (t : List (Option ℕ) × TaskSet) × (start_tasks (20 ∷ 21 ∷ []) (two_tasks, with_task0) ≡ some t)
    × All (IsStarted t) (20 ∷ 21 ∷ [])
    × Kept (two_tasks, with_task0) t
start_tasks-starts_example =
    start_tasks-starts (20 ∷ 21 ∷ []) two_tasks with_task0 (omega arith) (omega arith)
