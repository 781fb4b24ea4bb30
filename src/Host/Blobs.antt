-- ===== src/Host/Blobs.antt =====
-- wapo-host/src/runtime/blobs.rs, and the ocalls of wapo-host/src/runtime/vm_context.rs on the boot
-- data. The directory is a map from file names, which are numbers, to bytes; a hash is a number. The
-- hash functions, the LRU cache and AES-GCM are parameters.
pub mod RoundTrips
pub mod Names
use wapo.Prelude.{
  ℕ, zero, suc, ◌+◌, ◌*◌, ◌-◌, ltb, ◌==◌, if◌then◌else◌, List, [], ◌∷◌, ◌++◌, Option, none, some,
  Bool, true, length, take,
}
use wapo.Prelude.Assoc.{find, erase}
use wapo.Prelude.Result.{Result, ok, err}
use wapo.Metrics.{Meter, record_gas}

pub data HashAlgo : Type 0 where
  sha256 sha512 : HashAlgo

-- `none` is the empty hash, which a client gives that does not know it.
pub record HashValue : Type 0 where
  pub algo : HashAlgo
  pub hash : Option ℕ

-- `lru::LruCache` of file contents.
pub record LruCache (C : Type 0) : Type 0 where
  pub get : ℕ → C → Option (List ℕ) × C
  pub put : ℕ → List ℕ → C → C
  pub pop : ℕ → C → C

-- A `BlobLoader`: its cache and its directory.
pub record BlobLoader (C : Type 0) : Type 0 where
  pub cache : C
  pub store_dir : List (ℕ × List ℕ)

pub data BlobError : Type 0 where
  bad_hash io hash_mismatch exceeds_limit : BlobError

-- A file is written or renamed over.
abbrev pub write_file : ℕ → List ℕ → List (ℕ × List ℕ) → List (ℕ × List ℕ)
write_file name bytes dir = (name, bytes) ∷ erase name dir

-- Whether a blob has the hash that the client gave, if it gave one.
unfoldable pub accepts : Option ℕ → ℕ → Bool
accepts none actual_hash = true
accepts (some hash) actual_hash = actual_hash == hash

-- The `HashValue` that `put_object` answers with.
abbrev pub stored_hash : HashAlgo → ℕ → HashValue
stored_hash algo actual_hash = record { algo = algo; hash = some actual_hash }

module _ {C : Type 0} where
  -- `put_object`, if the hash parses and the disk does not fail: the hash it answers with.
  unfoldable pub put_object :
      (HashAlgo → List ℕ → ℕ)
      → Option HashValue
      → List ℕ
      → BlobLoader C
      → Result BlobError HashValue × BlobLoader C
  unfolding erase accepts
  put_object hasher none bytes l = (err bad_hash, l)
  put_object hasher (some hash) bytes l =
      let actual_hash = hasher hash.algo bytes in
      if accepts hash.hash actual_hash
      then (
        ok (stored_hash hash.algo actual_hash),
        record l { store_dir = write_file actual_hash bytes l.store_dir },
      )
      else (err hash_mismatch, l)

  -- `get_object`; the empty hash names the directory, which cannot be read.
  unfoldable pub get_object :
      (HashAlgo → List ℕ → ℕ) → Option HashValue → BlobLoader C → Result BlobError (Option (List ℕ))
  unfolding find
  get_object hasher none l = err bad_hash
  get_object hasher (some hash) l = elim hash.hash [
    | none ↦ err io
    | some h ↦ elim (find h l.store_dir) [
      | none ↦ ok none
      | some bytes ↦ if hasher hash.algo bytes == h then ok (some bytes) else err hash_mismatch
    ]
  ]

  module _ (lru : LruCache C) where
    -- `get_raw` on a miss of the cache.
    unfoldable pub read_raw :
        ℕ → ℕ → BlobLoader C → Result BlobError (Option (List ℕ)) × BlobLoader C
    unfolding find
    read_raw filename size_limit l = elim (find filename l.store_dir) [
      | none ↦ (ok none, l)
      | some bytes ↦
          if ltb size_limit (length bytes)
          then (err exceeds_limit, l)
          else (ok (some bytes), record l { cache = lru.put filename bytes l.cache })
    ]

    unfoldable pub get_raw :
        ℕ → ℕ → BlobLoader C → Result BlobError (Option (List ℕ)) × BlobLoader C
    unfolding read_raw
    get_raw filename size_limit l =
        let (cached, cache) = lru.get filename l.cache in
        elim cached [
          | some bytes ↦ (ok (some bytes), record l { cache = cache })
          | none ↦ read_raw filename size_limit (record l { cache = cache })
        ]

    -- `put_raw`; `written` says whether the disk takes the file.
    unfoldable pub put_raw :
        Bool → ℕ → List ℕ → BlobLoader C → Result BlobError (Unit {0}) × BlobLoader C
    unfolding erase
    put_raw written filename bytes l =
        if written
        then (
          ok tt,
          record l {
            cache = lru.pop filename l.cache;
            store_dir = write_file filename bytes l.store_dir;
          },
        )
        else (err io, l)

-- AES-GCM under a key that the worker derives: what a nonce and a plain text give, and back.
pub record Cipher : Type 0 where
  pub encrypt_in_place : List ℕ → List ℕ → List ℕ
  pub decrypt_in_place : List ℕ → List ℕ → Option (List ℕ)

-- `MAX_BOOT_DATA_SIZE` and `NONCE_LEN`.
abbrev pub max_boot_data_size : ℕ
max_boot_data_size = 1024 * 64

abbrev pub nonce_len : ℕ
nonce_len = 12

-- The bytes of a slice from an index on.
abbrev pub drop {ℓ} : {A : Type ℓ} → ℕ → List A → List A
drop zero l = l
drop (suc n) [] = []
drop (suc n) (x ∷ l) = drop n l

-- `encrypt`, with the random nonce.
unfoldable pub encrypt : Cipher → List ℕ → List ℕ → List ℕ
encrypt c nonce bytes = c.encrypt_in_place nonce bytes ++ nonce

-- `decrypt`; with fewer bytes than a nonce has, the slice is out of range.
unfoldable pub decrypt : Cipher → List ℕ → Option (List ℕ)
decrypt c bytes =
    let at = length bytes - nonce_len in
    if ltb (length bytes) nonce_len
    then none
    else c.decrypt_in_place (drop at bytes) (take at bytes)

pub data BootError : Type 0 where
  invalid_parameter io_error : BootError

-- The context of an instance, as far as the boot data go: its meter, its loader, and the name of its
-- file.
pub record Boot (C : Type 0) : Type 0 where
  pub meter : Meter
  pub blob_loader : BlobLoader C
  pub boot_filename : ℕ

-- `derive_secret` of the 12 bytes `enc_bootdata`, as far as it changes the context.
unfoldable pub derive_boot_secret : {C : Type 0} → Boot C → Boot C
unfolding record_gas
derive_boot_secret b = record b { meter = record_gas (1000 + 12) b.meter }

module _ {C : Type 0} (lru : LruCache C) (cipher : Cipher) where
  -- `write_boot_data`.
  unfoldable pub write_boot_data :
      Bool → List ℕ → List ℕ → Boot C → Result BootError (Unit {0}) × Boot C
  unfolding record_gas encrypt put_raw derive_boot_secret
  write_boot_data written nonce bytes b =
      if ltb max_boot_data_size (length bytes)
      then (err invalid_parameter, record b { meter = record_gas 100 b.meter })
      else let b' = derive_boot_secret b in
        let (r, l) =
          put_raw lru written b.boot_filename (encrypt cipher nonce bytes) b.blob_loader in
        let b₂ : Boot C = record b' { blob_loader = l } in
        elim r [ ok u ↦ (ok tt, b₂) | err e ↦ (err io_error, b₂) ]

  -- `read_boot_data`.
  unfoldable pub read_boot_data : Boot C → Result BootError (Option (List ℕ)) × Boot C
  unfolding decrypt get_raw derive_boot_secret
  read_boot_data b =
      let (r, l) = get_raw lru b.boot_filename max_boot_data_size b.blob_loader in
      let b₁ : Boot C = record b { blob_loader = l } in
      elim r [
        | err e ↦ (err io_error, b₁)
        | ok none ↦ (ok none, b₁)
        | ok (some encrypted) ↦
            let b₂ = derive_boot_secret b₁ in
            (
              elim (decrypt cipher encrypted) [
                | none ↦ err io_error
                | some bytes ↦ ok (some bytes)
              ],
              b₂,
            )
      ]
