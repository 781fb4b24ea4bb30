-- ===== src/Host/Blobs/RoundTrips.antt =====
-- What is read back of the blobs and the boot data that were written: wapo-host/src/runtime/blobs.rs
-- and vm_context.rs.
use wapo.Prelude.{
  ℕ, ◌+◌, ◌-◌, ◌≤◌, ◌≡◌, refl, sym, subst, ap, ap₂, ◌∙◌, inl, inr, ltb, leb, ◌==◌, if◌then◌else◌,
  List, [], ◌∷◌, ◌++◌, none, some, Bool, true, false, not, length, length-append,
  take-append_length, Bool-cases, arith,
}
use wapo.Prelude.Assoc.{find}
use wapo.Prelude.Result.{ok, err}
use wapo.Host.Blobs.{
  HashAlgo, HashValue, LruCache, BlobLoader, exceeds_limit, put_object, get_object, write_file,
  accepts, stored_hash, hash_mismatch, read_raw, get_raw, put_raw, Cipher, max_boot_data_size,
  nonce_len, drop, encrypt, decrypt, io_error, Boot, derive_boot_secret, write_boot_data,
  read_boot_data,
}

found :
    {C : Type 0} (hasher : HashAlgo → List ℕ → ℕ) (algo : HashAlgo) (bytes : List ℕ)
    (l : BlobLoader C)
    → get_object hasher
        (some (stored_hash algo (hasher algo bytes)))
        (record l { store_dir = write_file (hasher algo bytes) bytes l.store_dir })
      ≡ ok (some bytes)
unfolding get_object find
found hasher algo bytes l =
    let self : (hasher algo bytes == hasher algo bytes) ≡ true = ground arith in
    rw (get_object, find, self, self) refl

-- A blob that put_object accepts can be read under the hash that it answers with, and has the bytes
-- that were put.
get_object-put_object :
    {C : Type 0} (hasher : HashAlgo → List ℕ → ℕ) (hash answer : HashValue) (bytes : List ℕ)
    (l : BlobLoader C)
    → (put_object hasher (some hash) bytes l).0 ≡ ok answer
    → get_object hasher (some answer) (put_object hasher (some hash) bytes l).1 ≡ ok (some bytes)
unfolding put_object get_object find
get_object-put_object hasher hash answer bytes l h =
    let actual = hasher hash.algo bytes in
    elim (Bool-cases (accepts hash.hash actual)) [
      | inl e ↦
          let put : put_object hasher (some hash) bytes l ≡ (
            ok (stored_hash hash.algo actual),
            record l { store_dir = write_file actual bytes l.store_dir },
          ) =
            rw (put_object, e) refl in
          let same : stored_hash hash.algo actual ≡ answer = cc in
          ap₂ (λ a o. get_object hasher (some a) o) (sym same) (ap (λ o. o.1) put)
          ∙ found hasher hash.algo bytes l
      | inr e ↦
          let put : (put_object hasher (some hash) bytes l).0 ≡ err hash_mismatch =
            rw (put_object, e) refl in
          cc
    ]

if_not : {A : Type 0} (c : Bool) (x y : A) → (if not c then x else y) ≡ (if c then y else x)
if_not true x y = refl
if_not false x y = refl

drop-append_length : (xs ys : List ℕ) → drop (length xs) (xs ++ ys) ≡ ys
drop-append_length [] ys = refl
drop-append_length (x ∷ xs) ys = drop-append_length xs ys

module _ {C : Type 0} (lru : LruCache C) (cipher : Cipher)
    (opens : (n d : List ℕ) → cipher.decrypt_in_place n (cipher.encrypt_in_place n d) ≡ some d)
    (tagged : (n d : List ℕ) → length (cipher.encrypt_in_place n d) ≡ length d + 16)
    (popped : (k : ℕ) (c : C) → (lru.get k (lru.pop k c)).0 ≡ none) where
  module _ (nonce bytes : List ℕ) (long : length nonce ≡ nonce_len) where
    abbrev file : List ℕ
    file = encrypt cipher nonce bytes

    length-file : length file ≡ length bytes + 28
    unfolding encrypt
    length-file =
        omega (
          arith,
          length-append (cipher.encrypt_in_place nonce bytes) nonce,
          tagged nonce bytes,
          long,
        )

    decrypt-file : decrypt cipher file ≡ some bytes
    unfolding decrypt encrypt
    decrypt-file =
        let x = cipher.encrypt_in_place nonce bytes in
        let at : length (x ++ nonce) - nonce_len ≡ length x =
          omega (arith, length-append x nonce, long) in
        let enough : ltb (length (x ++ nonce)) nonce_len ≡ false =
          ground (arith, length-append x nonce, long) in
        rw (decrypt, encrypt, enough, at, drop-append_length x nonce, take-append_length x nonce)
          (opens nonce bytes)

    -- The context once the boot data are written.
    abbrev written : Boot C → Boot C
    written b = record (derive_boot_secret b) {
      blob_loader = record b.blob_loader {
        cache = lru.pop b.boot_filename b.blob_loader.cache;
        store_dir = write_file b.boot_filename file b.blob_loader.store_dir;
      };
    }

    write_boot_data-written :
        (b : Boot C)
        → length bytes ≤ max_boot_data_size
        → write_boot_data lru cipher true nonce bytes b ≡ (ok tt, written b)
    unfolding write_boot_data put_raw derive_boot_secret
    write_boot_data-written b h =
        let fits : ltb max_boot_data_size (length bytes) ≡ false = ground arith in
        rw (write_boot_data, fits) refl

    read_raw-written :
        (b : Boot C) (c : C)
        → (read_raw lru b.boot_filename max_boot_data_size
            (record (written b).blob_loader { cache = c })).0
          ≡ (if ltb max_boot_data_size (length file) then err exceeds_limit else ok (some file))
    unfolding read_raw find derive_boot_secret
    read_raw-written b c =
        let self : (b.boot_filename == b.boot_filename) ≡ true = ground arith in
        elim (Bool-cases (ltb max_boot_data_size (length file))) [
          | inl e ↦ rw (read_raw, find, self, e) refl
          | inr e ↦ rw (read_raw, find, self, e) refl
        ]

    get_raw-written :
        (b : Boot C)
        → (get_raw lru b.boot_filename max_boot_data_size (written b).blob_loader).0
          ≡ (if ltb max_boot_data_size (length file) then err exceeds_limit else ok (some file))
    unfolding get_raw derive_boot_secret
    get_raw-written b =
        let miss = popped b.boot_filename b.blob_loader.cache in
        rw (get_raw, miss)
          (read_raw-written b
            (lru.get b.boot_filename (lru.pop b.boot_filename b.blob_loader.cache)).1)

    read_boot_data-written :
        (b : Boot C)
        → (read_boot_data lru cipher (written b)).0
          ≡ (if ltb max_boot_data_size (length file) then err io_error else ok (some bytes))
    unfolding read_boot_data derive_boot_secret
    read_boot_data-written b = elim (Bool-cases (ltb max_boot_data_size (length file))) [
      | inl e ↦
          let raw : (get_raw lru b.boot_filename max_boot_data_size (written b).blob_loader).0
              ≡ err exceeds_limit =
            subst
              (λ c.
                (get_raw lru b.boot_filename max_boot_data_size (written b).blob_loader).0
                ≡ (if c then err exceeds_limit else ok (some file)))
              e (get_raw-written b) in
          rw (read_boot_data, raw, e) refl
      | inr e ↦
          let raw : (get_raw lru b.boot_filename max_boot_data_size (written b).blob_loader).0
              ≡ ok (some file) =
            subst
              (λ c.
                (get_raw lru b.boot_filename max_boot_data_size (written b).blob_loader).0
                ≡ (if c then err exceeds_limit else ok (some file)))
              e (get_raw-written b) in
          rw (read_boot_data, raw, e, decrypt-file) refl
    ]

    -- If the cipher opens what it sealed and adds 16 bytes, a nonce has 12, and the cache forgets what
    -- is popped, then boot data that write_boot_data takes are read back if they are at least 28 bytes
    -- shorter than its limit; the longer ones that it takes cannot be read.
    pub read_boot_data-write_boot_data :
        (b : Boot C)
        → length bytes ≤ max_boot_data_size
        → ((write_boot_data lru cipher true nonce bytes b).0 ≡ ok tt)
          × ((read_boot_data lru cipher (write_boot_data lru cipher true nonce bytes b).1).0 ≡ (
              if leb (length bytes + 28) max_boot_data_size then ok (some bytes) else err io_error))
    read_boot_data-write_boot_data b h =
        let wrote = write_boot_data-written b h in
        let limit : ltb max_boot_data_size (length file)
            ≡ not (leb (length bytes + 28) max_boot_data_size) =
          ground (arith, length-file) in
        (
          ap (λ o. o.0) wrote,
          ap (λ o. (read_boot_data lru cipher o.1).0) wrote
              ∙ read_boot_data-written b
              ∙ ap (λ c. if c then err io_error else ok (some bytes)) limit
              ∙ if_not (leb (length bytes + 28) max_boot_data_size) (err io_error)
                  (ok (some bytes)),
        )
