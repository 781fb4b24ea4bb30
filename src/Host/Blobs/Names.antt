-- ===== src/Host/Blobs/Names.antt =====
-- wapo-host/src/runtime/blobs.rs: the text of a hash, and the operations of `BlobLoader` on it. `hex` is a
-- parameter.
use wapo.Prelude.{
  ℕ, ◌==◌, ◌≡◌, if◌then◌else◌, List, [], ◌∷◌, ◌++◌, Option, none, some, Bool, true, false, ◌&&◌,
  refl, sym, ap, subst, arith, inl, inr, Bool-cases, Option-cases, ◌∙◌,
}
use wapo.Prelude.Assoc.{find}
use wapo.Prelude.Result.{Result, ok, err}
use wapo.Host.Blobs.{
  HashAlgo, sha256, sha512, HashValue, BlobLoader, BlobError, bad_hash, hash_mismatch, io,
  put_object, get_object, accepts, stored_hash, write_file,
}

-- The crate `hex`, on the bytes of a hash.
pub record Hex : Type 0 where
  pub encode : Option ℕ → List ℕ
  pub decode : List ℕ → Option (Option ℕ)

-- `splitn(2, ':')`; what is missing is empty.
unfoldable split : List ℕ → List ℕ × List ℕ
split [] = ([], [])
split (c ∷ cs) = let (a, b) = split cs in if c == b':' then ([], cs) else (c ∷ a, b)

unfoldable same : List ℕ → List ℕ → Bool
same [] [] = true
same [] (y ∷ ys) = false
same (x ∷ xs) [] = false
same (x ∷ xs) (y ∷ ys) = x == y && same xs ys

abbrev algo_name : HashAlgo → List ℕ
algo_name sha256 = b's' ∷ b'h' ∷ b'a' ∷ b'2' ∷ b'5' ∷ b'6' ∷ []
algo_name sha512 = b's' ∷ b'h' ∷ b'a' ∷ b'5' ∷ b'1' ∷ b'2' ∷ []

-- `HashAlgo::from_str`.
unfoldable algo_from_str : List ℕ → Option HashAlgo
unfolding same
algo_from_str s =
    if same s (algo_name sha256)
    then some sha256
    else if same s (algo_name sha512)
    then some sha512
    else none

-- `remove_file`, which fails if there is no such file.
unfoldable remove_file : ℕ → List (ℕ × List ℕ) → List (ℕ × List ℕ)
remove_file name [] = []
remove_file name ((k, bytes) ∷ dir) =
    let rest = remove_file name dir in if k == name then rest else (k, bytes) ∷ rest

find-remove_file : (name : ℕ) (dir : List (ℕ × List ℕ)) → find name (remove_file name dir) ≡ none
unfolding find remove_file
find-remove_file name [] = refl
find-remove_file name ((k, bytes) ∷ dir) = ground (arith, find-remove_file name dir)

module _ (hex : Hex) where
  unfoldable pub from_str : List ℕ → Option HashValue
  unfolding split algo_from_str
  from_str s =
      let (algo, hash) = split s in
      elim (algo_from_str algo) [
        | none ↦ none
        | some a ↦ elim (hex.decode hash) [
          | none ↦ none
          | some h ↦ some (record { algo = a; hash = h })
        ]
      ]

  unfoldable pub display : HashValue → List ℕ
  display v = algo_name v.algo ++ b':' ∷ hex.encode v.hash

  module _ {C : Type 0} (hasher : HashAlgo → List ℕ → ℕ) where
    unfoldable pub get : List ℕ → BlobLoader C → Result BlobError (Option (List ℕ))
    unfolding from_str get_object
    get hash l = get_object hasher (from_str hash) l

    unfoldable pub put : List ℕ → List ℕ → BlobLoader C → Result BlobError (List ℕ) × BlobLoader C
    unfolding from_str put_object display
    put hash bytes l =
        let (r, l') = put_object hasher (from_str hash) bytes l in
        (elim r [ err e ↦ err e | ok v ↦ ok (display v) ], l')

  -- The empty hash names the directory.
  unfoldable pub exists : {C : Type 0} → List ℕ → BlobLoader C → Bool
  unfolding from_str find
  exists hash l = elim (from_str hash) [
    | none ↦ false
    | some v ↦ elim v.hash [
      | none ↦ true
      | some h ↦ elim (find h l.store_dir) [ none ↦ false | some bytes ↦ true ]
    ]
  ]

  unfoldable pub remove :
      {C : Type 0} → List ℕ → BlobLoader C → Result BlobError (Unit {0}) × BlobLoader C
  unfolding from_str find remove_file
  remove hash l = elim (from_str hash) [
    | none ↦ (err bad_hash, l)
    | some v ↦ elim v.hash [
      | none ↦ (err io, l)
      | some h ↦ elim (find h l.store_dir) [
        | none ↦ (err io, l)
        | some bytes ↦ (ok tt, record l { store_dir = remove_file h l.store_dir })
      ]
    ]
  ]

  module _ {C : Type 0} (hasher : HashAlgo → List ℕ → ℕ) where
    -- A blob can be read under a text, and is gone once the text is removed.
    abbrev pub Holds : List ℕ → List ℕ → BlobLoader C → Type 0
    Holds text bytes l =
        let removed : Result BlobError (Unit {0}) × BlobLoader C = remove text l in
        (get hasher text l ≡ ok (some bytes))
        × (exists text l ≡ true)
        × (removed.0 ≡ ok tt)
        × (get hasher text removed.1 ≡ ok none)
        × (exists text removed.1 ≡ false)

  module _ (law : (h : Option ℕ) → hex.decode (hex.encode h) ≡ some h) where
    parse :
        (a : HashAlgo) (h : Option ℕ)
        → from_str (algo_name a ++ b':' ∷ hex.encode h) ≡ some (record { algo = a; hash = h })
    unfolding from_str split algo_from_str same
    parse sha256 h = rw (law h) refl
    parse sha512 h = rw (law h) refl

    from_str-display : (v : HashValue) → from_str (display v) ≡ some v
    unfolding display
    from_str-display v = parse v.algo v.hash

    module _ {C : Type 0} (hasher : HashAlgo → List ℕ → ℕ) where
      get-none :
          (text : List ℕ) (algo : HashAlgo) (h : ℕ) (l : BlobLoader C)
          → from_str text ≡ some (stored_hash algo h)
          → find h l.store_dir ≡ none
          → (get hasher text l ≡ ok none) × (exists text l ≡ false)
      unfolding get exists get_object
      get-none text algo h l t e = (rw (get, get_object, t, e) refl, rw (exists, t, e) refl)

      remove-some :
          (text bytes : List ℕ) (algo : HashAlgo) (h : ℕ) (l : BlobLoader C)
          → from_str text ≡ some (stored_hash algo h)
          → find h l.store_dir ≡ some bytes
          → remove text l ≡ (ok tt, record l { store_dir = remove_file h l.store_dir })
      unfolding remove
      remove-some text bytes algo h l t e = rw (remove, t, e) refl

      found-Holds :
          (text bytes : List ℕ) (algo : HashAlgo) (l : BlobLoader C)
          → from_str text ≡ some (stored_hash algo (hasher algo bytes))
          → find (hasher algo bytes) l.store_dir ≡ some bytes
          → Holds hasher text bytes l
      unfolding get exists get_object
      found-Holds text bytes algo l t e =
          let h = hasher algo bytes in
          let here : (h == h) ≡ true = ground arith in
          let removed = remove-some text bytes algo h l t e in
          let left : BlobLoader C = record l { store_dir = remove_file h l.store_dir } in
          let (unread, missing) = get-none text algo h left t (find-remove_file h l.store_dir) in
          (
            rw (get, get_object, t, e, here) refl,
            rw (exists, t, e) refl,
            ap (λ r. r.0) removed,
            ap (λ r. get hasher text r.1) removed ∙ unread,
            ap (λ r. exists text r.1) removed ∙ missing,
          )

      -- A text of a hash that the loader answers with.
      written-Holds :
          (algo : HashAlgo) (bytes text : List ℕ) (l : BlobLoader C)
          → display (stored_hash algo (hasher algo bytes)) ≡ text
          → Holds hasher text bytes
              (record l { store_dir = write_file (hasher algo bytes) bytes l.store_dir })
      unfolding find
      written-Holds algo bytes text l e =
          let h = hasher algo bytes in
          let here : (h == h) ≡ true = ground arith in
          found-Holds text bytes algo (record l { store_dir = write_file h bytes l.store_dir })
            (ap from_str (sym e) ∙ from_str-display (stored_hash algo h)) (rw here refl)

      put-parsed :
          (v : HashValue) (hash bytes text : List ℕ) (l : BlobLoader C)
          → from_str hash ≡ some v
          → (put hasher hash bytes l).0 ≡ ok text
          → Holds hasher text bytes (put hasher hash bytes l).1
      unfolding put put_object accepts
      put-parsed v hash bytes text l p h =
          elim (Bool-cases (accepts v.hash (hasher v.algo bytes))) [
            | inl e ↦
                let text' = display (stored_hash v.algo (hasher v.algo bytes)) in
                let dir = write_file (hasher v.algo bytes) bytes l.store_dir in
                let result : put hasher hash bytes l ≡ (ok text', record l { store_dir = dir }) =
                  rw (put, p, put_object, e) refl in
                let same : text' ≡ text = cc (ap (λ r. r.0) result, h) in
                subst (λ r. Holds hasher text bytes r.1) (sym result)
                  (written-Holds v.algo bytes text l same)
            | inr e ↦
                let result : (put hasher hash bytes l).0 ≡ err hash_mismatch =
                  rw (put, p, put_object, e) refl in
                cc
          ]

      -- If `hex` decodes what it encoded, then a blob that `put` accepts can be read under the text of
      -- the hash that it answers with and has the bytes that were put; the text is said to exist, can be
      -- removed, and after that is neither found nor said to exist.
      pub put-Holds :
          (hash bytes text : List ℕ) (l : BlobLoader C)
          → (put hasher hash bytes l).0 ≡ ok text
          → Holds hasher text bytes (put hasher hash bytes l).1
      unfolding put put_object
      put-Holds hash bytes text l h = elim (Option-cases (from_str hash)) [
        | inl e ↦
            let result : (put hasher hash bytes l).0 ≡ err bad_hash =
              rw (put, e, put_object) refl in
            cc
        | inr (v, e) ↦ put-parsed v hash bytes text l e h
      ]
