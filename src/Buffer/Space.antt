-- ===== src/Buffer/Space.antt =====
-- Making room and writing in net/Buffer.h: `makeSpace`, `ensureWritableBytes`, `append`, `prepend`.
use my_file_server.Common.{
  ℕ, ◌+◌, ◌-◌, ◌≤◌, ◌<◌, ◌≡◌, refl, ap, ◌∙◌, inl, inr, Bool-cases, ltb, false, arith, ◌++◌, Bytes,
  length, take, drop, replicate, length-append, length-take, length-replicate, drop-append_le,
  take-take, take-append_le, overwrite, length-overwrite, take-overwrite, take-overwrite_front,
  drop-take-append, le→leb, ltb→lt, ok, max_size, int_limit, sub_size_lem, add_size, add_size_lem,
  size_of_int_lem,
}
use my_file_server.Buffer.{
  Buffer, writable_bytes, copy_into, resize, make_space, ensure_writable_bytes, append, prepend,
  cheap_prepend,
}
use my_file_server.Buffer.Content.{
  IsValid, content, readable_bytes_lem, writable_bytes_lem, length-content, read_at-all,
}

pub copy_into_lem :
    (xs : Bytes) (offset : ℕ) (src : Bytes)
    → offset + length src ≤ length xs
    → copy_into xs offset src ≡ ok (overwrite xs offset src)
unfolding copy_into
copy_into_lem xs offset src h = rw (le→leb _ _ h)

resize_lem : (xs : Bytes) (n : ℕ) → n ≤ max_size → resize xs n ≡ ok (take n (xs ++ replicate n 0))
unfolding resize
resize_lem xs n h = rw (le→leb _ _ h)

-- What making room promises.
pub record HasRoom (b : Buffer) (n : ℕ) (c : Buffer) : Type 0 where
  pub valid : IsValid c
  pub room : n ≤ writable_bytes c
  pub same : content c ≡ content b
  pub limit : c.writer_index + n ≤ max_size
  pub no_later : c.writer_index ≤ b.writer_index

module _ (b : Buffer) (n : ℕ) (v : IsValid b) (h : b.writer_index + n ≤ max_size) where
  grown : Bytes
  grown = take (b.writer_index + n) (b.buffer ++ replicate (b.writer_index + n) 0)

  length-grown : length grown ≡ b.writer_index + n
  unfolding grown
  length-grown = omega (
    arith,
    length-take (b.writer_index + n) (b.buffer ++ replicate (b.writer_index + n) 0),
    length-append b.buffer (replicate (b.writer_index + n) 0),
    length-replicate {A = ℕ} (b.writer_index + n) 0,
  )

  take-grown : take b.writer_index grown ≡ take b.writer_index b.buffer
  unfolding grown
  take-grown =
      take-take b.writer_index (b.writer_index + n) _ (omega arith)
      ∙ take-append_le b.writer_index b.buffer _ v.fits

  grow : writable_bytes b < n → HasRoom b n (record b { buffer = grown })
  grow lack =
      let valid : IsValid (record b { buffer = grown }) =
        omega (arith, length-grown, writable_bytes_lem b v) in
      record {
        valid = valid;
        room = omega (arith, writable_bytes_lem (record b { buffer = grown }) valid, length-grown);
        same = ap (drop b.reader_index) take-grown;
        limit = h;
        no_later = omega arith;
      }

  shifted : Buffer
  shifted = record {
    buffer = overwrite b.buffer cheap_prepend (content b);
    reader_index = cheap_prepend;
    writer_index = cheap_prepend + (b.writer_index - b.reader_index);
  }

  shift :
      n + cheap_prepend ≤ writable_bytes b + b.reader_index
      → writable_bytes b < n
      → HasRoom b n shifted
  unfolding shifted
  shift fits lack =
      let inside : cheap_prepend + length (content b) ≤ length b.buffer =
        omega (arith, length-content b v, writable_bytes_lem b v) in
      let same_length : length shifted.buffer ≡ length b.buffer =
        length-overwrite b.buffer cheap_prepend (content b) inside in
      let valid : IsValid shifted = omega (arith, length-content b v, v) in
      record {
        valid = valid;
        room = omega (arith, writable_bytes_lem shifted valid, writable_bytes_lem b v);
        same =
            ap (drop cheap_prepend) (
              take-overwrite b.buffer cheap_prepend _ (content b) v.has_prepend
                (omega (arith, length-content b v)))
            ∙ drop-take-append cheap_prepend b.buffer (content b) v.has_prepend;
        limit = omega (arith, writable_bytes_lem b v);
        no_later = omega (arith, fits, lack);
      }

  no_shortage :
      n < int_limit
      → ltb (add_size (writable_bytes b) b.reader_index) (add_size n cheap_prepend) ≡ false
      → n + cheap_prepend ≤ writable_bytes b + b.reader_index
  no_shortage small fits = ground (
    arith,
    add_size_lem (writable_bytes b) b.reader_index,
    add_size_lem n cheap_prepend,
    writable_bytes_lem b v,
  )

  -- `makeSpace` succeeds when it is called for, keeps the content and leaves the room asked for.
  make_space-HasRoom :
      n < int_limit → writable_bytes b < n → (c : Buffer) × (make_space b n ≡ ok c) × HasRoom b n c
  unfolding make_space
  make_space-HasRoom small lack =
      rw (size_of_int_lem n small)
        (elim (Bool-cases
          (ltb (add_size (writable_bytes b) b.reader_index) (add_size n cheap_prepend))) [
            | inl short ↦
                rw
                  (
                    short,
                    add_size_lem b.writer_index n (omega arith),
                    resize_lem b.buffer (b.writer_index + n) h,
                  )
                  (record b { buffer = grown }, unfold grown in refl, grow lack)
            | inr fits ↦
                rw
                  (
                    fits,
                    read_at-all b v,
                    copy_into_lem b.buffer cheap_prepend (content b) (
                        omega (
                          arith,
                          no_shortage small fits,
                          length-content b v,
                          writable_bytes_lem b v,
                        )),
                    readable_bytes_lem b v,
                    add_size_lem cheap_prepend (b.writer_index - b.reader_index) (omega arith),
                  )
                  (shifted, unfold shifted in refl, shift (no_shortage small fits) lack)
          ])

  pub ensure_writable_bytes-HasRoom :
      n < int_limit → (c : Buffer) × (ensure_writable_bytes b n ≡ ok c) × HasRoom b n c
  unfolding ensure_writable_bytes
  ensure_writable_bytes-HasRoom small = elim (Bool-cases (ltb (writable_bytes b) n)) [
    | inl lack ↦ rw lack (make_space-HasRoom small (ltb→lt _ _ lack))
    | inr enough ↦ rw enough (
      b,
      refl,
      record { valid = v; room = ground arith; same = refl; limit = h; no_later = omega arith },
    )
  ]

abbrev pub written : Buffer → Bytes → Buffer
written c src = record c {
  buffer = overwrite c.buffer c.writer_index src;
  writer_index = c.writer_index + length src;
}

-- Writing where there is room.
module _ (c : Buffer) (src : Bytes) (v : IsValid c) (room : length src ≤ writable_bytes c) where
  pub written-IsValid : IsValid (written c src)
  written-IsValid = omega (
    arith,
    writable_bytes_lem c v,
    length-overwrite c.buffer c.writer_index src (omega (arith, writable_bytes_lem c v)),
  )

  pub content-written : content (written c src) ≡ content c ++ src
  content-written =
      ap (drop c.reader_index) (take-overwrite c.buffer c.writer_index _ src v.fits refl)
      ∙ drop-append_le c.reader_index (take c.writer_index c.buffer) src
          (omega (arith, length-take c.writer_index c.buffer))

-- `append` puts the bytes behind the content, also where it has to move or grow the storage.
pub append-content :
    (b : Buffer) (src : Bytes)
    → IsValid b
    → length src < int_limit
    → b.writer_index + length src ≤ max_size
    → (c : Buffer) × (append b src ≡ ok c)
      × IsValid c
      × (content c ≡ content b ++ src)
      × (c.writer_index ≤ b.writer_index + length src)
unfolding append
append-content b src v small limit =
    let (c, e, r) = ensure_writable_bytes-HasRoom b (length src) v limit small in
    rw
      (
        e,
        copy_into_lem c.buffer c.writer_index src
            (omega (arith, r.room, writable_bytes_lem c r.valid)),
        add_size_lem c.writer_index (length src) (omega (arith, r.limit)),
      )
      (
        written c src,
        refl,
        written-IsValid c src r.valid r.room,
        content-written c src r.valid r.room ∙ ap (λ (xs : Bytes). xs ++ src) r.same,
        omega (arith, r.no_later),
      )

-- `prepend` puts the bytes in front of the content, if they fit in front of the read index.
prepend-content :
    (b : Buffer) (src : Bytes)
    → IsValid b
    → length src ≤ b.reader_index
    → (c : Buffer) × (prepend b src ≡ ok c) × IsValid c × (content c ≡ src ++ content b)
unfolding prepend
prepend-content b src v fits =
    let offset = b.reader_index - length src in
    let c = record b { buffer = overwrite b.buffer offset src; reader_index = offset } in
    let same_length = length-overwrite b.buffer offset src (omega arith) in
    rw
      (
        sub_size_lem b.reader_index (length src) fits (omega arith),
        copy_into_lem b.buffer offset src (omega arith),
      )
      (
        c,
        refl,
        omega (arith, same_length),
        take-overwrite_front b.buffer offset b.writer_index src (omega arith) v.fits
            ∙ ap (λ (i : ℕ). src ++ drop i (take b.writer_index b.buffer)) (omega arith),
      )
