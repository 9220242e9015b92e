-- ===== src/Buffer/Content.antt =====
-- The abstract view of a buffer of net/Buffer.h: the bytes between the two indices.
use my_file_server.Common.{
  ℕ, ◌+◌, ◌-◌, ◌≤◌, ◌<◌, ◌≡◌, sym, ap, ◌∙◌, inl, inr, Bool-cases, ltb, ltb→lt, arith, [], Bytes,
  length, take, drop, replicate, length-take, length-drop, length-replicate, drop-drop, drop_all,
  take_all, take-drop-take, le→leb, ok, max_size, size_mod, sub_size, sub_size_lem, add_size,
  add_size_lem,
}
use my_file_server.Buffer.{
  Buffer, init, readable_bytes, writable_bytes, read_at, retrieve, retrieve_all, retrieve_until,
  retrieve_as_string, cheap_prepend,
}

-- 0 <= readerIndex <= writerIndex <= size, as the class comment draws it.
pub record IsValid (b : Buffer) : Type 0 where
  pub ordered : b.reader_index ≤ b.writer_index
  pub fits : b.writer_index ≤ length b.buffer
  pub bounded : length b.buffer ≤ max_size
  pub has_prepend : cheap_prepend ≤ length b.buffer

abbrev pub content : Buffer → Bytes
content b = drop b.reader_index (take b.writer_index b.buffer)

pub readable_bytes_lem :
    (b : Buffer) → IsValid b → readable_bytes b ≡ b.writer_index - b.reader_index
unfolding readable_bytes
readable_bytes_lem b v = sub_size_lem b.writer_index b.reader_index v.ordered (omega arith)

pub writable_bytes_lem :
    (b : Buffer) → IsValid b → writable_bytes b ≡ length b.buffer - b.writer_index
unfolding writable_bytes
writable_bytes_lem b v = sub_size_lem (length b.buffer) b.writer_index v.fits (omega arith)

pub length-content : (b : Buffer) → IsValid b → length (content b) ≡ b.writer_index - b.reader_index
length-content b v = omega (
  arith,
  length-drop b.reader_index (take b.writer_index b.buffer),
  length-take b.writer_index b.buffer,
)

pub length-content-readable : (b : Buffer) → IsValid b → length (content b) ≡ readable_bytes b
length-content-readable b v = length-content b v ∙ sym (readable_bytes_lem b v)

-- The bytes that are handed out are the content.
pub read_at-content :
    (b : Buffer) (n : ℕ)
    → IsValid b
    → n ≤ readable_bytes b
    → read_at b.buffer b.reader_index n ≡ ok (take n (content b))
unfolding read_at
read_at-content b n v h =
    let inside : b.reader_index + n ≤ b.writer_index = omega (arith, readable_bytes_lem b v) in
    rw (le→leb (b.reader_index + n) (length b.buffer) (omega arith))
      (ap ok (sym (take-drop-take n b.reader_index b.writer_index b.buffer inside)))

pub read_at-all :
    (b : Buffer) → IsValid b → read_at b.buffer b.reader_index (readable_bytes b) ≡ ok (content b)
read_at-all b v =
    read_at-content b (readable_bytes b) v (omega arith)
    ∙ ap ok (take_all (readable_bytes b) (content b) (omega (arith, length-content-readable b v)))

pub init-IsValid : (size : ℕ) → size + cheap_prepend ≤ max_size → IsValid (init size)
unfolding init
init-IsValid size h = omega (arith, length-replicate {A = ℕ} (cheap_prepend + size) 0)

pub content-init : (size : ℕ) → content (init size) ≡ []
unfolding init
content-init size =
    drop_all 8 (take 8 (replicate (8 + size) 0))
      (omega (arith, length-take {A = ℕ} 8 (replicate (8 + size) 0)))

pub retrieve_all-IsValid : (b : Buffer) → IsValid b → IsValid (retrieve_all b)
unfolding retrieve_all
retrieve_all-IsValid b v = omega arith

pub content-retrieve_all : (b : Buffer) → content (retrieve_all b) ≡ []
unfolding retrieve_all
content-retrieve_all b = drop_all 8 (take 8 b.buffer) (omega (arith, length-take 8 b.buffer))

pub retrieve-IsValid : (b : Buffer) (n : ℕ) → IsValid b → IsValid (retrieve b n)
unfolding retrieve
retrieve-IsValid b n v = ground (arith, readable_bytes_lem b v, add_size_lem b.reader_index n)

-- Reading n bytes takes them off the front; more than there are takes all.
pub content-retrieve :
    (b : Buffer) (n : ℕ) → IsValid b → content (retrieve b n) ≡ drop n (content b)
unfolding retrieve
content-retrieve b n v = elim (Bool-cases (ltb n (readable_bytes b))) [
  | inl part ↦ rw part (
      drop-drop b.reader_index n (add_size b.reader_index n) (take b.writer_index b.buffer) (
        omega (
          arith,
          add_size_lem b.reader_index n,
          ltb→lt n (readable_bytes b) part,
          readable_bytes_lem b v,
        )))
  | inr all ↦ rw all (
      content-retrieve_all b
      ∙ sym (drop_all n (content b) (ground (arith, length-content-readable b v))))
]

pub retrieve_until-IsValid :
    (b : Buffer) (end_at : ℕ) → IsValid b → IsValid (retrieve_until b end_at)
unfolding retrieve_until
retrieve_until-IsValid b end_at v = retrieve-IsValid b (sub_size end_at b.reader_index) v

-- `retrieveUntil(peek() + k)` takes k bytes off the front.
pub content-retrieve_until :
    (b : Buffer) (k end_at : ℕ)
    → IsValid b
    → end_at ≡ b.reader_index + k
    → end_at < size_mod
    → content (retrieve_until b end_at) ≡ drop k (content b)
unfolding retrieve_until
content-retrieve_until b k end_at v e h =
    content-retrieve b (sub_size end_at b.reader_index) v
    ∙ ap (λ (i : ℕ). drop i (content b))
        (sub_size_lem end_at b.reader_index (omega arith) h ∙ omega arith)

-- `retrieveAsString(len)` hands out the first len bytes and keeps the others.
retrieve_as_string-content :
    (b : Buffer) (len : ℕ)
    → IsValid b
    → len ≤ readable_bytes b
    → (c : Buffer) × (retrieve_as_string b len ≡ ok (take len (content b), c))
      × IsValid c
      × (content c ≡ drop len (content b))
unfolding retrieve_as_string
retrieve_as_string-content b len v h = (
  retrieve b len,
  rw (read_at-content b len v h),
  retrieve-IsValid b len v,
  content-retrieve b len v,
)
