-- ===== src/Log/Async/Buffers.antt =====
-- logger/AsyncLogging.cc: what the buffers hold, and when the two sides are in order.
use my_file_server.Common.{
  ℕ, ◌-◌, ◌≤◌, ◌<◌, ◌≡◌, refl, sym, ap, ◌∙◌, arith, true, ltb, lt→ltb, List, [], ◌∷◌, ◌++◌, Option,
  none, some, Bytes, length, take, append_assoc, append-nil,
}
use my_file_server.Log.Stream.{FixedBuffer, new_buffer, avail, reset, to_text, buffer_length}
use my_file_server.Log.Stream
use my_file_server.Log.Stream.Text.{logged, append-logged}
use my_file_server.Log.Async.{Front, Back, or_new}

-- A buffer of `n` bytes.
pub record IsBuffer (n : ℕ) (b : FixedBuffer) : Type 0 where
  pub sized : length b.data_bytes ≡ n
  pub fixed : b.cur ≤ n

pub record IsEmpty (n : ℕ) (b : FixedBuffer) : Type 0 where
  pub empty_sized : length b.data_bytes ≡ n
  pub at_start : b.cur ≡ 0

abbrev pub IsSpare : ℕ → Option FixedBuffer → Type 0
IsSpare n none = Unit
IsSpare n (some b) = IsEmpty n b

abbrev pub AllBuffers : ℕ → List FixedBuffer → Type 0
AllBuffers n [] = Unit
AllBuffers n (b ∷ bs) = IsBuffer n b × AllBuffers n bs

-- What the lock guards, between two calls.
pub record IsFront (n : ℕ) (f : Front) : Type 0 where
  pub buffer : FixedBuffer
  pub is_current : f.current ≡ some buffer
  pub fits : IsBuffer n buffer
  pub spare_empty : IsSpare n f.spare
  pub refilled : f.spare ≡ none → 0 < length f.full
  pub full_fits : AllBuffers n f.full

-- The writing thread before it takes the lock.
pub record IsIdle (n : ℕ) (b : Back) : Type 0 where
  pub first_buffer : FixedBuffer
  pub second_buffer : FixedBuffer
  pub has_first : b.first ≡ some first_buffer
  pub has_second : b.second ≡ some second_buffer
  pub first_empty : IsEmpty n first_buffer
  pub second_empty : IsEmpty n second_buffer
  pub nothing_left : b.to_write ≡ []

-- The writing thread after it has released the lock.
pub record IsWriting (n : ℕ) (b : Back) : Type 0 where
  pub no_first : b.first ≡ none
  pub second_spare : IsSpare n b.second
  pub enough : 0 < length b.to_write
  pub enough_for_two : b.second ≡ none → 1 < length b.to_write
  pub all_fit : AllBuffers n b.to_write

-- The text that the buffers of a list have taken up, and the bytes of their arrays.
unfoldable pub texts : List FixedBuffer → Bytes
texts [] = []
texts (b ∷ bs) = logged b ++ texts bs

unfoldable pub arrays : List FixedBuffer → Bytes
arrays [] = []
arrays (b ∷ bs) = b.data_bytes ++ arrays bs

abbrev pub text_of : Option FixedBuffer → Bytes
text_of none = []
text_of (some b) = logged b

-- The text that waits in front.
unfoldable pub waiting : Front → Bytes
waiting f = texts f.full ++ text_of f.current

pub texts-append :
    (bs : List FixedBuffer) (b : FixedBuffer) → texts (bs ++ b ∷ []) ≡ texts bs ++ logged b
unfolding texts
texts-append [] b = append-nil (logged b)
texts-append (c ∷ cs) b =
    ap (logged c ++◌) (texts-append cs b) ∙ sym (append_assoc (logged c) (texts cs) (logged b))

pub AllBuffers-append :
    (n : ℕ) (bs : List FixedBuffer) (b : FixedBuffer)
    → AllBuffers n bs
    → IsBuffer n b
    → AllBuffers n (bs ++ b ∷ [])
AllBuffers-append n [] b h hb = (hb, tt)
AllBuffers-append n (c ∷ cs) b h hb = (h.0, AllBuffers-append n cs b h.1 hb)

-- A line that fits in a buffer.
pub append_fits :
    (n : ℕ) (b : FixedBuffer) (line : Bytes)
    → IsBuffer n b
    → length line < n - b.cur
    → IsBuffer n (Stream.append b line) × (logged (Stream.append b line) ≡ logged b ++ line)
unfolding avail
append_fits n b line v h =
    let (fixed, sized, text) = append-logged b line (omega (arith, v.sized, v.fixed)) in
    let room : ltb (length line) (avail b) ≡ true =
      lt→ltb (length line) (avail b) (omega (arith, v.sized)) in
    (
      record { sized = sized ∙ v.sized; fixed = omega (arith, fixed, sized, v.sized) },
      text ∙ rw room refl,
    )

pub IsEmpty-IsBuffer : (n : ℕ) (b : FixedBuffer) → IsEmpty n b → IsBuffer n b × (logged b ≡ [])
IsEmpty-IsBuffer n b e = (
  record { sized = e.empty_sized; fixed = omega (arith, e.at_start) },
  ap (λ (k : ℕ). take k b.data_bytes) e.at_start,
)

pub or_new-IsEmpty :
    (n : ℕ) (bytes : Bytes) (spare : Option FixedBuffer)
    → length bytes ≡ n
    → IsSpare n spare
    → IsEmpty n (or_new bytes spare)
unfolding or_new
or_new-IsEmpty n bytes none h s = record { empty_sized = h; at_start = refl }
or_new-IsEmpty n bytes (some b) h s = s

pub texts-append_list : (bs cs : List FixedBuffer) → texts (bs ++ cs) ≡ texts bs ++ texts cs
unfolding texts
texts-append_list [] cs = refl
texts-append_list (b ∷ bs) cs =
    ap (logged b ++◌) (texts-append_list bs cs)
    ∙ sym (append_assoc (logged b) (texts bs) (texts cs))

pub arrays-append : (bs cs : List FixedBuffer) → arrays (bs ++ cs) ≡ arrays bs ++ arrays cs
unfolding arrays
arrays-append [] cs = refl
arrays-append (b ∷ bs) cs =
    ap (b.data_bytes ++◌) (arrays-append bs cs)
    ∙ sym (append_assoc b.data_bytes (arrays bs) (arrays cs))
