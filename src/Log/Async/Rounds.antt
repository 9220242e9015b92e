-- ===== src/Log/Async/Rounds.antt =====
-- logger/AsyncLogging.cc: no line is lost on its way to the writing thread.
use my_file_server.Common.{
  ℕ, zero, suc, ◌≤◌, ◌<◌, ◌≡◌, refl, sym, ap, subst, ◌∙◌, arith, inl, inr, Bool-cases, ltb, ltb→lt,
  List, [], ◌∷◌, ◌++◌, Option, none, some, Bytes, length, take, Result, ok, ◌>>=◌, append_assoc,
  append-nil, length-append, length-take, take_all, ◌≢◌,
}
use Prim.Native.Nat.{min}
use my_file_server.Log.Stream.{FixedBuffer, new_buffer, avail, reset, to_text, buffer_length}
use my_file_server.Log.Stream
use my_file_server.Log.Stream.Text.{logged}
use my_file_server.Log.File.{Platform, LogFile}
use my_file_server.Log.File.Storing.{Takes}
use my_file_server.Log.File.Writing.{IsOpen, contents, append-contents, flush-KeptBy}
use my_file_server.Log.Async.{
  Front, Back, or_new, append_current, append, refill, collect_current, collect, write_all,
  keep_two, split_last, give_back, finish,
}
use my_file_server.Log.Async.Buffers.{
  IsBuffer, IsEmpty, IsSpare, AllBuffers, IsFront, IsIdle, IsWriting, texts, arrays, text_of,
  waiting, texts-append, AllBuffers-append, append_fits, IsEmpty-IsBuffer, or_new-IsEmpty,
}

-- Between two calls, a line that is shorter than a buffer is put behind what waits, also where a
-- buffer is full, and the two sides stay in order.
pub append-waiting :
    (n : ℕ) (bytes line : Bytes) (f : Front)
    → IsFront n f
    → length bytes ≡ n
    → length line < n
    → (f' : Front) × (append bytes line f ≡ ok f') × IsFront n f' × (waiting f' ≡ waiting f ++ line)
unfolding append append_current waiting avail
append-waiting n bytes line f v hb hl = elim (Bool-cases (ltb (length line) (avail v.buffer))) [
  | inl room ↦
      let (fits, text) =
        append_fits n v.buffer line v.fits
          (omega (arith, ltb→lt (length line) (avail v.buffer) room, v.fits.sized)) in
      (
        record f { current = some (Stream.append v.buffer line) },
        ap (append_current bytes line f) v.is_current ∙ rw room refl,
        record {
          buffer = Stream.append v.buffer line;
          is_current = refl;
          fits = fits;
          spare_empty = v.spare_empty;
          refilled = v.refilled;
          full_fits = v.full_fits;
        },
        ap (texts f.full ++◌) text
            ∙ sym (append_assoc (texts f.full) (logged v.buffer) line)
            ∙ ap (λ (o : Option FixedBuffer). (texts f.full ++ text_of o) ++ line)
                (sym v.is_current),
      )
  | inr full ↦
      let fresh : FixedBuffer = or_new bytes f.spare in
      let empty : IsEmpty n fresh = or_new-IsEmpty n bytes f.spare hb v.spare_empty in
      let (whole, nothing) = IsEmpty-IsBuffer n fresh empty in
      let (fits, text) = append_fits n fresh line whole (omega (arith, empty.at_start)) in
      (
        record {
          current = some (Stream.append fresh line);
          spare = none;
          full = f.full ++ v.buffer ∷ [];
        },
        ap (append_current bytes line f) v.is_current ∙ rw full refl,
        record {
          buffer = Stream.append fresh line;
          is_current = refl;
          fits = fits;
          spare_empty = tt;
          refilled = λ e. omega (arith, length-append f.full (v.buffer ∷ []));
          full_fits = AllBuffers-append n f.full v.buffer v.full_fits v.fits;
        },
        ap (texts (f.full ++ v.buffer ∷ []) ++◌) (text ∙ ap (◌++ line) nothing)
            ∙ ap (◌++ line) (texts-append f.full v.buffer)
            ∙ ap (λ (o : Option FixedBuffer). (texts f.full ++ text_of o) ++ line)
                (sym v.is_current),
      )
]

refill_cases :
    (n : ℕ) (spare : Option FixedBuffer) (second : FixedBuffer)
    → IsSpare n spare
    → IsEmpty n second
    → IsSpare n (refill spare (some second)).0
      × IsSpare n (refill spare (some second)).1
      × ((refill spare (some second)).0 ≢ none)
      × ((refill spare (some second)).1 ≡ none → spare ≡ none)
unfolding refill
refill_cases n none second h hs = (hs, tt, (λ e. cc), λ e. refl)
refill_cases n (some b) second h hs = (h, hs, (λ e. cc), λ e. cc)

-- Under the lock the writing thread takes all that waits, in order, and leaves two empty buffers.
pub collect-waiting :
    (n : ℕ) (f : Front) (b : Back)
    → IsFront n f
    → IsIdle n b
    → (f' : Front) × (b' : Back) × (collect f b ≡ ok (f', b'))
      × IsFront n f'
      × IsWriting n b'
      × (waiting f' ≡ [])
      × (texts b'.to_write ≡ waiting f)
      × (b'.output ≡ b.output)
unfolding collect collect_current waiting texts
collect-waiting n f b v i =
    let (whole, nothing) = IsEmpty-IsBuffer n i.first_buffer i.first_empty in
    let (spare, second, some_spare, none_second) =
      refill_cases n f.spare i.second_buffer v.spare_empty i.second_empty in
    (
      record {
        current = some i.first_buffer;
        spare = (refill f.spare (some i.second_buffer)).0;
        full = [];
      },
      record b {
        first = none;
        second = (refill f.spare (some i.second_buffer)).1;
        to_write = f.full ++ v.buffer ∷ [];
      },
      ap (collect_current f b) v.is_current ∙ rw (i.has_first, i.has_second, i.nothing_left) refl,
      record {
        buffer = i.first_buffer;
        is_current = refl;
        fits = whole;
        spare_empty = spare;
        refilled = λ e. absurd (some_spare e);
        full_fits = tt;
      },
      record {
        no_first = refl;
        second_spare = second;
        enough = omega (arith, length-append f.full (v.buffer ∷ []));
        enough_for_two =
            λ e. omega (arith, length-append f.full (v.buffer ∷ []), v.refilled (none_second e));
        all_fit = AllBuffers-append n f.full v.buffer v.full_fits v.fits;
      },
      nothing,
      texts-append f.full v.buffer
          ∙ ap (λ (o : Option FixedBuffer). texts f.full ++ text_of o) (sym v.is_current),
      refl,
    )

-- The file gets the whole array of each buffer, also what is behind the text.
write_all-contents :
    (p : Platform) (bs : List FixedBuffer) (log : LogFile)
    → Takes p
    → IsOpen log
    → (log' : LogFile) × (write_all p bs log ≡ ok log')
      × IsOpen log'
      × (contents log' ≡ contents log ++ arrays bs)
unfolding write_all arrays to_text buffer_length
write_all-contents p [] log t o = (log, refl, o, sym (append-nil (contents log)))
write_all-contents p (b ∷ bs) log t o =
    let (log', e, o', c, size) = append-contents p (to_text b) log t o in
    let (log'', e', o'', c') = write_all-contents p bs log' t o' in
    (
      log'',
      ap (λ (r : Result LogFile). r >>= write_all p bs) e ∙ e',
      o'',
      c'
          ∙ ap (◌++ arrays bs) (
              c ∙ ap (contents log ++◌) (take_all (length b.data_bytes) b.data_bytes (omega arith)))
          ∙ append_assoc (contents log) b.data_bytes (arrays bs),
    )

split_last-AllBuffers :
    (n : ℕ) (b : FixedBuffer) (bs : List FixedBuffer)
    → AllBuffers n (b ∷ bs)
    → AllBuffers n (split_last b bs).0
      × IsBuffer n (split_last b bs).1
      × (length (split_last b bs).0 ≡ length bs)
unfolding split_last
split_last-AllBuffers n b [] h = (tt, h.0, refl)
split_last-AllBuffers n b (c ∷ cs) h =
    let (before, last, same) = split_last-AllBuffers n c cs h.1 in
    ((h.0, before), last, ap suc same)

take-AllBuffers : (n k : ℕ) (bs : List FixedBuffer) → AllBuffers n bs → AllBuffers n (take k bs)
take-AllBuffers n zero bs h = tt
take-AllBuffers n (suc k) [] h = tt
take-AllBuffers n (suc k) (b ∷ bs) h = (h.0, take-AllBuffers n k bs h.1)

keep_two_lem :
    (n : ℕ) (bs : List FixedBuffer)
    → AllBuffers n bs
    → AllBuffers n (keep_two bs) × (length (keep_two bs) ≡ min 2 (length bs))
unfolding keep_two
keep_two_lem n bs h = elim (Bool-cases (ltb 2 (length bs))) [
  | inl more ↦ rw more (take-AllBuffers n 2 bs h, length-take 2 bs)
  | inr few ↦ rw few (h, ground (arith, few))
]

give_back_lem :
    (n : ℕ) (o : Option FixedBuffer) (bs : List FixedBuffer)
    → IsSpare n o
    → AllBuffers n bs
    → (o ≡ none → 0 < length bs)
    → (bs' : List FixedBuffer) × (b : FixedBuffer) × (give_back o bs ≡ ok (bs', some b))
      × IsEmpty n b
      × AllBuffers n bs'
      × (length bs ≤ suc (length bs'))
unfolding give_back
give_back_lem n (some b) bs h hs enough = (bs, b, refl, h, hs, omega arith)
give_back_lem n none [] h hs enough = absurd (omega (arith, enough refl))
give_back_lem n none (b ∷ bs) h hs enough =
    let (before, last, same) = split_last-AllBuffers n b bs hs in
    (
      (split_last b bs).0,
      reset (split_last b bs).1,
      refl,
      record { empty_sized = last.sized; at_start = refl },
      before,
      omega (arith, same),
    )

-- After the lock the writing thread always has buffers to take back, and is ready for the next turn.
pub finish-contents :
    (p : Platform) (n : ℕ) (b : Back)
    → Takes p
    → IsWriting n b
    → IsOpen b.output
    → (b' : Back) × (finish p b ≡ ok b')
      × IsIdle n b'
      × IsOpen b'.output
      × (contents b'.output ≡ contents b.output ++ arrays b.to_write)
unfolding finish
finish-contents p n b t w o =
    let (written, e, o', c) = write_all-contents p b.to_write b.output t o in
    let (kept, two) = keep_two_lem n b.to_write w.all_fit in
    let (bs, x, e1, x_empty, bs_fit, less) =
      give_back_lem n b.first (keep_two b.to_write) (subst (IsSpare n) (sym w.no_first) tt) kept
        (λ _. omega (arith, w.enough, two)) in
    let (cs, y, e2, y_empty, cs_fit, less') =
      give_back_lem n b.second bs w.second_spare bs_fit
        (λ h. omega (arith, w.enough_for_two h, two, less)) in
    let (flushed, e3, k) = flush-KeptBy written o' in
    (
      record { first = some x; second = some y; to_write = []; output = flushed },
      rw (e, e1, e2, e3) refl,
      record {
        first_buffer = x;
        second_buffer = y;
        has_first = refl;
        has_second = refl;
        first_empty = x_empty;
        second_empty = y_empty;
        nothing_left = refl;
      },
      k.still_open,
      k.same ∙ c,
    )
