-- ===== src/Buffer/Crlf.antt =====
-- `findCRLF` of net/Buffer.h.
use my_file_server.Common.{
  ℕ, zero, suc, ◌≤◌, ◌<◌, ◌≡◌, refl, ap, inl, inr, Bool-cases, ◌==◌, ==_iff, if◌then◌else◌, ◌&&◌,
  arith, [], ◌∷◌, ◌++◌, Option, none, some, Bytes, length, take, drop, drop_all, length-append,
  Absent, find_byte, false, ltb, ltb→lt, ok,
}
use native.Mathlib.Numerals.{add-one}
use my_file_server.Buffer.{Buffer, search_crlf, find_crlf}
use my_file_server.Buffer.Content.{IsValid, content, read_at-all}

abbrev pub crlf : Bytes
crlf = b'\r' ∷ b'\n' ∷ []

-- A CRLF starts at offset k.
abbrev pub HasCrlf : Bytes → ℕ → Type 0
HasCrlf xs k = take 2 (drop k xs) ≡ crlf

pub search_crlf-le : (xs : Bytes) → search_crlf xs ≤ length xs
unfolding search_crlf
search_crlf-le [] = omega arith
search_crlf-le (c ∷ []) = omega arith
search_crlf-le (c ∷ d ∷ cs) = ground (arith, search_crlf-le (d ∷ cs))

search_crlf-HasCrlf : (xs : Bytes) → search_crlf xs < length xs → HasCrlf xs (search_crlf xs)
unfolding search_crlf
search_crlf-HasCrlf [] h = absurd (omega arith)
search_crlf-HasCrlf (c ∷ []) h = absurd (omega arith)
search_crlf-HasCrlf (c ∷ d ∷ cs) h = elim (Bool-cases (c == b'\r' && d == b'\n')) [
  | inl hit ↦ rw hit (ground arith)
  | inr miss ↦ rw (miss, add-one) (search_crlf-HasCrlf (d ∷ cs) (ground arith))
]

search_crlf-first : (xs : Bytes) (j : ℕ) → j < search_crlf xs → ¬ HasCrlf xs j
unfolding search_crlf
search_crlf-first [] j h = absurd (omega arith)
search_crlf-first (c ∷ []) zero h = λ e. cc
search_crlf-first (c ∷ []) (suc j) h = absurd (omega arith)
search_crlf-first (c ∷ d ∷ cs) zero h = ground arith
search_crlf-first (c ∷ d ∷ cs) (suc j) h = search_crlf-first (d ∷ cs) j (ground arith)

drop_end : (n : ℕ) (xs : Bytes) → length xs ≤ n → ¬ HasCrlf xs n
drop_end n xs h e = let gone = drop_all n xs h in cc (ap (take 2) gone)

-- A miss is a length: no CRLF anywhere.
search_crlf-none : (xs : Bytes) (j : ℕ) → search_crlf xs ≡ length xs → ¬ HasCrlf xs j
search_crlf-none xs j e = elim (Bool-cases (ltb j (length xs))) [
  | inl inside ↦ search_crlf-first xs j (rw e (ltb→lt _ _ inside))
  | inr outside ↦ drop_end j xs (ground arith)
]

-- What an answer of `findCRLF` says of the content.
abbrev pub FirstCrlf : Bytes → Option ℕ → Type 0
FirstCrlf xs none = (j : ℕ) → ¬ HasCrlf xs j
FirstCrlf xs (some k) = HasCrlf xs k × ((j : ℕ) → j < k → ¬ HasCrlf xs j)

search_crlf-FirstCrlf :
    (xs : Bytes)
    → FirstCrlf xs (if search_crlf xs == length xs then none else some (search_crlf xs))
search_crlf-FirstCrlf xs = elim (Bool-cases (search_crlf xs == length xs)) [
  | inl miss ↦ rw miss (λ j. search_crlf-none xs j ((==_iff _ _).0 miss))
  | inr hit ↦
      rw hit (search_crlf-HasCrlf xs (ground (arith, search_crlf-le xs)), search_crlf-first xs)
]

-- `findCRLF` answers with the first CRLF of the content, and with NULL exactly where there is none.
pub find_crlf-FirstCrlf :
    (b : Buffer) → IsValid b → (o : Option ℕ) × (find_crlf b ≡ ok o) × FirstCrlf (content b) o
unfolding find_crlf
find_crlf-FirstCrlf b v = (_, rw (read_at-all b v), search_crlf-FirstCrlf (content b))

-- A line with no CRLF of its own, then CRLF: the search stops at its end.
pub search_crlf-append :
    (line rest : Bytes)
    → search_crlf line ≡ length line
    → search_crlf (line ++ (crlf ++ rest)) ≡ length line
unfolding search_crlf
search_crlf-append [] rest h = refl
search_crlf-append (c ∷ []) rest h = ground arith
search_crlf-append (c ∷ d ∷ cs) rest h = ground (arith, search_crlf-append (d ∷ cs) rest)

-- A text with no carriage return has no CRLF.
pub search_crlf-Absent : (line : Bytes) → Absent b'\r' line → search_crlf line ≡ length line
unfolding search_crlf find_byte
search_crlf-Absent [] h = refl
search_crlf-Absent (c ∷ []) h = refl
search_crlf-Absent (c ∷ d ∷ cs) h = ground (arith, search_crlf-Absent (d ∷ cs))

-- The line that a buffer starts with is found.
pub find_crlf-line :
    (b : Buffer) (line rest : Bytes)
    → IsValid b
    → Absent b'\r' line
    → content b ≡ line ++ (crlf ++ rest)
    → find_crlf b ≡ ok (some (length line))
unfolding find_crlf
find_crlf-line b line rest v h e =
    let stop = search_crlf-append line rest (search_crlf-Absent line h) in
    let short : (length line == length (line ++ (crlf ++ rest))) ≡ false =
      ground (arith, length-append line (crlf ++ rest)) in
    rw (read_at-all b v, e, stop, short)
