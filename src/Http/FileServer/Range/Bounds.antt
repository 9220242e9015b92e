-- ===== src/Http/FileServer/Range/Bounds.antt =====
-- The forms of a range that RFC 7233 has for one part of a file, as http/FileServer.cc reads them.
use my_file_server.Common.{
  ℕ, ◌+◌, ◌-◌, ◌≤◌, ◌<◌, ◌≡◌, ◌≢◌, refl, ap, ◌∙◌, arith, [], ◌∷◌, ◌++◌, some, Bytes, length, codes,
  decimal, decimal-cons, decimal-Absent, stoi, stoi-decimal, find_byte, Absent, cut_lem, substr, ℤ,
  pos, ◌+ℤ◌, ◌-ℤ◌, le→leb, int_limit, int_mod, cast_int, to_string, equal, lt→ltb, ◌%◌, ok,
}
use my_file_server.Http.Headers.{lookup, lookup-insert}
use my_file_server.Http.Response.{Response}
use my_file_server.Http.FileServer.Range.{partial_content, range_sides, range_bounds, range_of}

-- Two numbers with the hyphen between them, either of which may be left out.
range_sides-append :
    (beg end_part : Bytes)
    → Absent b'-' beg
    → range_sides (beg ++ b'-' ∷ end_part) ≡ (beg, end_part)
unfolding range_sides
range_sides-append beg end_part h =
    let cut = cut_lem b'-' beg end_part h in rw (cut.found, cut.front, cut.back) refl

range_of-append :
    (beg end_part : Bytes) (len : ℕ)
    → Absent b'-' beg
    → range_of (codes "bytes=" ++ (beg ++ b'-' ∷ end_part)) len ≡ range_bounds beg end_part len
unfolding range_of substr
range_of-append beg end_part len h =
    rw
      (
        le→leb 6 (length (codes "bytes=" ++ (beg ++ b'-' ∷ end_part))) (omega arith),
        range_sides-append beg end_part h,
      )
      refl

decimal_not_nil : (n : ℕ) → decimal n ≢ []
decimal_not_nil n e = go (decimal-cons n)
  where
    go : (c : ℕ) × (cs : Bytes) × (decimal n ≡ c ∷ cs) → ⊥
    go (c, cs, f) = cc

-- `range_bounds`, by which sides there are.
bounds_both :
    (xs ys : Bytes) (i j : ℤ) (len : ℕ)
    → xs ≢ []
    → ys ≢ []
    → stoi xs ≡ ok i
    → stoi ys ≡ ok j
    → range_bounds xs ys len ≡ ok (i, j)
unfolding range_bounds
bounds_both [] ys i j len h k p q = absurd (h refl)
bounds_both (c ∷ cs) [] i j len h k p q = absurd (k refl)
bounds_both (c ∷ cs) (d ∷ ds) i j len h k p q = rw (p, q) refl

bounds_first :
    (xs : Bytes) (i : ℤ) (len : ℕ)
    → xs ≢ []
    → stoi xs ≡ ok i
    → range_bounds xs [] len ≡ ok (i, pos len -ℤ pos 1)
unfolding range_bounds
bounds_first [] i len h p = absurd (h refl)
bounds_first (c ∷ cs) i len h p = rw p refl

bounds_suffix :
    (ys : Bytes) (j : ℤ) (len : ℕ)
    → ys ≢ []
    → stoi ys ≡ ok j
    → range_bounds [] ys len ≡ ok (pos len -ℤ j, pos len -ℤ pos 1)
unfolding range_bounds
bounds_suffix [] j len h p = absurd (h refl)
bounds_suffix (c ∷ cs) j len h p = rw p refl

sub_pos : (a b : ℕ) → b ≤ a → (pos a -ℤ pos b) ≡ pos (a - b)
unfolding ◌-ℤ◌
sub_pos a b h = rw (le→leb (0 + b) (a + 0) (omega arith)) (ap pos (omega arith))

-- "bytes=a-b": from a to b.
pub range_of-both :
    (a b len : ℕ)
    → a < int_limit
    → b < int_limit
    → range_of (codes "bytes=" ++ (decimal a ++ b'-' ∷ decimal b)) len ≡ ok (pos a, pos b)
range_of-both a b len ha hb =
    range_of-append (decimal a) (decimal b) len (decimal-Absent a)
    ∙ bounds_both (decimal a) (decimal b) (pos a) (pos b) len (decimal_not_nil a)
        (decimal_not_nil b) (stoi-decimal a ha) (stoi-decimal b hb)

-- "bytes=a-": from a to the end.
range_of-first :
    (a len : ℕ)
    → a < int_limit
    → 0 < len
    → range_of (codes "bytes=" ++ (decimal a ++ codes "-")) len ≡ ok (pos a, pos (len - 1))
range_of-first a len ha h =
    range_of-append (decimal a) [] len (decimal-Absent a)
    ∙ (bounds_first (decimal a) (pos a) len (decimal_not_nil a) (stoi-decimal a ha)
        ∙ ap (λ (z : ℤ). ok (pos a, z)) (sub_pos len 1 (omega arith)))

-- "bytes=-n": the last n bytes.
range_of-suffix :
    (n len : ℕ)
    → n < int_limit
    → n ≤ len
    → 0 < len
    → range_of (codes "bytes=" ++ b'-' ∷ decimal n) len ≡ ok (pos (len - n), pos (len - 1))
range_of-suffix n len hn h k =
    range_of-append [] (decimal n) len (unfold find_byte in refl)
    ∙ (bounds_suffix (decimal n) (pos n) len (decimal_not_nil n) (stoi-decimal n hn)
        ∙ (ap (λ (z : ℤ). ok (z, pos len -ℤ pos 1)) (sub_pos len n h)
            ∙ ap (λ (z : ℤ). ok (pos (len - n), z)) (sub_pos len 1 (omega arith))))

add_pos : (a b : ℕ) → (pos a +ℤ pos b) ≡ pos (a + b)
unfolding ◌+ℤ◌
add_pos a b = rw (le→leb (0 + 0) (a + b) (omega arith)) (ap pos (omega arith))

cast_small : (n : ℕ) → n < int_limit → cast_int (pos n) ≡ pos n
unfolding cast_int
cast_small n h = let same : n % int_mod ≡ n = omega arith in rw (same, lt→ltb n int_limit h) refl

abbrev length_key : Bytes
length_key = codes "Content-Length"

abbrev range_key : Bytes
range_key = codes "Content-Range"

-- For bounds a ≤ b the headers name them and the number of bytes from a to b, and that many bytes
-- are sent, if they are fewer than 2 ^ 31.
partial_content-lookup :
    (a b len : ℕ) (res : Response)
    → a ≤ b
    → b - a + 1 < int_limit
    → (lookup (codes "Content-Length") (partial_content (pos a) (pos b) len res).headers
        ≡ some (decimal (b - a + 1)))
      × (lookup (codes "Content-Range") (partial_content (pos a) (pos b) len res).headers
          ≡ some (
              codes "bytes "
              ++ (decimal a ++ (codes "-" ++ (decimal b ++ (codes "/" ++ decimal len))))))
      × ((partial_content (pos a) (pos b) len res).send_len ≡ some (pos (b - a + 1)))
unfolding partial_content to_string equal
partial_content-lookup a b len res h small =
    let last : ((pos a +ℤ pos (b - a + 1)) -ℤ pos 1) ≡ pos b =
      ap (λ (z : ℤ). z -ℤ pos 1) (add_pos a (b - a + 1))
      ∙ (sub_pos (a + (b - a + 1)) 1 (omega arith) ∙ ap pos (omega arith)) in
    rw (sub_pos b a h, add_pos (b - a) 1, last, cast_small (b - a + 1) small)
      (
        lookup-insert length_key length_key (decimal (b - a + 1)) _,
        lookup-insert length_key range_key (decimal (b - a + 1)) _
            ∙ lookup-insert range_key range_key _ res.headers,
        refl,
      )
