-- ===== src/Log/Stream/Text.antt =====
-- The text that a `FixedBuffer` of logger/FixedBuffer.h has taken up.
use my_file_server.Common.{
  ℕ, zero, suc, ◌+◌, ◌-◌, ◌/◌, ◌%◌, ◌≤◌, ◌<◌, ◌≡◌, refl, ap, ◌∙◌, arith, inl, inr, true, false,
  Bool-cases, [], ◌∷◌, ◌++◌, append_assoc, append-nil, Bytes, length, length-append,
  length-overwrite, take, take-overwrite, take-append_add, take-length-append, length-take, drop,
  overwrite, ltb, leb, ◌==◌, if◌then◌else◌, codes, ℤ, pos, negsuc, decimal, decimal_fuel, to_string,
}
use my_file_server.Log.Stream.{
  FixedBuffer, avail, append, max_numeric_size, digit_loop, digit_of, negated, is_zero, rounds_of,
  is_negative, reversed, format_integer,
}

abbrev pub IsFixed : FixedBuffer → Type 0
IsFixed b = b.cur ≤ length b.data_bytes

abbrev pub logged : FixedBuffer → Bytes
logged b = take b.cur b.data_bytes

-- A text that is shorter than the room left is put behind what was taken up, and any other is
-- dropped whole; the array keeps its size.
pub append-logged :
    (b : FixedBuffer) (text : Bytes)
    → IsFixed b
    → IsFixed (append b text)
      × (length (append b text).data_bytes ≡ length b.data_bytes)
      × (logged (append b text)
          ≡ (if ltb (length text) (avail b) then logged b ++ text else logged b))
unfolding append avail
append-logged b text v = elim (Bool-cases (ltb (length text) (length b.data_bytes - b.cur))) [
  | inl fits ↦
      let room : b.cur + length text ≤ length b.data_bytes = ground (arith, fits) in
      let same = length-overwrite b.data_bytes b.cur text room in
      rw fits (
        omega (arith, same),
        same,
        take-overwrite b.data_bytes b.cur (b.cur + length text) text v refl,
      )
  | inr full ↦ rw full (v, refl, refl)
]

-- The table on both sides of its 0.
digit_of-pos : (r : ℕ) → r < 10 → digit_of (pos r) ≡ b'0' + r
unfolding digit_of
digit_of-pos zero h = refl
digit_of-pos (suc zero) h = refl
digit_of-pos (suc (suc zero)) h = refl
digit_of-pos (suc (suc (suc zero))) h = refl
digit_of-pos (suc (suc (suc (suc zero)))) h = refl
digit_of-pos (suc (suc (suc (suc (suc zero))))) h = refl
digit_of-pos (suc (suc (suc (suc (suc (suc zero)))))) h = refl
digit_of-pos (suc (suc (suc (suc (suc (suc (suc zero))))))) h = refl
digit_of-pos (suc (suc (suc (suc (suc (suc (suc (suc zero)))))))) h = refl
digit_of-pos (suc (suc (suc (suc (suc (suc (suc (suc (suc zero))))))))) h = refl
digit_of-pos (suc (suc (suc (suc (suc (suc (suc (suc (suc (suc r)))))))))) h = absurd (omega arith)

digit_of-negated : (r : ℕ) → r < 10 → digit_of (negated r) ≡ b'0' + r
unfolding digit_of
digit_of-negated zero h = refl
digit_of-negated (suc zero) h = refl
digit_of-negated (suc (suc zero)) h = refl
digit_of-negated (suc (suc (suc zero))) h = refl
digit_of-negated (suc (suc (suc (suc zero)))) h = refl
digit_of-negated (suc (suc (suc (suc (suc zero))))) h = refl
digit_of-negated (suc (suc (suc (suc (suc (suc zero)))))) h = refl
digit_of-negated (suc (suc (suc (suc (suc (suc (suc zero))))))) h = refl
digit_of-negated (suc (suc (suc (suc (suc (suc (suc (suc zero)))))))) h = refl
digit_of-negated (suc (suc (suc (suc (suc (suc (suc (suc (suc zero))))))))) h = refl
digit_of-negated (suc (suc (suc (suc (suc (suc (suc (suc (suc (suc r)))))))))) h =
    absurd (omega arith)

digit_loop-pos : (fuel n : ℕ) → reversed (digit_loop fuel (pos n)) ≡ decimal_fuel fuel n
unfolding digit_loop reversed decimal_fuel
digit_loop-pos zero n = refl
digit_loop-pos (suc fuel) n =
    let digit = digit_of-pos (n % 10) (omega arith) in
    elim (Bool-cases (ltb n 10)) [
      | inl small ↦
          let none_left : (n / 10 == 0) ≡ true = ground (arith, small) in
          let last : n % 10 ≡ n = ground (arith, small) in rw (small, none_left, digit, last) refl
      | inr big ↦
          let some_left : (n / 10 == 0) ≡ false = ground (arith, big) in
          rw (big, some_left, digit, digit_loop-pos fuel (n / 10)) refl
    ]

rest_of :
    (fuel q : ℕ)
    → ((k : ℕ) → reversed (digit_loop fuel (negsuc k)) ≡ decimal_fuel fuel (suc k))
    → reversed (if is_zero (negated q) then [] else digit_loop fuel (negated q))
      ≡ (if q == 0 then [] else decimal_fuel fuel q)
unfolding reversed
rest_of fuel zero ih = refl
rest_of fuel (suc k) ih = let more : (suc k == 0) ≡ false = ground arith in rw more (ih k)

digit_loop-negsuc : (fuel n : ℕ) → reversed (digit_loop fuel (negsuc n)) ≡ decimal_fuel fuel (suc n)
unfolding digit_loop reversed decimal_fuel
digit_loop-negsuc zero n = refl
digit_loop-negsuc (suc fuel) n =
    let digit = digit_of-negated (suc n % 10) (omega arith) in
    rw (digit, rest_of fuel (suc n / 10) (λ k. digit_loop-negsuc fuel k))
      (elim (Bool-cases (ltb (suc n) 10)) [
        | inl small ↦
            let none_left : (suc n / 10 == 0) ≡ true = ground (arith, small) in
            let last : suc n % 10 ≡ suc n = ground (arith, small) in
            rw (small, none_left, last) refl
        | inr big ↦
            let some_left : (suc n / 10 == 0) ≡ false = ground (arith, big) in
            rw (big, some_left) refl
      ])

reversed-last : (xs : Bytes) (c : ℕ) → reversed (xs ++ c ∷ []) ≡ c ∷ reversed xs
unfolding reversed
reversed-last [] c = refl
reversed-last (x ∷ xs) c = ap (λ (ys : Bytes). ys ++ x ∷ []) (reversed-last xs c)

pub length-reversed : (xs : Bytes) → length (reversed xs) ≡ length xs
unfolding reversed
length-reversed [] = refl
length-reversed (x ∷ xs) = omega (arith, length-append (reversed xs) (x ∷ []), length-reversed xs)

abbrev pub written_of : ℤ → Bytes
written_of num = digit_loop (rounds_of num) num ++ (if is_negative num then codes "-" else [])

pub reversed-written_of : (num : ℤ) → reversed (written_of num) ≡ to_string num
unfolding to_string decimal
reversed-written_of (pos n) =
    ap reversed (append-nil (digit_loop (suc n) (pos n))) ∙ digit_loop-pos (suc n) n
reversed-written_of (negsuc n) =
    reversed-last (digit_loop (suc (suc n)) (negsuc n)) b'-'
    ∙ ap (◌∷◌ b'-') (digit_loop-negsuc (suc (suc n)) n)

-- The bytes up to a text that was written, without the 0 behind it.
take-overwrite_front :
    (xs : Bytes) (offset : ℕ) (text tail : Bytes)
    → offset ≤ length xs
    → take (offset + length text) (overwrite xs offset (text ++ tail)) ≡ take offset xs ++ text
take-overwrite_front xs offset text tail h =
    let after = drop (offset + length (text ++ tail)) xs in
    take-append_add (length text) (offset + length text) (take offset xs) ((text ++ tail) ++ after)
      (omega (arith, length-take offset xs))
    ∙ ap (◌++◌ (take offset xs)) (
        ap (take (length text)) (append_assoc text tail after)
        ∙ take-length-append text (tail ++ after))

-- With 48 bytes left `formatInteger` puts the number behind what was taken up, as `std::to_string`
-- writes it, if that is shorter than 48 bytes; with less room it leaves the text as it is. The array
-- keeps its size.
pub format_integer-logged :
    (b : FixedBuffer) (num : ℤ)
    → IsFixed b
    → length (to_string num) < max_numeric_size
    → IsFixed (format_integer b num)
      × (length (format_integer b num).data_bytes ≡ length b.data_bytes)
      × (logged (format_integer b num)
          ≡ (if leb max_numeric_size (avail b) then logged b ++ to_string num else logged b))
unfolding format_integer avail
format_integer-logged b num v short =
    elim (Bool-cases (leb max_numeric_size (length b.data_bytes - b.cur))) [
      | inl room ↦
          let text = reversed (written_of num) in
          let size : length (written_of num) ≡ length text =
            omega (arith, length-reversed (written_of num)) in
          let printed = reversed-written_of num in
          let small : length text < max_numeric_size = omega (arith, ap (length {A = ℕ}) printed) in
          let same =
            length-overwrite b.data_bytes b.cur (text ++ 0 ∷ [])
              (ground (arith, room, length-append text (0 ∷ []))) in
          rw (room, size)
            (
              ground (arith, same, room),
              same,
              take-overwrite_front b.data_bytes b.cur text (0 ∷ []) v
                  ∙ ap (◌++◌ (logged b)) printed,
            )
      | inr full ↦ rw full (v, refl, refl)
    ]
