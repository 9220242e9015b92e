-- ===== src/Common/Lists.antt =====
-- Lists measured and cut by native numbers, under the library's names.
use Prim.Native.Nat.{ℕ, zero, suc, ◌+◌, ◌-◌, ◌≤◌, min}
use mathlib.Core.Path.{◌≡◌, refl, ap, sym, ◌∙◌}
use mathlib.Core.List.{List, [], ◌∷◌, ◌++◌}
use mathlib.Core.Option.{Option, none, some}
use native.Mathlib.Omega.{arith}

abbrev pub Bytes : Type 0
Bytes = List ℕ

module _ {ℓ} {A : Type ℓ} where
  abbrev pub length : List A → ℕ
  length [] = 0
  length (x ∷ xs) = suc (length xs)

  abbrev pub get_elem? : List A → ℕ → Option A
  get_elem? [] i = none
  get_elem? (x ∷ xs) zero = some x
  get_elem? (x ∷ xs) (suc i) = get_elem? xs i

  abbrev pub take : ℕ → List A → List A
  take zero xs = []
  take (suc n) [] = []
  take (suc n) (x ∷ xs) = x ∷ take n xs

  abbrev pub drop : ℕ → List A → List A
  drop zero xs = xs
  drop (suc n) [] = []
  drop (suc n) (x ∷ xs) = drop n xs

  abbrev pub replicate : ℕ → A → List A
  replicate zero a = []
  replicate (suc n) a = a ∷ replicate n a

module _ {ℓ} {A : Type ℓ} where
  pub length-append : (xs ys : List A) → length (xs ++ ys) ≡ length xs + length ys
  length-append [] ys = omega arith
  length-append (x ∷ xs) ys = omega (arith, length-append xs ys)

  pub length-nil : (xs : List A) → length xs ≡ 0 → xs ≡ []
  length-nil [] h = refl
  length-nil (x ∷ xs) h = absurd (omega arith)

  pub length-take : (n : ℕ) (xs : List A) → length (take n xs) ≡ min n (length xs)
  length-take zero xs = omega arith
  length-take (suc n) [] = omega arith
  length-take (suc n) (x ∷ xs) = omega (arith, length-take n xs)

  pub length-drop : (n : ℕ) (xs : List A) → length (drop n xs) ≡ length xs - n
  length-drop zero xs = omega arith
  length-drop (suc n) [] = omega arith
  length-drop (suc n) (x ∷ xs) = omega (arith, length-drop n xs)

  pub length-replicate : (n : ℕ) (a : A) → length (replicate n a) ≡ n
  length-replicate zero a = refl
  length-replicate (suc n) a = ap suc (length-replicate n a)

  -- A prefix ends before what is appended behind it.
  pub take-append_le : (n : ℕ) (xs ys : List A) → n ≤ length xs → take n (xs ++ ys) ≡ take n xs
  take-append_le zero xs ys h = refl
  take-append_le (suc n) [] ys h = absurd (omega arith)
  take-append_le (suc n) (x ∷ xs) ys h = ap (◌∷◌ x) (take-append_le n xs ys (omega arith))

  -- A prefix that ends behind `xs` holds all of `xs`.
  pub take-append_add :
      (n k : ℕ) (xs ys : List A) → k ≡ length xs + n → take k (xs ++ ys) ≡ xs ++ take n ys
  take-append_add n k [] ys h = ap (λ (i : ℕ). take i ys) (omega arith)
  take-append_add n zero (x ∷ xs) ys h = absurd (omega arith)
  take-append_add n (suc k) (x ∷ xs) ys h = ap (◌∷◌ x) (take-append_add n k xs ys (omega arith))

  pub drop-append_le :
      (n : ℕ) (xs ys : List A) → n ≤ length xs → drop n (xs ++ ys) ≡ drop n xs ++ ys
  drop-append_le zero xs ys h = refl
  drop-append_le (suc n) [] ys h = absurd (omega arith)
  drop-append_le (suc n) (x ∷ xs) ys h = drop-append_le n xs ys (omega arith)

  pub drop-drop : (m n k : ℕ) (xs : List A) → k ≡ m + n → drop k xs ≡ drop n (drop m xs)
  drop-drop zero n k xs h = ap (λ (i : ℕ). drop i xs) (omega arith)
  drop-drop (suc m) n zero xs h = absurd (omega arith)
  drop-drop (suc m) zero (suc k) [] h = refl
  drop-drop (suc m) (suc n) (suc k) [] h = refl
  drop-drop (suc m) n (suc k) (x ∷ xs) h = drop-drop m n k xs (omega arith)

  pub drop_all : (n : ℕ) (xs : List A) → length xs ≤ n → drop n xs ≡ []
  drop_all zero [] h = refl
  drop_all (suc n) [] h = refl
  drop_all zero (x ∷ xs) h = absurd (omega arith)
  drop_all (suc n) (x ∷ xs) h = drop_all n xs (omega arith)

  pub take_all : (n : ℕ) (xs : List A) → length xs ≤ n → take n xs ≡ xs
  take_all zero [] h = refl
  take_all (suc n) [] h = refl
  take_all zero (x ∷ xs) h = absurd (omega arith)
  take_all (suc n) (x ∷ xs) h = ap (◌∷◌ x) (take_all n xs (omega arith))

  pub take-append-drop : (n : ℕ) (xs : List A) → take n xs ++ drop n xs ≡ xs
  take-append-drop zero xs = refl
  take-append-drop (suc n) [] = refl
  take-append-drop (suc n) (x ∷ xs) = ap (◌∷◌ x) (take-append-drop n xs)

  -- Cutting at both ends may be done in either order.
  pub take-drop : (n m k : ℕ) (xs : List A) → k ≡ m + n → take n (drop m xs) ≡ drop m (take k xs)
  take-drop n zero k xs h = ap (λ (i : ℕ). take i xs) (omega arith)
  take-drop n (suc m) zero xs h = absurd (omega arith)
  take-drop zero (suc m) (suc k) [] h = refl
  take-drop (suc n) (suc m) (suc k) [] h = refl
  take-drop n (suc m) (suc k) (x ∷ xs) h = take-drop n m k xs (omega arith)

  pub take-take : (n k : ℕ) (xs : List A) → n ≤ k → take n (take k xs) ≡ take n xs
  take-take zero k xs h = refl
  take-take (suc n) zero xs h = absurd (omega arith)
  take-take (suc n) (suc k) [] h = refl
  take-take (suc n) (suc k) (x ∷ xs) h = ap (◌∷◌ x) (take-take n k xs (omega arith))

  pub take-length-append : (xs ys : List A) → take (length xs) (xs ++ ys) ≡ xs
  take-length-append [] ys = refl
  take-length-append (x ∷ xs) ys = ap (◌∷◌ x) (take-length-append xs ys)

  pub drop-length-append : (xs ys : List A) → drop (length xs) (xs ++ ys) ≡ ys
  drop-length-append [] ys = refl
  drop-length-append (x ∷ xs) ys = drop-length-append xs ys

  pub take-drop-take :
      (n r w : ℕ) (xs : List A) → r + n ≤ w → take n (drop r (take w xs)) ≡ take n (drop r xs)
  take-drop-take n r w xs h =
      take-drop n r (r + n) (take w xs) refl
      ∙ ap (drop r) (take-take (r + n) w xs h)
      ∙ sym (take-drop n r (r + n) xs refl)

  -- Writing `src` over the bytes from `offset` on.
  abbrev pub overwrite : List A → ℕ → List A → List A
  overwrite xs offset src = take offset xs ++ (src ++ drop (offset + length src) xs)

  pub length-overwrite :
      (xs : List A) (offset : ℕ) (src : List A)
      → offset + length src ≤ length xs
      → length (overwrite xs offset src) ≡ length xs
  length-overwrite xs offset src h = omega (
    arith,
    length-append (take offset xs) (src ++ drop (offset + length src) xs),
    length-append src (drop (offset + length src) xs),
    length-take offset xs,
    length-drop (offset + length src) xs,
  )

  -- Up to the end of what was written: the old bytes in front, then `src`.
  pub take-overwrite :
      (xs : List A) (offset k : ℕ) (src : List A)
      → offset ≤ length xs
      → k ≡ offset + length src
      → take k (overwrite xs offset src) ≡ take offset xs ++ src
  take-overwrite xs offset k src h e =
      take-append_add (length src) k (take offset xs) (src ++ drop (offset + length src) xs)
        (omega (arith, length-take offset xs))
      ∙ ap (◌++◌ (take offset xs)) (take-length-append src (drop (offset + length src) xs))

  pub drop-take-append :
      (offset : ℕ) (xs ys : List A) → offset ≤ length xs → drop offset (take offset xs ++ ys) ≡ ys
  drop-take-append offset xs ys h =
      drop-append_le offset (take offset xs) ys (omega (arith, length-take offset xs))
      ∙ ap (λ (zs : List A). zs ++ ys)
          (drop_all offset (take offset xs) (omega (arith, length-take offset xs)))

  -- Writing `src` just in front of what lies between `offset + length src` and w.
  pub take-overwrite_front :
      (xs : List A) (offset w : ℕ) (src : List A)
      → offset + length src ≤ w
      → w ≤ length xs
      → drop offset (take w (overwrite xs offset src))
        ≡ src ++ drop (offset + length src) (take w xs)
  take-overwrite_front xs offset w src h k =
      ap (drop offset) (
        take-append_add (w - offset) w (take offset xs) (src ++ drop (offset + length src) xs)
          (omega (arith, length-take offset xs)))
      ∙ drop-take-append offset xs _ (omega arith)
      ∙ take-append_add (w - (offset + length src)) (w - offset) src _ (omega arith)
      ∙ ap (◌++◌ src)
          (take-drop (w - (offset + length src)) (offset + length src) w xs (omega arith))
