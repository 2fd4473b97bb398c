-- ===== src/Link/Parser/Buffer.antt =====
-- The parser's buffer: what stands in it after bytes are moved in.
use ssp21_cpp.Base.{
  ℕ, zero, suc, ◌+◌, ◌≤◌, ◌≡◌, refl, sym, ap, ◌∙◌, Bytes, IsByte, All, All-append, All-take,
  All-drop, [], ◌∷◌, ◌++◌, append_assoc, arith, length, length-append, length-take, length-drop,
  take, drop, take-append,
}
use ssp21_cpp.Link.Parser.{overwrite}

-- A cut of a list that was put together from parts.
pub take_front : (n : ℕ) (xs ys : Bytes) → n ≤ length xs → take n (xs ++ ys) ≡ take n xs
take_front zero xs ys h = refl
take_front (suc n) [] ys h = absurd (omega arith)
take_front (suc n) (x ∷ xs) ys h = ap (◌∷◌ x) (take_front n xs ys (omega arith))

pub take-take : (m n : ℕ) (xs : Bytes) → m ≤ n → take m (take n xs) ≡ take m xs
take-take zero n xs h = refl
take-take (suc m) zero xs h = absurd (omega arith)
take-take (suc m) (suc n) [] h = refl
take-take (suc m) (suc n) (x ∷ xs) h = ap (◌∷◌ x) (take-take m n xs (omega arith))

take_nil : (n : ℕ) → take {A = ℕ} n [] ≡ []
take_nil zero = refl
take_nil (suc n) = refl

pub take-add : (m n : ℕ) (xs : Bytes) → take (m + n) xs ≡ take m xs ++ take n (drop m xs)
take-add zero n xs = ap (λ (k : ℕ). take k xs) (omega arith)
take-add (suc m) n [] = take_nil (suc m + n) ∙ sym (take_nil n)
take-add (suc m) n (x ∷ xs) =
    let e : suc m + n ≡ suc (m + n) = omega arith in
    ap (λ (k : ℕ). take k (x ∷ xs)) e ∙ ap (◌∷◌ x) (take-add m n xs)

pub length_take : (n : ℕ) (xs : Bytes) → n ≤ length xs → length (take n xs) ≡ n
length_take n xs h = omega (arith, length-take n xs)

module _ (buffer : Bytes) (n : ℕ) (xs : Bytes) where
  pub length-overwrite :
      n + length xs ≤ length buffer → length (overwrite buffer n xs) ≡ length buffer
  length-overwrite h = omega (
    arith,
    length-append (take n buffer) (xs ++ drop (n + length xs) buffer),
    length-append xs (drop (n + length xs) buffer),
    length-take n buffer,
    length-drop (n + length xs) buffer,
  )

  -- What is buffered after a move: what was, and the new bytes.
  pub take-overwrite :
      n ≤ length buffer → take (length xs + n) (overwrite buffer n xs) ≡ take n buffer ++ xs
  take-overwrite h =
      let size : length (take n buffer ++ xs) ≡ length xs + n =
        omega (arith, length-append (take n buffer) xs, length-take n buffer) in
      ap (λ (k : ℕ). take k (overwrite buffer n xs)) (sym size)
      ∙ ap (take (length (take n buffer ++ xs)))
          (sym (append_assoc (take n buffer) xs (drop (n + length xs) buffer)))
      ∙ take-append (take n buffer ++ xs) (drop (n + length xs) buffer)

  -- Bytes before the place are kept.
  pub take-overwrite_before :
      (m : ℕ) → m ≤ n → n ≤ length buffer → take m (overwrite buffer n xs) ≡ take m buffer
  take-overwrite_before m h k =
      take_front m (take n buffer) _ (omega (arith, length-take n buffer)) ∙ take-take m n buffer h

  pub overwrite-IsByte : All IsByte buffer → All IsByte xs → All IsByte (overwrite buffer n xs)
  overwrite-IsByte h k =
      All-append IsByte (take n buffer) (xs ++ drop (n + length xs) buffer)
        (All-take IsByte n buffer h)
        (All-append IsByte xs (drop (n + length xs) buffer) k
          (All-drop IsByte (n + length xs) buffer h))
