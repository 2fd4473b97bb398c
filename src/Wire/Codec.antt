-- ===== src/Wire/Codec.antt =====
-- The contract of a field: what it writes it reads back, in the stated bytes and no others.
use ssp21_cpp.Base.{
  ◌≤◌, ◌<◌, ◌≡◌, ◌⊎◌, inl, inr, refl, ap, ◌++◌, append_assoc, arith, Bytes, IsByte, All, All-append,
  All-append_right, length, length-append,
}
use mathlib.Core.Path.{subst}
use native.Mathlib.Decide.{dec_le}
use ssp21_cpp.Ser.{WSeq, fill}
use ssp21_cpp.Wire.{
  Field, Parsed, ParseError, FormatError, ok, err, insufficient_space, ◌>>=◌, after_write, ◌&◌,
  struct,
}

-- `encode` is the wire format of the valid values.
pub record IsCodec {A : Type 0} (f : Field A) (IsValid : A → Type 0) (encode : A → Bytes)
    : Type 0 where
  -- A valid value is read back, with what follows it left over.
  pub reads : (a : A) (rest : Bytes) → IsValid a → f.read (encode a ++ rest) ≡ ok (a, rest)
  -- It is written where there is room, and refused where there is none.
  pub fits :
      (a : A) (w : WSeq)
      → IsValid a
      → length (encode a) ≤ w.space
      → f.write a w ≡ (FormatError.ok, fill w (encode a))
  pub full :
      (a : A) (w : WSeq)
      → IsValid a
      → w.space < length (encode a)
      → (f.write a w).0 ≡ insufficient_space
  pub sized : (a : A) → IsValid a → f.size a ≡ length (encode a)
  pub bytes : (a : A) → IsValid a → All IsByte (encode a)
  -- Whatever is read is valid, and its encoding is what was read.
  pub sound :
      (s : Bytes) (a : A) (rest : Bytes)
      → All IsByte s
      → f.read s ≡ ok (a, rest)
      → IsValid a × (s ≡ encode a ++ rest)

-- Where a chain of reads succeeds, so did its first.
pub >>=-reads :
    {S T : Type 0} (first : Parsed S) (next : S → Parsed T) {found : T}
    → (first >>= next) ≡ ok found
    → (s : S) × (first ≡ ok s) × (next s ≡ ok found)
>>=-reads (err reason) next h = cc
>>=-reads (ok s) next h = (s, refl, h)

pub Parsed-cases {ℓ} :
    {A : Type ℓ} (r : Parsed A) → ((a : A) × (r ≡ ok a)) ⊎ ((e : ParseError) × (r ≡ err e))
Parsed-cases (ok a) = inl (a, refl)
Parsed-cases (err e) = inr (e, refl)

pub after_write-full :
    (r : FormatError × WSeq) (k : WSeq → FormatError × WSeq)
    → r.0 ≡ insufficient_space
    → (after_write r k).0 ≡ insufficient_space
after_write-full (FormatError.ok, w) k e = cc
after_write-full (insufficient_space, w) k e = refl

pub fill_twice : (w : WSeq) (xs ys : Bytes) → fill (fill w xs) ys ≡ fill w (xs ++ ys)
fill_twice w xs ys = ground (arith, length-append xs ys, append_assoc w.written xs ys)

module _ {A B : Type 0} {f : Field A} {g : Field B} {P : A → Type 0} {Q : B → Type 0}
    {encode : A → Bytes} {encode' : B → Bytes} (F : IsCodec f P encode)
    (G : IsCodec g Q encode') where
  pair-reads :
      (v : A × B) (rest : Bytes)
      → P v.0 × Q v.1
      → (f & g).read ((encode v.0 ++ encode' v.1) ++ rest) ≡ ok (v, rest)
  unfolding ◌&◌
  pair-reads (a, b) rest (p, q) =
      rw (append_assoc, F.reads a (encode' b ++ rest) p, G.reads b rest q)

  pair-fits :
      (v : A × B) (w : WSeq)
      → P v.0 × Q v.1
      → length (encode v.0 ++ encode' v.1) ≤ w.space
      → (f & g).write v w ≡ (FormatError.ok, fill w (encode v.0 ++ encode' v.1))
  unfolding ◌&◌
  pair-fits (a, b) w (p, q) h =
      let n = length-append (encode a) (encode' b) in
      rw (
        F.fits a w p (omega arith),
        G.fits b (fill w (encode a)) q (omega arith),
        fill_twice w (encode a) (encode' b),
      )

  pair-full :
      (v : A × B) (w : WSeq)
      → P v.0 × Q v.1
      → w.space < length (encode v.0 ++ encode' v.1)
      → ((f & g).write v w).0 ≡ insufficient_space
  unfolding ◌&◌
  pair-full (a, b) w (p, q) h = elim (dec_le (length (encode a)) w.space) [
    | yes fits ↦
        rw (F.fits a w p fits)
          (G.full b (fill w (encode a)) q (omega (arith, length-append (encode a) (encode' b))))
    | no over ↦ after_write-full (f.write a w) (g.write b) (F.full a w p (omega arith))
  ]

  pair_join :
      (s s' t rest : Bytes) (a : A) (b : B) (v : A × B)
      → ◌≡◌ {A = Parsed ((A × B) × Bytes)} (ok ((a, b), t)) (ok (v, rest))
      → P a
      → Q b
      → s ≡ encode a ++ s'
      → s' ≡ encode' b ++ t
      → (P v.0 × Q v.1) × (s ≡ (encode v.0 ++ encode' v.1) ++ rest)
  pair_join s s' t rest a b (a', b') e p q split split' =
      let ea : a ≡ a' = cc in
      let eb : b ≡ b' = cc in ((subst P ea p, subst Q eb q), rw append_assoc (cc))

  pair_sound :
      (s : Bytes) (v : A × B) (rest : Bytes)
      → All IsByte s
      → (f & g).read s ≡ ok (v, rest)
      → (P v.0 × Q v.1) × (s ≡ (encode v.0 ++ encode' v.1) ++ rest)
  unfolding ◌&◌
  pair_sound s v rest h e =
      let ((a, s'), ea, ka) = >>=-reads (f.read s) _ e in
      let ((b, t), eb, kb) = >>=-reads (g.read s') _ ka in
      let (p, split) = F.sound s a s' h ea in
      let (q, split') =
        G.sound s' b t (All-append_right IsByte (encode a) s' (subst (All IsByte) split h)) eb in
      pair_join s s' t rest a b v kb p q split split'

  -- A chain of two fields meets the contract, with the formats one after the other.
  pub pair-IsCodec : IsCodec (f & g) (λ v. P v.0 × Q v.1) (λ v. encode v.0 ++ encode' v.1)
  unfolding ◌&◌
  pair-IsCodec = record {
    reads = pair-reads;
    fits = pair-fits;
    full = pair-full;
    sized = λ v h.
        omega (arith, F.sized v.0 h.0, G.sized v.1 h.1, length-append (encode v.0) (encode' v.1));
    bytes = λ v h. All-append IsByte (encode v.0) (encode' v.1) (F.bytes v.0 h.0) (G.bytes v.1 h.1);
    sound = pair_sound;
  }

module _ {A B : Type 0} {f : Field B} {P : B → Type 0} {encode : B → Bytes} (F : IsCodec f P encode)
    (fields : A → B) (make : B → A) (make-fields : (a : A) → make (fields a) ≡ a)
    (fields-make : (b : B) → fields (make b) ≡ b) where
  struct_sound :
      (s : Bytes) (a : A) (rest : Bytes)
      → All IsByte s
      → (struct fields make f).read s ≡ ok (a, rest)
      → P (fields a) × (s ≡ encode (fields a) ++ rest)
  unfolding struct
  struct_sound s a rest h e =
      let ((b, t), eb, kb) = >>=-reads (f.read s) _ e in
      let found : fields a ≡ b = rw (← fields-make b) (ap fields (cc)) in
      rw found (F.sound s b rest h (cc))

  -- A struct meets the contract of its chain of fields.
  pub struct-IsCodec : IsCodec (struct fields make f) (λ a. P (fields a)) (λ a. encode (fields a))
  unfolding struct
  struct-IsCodec = record {
    reads = λ a rest h. rw (F.reads (fields a) rest h, make-fields a);
    fits = λ a. F.fits (fields a);
    full = λ a. F.full (fields a);
    sized = λ a. F.sized (fields a);
    bytes = λ a. F.bytes (fields a);
    sound = struct_sound;
  }
