-- ===== src/Wire/Fields/Items.antt =====
-- The contract of a collection of structs.
use mathlib.Core.Path.{subst}
use native.Mathlib.Decide.{dec_le}
use ssp21_cpp.Base.{
  ℕ, zero, suc, ◌+◌, ◌^◌, ◌≤◌, ◌<◌, ◌≡◌, refl, sym, ap, ◌∙◌, Bytes, IsByte, All, All-append,
  All-append_right, List, [], ◌∷◌, ◌++◌, append_assoc, append-nil, arith, length, length-append,
  ◌==◌, lt→==-false, Bool-cases, inl, inr,
}
use ssp21_cpp.Ser.{Ser4cpp, WSeq, fill}
use ssp21_cpp.Wire.{Field, Parsed, ok, FormatError, insufficient_space}
use ssp21_cpp.Wire.Codec.{IsCodec, Parsed-cases, >>=-reads, fill_twice, after_write-full}
use ssp21_cpp.Wire.VLength
use ssp21_cpp.Wire.VLength.Format.{encode, IsU32, length-encode, encode-IsByte}
use ssp21_cpp.Wire.VLength.Writing.{write_fits, write_full}
use ssp21_cpp.Wire.VLength.Reading.{read-encode, read_sound}
use ssp21_cpp.Wire.Fields.{seq_struct_field, read_items, write_items, sum_sizes}

-- A collection on the wire: its count, then its items.
abbrev pub items_bytes : {T : Type 0} → (T → Bytes) → List T → Bytes
items_bytes f [] = []
items_bytes f (t ∷ items) = f t ++ items_bytes f items

abbrev pub IsItems : {T : Type 0} → (T → Type 0) → ℕ → List T → Type 0
IsItems P max_count items = (length items ≤ max_count) × All P items

abbrev pub struct_bytes : {T : Type 0} → (T → Bytes) → List T → Bytes
struct_bytes f items = encode (length items) ++ items_bytes f items

module _ ⦃ser : Ser4cpp⦄ {T : Type 0} {item : Field T} {P : T → Type 0} {f : T → Bytes}
    (F : IsCodec item P f) (max_count : ℕ) where
  items-reads :
      (items acc : List T) (rest : Bytes)
      → All P items
      → length acc + length items ≤ max_count
      → read_items item max_count (length items) acc (items_bytes f items ++ rest)
        ≡ ok (acc ++ items, rest)
  unfolding read_items
  items-reads [] acc rest h room = rw (append-nil acc)
  items-reads (t ∷ items) acc rest (p, h) room =
      rw
        (
          append_assoc (f t) (items_bytes f items) rest,
          F.reads t (items_bytes f items ++ rest) p,
          read_items,
        )
        (rw (lt→==-false (length acc) max_count (omega arith)) (
          items-reads items (acc ++ (t ∷ [])) rest h (omega (arith, length-append acc (t ∷ [])))
          ∙ ap (λ (xs : List T). Parsed.ok (xs, rest)) (append_assoc acc (t ∷ []) items)))

  items-fits :
      (items : List T) (w : WSeq)
      → All P items
      → length (items_bytes f items) ≤ w.space
      → write_items item max_count items w ≡ (FormatError.ok, fill w (items_bytes f items))
  unfolding write_items
  items-fits [] w h room = ground (arith, append-nil w.written)
  items-fits (t ∷ items) w (p, h) room =
      let n = length-append (f t) (items_bytes f items) in
      rw (F.fits t w p (omega arith), items-fits items (fill w (f t)) h (omega arith))
        (rw (fill_twice w (f t) (items_bytes f items)))

  items-full :
      (items : List T) (w : WSeq)
      → All P items
      → w.space < length (items_bytes f items)
      → (write_items item max_count items w).0 ≡ insufficient_space
  unfolding write_items
  items-full [] w h over = absurd (omega arith)
  items-full (t ∷ items) w (p, h) over = elim (dec_le (length (f t)) w.space) [
    | yes fits ↦ rw (F.fits t w p fits) (
        items-full items (fill w (f t)) h
          (omega (arith, length-append (f t) (items_bytes f items))))
    | no full ↦
        after_write-full (item.write t w) (write_items item max_count items)
          (F.full t w p (omega arith))
  ]

  -- What the loop adds to the items that it starts with.
  abbrev Added : ℕ → List T → Bytes → List T → Bytes → Type 0
  Added count acc s items rest =
      (new : List T) × (items ≡ acc ++ new)
      × (length new ≡ count)
      × All P new
      × (s ≡ items_bytes f new ++ rest)

  Added-cons :
      (count : ℕ) (acc items : List T) (t : T) (s s' rest : Bytes)
      → P t
      → s ≡ f t ++ s'
      → Added count (acc ++ (t ∷ [])) s' items rest
      → Added (suc count) acc s items rest
  Added-cons count acc items t s s' rest p split (new, e, n, h, e') = (
    t ∷ new,
    e ∙ append_assoc acc (t ∷ []) new,
    omega arith,
    (p, h),
    split ∙ ap (◌++◌ (f t)) e' ∙ sym (append_assoc (f t) (items_bytes f new) rest),
  )

  items_sound :
      (count : ℕ) (acc items : List T) (s rest : Bytes)
      → All IsByte s
      → length acc ≤ max_count
      → read_items item max_count count acc s ≡ ok (items, rest)
      → Added count acc s items rest × (length items ≤ max_count)
  unfolding read_items
  items_sound zero acc items s rest h room e =
      let ea : acc ≡ items = cc in
      let es : s ≡ rest = cc in (([], rw (append-nil acc) (sym ea), refl, tt, es), rw (← ea) room)
  items_sound (suc count) acc items s rest h room e = elim (Parsed-cases (item.read s)) [
    | inr (x, q) ↦ cc (rw (q, read_items) at e)
    | inl ((t, s'), q) ↦
        let (p, split) = F.sound s t s' h q in
        let h' : All IsByte s' = All-append_right IsByte (f t) s' (subst (All IsByte) split h) in
        let e' = rw (q, read_items) at e in
        elim (Bool-cases (length acc == max_count)) [
          | inl full ↦ cc (rw full at e')
          | inr more ↦
              let room' : length (acc ++ (t ∷ [])) ≤ max_count =
                grind (arith, length-append acc (t ∷ [])) in
              let (added, fits) =
                items_sound count (acc ++ (t ∷ [])) items s' rest h' room' (rw more at e') in
              (Added-cons count acc items t s s' rest p split added, fits)
        ]
  ]

  items-sized :
      (items : List T) → All P items → sum_sizes item max_count items ≡ length (items_bytes f items)
  unfolding sum_sizes
  items-sized [] h = refl
  items-sized (t ∷ items) (p, h) =
      omega (arith, F.sized t p, items-sized items h, length-append (f t) (items_bytes f items))

  items-bytes : (items : List T) → All P items → All IsByte (items_bytes f items)
  items-bytes [] h = tt
  items-bytes (t ∷ items) (p, h) =
      All-append IsByte (f t) (items_bytes f items) (F.bytes t p) (items-bytes items h)

  struct-full :
      (items : List T) (w : WSeq)
      → IsItems P max_count items
      → IsU32 (length items)
      → w.space < length (struct_bytes f items)
      → ((seq_struct_field item max_count).write items w).0 ≡ insufficient_space
  unfolding seq_struct_field
  struct-full items w h small over = elim (dec_le (length (encode (length items))) w.space) [
    | yes fits ↦ rw (write_fits (length items) w small fits) (
        items-full items (fill w (encode (length items))) h.1
          (omega (arith, length-append (encode (length items)) (items_bytes f items))))
    | no full ↦
        after_write-full (VLength.write (length items) w) (write_items item max_count items)
          (write_full (length items) w small (omega arith))
  ]

  struct_sound :
      (s : Bytes) (items : List T) (rest : Bytes)
      → All IsByte s
      → (seq_struct_field item max_count).read s ≡ ok (items, rest)
      → IsItems P max_count items × (s ≡ struct_bytes f items ++ rest)
  unfolding seq_struct_field
  struct_sound s items rest h e =
      let ((n, s'), en, k) = >>=-reads (VLength.read s) _ e in
      let (small, split) = read_sound s n s' h en in
      let h' : All IsByte s' = All-append_right IsByte (encode n) s' (subst (All IsByte) split h) in
      let ((new, ea, size, valid, split'), fits) =
        items_sound n [] items s' rest h' (omega arith) k in
      let size' : length items ≡ n = rw ea size in
      (
        (fits, rw ea valid),
        rw (size', ea, append_assoc (encode n) (items_bytes f new) rest)
            (split ∙ ap (◌++◌ (encode n)) split'),
      )

  -- `max_count` is a uint32_t.
  pub seq_struct_field-IsCodec :
      max_count < 2 ^ 32
      → IsCodec (seq_struct_field item max_count) (IsItems P max_count) (struct_bytes f)
  unfolding seq_struct_field
  seq_struct_field-IsCodec small = record {
    reads = λ items rest h.
        rw
          (
            append_assoc (encode (length items)) (items_bytes f items) rest,
            read-encode (length items) (items_bytes f items ++ rest) (omega arith),
          )
          (items-reads items [] rest h.1 (omega arith));
    fits = λ items w h room.
        let n = length-append (encode (length items)) (items_bytes f items) in
        rw (
          write_fits (length items) w (omega arith) (omega arith),
          items-fits items (fill w (encode (length items))) h.1 (omega arith),
          fill_twice w (encode (length items)) (items_bytes f items),
        );
    full = λ items w h over. struct-full items w h (omega arith) over;
    sized = λ items h. omega (
      arith,
      length-append (encode (length items)) (items_bytes f items),
      length-encode (length items),
      items-sized items h.1,
    );
    bytes = λ items h.
        All-append IsByte (encode (length items)) (items_bytes f items)
          (encode-IsByte (length items)) (items-bytes items h.1);
    sound = struct_sound;
  }
