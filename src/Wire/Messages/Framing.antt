-- ===== src/Wire/Messages/Framing.antt =====
-- The contract of a whole message: what is written is read back, and a message has one encoding.
use mathlib.Core.Path.{subst, ap₂}
use ssp21_cpp.Base.{
  ◌-◌, ◌≤◌, ◌≡◌, sym, ap, ◌∙◌, false, Bytes, IsByte, All, [], ◌∷◌, append-nil, All-append_right,
  arith, length, drop-append, take_all, ==_refl, ==_iff, Bool-cases, inl, inr,
}
use ssp21_cpp.Ser.{Ser4cpp, WSeq, fill}
use ssp21_cpp.Wire.{Field, Parsed, ok, FormatError, after_write}
use ssp21_cpp.Wire.Codec.{IsCodec, >>=-reads, fill_twice}
use ssp21_cpp.Wire.Fields.{enum_field}
use ssp21_cpp.Wire.Fields.Integers.{enum_field-IsCodec}
use ssp21_cpp.Wire.Enums.Handshake.{Function, function_spec}
use ssp21_cpp.Wire.Enums.Laws.{function-IsSpec}
use ssp21_cpp.Wire.Messages.{
  all_read, read_all, read_body, read_message, write_message, finish_message, same_function,
}

all_read-ok : {A : Type 0} (r : A × Bytes) (a : A) → all_read r ≡ ok a → r ≡ (a, [])
unfolding all_read
all_read-ok (v, []) a e = ap (λ x. (x, [])) (cc)
all_read-ok (v, b ∷ rest) a e = cc

finish_message-fill :
    (w : WSeq) (xs : Bytes)
    → length xs ≤ w.space
    → finish_message w (FormatError.ok, fill w xs)
      ≡ (record { err = FormatError.ok; written = xs }, fill w xs)
finish_message-fill w xs room =
    rw (drop-append w.written xs, take_all (w.space - (w.space - length xs)) xs (omega arith))

module _ ⦃ser : Ser4cpp⦄ {A : Type 0} {f : Field A} {P : A → Type 0} {encode : A → Bytes}
    (F : IsCodec f P encode) where
  -- A struct that fills its input is read from its encoding alone.
  pub read_all-encode : (a : A) → P a → read_all f (encode a) ≡ ok a
  unfolding read_all
  read_all-encode a h = rw (sym (append-nil (encode a)), F.reads a [] h)

  pub read_all_sound :
      (s : Bytes) (a : A) → All IsByte s → read_all f s ≡ ok a → P a × (s ≡ encode a)
  unfolding read_all
  read_all_sound s a h e =
      let (r, er, k) = >>=-reads (f.read s) all_read e in
      let whole : f.read s ≡ ok (a, []) = er ∙ ap Parsed.ok (all_read-ok r a k) in
      let (p, split) = F.sound s a [] h whole in (p, split ∙ append-nil (encode a))

  whole_body : (a : A) → P a → f.read (encode a) ≡ ok (a, [])
  whole_body a h = rw (append-nil (encode a)) at (F.reads a [] h)

  E :
      IsCodec
        (enum_field function_spec)
        (λ e. function_spec.is_undefined e ≡ false)
        (λ e. function_spec.to_type e ∷ [])
  E = enum_field-IsCodec function-IsSpec

  module _ (function : Function) (defined : function_spec.is_undefined function ≡ false) where
    -- The whole message: its function byte, then its fields.
    abbrev pub message_bytes : A → Bytes
    message_bytes a = function_spec.to_type function ∷ encode a

    pub read_message-bytes : (a : A) → P a → read_message function f (message_bytes a) ≡ ok a
    unfolding read_message
    read_message-bytes a h =
        rw (E.reads function (encode a) defined, ==_refl (function_spec.to_type function))
          (rw (whole_body a h))

    pub write_message-bytes :
        (a : A) (w : WSeq)
        → P a
        → length (message_bytes a) ≤ w.space
        → write_message function f a w
          ≡ (record { err = FormatError.ok; written = message_bytes a }, fill w (message_bytes a))
    unfolding write_message
    write_message-bytes a w h room =
        let inner : after_write ((enum_field function_spec).write function w) (f.write a)
            ≡ (FormatError.ok, fill w (message_bytes a)) =
          rw (
            E.fits function w defined (omega arith),
            F.fits a (fill w (function_spec.to_type function ∷ [])) h (omega arith),
            fill_twice w (function_spec.to_type function ∷ []) (encode a),
          ) in
        ap (finish_message w) inner ∙ finish_message-fill w (message_bytes a) room

    pub read_message_sound :
        (s : Bytes) (a : A)
        → All IsByte s
        → read_message function f s ≡ ok a
        → P a × (s ≡ message_bytes a)
    unfolding read_message
    read_message_sound s a h e =
        let ((g, input), eg, k) =
          >>=-reads ((enum_field function_spec).read s) (read_body function f) e in
        let (d, split) = E.sound s g input h eg in
        elim (Bool-cases (same_function g function)) [
          | inr other ↦ cc (rw other at k)
          | inl same ↦
              let input-bytes : All IsByte input =
                All-append_right IsByte (function_spec.to_type g ∷ []) input
                  (subst (All IsByte) split h) in
              let (p, found) =
                read_all_sound input a input-bytes (unfold read_all in rw same at k) in
              (p, split ∙ ap₂ ◌∷◌ ((==_iff _ _).0 same) found)
        ]
