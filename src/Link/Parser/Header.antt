-- ===== src/Link/Parser/Header.antt =====
-- The header in the parser's buffer: it can always be read, and it is what was buffered.
use ssp21_cpp.Base.{
  ℕ, ◌+◌, ◌*◌, ◌≤◌, ◌≡◌, sym, ap, ◌∙◌, Bytes, IsByte, All, All-drop, [], ◌∷◌, ◌++◌, arith, length,
  take, drop, take-append-drop,
}
use ssp21_cpp.Ser.{Ser4cpp, be16, be32}
use ssp21_cpp.Wire.{ok, ◌&◌}
use ssp21_cpp.Wire.Codec.{IsCodec, pair-IsCodec}
use ssp21_cpp.Wire.Fields.Integers.{IsU, u16_field-IsCodec, u32_field-IsCodec, u16-read, u32-read}
use ssp21_cpp.Link.{Addresses, sync1, sync2}
use ssp21_cpp.Link.Frame.{fields_bytes, IsAddresses}
use ssp21_cpp.Link.Parser.{header_chain}

module _ ⦃ser : Ser4cpp⦄ where
  abbrev pub chain_bytes : ℕ × (ℕ × (ℕ × ℕ)) → Bytes
  chain_bytes t = be16 t.0 ++ (be16 t.1.0 ++ (be16 t.1.1.0 ++ be32 t.1.1.1))

  pub chain-IsCodec :
      IsCodec header_chain
        (λ t. IsU 16 t.0 × (IsU 16 t.1.0 × (IsU 16 t.1.1.0 × IsU 32 t.1.1.1)))
        chain_bytes
  chain-IsCodec =
      pair-IsCodec u16_field-IsCodec
        (pair-IsCodec u16_field-IsCodec (pair-IsCodec u16_field-IsCodec u32_field-IsCodec))

  -- Ten bytes are enough to read the four values.
  pub header_chain_total :
      (s : Bytes) → 10 ≤ length s → (r : (ℕ × (ℕ × (ℕ × ℕ))) × Bytes) × (header_chain.read s ≡ ok r)
  unfolding ◌&◌
  header_chain_total (a ∷ b ∷ c ∷ d ∷ e ∷ f ∷ g ∷ h ∷ i ∷ j ∷ rest) n = (
    ((a * 256 + b, (c * 256 + d, (e * 256 + f, g * 16777216 + h * 65536 + i * 256 + j))), rest),
    rw (u16-read a b, u16-read c d, u16-read e f, u32-read g h i j),
  )
  header_chain_total _ n = absurd (omega arith)

  -- What the buffer holds once its header has been read and its CRC agrees.
  pub header_found :
      (buffer rest : Bytes) (a : Addresses) (n crc : ℕ)
      → All IsByte buffer
      → take 2 buffer ≡ sync1 ∷ sync2 ∷ []
      → header_chain.read (drop 2 buffer) ≡ ok ((a.destination, (a.source, (n, crc))), rest)
      → IsAddresses a
        × IsU 16 n
        × (take 8 buffer ≡ fields_bytes a n)
        × (take 12 buffer ≡ fields_bytes a n ++ be32 crc)
  header_found buffer rest a n crc h sync e =
      let (valid, split) =
        chain-IsCodec.sound (drop 2 buffer) _ rest (All-drop IsByte 2 buffer h) e in
      let whole : buffer
          ≡ sync1 ∷ sync2 ∷ (chain_bytes (a.destination, (a.source, (n, crc))) ++ rest) =
        sym (take-append-drop 2 buffer)
        ∙ ap (λ (xs : Bytes). xs ++ drop 2 buffer) sync
        ∙ ap (λ (xs : Bytes). sync1 ∷ sync2 ∷ xs) split in
      (
        record { destination_u16 = valid.0; source_u16 = valid.1.0 },
        valid.1.1.0,
        ap (take 8) whole,
        ap (take 12) whole,
      )
