-- ===== src/Link/Layer/Delivery.antt =====
-- What the link layer hands to the upper layer, and what it does with the frames of others.
use ssp21_cpp.Base.{
  ℕ, ◌+◌, ◌*◌, ◌≤◌, ◌≡◌, ◌≢◌, refl, ap, sym, ◌∙◌, inl, inr, Bool, true, false, Bool-cases, Bytes,
  List, [], ◌∷◌, Option, none, some, length, take, ◌==◌, ==_iff, if◌then◌else◌,
}
use ssp21_cpp.Ser.{Ser4cpp}
use ssp21_cpp.Link.{Addresses}
use ssp21_cpp.Link.Frame.{frame_bytes}
use ssp21_cpp.Link.Parser
use ssp21_cpp.Link.Parser.{LinkParser, parse, has_result, at_sync1}
use ssp21_cpp.Link.Parser.Total.{read-frame}
use ssp21_cpp.Link.Layer.{
  reset_parser, LinkLayer, addressed, get_frame, start_rx_from_upper_impl, start_rx_from_upper,
  begin_rx, end_rx,
}
use ssp21_cpp.Link.Layer.Reading.{IsLayer, IsChunks, get_frame_total}
use ssp21_cpp.Link.Parser.Invariant.{IsValid}
use ssp21_cpp.Session.Receive.Checks.{branch}

-- The parser's reset keeps what it is made of, and waits for the next frame.
reset-IsValid :
    (parser : LinkParser)
    → IsValid parser.state parser.context
    → IsValid (Parser.reset parser).state (Parser.reset parser).context
unfolding Parser.reset
reset-IsValid parser V = record { fit = V.fit; phase = refl }

begin_rx-IsLayer : (layer : LinkLayer) → IsLayer layer → IsLayer (begin_rx layer)
begin_rx-IsLayer layer V = by_flag layer.upper_is_processing_rx_data
  where
    by_flag :
        (b : Bool)
        → IsLayer (
            if b
            then record (reset_parser layer) { upper_is_processing_rx_data = false }
            else layer)
    by_flag true = record { parser = reset-IsValid layer.parser V.parser; remainder = V.remainder }
    by_flag false = V

begin_rx-local_addr : (layer : LinkLayer) → (begin_rx layer).local_addr ≡ layer.local_addr
begin_rx-local_addr layer = by_flag layer.upper_is_processing_rx_data
  where
    by_flag :
        (b : Bool)
        → (if b
            then record (reset_parser layer) { upper_is_processing_rx_data = false }
            else layer).local_addr
          ≡ layer.local_addr
    by_flag true = refl
    by_flag false = refl

-- What `start_rx_from_upper` hands out of what the parser has.
abbrev handed : Bool × LinkLayer × List Bytes → Bytes
handed r = if r.0 then addressed r.1 (Parser.read r.1.parser) else []

handed-here :
    (r : Bool × LinkLayer × List Bytes) (b : ℕ) (bytes : Bytes)
    → handed r ≡ b ∷ bytes
    → (a : Addresses) × (Parser.read r.1.parser ≡ some (a, b ∷ bytes))
      × (a.destination ≡ r.1.local_addr)
handed-here (false, layer, chunks) b bytes e = cc
handed-here (true, layer, chunks) b bytes e = here (Parser.read layer.parser) refl e
  where
    here :
        (o : Option (Addresses × Bytes))
        → Parser.read layer.parser ≡ o
        → addressed layer o ≡ b ∷ bytes
        → (a : Addresses) × (Parser.read layer.parser ≡ some (a, b ∷ bytes))
          × (a.destination ≡ layer.local_addr)
    here none same e = cc
    here (some (a, payload)) same e =
        elim (branch (a.destination == layer.local_addr) payload [] (b ∷ bytes) e) [
          | inl mine ↦ (
            a,
            same ∙ ap (λ (p : Bytes). some (a, p)) mine.1,
            (==_iff a.destination layer.local_addr).0 mine.0,
          )
          | inr theirs ↦ let (differs, empty) = theirs in cc
        ]

end_rx-some :
    (r next : Bytes × LinkLayer × List Bytes) (b : ℕ) (bytes : Bytes)
    → end_rx r ≡ next
    → next.0 ≡ b ∷ bytes
    → (r.0 ≡ b ∷ bytes) × (next.1 ≡ record r.1 { upper_is_processing_rx_data = true })
end_rx-some ([], layer, chunks) next b bytes e given = cc
end_rx-some (c ∷ rest, layer, chunks) next b bytes e given = (cc, cc)

end_rx-IsLayer :
    (ret : Bytes) (layer : LinkLayer) (chunks : List Bytes)
    → IsLayer layer
    → IsLayer (end_rx (ret, layer, chunks)).1
end_rx-IsLayer [] layer chunks V = V
end_rx-IsLayer (b ∷ ret) layer chunks V = record { parser = V.parser; remainder = V.remainder }

pub read_some :
    (parser : LinkParser) (r : Addresses × Bytes)
    → Parser.read parser ≡ some r
    → has_result parser ≡ true
unfolding Parser.read
read_some parser r e = elim (Bool-cases (has_result parser)) [
  | inl h ↦ h
  | inr h ↦
      let nothing : Parser.read parser ≡ none = rw h in
      let both : ◌≡◌ {A = Option (Addresses × Bytes)} none (some r) = sym nothing ∙ e in cc
]

addressed_elsewhere :
    (layer : LinkLayer) (a : Addresses) (payload : Bytes)
    → a.destination ≢ layer.local_addr
    → addressed layer (some (a, payload)) ≡ []
addressed_elsewhere layer a payload other = elim (Bool-cases (a.destination == layer.local_addr)) [
  | inl same ↦ absurd (other ((==_iff a.destination layer.local_addr).0 same))
  | inr differs ↦ rw differs
]

module _ ⦃ser : Ser4cpp⦄ where
  get_frame_found :
      (layer : LinkLayer) (chunks : List Bytes) (fuel : ℕ)
      → has_result layer.parser ≡ true
      → get_frame fuel (layer, chunks) ≡ some (true, layer, chunks)
  unfolding get_frame
  get_frame_found layer chunks fuel h = rw (h, get_frame)

  pub start_rx_from_upper_lem :
      (layer : LinkLayer) (chunks : List Bytes) (fuel : ℕ) (r : Bool × LinkLayer × List Bytes)
      → get_frame fuel (begin_rx layer, chunks) ≡ some r
      → start_rx_from_upper fuel (layer, chunks) ≡ some (end_rx (handed r, r.1, r.2))
  unfolding start_rx_from_upper start_rx_from_upper_impl
  start_rx_from_upper_lem layer chunks fuel r ran =
      rw (ran, start_rx_from_upper, start_rx_from_upper_impl)

  -- `start_rx_from_upper` ends, from a layer in order, whatever chunks of bytes the lower layer has:
  -- two rounds for each chunk and two more are enough. The data that it gives, where there are any,
  -- are the payload of a whole frame in the parser's buffer, with both CRCs right, within the
  -- maximum, whose destination is the layer's own address.
  pub start_rx_from_upper-frame_bytes :
      (layer : LinkLayer) (chunks : List Bytes) (fuel : ℕ)
      → IsLayer layer
      → IsChunks chunks
      → 2 * length chunks + 2 ≤ fuel
      → (r : Bytes × LinkLayer × List Bytes) × (start_rx_from_upper fuel (layer, chunks) ≡ some r)
        × IsLayer r.1
        × ((b : ℕ) (bytes : Bytes)
            → r.0 ≡ b ∷ bytes
            → (a : Addresses) × (take r.1.parser.state.num_buffered r.1.parser.context.buffer
                ≡ frame_bytes a (b ∷ bytes))
              × (a.destination ≡ layer.local_addr)
              × (length (b ∷ bytes) ≤ r.1.parser.context.max_payload_length))
  start_rx_from_upper-frame_bytes layer chunks fuel V h le =
      let (r, ran, has, done) =
        get_frame_total (begin_rx layer) chunks fuel (begin_rx-IsLayer layer V) h le in
      let V2 = done.layer_ok in
      (
        end_rx (handed r, r.1, r.2),
        start_rx_from_upper_lem layer chunks fuel r ran,
        end_rx-IsLayer (handed r) r.1 r.2 V2,
        λ b bytes e.
            let (given, next) =
              end_rx-some (handed r, r.1, r.2) (end_rx (handed r, r.1, r.2)) b bytes refl e in
            let (a, result, here) = handed-here r b bytes given in
            let (frame, range, within) = read-frame r.1.parser a (b ∷ bytes) V2.parser result in
            let own : r.1.local_addr ≡ layer.local_addr =
              ap (λ (l : LinkLayer). l.local_addr) done.same ∙ begin_rx-local_addr layer in
            rw next (a, frame, here ∙ own, within),
      )

  -- A frame that is for another address stays where it is: with such a result in the parser, and
  -- nothing handed to the upper layer, `start_rx_from_upper` gives no data and changes nothing,
  -- neither in the layer nor in what the lower layer has for it.
  pub start_rx_from_upper_foreign :
      (layer : LinkLayer) (chunks : List Bytes) (fuel : ℕ) (a : Addresses) (payload : Bytes)
      → Parser.read layer.parser ≡ some (a, payload)
      → a.destination ≢ layer.local_addr
      → layer.upper_is_processing_rx_data ≡ false
      → start_rx_from_upper fuel (layer, chunks) ≡ some ([], layer, chunks)
  start_rx_from_upper_foreign layer chunks fuel a payload found other free =
      let same : begin_rx layer ≡ layer = simp free in
      let ran =
        ap (λ (l : LinkLayer). get_frame fuel (l, chunks)) same
        ∙ get_frame_found layer chunks fuel (read_some layer.parser (a, payload) found) in
      start_rx_from_upper_lem layer chunks fuel (true, layer, chunks) ran
      ∙ ap (λ (p : Bytes). some (end_rx (p, layer, chunks)))
          (ap (addressed layer) found ∙ addressed_elsewhere layer a payload other)
