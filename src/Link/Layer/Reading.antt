-- ===== src/Link/Layer/Reading.antt =====
-- The link layer's reading loop ends, and keeps the layer in order.
use ssp21_cpp.Base.{
  ℕ, zero, suc, ◌+◌, ◌*◌, ◌≤◌, ◌≡◌, refl, ap, sym, ◌∙◌, inl, inr, Bool, true, false, Bool-cases,
  Bytes, IsByte, All, List, [], ◌∷◌, some, arith, length, if◌then◌else◌,
}
use mathlib.Core.Path.{subst}
use ssp21_cpp.Ser.{Ser4cpp}
use ssp21_cpp.Link.Parser.{wait_read, LinkParser, parse, has_result, is_wait_read}
use ssp21_cpp.Link.Parser.Invariant.{IsValid}
use ssp21_cpp.Link.Parser.Total.{parse_total, init_context-IsValid}
use ssp21_cpp.Link.Layer.{
  next_chunk, LinkLayer, make, Reading, parsed, read_frame_one_iteration, read_frames, get_frame,
}

-- The parser is in order, and what is left to parse are bytes.
pub record IsLayer (layer : LinkLayer) : Type 0 where
  pub parser : IsValid layer.parser.state layer.parser.context
  pub remainder : All IsByte layer.remainder

abbrev pub IsChunks : List Bytes → Type 0
IsChunks chunks = All (All IsByte) chunks

pub make-IsLayer : (local_addr remote_addr : ℕ) → IsLayer (make local_addr remote_addr)
unfolding make
make-IsLayer local_addr remote_addr = record { parser = init_context-IsValid 4092; remainder = tt }

-- What the loop leaves: the layer in order, with its addresses and its flags.
pub record IsRead (layer : LinkLayer) (r : Reading) : Type 0 where
  pub layer_ok : IsLayer r.0
  pub chunks_ok : IsChunks r.1
  pub same : r.0 ≡ record layer { parser = r.0.parser; remainder = r.0.remainder }

module _ ⦃ser : Ser4cpp⦄ where
  waiting : (parser : LinkParser) → parser.state.value ≡ wait_read → has_result parser ≡ true
  waiting parser e = ap is_wait_read e

  -- The loop ends from that layer, with that fuel.
  abbrev Ends : ℕ → LinkLayer → List Bytes → Type 0
  Ends fuel layer chunks =
      (r : Reading) × (read_frames fuel (layer, chunks) ≡ some r) × IsRead layer r

  stopped :
      (fuel : ℕ) (layer : LinkLayer) (chunks : List Bytes)
      → layer.remainder ≡ []
      → (next_chunk chunks).0 ≡ []
      → read_frames (suc fuel) (layer, chunks)
        ≡ some (record layer { remainder = [] }, (next_chunk chunks).1)
  unfolding read_frames read_frame_one_iteration
  stopped fuel layer chunks free last = simp (free, last, read_frames, read_frame_one_iteration)

  pub pulled :
      (fuel : ℕ) (layer : LinkLayer) (b : ℕ) (chunk : Bytes) (chunks : List Bytes)
      → layer.remainder ≡ []
      → read_frames (suc fuel) (layer, (b ∷ chunk) ∷ chunks)
        ≡ read_frames fuel (record layer { remainder = b ∷ chunk }, chunks)
  unfolding read_frames read_frame_one_iteration
  pulled fuel layer b chunk chunks free = simp (free, read_frames, read_frame_one_iteration)

  pub went :
      (fuel : ℕ) (layer : LinkLayer) (b : ℕ) (remainder : Bytes) (chunks : List Bytes)
      (r : LinkParser × Bytes) (result : Bool)
      → layer.remainder ≡ b ∷ remainder
      → parse layer.parser (b ∷ remainder) ≡ some r
      → has_result r.0 ≡ result
      → read_frames (suc fuel) (layer, chunks) ≡ (
          if result
          then some (parsed layer r, chunks)
          else read_frames fuel (parsed layer r, chunks))
  unfolding read_frames read_frame_one_iteration
  went fuel layer b remainder chunks r true e ran h =
      simp (e, ran, h, read_frames, read_frame_one_iteration)
  went fuel layer b remainder chunks r false e ran h =
      simp (e, ran, h, read_frames, read_frame_one_iteration)

  -- A remainder that is parsed leaves a result, or nothing to parse.
  after_parse :
      (fuel : ℕ) (layer : LinkLayer) (b : ℕ) (remainder : Bytes) (chunks : List Bytes)
      → layer.remainder ≡ b ∷ remainder
      → IsLayer layer
      → All IsByte (b ∷ remainder)
      → IsChunks chunks
      → ((next : LinkLayer) → next.remainder ≡ [] → IsLayer next → Ends fuel next chunks)
      → Ends (suc fuel) layer chunks
  after_parse fuel layer b remainder chunks e V bytes h rest_ends =
      let (r, ran, W, left, rest) = parse_total layer.parser (b ∷ remainder) V.parser bytes in
      let next : IsLayer (parsed layer r) = record { parser = W; remainder = left } in
      let step = went fuel layer b remainder chunks r in
      elim (Bool-cases (has_result r.0)) [
        | inl result ↦
            (_, step true e ran result, record { layer_ok = next; chunks_ok = h; same = refl })
        | inr more ↦ elim rest [
          | inr result ↦ let both : true ≡ false = sym (waiting r.0 result) ∙ more in cc
          | inl all ↦
              let (q, ends, done) = rest_ends (parsed layer r) all next in
              (
                q,
                step false e ran more ∙ ends,
                record { layer_ok = done.layer_ok; chunks_ok = done.chunks_ok; same = done.same },
              )
        ]
      ]

  read_frames_empty :
      (chunks : List Bytes) (fuel : ℕ) (layer : LinkLayer)
      → layer.remainder ≡ []
      → IsLayer layer
      → IsChunks chunks
      → 2 * length chunks + 1 ≤ fuel
      → Ends fuel layer chunks
  read_frames_empty chunks zero layer free V h le = absurd (omega (arith, le))
  read_frames_empty [] (suc fuel) layer free V h le = (
    _,
    stopped fuel layer [] free refl,
    record { layer_ok = record { parser = V.parser; remainder = tt }; chunks_ok = tt; same = refl },
  )
  read_frames_empty ([] ∷ chunks) (suc fuel) layer free V (h, hs) le = (
    _,
    stopped fuel layer ([] ∷ chunks) free refl,
    record { layer_ok = record { parser = V.parser; remainder = tt }; chunks_ok = hs; same = refl },
  )
  read_frames_empty ((b ∷ chunk) ∷ chunks) (suc zero) layer free V (h, hs) le =
      absurd (omega (arith, le))
  read_frames_empty ((b ∷ chunk) ∷ chunks) (suc (suc fuel)) layer free V (h, hs) le =
      let layer2 : LinkLayer = record layer { remainder = b ∷ chunk } in
      let (r, ends, done) =
        after_parse fuel layer2 b chunk chunks refl (record { parser = V.parser; remainder = h }) h
          hs (λ next empty W. read_frames_empty chunks fuel next empty W hs (omega (arith, le))) in
      (
        r,
        pulled (suc fuel) layer b chunk chunks free ∙ ends,
        record { layer_ok = done.layer_ok; chunks_ok = done.chunks_ok; same = done.same },
      )

  read_frames_total :
      (remainder : Bytes) (fuel : ℕ) (layer : LinkLayer) (chunks : List Bytes)
      → layer.remainder ≡ remainder
      → IsLayer layer
      → IsChunks chunks
      → 2 * length chunks + 2 ≤ fuel
      → Ends fuel layer chunks
  read_frames_total [] fuel layer chunks e V h le =
      read_frames_empty chunks fuel layer e V h (omega (arith, le))
  read_frames_total (b ∷ remainder) zero layer chunks e V h le = absurd (omega (arith, le))
  read_frames_total (b ∷ remainder) (suc fuel) layer chunks e V h le =
      after_parse fuel layer b remainder chunks e V (subst (All IsByte) e V.remainder) h
        (λ next empty W. read_frames_empty chunks fuel next empty W h (omega (arith, le)))

  -- `get_frame` ends, whatever bytes the lower layer has given in whatever chunks: it takes at most
  -- two rounds for each chunk and two more. It says whether the parser has a result, leaves the
  -- layer in order, and has changed nothing of it but its parser and its remainder.
  pub get_frame_total :
      (layer : LinkLayer) (chunks : List Bytes) (fuel : ℕ)
      → IsLayer layer
      → IsChunks chunks
      → 2 * length chunks + 2 ≤ fuel
      → (r : Bool × LinkLayer × List Bytes) × (get_frame fuel (layer, chunks) ≡ some r)
        × (r.0 ≡ has_result r.1.parser)
        × IsRead layer (r.1, r.2)
  unfolding get_frame
  get_frame_total layer chunks fuel V h le = elim (Bool-cases (has_result layer.parser)) [
    | inl result ↦
        rw (result, get_frame)
          (
            (true, layer, chunks),
            refl,
            sym result,
            record { layer_ok = V; chunks_ok = h; same = refl },
          )
    | inr more ↦
        let (r, ran, done) = read_frames_total layer.remainder fuel layer chunks refl V h le in
        rw (more, get_frame, ran) (_, refl, refl, done)
  ]
