-- ===== src/Link/Tests.antt =====
-- A parser at work on concrete bytes.
use ssp21_cpp.Base.{List, ◌≡◌, ◌⊎◌, Bytes, IsByte, All, [], ◌∷◌, arith, some}
use ssp21_cpp.Ser.BigEndian.{big_endian}
use ssp21_cpp.Crc.{calc}
use ssp21_cpp.Link.{Addresses}
use ssp21_cpp.Link.Frame.{frame_bytes}
use ssp21_cpp.Link.Parser
use ssp21_cpp.Link.Parser.{LinkParser, at_sync1, at_read, init_context, parse, wait_read}
use ssp21_cpp.Link.Parser.Invariant.{IsValid}
use ssp21_cpp.Link.Parser.Total.{init_context-IsValid, parse-IsValid}
use ssp21_cpp.Link.Parser.Reached.{
  Input, arrived, discarded, new_parser, IsReported, feed, feed-frame,
}

abbrev fresh_parser : LinkParser
fresh_parser = record { state = at_sync1; context = init_context 20 }

abbrev noise : Bytes
noise = 1 ∷ 7 ∷ 0xAA ∷ 0 ∷ 1 ∷ 0 ∷ 2 ∷ 0 ∷ 0 ∷ 1 ∷ 2 ∷ 3 ∷ 4 ∷ 5 ∷ []

noise_bytes : All IsByte noise
noise_bytes = (
  omega arith,
  (
    omega arith,
    (
      omega arith,
      (
        omega arith,
        (
          omega arith,
          (
            omega arith,
            (
              omega arith,
              (
                omega arith,
                (
                  omega arith,
                  (omega arith, (omega arith, (omega arith, (omega arith, (omega arith, tt))))),
                ),
              ),
            ),
          ),
        ),
      ),
    ),
  ),
)

parse-IsValid_example :
    (r : LinkParser × Bytes) × (parse fresh_parser noise ≡ some r)
    × IsValid r.0.state r.0.context
    × ((r.1 ≡ []) ⊎ (r.0.state.value ≡ wait_read))
parse-IsValid_example = parse-IsValid fresh_parser noise (init_context-IsValid 20) noise_bytes

abbrev addresses : Addresses
addresses = record { destination = 1; source = 10 }

abbrev whole : Bytes
whole = frame_bytes addresses []

whole_bytes : All IsByte whole
unfolding frame_bytes calc
whole_bytes = (
  omega arith,
  (
    omega arith,
    (
      omega arith,
      (
        omega arith,
        (
          omega arith,
          (
            omega arith,
            (
              omega arith,
              (
                omega arith,
                (
                  omega arith,
                  (
                    omega arith,
                    (
                      omega arith,
                      (omega arith, (omega arith, (omega arith, (omega arith, (omega arith, tt))))),
                    ),
                  ),
                ),
              ),
            ),
          ),
        ),
      ),
    ),
  ),
)

-- A frame after some noise, a reset, and the frame again.
abbrev inputs : List Input
inputs = arrived noise ∷ discarded ∷ arrived whole ∷ []

feed-frame_example :
    (last : LinkParser) × (feed inputs (new_parser 20) ≡ some last)
    × IsReported last (Parser.read last)
feed-frame_example = feed-frame inputs 20 (noise_bytes, (tt, (whole_bytes, tt)))
