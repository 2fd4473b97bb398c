-- ===== src/Delivery/Tests.antt =====
-- A message of a concrete session, on its way through the link writer to the other session.
use ssp21_cpp.Base.{
  ◌⊎◌, ℕ, zero, suc, ◌+◌, ◌^◌, ◌≤◌, ◌<◌, ◌≡◌, ◌≢◌, refl, ap, Bool, true, false, Bytes, List, [],
  ◌∷◌, ◌++◌, ◌==◌, ==_refl, some, arith, length, All, IsByte,
}
use ssp21_cpp.Ser.BigEndian.{big_endian}
use ssp21_cpp.Wire.{ok}
use ssp21_cpp.Wire.Messages.Bodies.{SessionData, session_data_read}
use ssp21_cpp.Wire.Messages.RoundTrip.{session_data_wire}
use ssp21_cpp.Session.{pass, SecureBuffer, length_32, verify_strict_increment}
use ssp21_cpp.Session.State.{Exe4cpp, Session}
use ssp21_cpp.Session.Transmit.{format_session_data}
use ssp21_cpp.Session.Receive.{validate_session_data}
use ssp21_cpp.Session.Receive.Checks.{take_nonce}
use ssp21_cpp.Link.{Addresses}
use ssp21_cpp.Link.Frame.{frame_bytes}
use ssp21_cpp.Link.Layer.{LinkLayer, make}
use ssp21_cpp.Link.Layer.Sequence.{IsWaiting, receive_many}
use ssp21_cpp.Link.Parser.{init_context, replicate}
use ssp21_cpp.Link.Writer.{LinkFrameWriter}
use ssp21_cpp.Link.Writer.Frames.{IsWriter}
use ssp21_cpp.Link.Writer.Contract.{link_frame_writer}
use ssp21_cpp.Delivery.Message.{trunc16_mode}
use ssp21_cpp.Delivery.Sent.{IsOpen}
use ssp21_cpp.Delivery.Once.{IsLinked, IsMac, IsTimely, delivered}
use ssp21_cpp.Delivery.Stream.{Hop, frames, concat, transmit_many, accept_many, IsHop, IsSender}
use ssp21_cpp.Delivery.Layers.{text_delivered}

instance abbrev clock : Exe4cpp
clock = record { ticks_per_ms = 1000; positive = omega arith }

abbrev key : SecureBuffer
key = record { length = length_32; buffer = 7 ∷ [] }

abbrev calc : Bytes → List Bytes → Bytes
calc _ _ = 1 ∷ []

abbrev always : Bytes → Bytes → Bool
always _ _ = true

abbrev session : ℕ → ℕ → Session
session rx tx = record {
  valid = true;
  statistics = record {
    num_init = 1;
    num_user_data_without_session = 0;
    num_auth_fail = 0;
    num_ttl_expiration = 0;
    num_nonce_fail = 0;
    num_success = 0;
  };
  ttl_pad_ms = 10;
  rx_nonce = rx;
  tx_nonce = tx;
  keys = record { rx_key = key; tx_key = key };
  algorithms = record {
    verify_nonce = verify_strict_increment;
    session_mode = trunc16_mode calc always;
  };
  parameters = record { session_start = 5000; max_nonce = 3; max_session_time = 100000 };
  encrypt_buffer = 2;
}

abbrev addresses : Addresses
addresses = record { destination = 1; source = 10 }

abbrev writer : LinkFrameWriter
writer = record { addr = addresses; max_payload_size = 1057; frame_buffer = replicate 1073 }

length-replicate : (n : ℕ) → length (replicate n) ≡ n
length-replicate zero = refl
length-replicate (suc n) = ap suc (length-replicate n)

writer-IsWriter : IsWriter writer
writer-IsWriter = record {
  sized = length-replicate 1073;
  max_u16 = omega arith;
  addresses = record { destination_u16 = omega arith; source_u16 = omega arith };
}

text_bytes : All IsByte (8 ∷ 9 ∷ 7 ∷ [])
text_bytes = (omega arith, (omega arith, (omega arith, tt)))

strict : (n : ℕ) → n + 1 < 2 ^ 16 → verify_strict_increment n (n + 1) ≡ true
strict n below =
    let small : (n == 65535) ≡ false = ground (arith, below) in rw (small, ==_refl (n + 1)) refl

linked : IsLinked calc always (session 5 1) (session 0 5)
linked = record {
  valid = refl;
  same_key = refl;
  mode1 = refl;
  mode2 = refl;
  max_nonce = omega arith;
  next = refl;
  in_order = strict;
}

mac : IsMac calc always
mac = record { bytes = λ key parts. (omega arith, tt); equal = λ b. refl }

session-IsOpen : IsOpen 6000 (session 5 1)
session-IsOpen = record {
  valid = refl;
  key = refl;
  room = omega arith;
  started = omega arith;
  in_session = omega arith;
  nonce = omega arith;
  u16 = omega arith;
}

timely :
    (now arrived : ℕ)
    → 5000 ≤ now
    → now ≤ 9000
    → 5000 ≤ arrived
    → arrived ≤ now + 1000
    → IsTimely now arrived (session 5 1) (session 0 5)
timely now arrived a b c d = record {
  started = c;
  in_session = omega (arith, b, d);
  in_time = omega (arith, a, c, d);
  u32 = omega (arith, b);
}

delivered_example :
    (message : SessionData) × (payload rest : Bytes) × (format_session_data
        (link_frame_writer writer)
        6000
        (8 ∷ 9 ∷ 7 ∷ [])
        (session 5 1)
      ≡ (pass (frame_bytes addresses (session_data_wire message)), session 5 2, rest))
    × (session_data_read (session_data_wire message) ≡ ok message)
    × (length (session_data_wire message) ≤ 1057)
    × (payload ≢ [])
    × (payload ++ rest ≡ 8 ∷ 9 ∷ 7 ∷ [])
    × (validate_session_data message 7000 50 (session 0 5)
        ≡ (pass payload, take_nonce message (session 0 5)))
    × IsLinked calc always (session 5 2) (take_nonce message (session 0 5))
delivered_example =
    delivered calc always writer 6000 7000 50 8 (9 ∷ 7 ∷ []) (session 5 1) (session 0 5) mac
      writer-IsWriter (omega arith) linked session-IsOpen text_bytes (omega arith)
      (timely 6000 7000 (omega arith) (omega arith) (omega arith) (omega arith))

abbrev hops : List Hop
hops = record { now = 6000; arrived = 6500 } ∷ record { now = 7000; arrived = 8000 } ∷ []

in_time :
    (now arrived : ℕ)
    → 5000 ≤ now
    → now ≤ 9000
    → 5000 ≤ arrived
    → arrived ≤ now + 1000
    → IsHop (session 5 1) (session 0 5) (record { now = now; arrived = arrived })
in_time now arrived a b c d = record {
  started = a;
  in_session = omega (arith, b);
  timely = timely now arrived a b c d;
}

sender : IsSender hops (session 5 1)
sender = record {
  valid = refl;
  key = refl;
  room = omega arith;
  nonces = omega arith;
  u16 = omega arith;
}

abbrev layer : LinkLayer
layer = make 1 10

waiting : IsWaiting 1 4092 [] layer
unfolding make init_context
waiting = record { waits = refl; remainder = refl; local = refl; room = refl }

text_delivered_example :
    (messages passed : List Bytes) × (rest : Bytes) × (s' t' : Session) × (after : LinkLayer)
    × (transmit_many (link_frame_writer writer) (6000 ∷ 7000 ∷ []) (8 ∷ 9 ∷ 7 ∷ []) (session 5 1)
        ≡ some (frames addresses messages, (rest, s')))
    × (receive_many (length messages) 2 (layer, frames addresses messages)
        ≡ some (messages, (after, [])))
    × (accept_many (6500 ∷ 8000 ∷ []) messages 50 (session 0 5) ≡ some (passed, t'))
    × (concat passed ++ rest ≡ 8 ∷ 9 ∷ 7 ∷ [])
    × All (λ (p : Bytes). p ≢ []) passed
    × ((rest ≡ []) ⊎ (length passed ≡ 2))
text_delivered_example =
    text_delivered calc always writer layer 4092 hops 50 (8 ∷ 9 ∷ 7 ∷ []) (session 5 1)
      (session 0 5) mac writer-IsWriter (omega arith) (omega arith) waiting linked sender text_bytes
      (omega arith)
      (
        in_time 6000 6500 (omega arith) (omega arith) (omega arith) (omega arith),
        (in_time 7000 8000 (omega arith) (omega arith) (omega arith) (omega arith), tt),
      )
