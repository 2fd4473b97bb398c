-- ===== src/Lib.antt =====
-- A model of SSP21 (cpp/libs/ssp21), the cryptographic layer and the link layer that secure
-- industrial control protocols.
--
-- An application's data goes through a session of the cryptographic layer, which authenticates it
-- under a nonce and a time to live, as a SessionData message; the message is put into a link frame
-- with a checksum. On the other side the link parser finds the frame, the message is parsed, and the
-- session that receives it checks it before it passes the data on. The initiator's and the responder's
-- layers agree on a session by a handshake, in which certificates or keys that were distributed
-- authenticate the other side.
--
-- Base: names of the library that the other modules share, bytes, lists and bits over ℕ.
-- Ser: ser4cpp, which is a submodule and not part of the repository: the views over bytes and the
--   big-endian codecs, as an interface `Ser4cpp` with what the code relies on as its laws. A readable
--   view is the bytes it shows, a writable view the room left in it and the bytes written.
--   Ser/BigEndian has codecs that meet the laws.
-- Wire: cpp/libs/ssp21/src/crypto/VLength.cpp (Wire/VLength), the field templates IntegerField.h,
--   EnumField.h, SeqByteField.h and SeqStructField.h of include/ssp21/crypto (Wire/Fields), the
--   enumerations and structs of crypto/gen (Wire/Enums, Wire/Structs), MessageParser.h and
--   MessageFormatter.h (Wire/Messages) and the four messages (Wire/Messages/Bodies). A `read` gives
--   the value with the rest of its input, or the ParseError; a `write` gives its FormatError and the
--   view after it. Wire/Codec has the laws of a field, and that chains of fields keep them.
-- Crc: src/link/CastagnoliCRC32.cpp, with its table.
-- Link: the constants and addresses of the link layer, its frame as bytes (Link/Frame), and
--   src/link/LinkParser.cpp (Link/Parser). The parser's loop runs on fuel: the length of its input, as
--   each round reads a byte at least. The parse of a bad header's bytes is nested once: ten bytes are
--   too few for a second header. Link/Parser/Invariant says what is buffered in each state, and
--   Link/Parser/Complete how a whole frame is found. src/link/LinkFrameWriter.cpp is Link/Writer,
--   src/RawFrameWriter.cpp, which puts nothing around a payload, is Link/RawWriter, and
--   src/link/LinkLayer.cpp is Link/Layer, with the flags of include/ssp21/stack/ILowerLayer.h and
--   IUpperLayer.h: what the lower layer gives is a list of chunks, and the loop that reads them runs on
--   fuel, of which two rounds for each chunk and two more are enough (Link/Layer/Reading).
-- Session: src/crypto/Session.cpp, Nonce.h, NonceFunctions.h, Sessions.cpp, Statistics.h and
--   BufferTypes.h: the state of a session (Session/State), what it receives (Session/Receive) and
--   transmits (Session/Transmit), SessionMode.cpp with MacAdapters.h (Session/Mode), and the session's
--   part of Algorithms.cpp (Session/Configure). An operation
--   takes a session and gives its result with the session after it; a `std::error_code` that is set
--   is the error of a `Checked`. Times are counted in the ticks of the steady clock of exe4cpp, and
--   how many make a millisecond is a parameter. The cryptographic functions and the frame writer are
--   parameters.
--
-- Certificates: src/crypto/Chain.cpp, and the two certificate handlers, IndustrialCertificateHandler.cpp
--   and PresharedKeyCertificateHandler.h (Certificates/Handlers). The exceptions of a constructor are
--   values, and the backend's check of a signature is a parameter. Certificates/Trust says what a path
--   of certificates is, and Certificates/Handlers/Peers what a handler accepts.
-- Layer: src/crypto/CryptoLayer.cpp with TxState.h (Layer/Crypto, Layer/Transmission), Initiator.cpp
--   with InitiatorHandshakeStates.cpp (Layer/Initiator) and Responder.cpp (Layer/Responder). The virtual
--   functions are a record that the two ends fill. The lower layer is an interface over a state of its
--   own; a call of the upper layer, which may call back, maps the whole state; a handshake is an
--   interface too. `now` is the executor's time while one event is handled, and a timer is what it was
--   started for last. The loop that reads from the lower layer runs on fuel, which is an argument: how
--   long it reads is for the lower layer to say. Layer/Initiator/Diagram has the moves of the handshake, and
--   Layer/Initiator/Retry what its time-outs lead to.
-- Handshake: the handshakes of src/crypto, which fill the interfaces of Layer, over a backend that is a
--   parameter (Handshake): Algorithms.cpp without the session's part (Handshake/Algorithms), the
--   classes of the three modes, an initiator and a responder each (Handshake/SharedSecret,
--   Handshake/PublicKey with TripleDH.cpp, Handshake/Qkd), HandshakeHasher.cpp, and the factories
--   InitiatorHandshakes.cpp and ResponderHandshakes.cpp. The members of a class that change, with the
--   source of randomness or of keys, are its state. Handshake/Peers says when two sessions are the ends
--   of one, and what is relied on of the backend. Handshake/Qkd/Store is the store of Qix as the source
--   of the keys.
-- Qix: cpp/libs/qix/src: QIXKeyStore.cpp (Qix/KeyStore), whose map is the list of its records in the
--   order of their ids, and QIXFrameParser.cpp with the bytes of QIXFrameWriter.cpp (Qix/Frames).
-- Delivery: the parts above at work together, in the mode of src/crypto/SessionModes.h that
--   authenticates only (Delivery/Message): the sender's Session.cpp over the link layer's frame writer,
--   which keeps the contract of IFrameWriter.h (Link/Writer/Contract), to the receiver's Session.cpp
--   (Delivery/Sent, Delivery/Once); a text in several messages, as CryptoLayer.cpp sends and takes them
--   one by one (Delivery/Stream); and the receiver's LinkLayer.cpp between them (Delivery/Layers). The
--   calls of `start_rx_from_upper` that follow one another are those of Link/Layer/Sequence.
--
-- Integers of the code keep their width: counters, nonces and lengths wrap where the code's do.
--
-- Not modelled: printing and logging, the executables, the code generator, the sodium backend, the
-- stack's construction and the serial port of QIX, which are input, output and glue. Crypto.cpp only
-- forwards to the backend, whose functions are parameters.
pub mod Base
pub mod Ser
pub mod Wire
pub mod Crc
pub mod Link
pub mod Session
pub mod Handshake
pub mod Certificates
pub mod Layer
pub mod Qix
pub mod Delivery
