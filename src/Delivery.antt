-- ===== src/Delivery.antt =====
-- From one session to the other (cpp/libs/ssp21/src): what Session.cpp formats, the link layer's frame
-- writer puts into a frame; its payload is parsed, and Session.cpp validates the message on the
-- other side. Both use the mode that authenticates only, under the MAC of the backend.
pub mod Message
pub mod Sent
pub mod Once
pub mod Stream
pub mod Layers
mod Tests
