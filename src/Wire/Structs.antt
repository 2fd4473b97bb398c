-- ===== src/Wire/Structs.antt =====
-- The structs that messages and files are made of.
pub mod Handshake
pub mod HandshakeFormat
pub mod Certificates
pub mod CertificatesFormat
pub mod RoundTrip
