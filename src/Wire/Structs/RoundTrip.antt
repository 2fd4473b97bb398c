-- ===== src/Wire/Structs/RoundTrip.antt =====
-- Certificates and chains of certificates are read back as they were written.
use ssp21_cpp.Base.{◌≤◌, ◌≡◌, Bytes, IsByte, All, ◌++◌}
use ssp21_cpp.Ser.{Ser4cpp, WSeq, fill}
use ssp21_cpp.Wire.{FormatError, Parsed}
use ssp21_cpp.Wire.Structs.Certificates.{
  CertificateBody, certificate_body_field, CertificateChain, certificate_chain_field,
}
use ssp21_cpp.Wire.Structs.CertificatesFormat.{
  IsCertificateBody, certificate_body_bytes, certificate_body_field-IsCodec, IsCertificateChain,
  certificate_chain_bytes, certificate_chain_field-IsCodec,
}

module _ ⦃ser : Ser4cpp⦄ where
  -- The body of a certificate, with its fields in range and at most five extensions, is written
  -- without an error into a view that its size fits, exactly as its bytes, and is read back from
  -- them whatever follows.
  pub certificate_body_read-write :
      (m : CertificateBody) (w : WSeq) (rest : Bytes)
      → IsCertificateBody m
      → certificate_body_field.size m ≤ w.space
      → (certificate_body_field.write m w ≡ (FormatError.ok, fill w (certificate_body_bytes m)))
        × (certificate_body_field.read (certificate_body_bytes m ++ rest) ≡ Parsed.ok (m, rest))
  certificate_body_read-write m w rest h room = (
    certificate_body_field-IsCodec.fits m w h
        (rw (← certificate_body_field-IsCodec.sized m h) room),
    certificate_body_field-IsCodec.reads m rest h,
  )

  -- A chain of at most six certificates, with its fields in range, is written without an error into
  -- a view that its size fits, exactly as its bytes, and is read back from them whatever follows.
  pub certificate_chain_read-write :
      (m : CertificateChain) (w : WSeq) (rest : Bytes)
      → IsCertificateChain m
      → certificate_chain_field.size m ≤ w.space
      → (certificate_chain_field.write m w ≡ (FormatError.ok, fill w (certificate_chain_bytes m)))
        × (certificate_chain_field.read (certificate_chain_bytes m ++ rest) ≡ Parsed.ok (m, rest))
  certificate_chain_read-write m w rest h room = (
    certificate_chain_field-IsCodec.fits m w h
        (rw (← certificate_chain_field-IsCodec.sized m h) room),
    certificate_chain_field-IsCodec.reads m rest h,
  )

  -- What is read as a chain from bytes is a chain of at most six certificates with its fields in
  -- range, and the bytes that were read are those that it is written as.
  pub certificate_chain_read_sound :
      (s : Bytes) (m : CertificateChain) (rest : Bytes)
      → All IsByte s
      → certificate_chain_field.read s ≡ Parsed.ok (m, rest)
      → IsCertificateChain m × (s ≡ certificate_chain_bytes m ++ rest)
  certificate_chain_read_sound s m rest h e = certificate_chain_field-IsCodec.sound s m rest h e
