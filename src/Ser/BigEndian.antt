-- ===== src/Ser/BigEndian.antt =====
-- Codecs that meet the laws of `Ser4cpp`.
use ssp21_cpp.Base.{refl}
use ssp21_cpp.Ser.{
  Ser4cpp, from_be8, from_be16, from_be32, from_be64, fill, fill?, be8, be16, be32, be64,
}

instance abbrev pub big_endian : Ser4cpp
big_endian = record {
  read_u8 = from_be8;
  read_u16 = from_be16;
  read_u32 = from_be32;
  read_u64 = from_be64;
  put = λ v w. fill? w (be8 v);
  write_u8 = λ v w. fill? w (be8 v);
  write_u16 = λ v w. fill? w (be16 v);
  write_u32 = λ v w. fill? w (be32 v);
  write_u64 = λ v w. fill? w (be64 v);
  copy_from = λ s w. fill w s;
  read_u8_lem = λ s. refl;
  read_u16_lem = λ s. refl;
  read_u32_lem = λ s. refl;
  read_u64_lem = λ s. refl;
  put_lem = λ v w. refl;
  write_u8_lem = λ v w. refl;
  write_u16_lem = λ v w. refl;
  write_u32_lem = λ v w. refl;
  write_u64_lem = λ v w. refl;
  copy_from_lem = λ s w h. refl;
}
