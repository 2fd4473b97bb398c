-- ===== src/Crc/Tests.antt =====
-- An entry of the table.
use ssp21_cpp.Base.{◌≡◌, ◌*◌, ◌^◌, get_or, arith}
use ssp21_cpp.Crc.{table}
use ssp21_cpp.Crc.Table.{divide_bits, table-divide_bits}

table-divide_bits_example : get_or table 200 0 ≡ divide_bits 8 (200 * 2 ^ 24)
table-divide_bits_example = table-divide_bits 200 (omega arith)
