-- ===== src/Runtime.antt =====
-- What the program uses of Go's run time: a run that ends the process, an `io.Reader` over the
-- bytes that are left, the byte order functions of encoding/binary, and strconv.
pub mod Outcome
mod Input
pub mod Bufio
pub mod Emit
pub mod Strconv
pub mod Strings
pub mod Decimal
pub mod Words
pub use Outcome.{Fault, Result, ok, panic, Result-cases}
pub use Outcome.{eof, negative_length, out_of_range, illegal_length, unknown_encoding, bad_size}
pub use Outcome.{
  bad_end, bad_format, bad_number, unknown_type, unsupported, closed_channel, out_of_fuel,
}
pub use Input.{Bytes, Read, ◌>>=◌, ◌>>◌, pure, fail, lift, continue, value, inner}
unfoldable pub use Input.{collect, read_full, make}
pub use Input.{bind_assoc, read_full-append, read_full-ok}
