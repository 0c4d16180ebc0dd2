-- ===== src/Bytes.antt =====
-- Byte slices, and encoding/binary's numbers in big-endian and in the machine's byte order.
mod BigEndian
mod NativeEndian
pub use BigEndian.{
  Bytes, IsByte, IsBytes, length-put_be, put_be-IsBytes, be-put_be, be-put_be_fits, be-lt,
  put_be-be,
}
unfoldable pub use BigEndian.{put_be, be}
pub use NativeEndian.{ByteOrder, little, big, length-put_ne, ne-put_ne_fits}
unfoldable pub use NativeEndian.{put_ne, ne, put_le, le}
