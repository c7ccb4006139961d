-- ===== src/FlatBuffers/Sample.antt =====
-- A runtime that has the documented behaviour, with a simple encoding of its own. The examples run on it.
mod Codec
mod Runtime
mod Laws
unfoldable pub use Codec.{encode, decode}
unfoldable pub use Runtime.{
  sample, store, add, added, fields_of, number_or, pointed, has_width, is_pointer, is_some,
  is_decoded,
}
pub use Laws.{sample-laws}
