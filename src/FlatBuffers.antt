-- ===== src/FlatBuffers.antt =====
-- The FlatBuffers runtime (include/flatbuffers/*.h, a copy of another project) as a parameter: the
-- operations that the generated tables and the peers call, and the documented behaviour that
-- the program relies on. A string, a vector and a buffer are lists of bytes; `Str`, `Vec` and `Table`
-- are pointers into a buffer, and a null pointer is `none`.
mod Defs
mod Laws
pub mod Sample
pub use Defs.*
pub use Laws.*
