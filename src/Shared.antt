-- ===== src/Shared.antt =====
-- packages/shared: the enumerations and the models that every part of the program uses.
mod Enums
mod Models
mod Dedup
pub use Enums.*
pub use Models.*
pub use Dedup.{Hashing, Formatting, Part, text, number}
unfoldable pub use Dedup.{dedup_hash, dedup_hash_of}
