-- ===== src/Json.antt =====
-- The values that `json.load` and `json.loads` return, and what Python does with them. JSON text
-- itself is read and written by the standard library, so a document is a value here.
mod Defs
mod Dict
mod Number
mod Access
pub mod Laws
unfoldable pub use Defs.*
unfoldable pub use Dict.*
unfoldable pub use Number.*
unfoldable pub use Access.*
