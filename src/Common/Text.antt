-- ===== src/Common/Text.antt =====
-- Texts as lists of bytes, and the functions of Go's strings and bytes packages that the program
-- uses.
pub mod Search
pub mod Decimal
pub mod Replace
pub mod Trim
pub mod Order
pub mod Shape
unfoldable pub use Search.*
unfoldable pub use Decimal.*
unfoldable pub use Replace.*
unfoldable pub use Trim.*
unfoldable pub use Order.*
unfoldable pub use Shape.*
