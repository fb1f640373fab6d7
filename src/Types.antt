-- ===== src/Types.antt =====
-- include/libe3/types.hpp and include/libe3/error_codes.h: the protocol's enumerations and
-- messages. Unsigned integers and bytes are numbers, strings are texts.
pub mod Codes
pub mod Messages
pub mod Names
pub mod Config
pub use Codes.*
unfoldable pub use Messages.*
