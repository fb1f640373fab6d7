-- ===== src/Encoder.antt =====
-- include/libe3/e3_encoder.hpp and src/encoder/e3_encoder.cpp: what an encoder returns, and the
-- PDUs that the convenience methods build and encode.
pub mod Results
pub mod Build
pub use Results.*
