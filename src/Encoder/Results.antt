-- ===== src/Encoder/Results.antt =====
-- EncodeResult and EncodedMessage.
use d_app_libe.Base.{ℕ, List}
use d_app_libe.Types.{ErrorCode, EncodingFormat}

-- `tl::expected<T, ErrorCode>`.
pub data EncodeResult {ℓ} (A : Type ℓ) : Type ℓ where
  expected : A → EncodeResult A
  unexpected : ErrorCode → EncodeResult A

pub record EncodedMessage : Type 0 where
  pub buffer : List ℕ
  pub format : EncodingFormat
