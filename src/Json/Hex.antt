-- ===== src/Json/Hex.antt =====
-- binary_to_hex and hex_to_binary. A std::string is a text, an octet a number.
use Prim.Native.Char.{Char, code}
use Prim.Native.String
use d_app_libe.Base.{
  ℕ, zero, suc, ◌+◌, ◌-◌, ◌*◌, ◌/◌, ◌%◌, ◌<◌, ◌≡◌, refl, Bool, true, false, ◌&&◌, ◌||◌,
  if◌then◌else◌, leb, ltb, ◌==◌, Option, none, some, List, [], ◌∷◌, ◌++◌, arith,
}

abbrev pub Octets : List ℕ → Type 0
Octets [] = Unit
Octets (b ∷ bs) = (b < 256) × Octets bs

-- A digit of `std::hex`, in lower case.
unfoldable pub hex_digit : ℕ → Char
hex_digit n = String.char_at "0123456789abcdef" n

-- `std::setw(2)` with the fill `'0'`: an octet has two digits.
unfoldable pub binary_to_hex : List ℕ → String.String
unfolding hex_digit
binary_to_hex [] = String.[]
binary_to_hex (b ∷ bs) =
    String.◌∷◌ (hex_digit (b / 16)) (String.◌∷◌ (hex_digit (b % 16)) (binary_to_hex bs))

-- The `char`s of a character in a std::string, its UTF-8.
unfoldable pub utf8 : ℕ → List ℕ
utf8 n =
    if ltb n 128
    then n ∷ []
    else if ltb n 2048
    then (192 + n / 64) ∷ (128 + n % 64) ∷ []
    else if ltb n 65536
    then (224 + n / 4096) ∷ (128 + n / 64 % 64) ∷ (128 + n % 64) ∷ []
    else (240 + n / 262144) ∷ (128 + n / 4096 % 64) ∷ (128 + n / 64 % 64) ∷ (128 + n % 64) ∷ []

unfoldable pub chars_of : String.String → List ℕ
unfolding utf8
chars_of String.[] = []
chars_of (String.◌∷◌ c s) = utf8 (code c) ++ chars_of s

-- A hexadecimal digit, of either case.
unfoldable pub digit_value : ℕ → Option ℕ
digit_value n =
    if leb b'0' n && leb n b'9'
    then some (n - b'0')
    else if leb b'a' n && leb n b'f'
    then some (n - b'a' + 10)
    else if leb b'A' n && leb n b'F'
    then some (n - b'A' + 10)
    else none

-- The white space that strtol skips.
unfoldable pub is_space : ℕ → Bool
is_space n = n == 32 || (leb 9 n && leb n 13)

-- `static_cast<uint8_t>(std::stoi(s, nullptr, 16))` of two `char`s; `none` is an exception. What
-- follows the digits is not looked at; a sign, or white space, may stand in front.
unfoldable pub stoi_octet : ℕ → ℕ → Option ℕ
unfolding digit_value is_space
stoi_octet c d = elim (digit_value c) [
  | some x ↦ elim (digit_value d) [ some y ↦ some (x * 16 + y) | none ↦ some x ]
  | none ↦
      if is_space c || c == b'+'
      then digit_value d
      else if c == b'-'
      then elim (digit_value d) [ some y ↦ some ((256 - y) % 256) | none ↦ none ]
      else none
]

-- A last `char` without a partner is dropped.
unfoldable pub octet_pairs : List ℕ → Option (List ℕ)
unfolding stoi_octet
octet_pairs (c ∷ d ∷ s) = elim (stoi_octet c d) [
  | none ↦ none
  | some b ↦ elim (octet_pairs s) [ none ↦ none | some bs ↦ some (b ∷ bs) ]
]
octet_pairs s = some []

unfoldable pub hex_to_binary : String.String → Option (List ℕ)
unfolding octet_pairs chars_of
hex_to_binary s = octet_pairs (chars_of s)

-- A test that every number up to a bound passes.
passes : (ℕ → Bool) → ℕ → Bool
passes test zero = true
passes test (suc top) = let lower = passes test top in if test top then lower else false

passes-at : (test : ℕ → Bool) (bound b : ℕ) → b < bound → passes test bound ≡ true → test b ≡ true
unfolding passes
passes-at test zero b below all = absurd (omega arith)
passes-at test (suc top) b below all = ground (arith, passes-at test top b)

abbrev is_octet : Option ℕ → ℕ → Bool
is_octet none b = false
is_octet (some a) b = a == b

is_octet_sound : (o : Option ℕ) (b : ℕ) → is_octet o b ≡ true → o ≡ some b
is_octet_sound none b h = cc
is_octet_sound (some a) b h = ground arith

abbrev hex_code : ℕ → ℕ
unfolding hex_digit
hex_code n = code (hex_digit n)

abbrev reads_back : ℕ → Bool
unfolding stoi_octet hex_digit
reads_back b = is_octet (stoi_octet (hex_code (b / 16)) (hex_code (b % 16))) b

every_octet-reads_back : passes reads_back 256 ≡ true
unfolding passes stoi_octet hex_digit
every_octet-reads_back = refl

every_digit_is_short : passes (λ n. ltb (hex_code n) 128) 16 ≡ true
unfolding passes hex_digit
every_digit_is_short = refl

stoi_octet-hex_code :
    (b : ℕ) → b < 256 → stoi_octet (hex_code (b / 16)) (hex_code (b % 16)) ≡ some b
unfolding stoi_octet hex_digit
stoi_octet-hex_code b h = is_octet_sound _ b (passes-at reads_back 256 b h every_octet-reads_back)

utf8-hex_code : (n : ℕ) → n < 16 → utf8 (hex_code n) ≡ hex_code n ∷ []
unfolding utf8
utf8-hex_code n h =
    let short : ltb (hex_code n) 128 ≡ true =
      passes-at (λ k. ltb (hex_code k) 128) 16 n h every_digit_is_short in
    rw (utf8, short)

-- Octets written in hexadecimal are read back.
pub hex_to_binary-binary_to_hex :
    (bs : List ℕ) → Octets bs → hex_to_binary (binary_to_hex bs) ≡ some bs
unfolding hex_to_binary chars_of octet_pairs binary_to_hex
hex_to_binary-binary_to_hex [] h = refl
hex_to_binary-binary_to_hex (b ∷ bs) (below, h) =
    let high = utf8-hex_code (b / 16) (omega arith) in
    let low = utf8-hex_code (b % 16) (omega arith) in
    rw (
      hex_to_binary,
      chars_of,
      high,
      low,
      octet_pairs,
      stoi_octet-hex_code b below,
      hex_to_binary-binary_to_hex bs h,
    )
