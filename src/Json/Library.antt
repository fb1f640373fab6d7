-- ===== src/Json/Library.antt =====
-- What the encoder uses of the JSON library, which is not part of the repository, and what its
-- documentation says of it. `none` is an exception.
use Prim.Native.String.{String}
use text.Mathlib.Text.{◌==◌}
use d_app_libe.Base.{
  ℕ, ◌<◌, ◌^◌, ◌≡◌, Bool, false, ◌||◌, if◌then◌else◌, Option, none, some, List, [], ◌∷◌,
}

-- `set j k v` is the document `j` after `j[k] = v`, `at j k` reads `j[k]`, and `items` is what a
-- range-for loop visits. A document that was default-constructed is `null`.
pub record Json (J : Type 0) : Type 0 where
  pub null : J
  pub set : J → String → J → J
  pub text : String → J
  pub uint : ℕ → J
  pub uints : List ℕ → J
  pub array : List J → J
  pub contains : J → String → Bool
  pub at : J → String → J
  pub items : J → List J
  pub get_text : J → Option String
  pub get_uint32 : J → Option ℕ
  pub get_uint64 : J → Option ℕ
  pub get_uints : J → Option (List ℕ)
  pub value_text : J → String → String → Option String
  pub value_uint32 : J → String → ℕ → Option ℕ
  pub value_uint64 : J → String → ℕ → Option ℕ
  pub value_uints : J → String → List ℕ → Option (List ℕ)
  pub dump : J → Option (List ℕ)
  pub parse : List ℕ → Option J

-- Numbers of 32 bits, and one that may be absent.
abbrev pub Words : List ℕ → Type 0
Words [] = Unit
Words (n ∷ ns) = (n < 2 ^ 32) × Words ns

abbrev pub WordIf : Option ℕ → Type 0
WordIf none = Unit
WordIf (some n) = n < 2 ^ 32

abbrev pub Each {ℓ} : {A : Type ℓ} → (A → Type 0) → List A → Type 0
Each P [] = Unit
Each P (a ∷ rest) = P a × Each P rest

-- `j.value(k, d)`, by what `contains` and `at` say.
abbrev pub or_default : {A : Type 0} → Bool → Option A → A → Option A
or_default present found d = if present then found else some d

pub record JsonLaws {J : Type 0} (json : Json J) : Type 1 where
  -- Documents that are objects, and those that a member can be written to.
  pub IsObject : J → Type 0
  pub IsWritable : J → Type 0
  pub null_writable : IsWritable json.null
  pub set_object : (j v : J) (k : String) → IsWritable j → IsObject (json.set j k v)
  pub object_writable : (j : J) → IsObject j → IsWritable j
  pub contains_null : (k : String) → json.contains json.null k ≡ false
  pub contains_set :
      (j v : J) (k l : String)
      → IsWritable j
      → json.contains (json.set j k v) l ≡ (k == l || json.contains j l)
  pub at_set :
      (j v : J) (k l : String)
      → IsWritable j
      → json.at (json.set j k v) l ≡ (if k == l then v else json.at j l)
  pub items_array : (js : List J) → json.items (json.array js) ≡ js
  pub get_text_text : (s : String) → json.get_text (json.text s) ≡ some s
  pub get_uint32_uint : (n : ℕ) → n < 2 ^ 32 → json.get_uint32 (json.uint n) ≡ some n
  pub get_uint64_uint : (n : ℕ) → n < 2 ^ 64 → json.get_uint64 (json.uint n) ≡ some n
  pub get_uints_uints : (ns : List ℕ) → Words ns → json.get_uints (json.uints ns) ≡ some ns
  pub value_text_object :
      (j : J) (k d : String)
      → IsObject j
      → json.value_text j k d ≡ or_default (json.contains j k) (json.get_text (json.at j k)) d
  pub value_uint32_object :
      (j : J) (k : String) (d : ℕ)
      → IsObject j
      → json.value_uint32 j k d ≡ or_default (json.contains j k) (json.get_uint32 (json.at j k)) d
  pub value_uint64_object :
      (j : J) (k : String) (d : ℕ)
      → IsObject j
      → json.value_uint64 j k d ≡ or_default (json.contains j k) (json.get_uint64 (json.at j k)) d
  pub value_uints_object :
      (j : J) (k : String) (d : List ℕ)
      → IsObject j
      → json.value_uints j k d ≡ or_default (json.contains j k) (json.get_uints (json.at j k)) d
  -- The documents that can be written: only a text that is not UTF-8 is an exception. They are never
  -- empty, and what was written is read back.
  pub IsDumpable : J → Type 0
  pub null_dumpable : IsDumpable json.null
  pub text_dumpable : (s : String) → IsDumpable (json.text s)
  pub uint_dumpable : (n : ℕ) → IsDumpable (json.uint n)
  pub uints_dumpable : (ns : List ℕ) → IsDumpable (json.uints ns)
  pub array_dumpable : (js : List J) → Each IsDumpable js → IsDumpable (json.array js)
  pub set_dumpable :
      (j v : J) (k : String)
      → IsWritable j
      → IsDumpable j
      → IsDumpable v
      → IsDumpable (json.set j k v)
  pub dump_dumpable :
      (j : J) → IsDumpable j → (b : ℕ) × (bs : List ℕ) × (json.dump j ≡ some (b ∷ bs))
  pub parse_dump : (j : J) (b : List ℕ) → json.dump j ≡ some b → json.parse b ≡ some j
