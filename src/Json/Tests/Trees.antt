-- ===== src/Json/Tests/Trees.antt =====
-- Documents as trees, written with a number for each kind of node in front.
use Prim.Native.String
use Prim.Native.Char.{code}
use package.text.Mathlib.Text.{◌==◌}
use d_app_libe.Base.{
  ℕ, zero, suc, ◌+◌, ◌<◌, ◌≡◌, refl, sym, Bool, false, ◌||◌, if◌then◌else◌, Option, none, some,
  List, [], ◌∷◌, arith,
}
use d_app_libe.Base.Options.{◌>>=◌}
use d_app_libe.Json.Library.{Json, JsonLaws, or_default}
use d_app_libe.Json.Tests.Scalars.{from_code, from_code-code}

pub data Tree : Type 0 where
  null nil : Tree
  text : String.String → Tree
  uint : ℕ → Tree
  uints : List ℕ → Tree
  cons : Tree → Tree → Tree
  member : String.String → Tree → Tree → Tree

-- Texts and lists, ended by 0.
abbrev write_text : String.String → List ℕ → List ℕ
write_text String.[] rest = 0 ∷ rest
write_text (String.◌∷◌ c s) rest = suc (code c) ∷ write_text s rest

abbrev read_text : List ℕ → Option (String.String × List ℕ)
read_text [] = none
read_text (zero ∷ rest) = some (String.[], rest)
read_text (suc n ∷ rest) =
    from_code n >>= λ c. read_text rest >>= λ (s, r). some (String.◌∷◌ c s, r)

read_text-write_text :
    (s : String.String) (rest : List ℕ) → read_text (write_text s rest) ≡ some (s, rest)
read_text-write_text String.[] rest = refl
read_text-write_text (String.◌∷◌ c s) rest = rw (from_code-code c, read_text-write_text s rest)

abbrev write_uints : List ℕ → List ℕ → List ℕ
write_uints [] rest = 0 ∷ rest
write_uints (n ∷ ns) rest = suc n ∷ write_uints ns rest

abbrev read_uints : List ℕ → Option (List ℕ × List ℕ)
read_uints [] = none
read_uints (zero ∷ rest) = some ([], rest)
read_uints (suc n ∷ rest) = read_uints rest >>= λ (ns, r). some (n ∷ ns, r)

read_uints-write_uints : (ns rest : List ℕ) → read_uints (write_uints ns rest) ≡ some (ns, rest)
read_uints-write_uints [] rest = refl
read_uints-write_uints (n ∷ ns) rest = rw (read_uints-write_uints ns rest)

abbrev size : Tree → ℕ
size null = 0
size nil = 0
size (text s) = 0
size (uint n) = 0
size (uints ns) = 0
size (cons a b) = suc (size a + size b)
size (member k v r) = suc (size v + size r)

abbrev write : Tree → List ℕ → List ℕ
write null rest = 0 ∷ rest
write nil rest = 1 ∷ rest
write (text s) rest = 2 ∷ write_text s rest
write (uint n) rest = 3 ∷ n ∷ rest
write (uints ns) rest = 4 ∷ write_uints ns rest
write (cons a b) rest = 5 ∷ write a (write b rest)
write (member k v r) rest = 6 ∷ write_text k (write v (write r rest))

pub data Kind : Type 0 where
  nulls nils texts numbers lists conses members : Kind

-- What the number in front stands for.
abbrev kind_of : ℕ → Kind
kind_of zero = nulls
kind_of (suc zero) = nils
kind_of (suc (suc zero)) = texts
kind_of (suc (suc (suc zero))) = numbers
kind_of (suc (suc (suc (suc zero)))) = lists
kind_of (suc (suc (suc (suc (suc zero))))) = conses
kind_of (suc (suc (suc (suc (suc (suc n)))))) = members

abbrev read_number : List ℕ → Option (Tree × List ℕ)
read_number [] = none
read_number (n ∷ rest) = some (uint n, rest)

abbrev read : ℕ → List ℕ → Option (Tree × List ℕ)
read zero bs = none
read (suc f) [] = none
read (suc f) (n ∷ rest) = elim (kind_of n) [
  | nulls ↦ some (null, rest)
  | nils ↦ some (nil, rest)
  | texts ↦ read_text rest >>= λ (s, r). some (text s, r)
  | numbers ↦ read_number rest
  | lists ↦ read_uints rest >>= λ (ns, r). some (uints ns, r)
  | conses ↦ read f rest >>= λ (a, r). read f r >>= λ (b, r'). some (cons a b, r')
  | members ↦ read_text rest >>= λ (k, r).
      read f r >>= λ (v, r'). read f r' >>= λ (t, r''). some (member k v t, r'')
]

read-write :
    (t : Tree) (f : ℕ) (rest : List ℕ) → size t < f → read f (write t rest) ≡ some (t, rest)
read-write t zero rest h = absurd (omega arith)
read-write null (suc f) rest h = refl
read-write nil (suc f) rest h = refl
read-write (text s) (suc f) rest h = rw (read_text-write_text s rest)
read-write (uint n) (suc f) rest h = refl
read-write (uints ns) (suc f) rest h = rw (read_uints-write_uints ns rest)
read-write (cons a b) (suc f) rest h =
    rw (read-write a f (write b rest) (omega arith), read-write b f rest (omega arith))
read-write (member k v r) (suc f) rest h = rw (
  read_text-write_text k (write v (write r rest)),
  read-write v f (write r rest) (omega arith),
  read-write r f rest (omega arith),
)

-- A document, by its members.
abbrev present : Tree → String.String → Bool
present null l = false
present nil l = false
present (text s) l = false
present (uint n) l = false
present (uints ns) l = false
present (cons a b) l = false
present (member k v r) l = k == l || present r l

abbrev member_at : Tree → String.String → Tree
member_at null l = null
member_at nil l = null
member_at (text s) l = null
member_at (uint n) l = null
member_at (uints ns) l = null
member_at (cons a b) l = null
member_at (member k v r) l = if k == l then v else member_at r l

abbrev array_of : List Tree → Tree
array_of [] = nil
array_of (t ∷ ts) = cons t (array_of ts)

abbrev items_of : Tree → List Tree
items_of (cons a b) = a ∷ items_of b
items_of t = []

items_of-array_of : (ts : List Tree) → items_of (array_of ts) ≡ ts
items_of-array_of [] = refl
items_of-array_of (t ∷ ts) = rw (items_of-array_of ts)

abbrev text_of : Tree → Option String.String
text_of (text s) = some s
text_of t = none

abbrev number_of : Tree → Option ℕ
number_of (uint n) = some n
number_of t = none

abbrev list_of : Tree → Option (List ℕ)
list_of (uints ns) = some ns
list_of t = none

abbrev whole : Option (Tree × List ℕ) → Option Tree
whole none = none
whole (some (t, rest)) = some t

abbrev parse_tree : List ℕ → Option Tree
parse_tree [] = none
parse_tree (n ∷ rest) = whole (read n rest)

abbrev pub trees : Json Tree
trees = record {
  null = null;
  set = λ j k v. member k v j;
  text = text;
  uint = uint;
  uints = uints;
  array = array_of;
  contains = present;
  at = member_at;
  items = items_of;
  get_text = text_of;
  get_uint32 = number_of;
  get_uint64 = number_of;
  get_uints = list_of;
  value_text = λ j k d. or_default (present j k) (text_of (member_at j k)) d;
  value_uint32 = λ j k d. or_default (present j k) (number_of (member_at j k)) d;
  value_uint64 = λ j k d. or_default (present j k) (number_of (member_at j k)) d;
  value_uints = λ j k d. or_default (present j k) (list_of (member_at j k)) d;
  dump = λ j. some (suc (size j) ∷ write j []);
  parse = parse_tree;
}

parse_tree-write : (j : Tree) → parse_tree (suc (size j) ∷ write j []) ≡ some j
parse_tree-write j = rw (read-write j (suc (size j)) [] (omega arith))

parse_tree-dump :
    (j : Tree) (b : List ℕ) → some (suc (size j) ∷ write j []) ≡ some b → parse_tree b ≡ some j
parse_tree-dump j b e =
    let same : suc (size j) ∷ write j [] ≡ b = cc in rw (sym same) (parse_tree-write j)

pub trees-JsonLaws : JsonLaws trees
trees-JsonLaws = record {
  IsObject = λ j. Unit;
  IsWritable = λ j. Unit;
  null_writable = tt;
  set_object = λ j v k w. tt;
  object_writable = λ j w. tt;
  contains_null = λ k. refl;
  contains_set = λ j v k l w. refl;
  at_set = λ j v k l w. refl;
  items_array = items_of-array_of;
  get_text_text = λ s. refl;
  get_uint32_uint = λ n h. refl;
  get_uint64_uint = λ n h. refl;
  get_uints_uints = λ ns h. refl;
  value_text_object = λ j k d o. refl;
  value_uint32_object = λ j k d o. refl;
  value_uint64_object = λ j k d o. refl;
  value_uints_object = λ j k d o. refl;
  IsDumpable = λ j. Unit;
  null_dumpable = tt;
  text_dumpable = λ s. tt;
  uint_dumpable = λ n. tt;
  uints_dumpable = λ ns. tt;
  array_dumpable = λ js h. tt;
  set_dumpable = λ j v k w d e. tt;
  dump_dumpable = λ j d. (suc (size j), write j [], refl);
  parse_dump = λ j b e. parse_tree-dump j b e;
}
