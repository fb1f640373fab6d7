-- ===== src/Json/Objects/Optional.antt =====
-- Members that may be absent.
use Prim.Native.String.{String}
use text.Mathlib.Text.{◌==◌}
use d_app_libe.Base.{
  ℕ, ◌≡◌, refl, true, false, if◌then◌else◌, Option, none, some, List, [], ◌∷◌, ◌++◌, Option-cases,
  inl, inr,
}
use d_app_libe.Base.Options.{◌>>=◌}
use d_app_libe.Json.Library.{Json, JsonLaws, WordIf}
use d_app_libe.Json.Objects.{assigned, object, contains-object, at-object}

-- A member that may be absent, as its writer and its reader see it.
abbrev pub member_if : {A J : Type 0} → String → (A → J) → Option A → List (String × J)
member_if k make none = []
member_if k make (some a) = (k, make a) ∷ []

abbrev pub read_if : {A J : Type 0} → (J → Option A) → Option J → Option (Option A)
read_if get none = some none
read_if get (some v) = get v >>= λ a. some (some a)

abbrev pub written_if : {A J : Type 0} → (A → J) → Option A → Option J
written_if make none = none
written_if make (some a) = some (make a)

pub assigned-member_if_same :
    {A J : Type 0} (l : String) (make : A → J) (o : Option A) (ms : List (String × J))
    → (l == l) ≡ true
    → assigned none l (member_if l make o ++ ms) ≡ assigned (written_if make o) l ms
assigned-member_if_same l make none ms same = refl
assigned-member_if_same l make (some a) ms same = rw same

pub assigned-member_if_last :
    {A J : Type 0} (l : String) (make : A → J) (o : Option A)
    → (l == l) ≡ true
    → assigned none l (member_if l make o) ≡ written_if make o
assigned-member_if_last l make none same = refl
assigned-member_if_last l make (some a) same = rw same

pub assigned-member_if_skip :
    {A J : Type 0} {found : Option J} (k l : String) (make : A → J) (o : Option A)
    → (k == l) ≡ false
    → assigned found l (member_if k make o) ≡ found
assigned-member_if_skip k l make none other = refl
assigned-member_if_skip k l make (some a) other = rw other

-- A member that another key writes does not count.
pub assigned-member_if :
    {A J : Type 0} (found : Option J) (k l : String) (make : A → J) (o : Option A)
    (ms : List (String × J))
    → (k == l) ≡ false
    → assigned found l (member_if k make o ++ ms) ≡ assigned found l ms
assigned-member_if found k l make none ms other = refl
assigned-member_if found k l make (some a) ms other = rw other

module _ {J : Type 0} (json : Json J) where
  -- A member that is read under `contains`.
  abbrev pub optional : {A : Type 0} → (J → Option A) → J → String → Option (Option A)
  optional get j k =
      if json.contains j k then get (json.at j k) >>= (λ a. some (some a)) else some none

  module _ (laws : JsonLaws json) (k : String) (v : J) (ms : List (String × J)) (l : String) where
    pub reads_optional :
        {A : Type 0} (get : J → Option A)
        → optional get (object json ((k, v) ∷ ms)) l ≡ read_if get (assigned none l ((k, v) ∷ ms))
    reads_optional get = elim (Option-cases (assigned none l ((k, v) ∷ ms))) [
      | inl none_found ↦ rw (contains-object json laws k v ms l, none_found)
      | inr (w, e) ↦ rw (contains-object json laws k v ms l, e, at-object json laws k v ms l w e)
    ]

  module _ (laws : JsonLaws json) where
    pub read_if-text : (o : Option String) → read_if json.get_text (written_if json.text o) ≡ some o
    read_if-text none = refl
    read_if-text (some s) = rw (laws.get_text_text s)

    pub read_if-uint32 :
        (o : Option ℕ) → WordIf o → read_if json.get_uint32 (written_if json.uint o) ≡ some o
    read_if-uint32 none w = refl
    read_if-uint32 (some n) w = rw (laws.get_uint32_uint n w)
