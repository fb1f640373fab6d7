-- ===== src/Json/Objects.antt =====
-- Documents that are written member by member, and what is read from them.
pub mod Optional
use Prim.Native.String.{String}
use text.Mathlib.Text.{◌==◌}
use d_app_libe.Base.{
  ℕ, ◌<◌, ◌^◌, ◌≡◌, refl, sym, ap, ◌∙◌, true, false, if◌then◌else◌, Option, none, some, List, [],
  ◌∷◌, ◌++◌, Option-is_some, Bool-cases, Option-cases, inl, inr,
}
use d_app_libe.Base.Options.{◌>>=◌}
use d_app_libe.Json.Library.{Json, JsonLaws, Words, WordIf, or_default}

-- `j.value(k, d)`, by the member under the key.
abbrev pub member_or : {J A : Type 0} → (J → Option A) → Option J → A → Option A
member_or get none d = some d
member_or get (some v) d = get v

-- The member that a sequence of assignments leaves under a key.
abbrev pub assigned : {J : Type 0} → Option J → String → List (String × J) → Option J
assigned found l [] = found
assigned found l ((k, v) ∷ ms) = assigned (if k == l then some v else found) l ms

abbrev pub EachMember : {J : Type 0} → (J → Type 0) → List (String × J) → Type 0
EachMember P [] = Unit
EachMember P ((k, v) ∷ ms) = P v × EachMember P ms

module _ {J : Type 0} (json : Json J) where
  -- `j[k1] = v1; j[k2] = v2; ...`
  unfoldable pub assign : J → List (String × J) → J
  assign j [] = j
  assign j ((k, v) ∷ ms) = assign (json.set j k v) ms

  -- The same on a new document.
  unfoldable pub object : List (String × J) → J
  unfolding assign
  object ms = assign json.null ms

  module _ (laws : JsonLaws json) where
    found_in : J → String → Option J
    found_in j l = if json.contains j l then some (json.at j l) else none

    found_in-set :
        (j v : J) (k l : String)
        → laws.IsWritable j
        → found_in (json.set j k v) l ≡ (if k == l then some v else found_in j l)
    unfolding found_in
    found_in-set j v k l w = elim (Bool-cases (k == l)) [
      | inl same ↦ rw (laws.contains_set j v k l w, laws.at_set j v k l w, same)
      | inr other ↦ rw (laws.contains_set j v k l w, laws.at_set j v k l w, other)
    ]

    found_in-assign :
        (j : J) (l : String) (ms : List (String × J))
        → laws.IsWritable j
        → found_in (assign j ms) l ≡ assigned (found_in j l) l ms
    unfolding assign
    found_in-assign j l [] w = refl
    found_in-assign j l ((k, v) ∷ ms) w =
        found_in-assign (json.set j k v) l ms (laws.object_writable _ (laws.set_object j v k w))
        ∙ ap (λ o. assigned o l ms) (found_in-set j v k l w)

    assign-IsObject :
        (j : J) (ms : List (String × J)) → laws.IsObject j → laws.IsObject (assign j ms)
    unfolding assign
    assign-IsObject j [] w = w
    assign-IsObject j ((k, v) ∷ ms) w =
        assign-IsObject (json.set j k v) ms (laws.set_object j v k (laws.object_writable j w))

    object-IsObject :
        (k : String) (v : J) (ms : List (String × J)) → laws.IsObject (object ((k, v) ∷ ms))
    unfolding object assign
    object-IsObject k v ms =
        assign-IsObject (json.set json.null k v) ms
          (laws.set_object json.null v k laws.null_writable)

    found_in-object :
        (l : String) (ms : List (String × J)) → found_in (object ms) l ≡ assigned none l ms
    unfolding object found_in
    found_in-object l ms =
        found_in-assign json.null l ms laws.null_writable
        ∙ ap (λ o. assigned o l ms) (rw (laws.contains_null l))

    value_found :
        {A : Type 0} (get : J → Option A) (j : J) (l : String) (d : A)
        → or_default (json.contains j l) (get (json.at j l)) d ≡ member_or get (found_in j l) d
    unfolding found_in
    value_found get j l d = elim (Bool-cases (json.contains j l)) [
      | inl present ↦ rw present
      | inr absent ↦ rw absent
    ]

    assign-IsDumpable :
        (j : J) (ms : List (String × J))
        → laws.IsWritable j
        → laws.IsDumpable j
        → EachMember laws.IsDumpable ms
        → laws.IsDumpable (assign j ms)
    unfolding assign
    assign-IsDumpable j [] w d ds = d
    assign-IsDumpable j ((k, v) ∷ ms) w d ds =
        assign-IsDumpable (json.set j k v) ms (laws.object_writable _ (laws.set_object j v k w))
          (laws.set_dumpable j v k w d ds.0) ds.1

    pub object-IsDumpable :
        (ms : List (String × J)) → EachMember laws.IsDumpable ms → laws.IsDumpable (object ms)
    unfolding object
    object-IsDumpable ms ds =
        assign-IsDumpable json.null ms laws.null_writable laws.null_dumpable ds

    -- The reads from a document that was written by assignments.
    module _ (k : String) (v : J) (ms : List (String × J)) (l : String) where
      abbrev written : J
      written = object ((k, v) ∷ ms)

      value_object :
          {A : Type 0} (get : J → Option A) (d : A)
          → or_default (json.contains written l) (get (json.at written l)) d
            ≡ member_or get (assigned none l ((k, v) ∷ ms)) d
      value_object get d =
          value_found get written l d
          ∙ ap (λ o. member_or get o d) (found_in-object l ((k, v) ∷ ms))

      pub value_text-object :
          (d : String)
          → json.value_text written l d ≡ member_or json.get_text (assigned none l ((k, v) ∷ ms)) d
      value_text-object d =
          laws.value_text_object written l d (object-IsObject k v ms) ∙ value_object json.get_text d

      pub value_uint32-object :
          (d : ℕ)
          → json.value_uint32 written l d
            ≡ member_or json.get_uint32 (assigned none l ((k, v) ∷ ms)) d
      value_uint32-object d =
          laws.value_uint32_object written l d (object-IsObject k v ms)
          ∙ value_object json.get_uint32 d

      pub value_uint64-object :
          (d : ℕ)
          → json.value_uint64 written l d
            ≡ member_or json.get_uint64 (assigned none l ((k, v) ∷ ms)) d
      value_uint64-object d =
          laws.value_uint64_object written l d (object-IsObject k v ms)
          ∙ value_object json.get_uint64 d

      pub value_uints-object :
          (d : List ℕ)
          → json.value_uints written l d
            ≡ member_or json.get_uints (assigned none l ((k, v) ∷ ms)) d
      value_uints-object d =
          laws.value_uints_object written l d (object-IsObject k v ms)
          ∙ value_object json.get_uints d

      is_some_found : (j : J) → Option-is_some (found_in j l) ≡ json.contains j l
      unfolding found_in
      is_some_found j = elim (Bool-cases (json.contains j l)) [
        | inl present ↦ rw present
        | inr absent ↦ rw absent
      ]

      pub contains-object : json.contains written l ≡ Option-is_some (assigned none l ((k, v) ∷ ms))
      contains-object =
          sym (is_some_found written) ∙ ap Option-is_some (found_in-object l ((k, v) ∷ ms))

      at_found : (j w : J) → found_in j l ≡ some w → json.at j l ≡ w
      unfolding found_in
      at_found j w e = elim (Bool-cases (json.contains j l)) [
        | inl present ↦ let same : some (json.at j l) ≡ some w = rw present at e in cc
        | inr absent ↦ let clash : none ≡ some w = rw absent at e in cc
      ]

      pub at-object : (w : J) → assigned none l ((k, v) ∷ ms) ≡ some w → json.at written l ≡ w
      at-object w e = at_found written w (found_in-object l ((k, v) ∷ ms) ∙ e)

module _ {J : Type 0} (json : Json J) (laws : JsonLaws json) (k : String) (v : J)
    (ms : List (String × J)) (l : String) where
  -- A member that was written is read back, whatever the default.
  pub reads_text :
      (s d : String)
      → assigned none l ((k, v) ∷ ms) ≡ some (json.text s)
      → json.value_text (object json ((k, v) ∷ ms)) l d ≡ some s
  reads_text s d e = rw (value_text-object json laws k v ms l d, e) (laws.get_text_text s)

  pub reads_uint32 :
      (n d : ℕ)
      → n < 2 ^ 32
      → assigned none l ((k, v) ∷ ms) ≡ some (json.uint n)
      → json.value_uint32 (object json ((k, v) ∷ ms)) l d ≡ some n
  reads_uint32 n d lt e =
      rw (value_uint32-object json laws k v ms l d, e) (laws.get_uint32_uint n lt)

  pub reads_uint64 :
      (n d : ℕ)
      → n < 2 ^ 64
      → assigned none l ((k, v) ∷ ms) ≡ some (json.uint n)
      → json.value_uint64 (object json ((k, v) ∷ ms)) l d ≡ some n
  reads_uint64 n d lt e =
      rw (value_uint64-object json laws k v ms l d, e) (laws.get_uint64_uint n lt)

  pub reads_uints :
      (ns d : List ℕ)
      → Words ns
      → assigned none l ((k, v) ∷ ms) ≡ some (json.uints ns)
      → json.value_uints (object json ((k, v) ∷ ms)) l d ≡ some ns
  reads_uints ns d w e = rw (value_uints-object json laws k v ms l d, e) (laws.get_uints_uints ns w)
