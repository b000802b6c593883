-- ===== src/Archive/Layout.antt =====
-- What `serialize` of pipebomb/server.py joins, `deserialize` cuts apart again: the tables of types,
-- lengths and values give back the fields.
use pipebomb.Base.{
  Bytes, ℕ, suc, ◌+◌, ◌*◌, ◌/◌, List, [], ◌∷◌, ◌++◌, ◌≡◌, refl, ap, ◌∙◌, map, length, concat, slice,
  All, length-append, append_assoc, append-nil, take-append_left, drop-append_left, slice-at, arith,
}
use pipebomb.Base.Result.{Result, ok, ◌>>=◌}
use pipebomb.Wire.Struct.{be_digits, pack_u32}
use pipebomb.Wire.Struct.Laws.{length-be_digits}
use pipebomb.Archive.Read.{
  Loading, unpack_from, read_lengths, cut_values, load_fields, nothing_loaded, split_tables,
}
use pipebomb.Archive.Write.{Field, field, join_tables}
use pipebomb.Archive.Blocks.{unpack_from-packed, unpack_from-at, Fits}

-- A field with its length, and what makes it one.
abbrev pub field_of : ℕ → Bytes → Field
field_of type_ value = record { type_ = type_; size = be_digits 4 (length value); value = value }

abbrev pub IsField : Field → Type 0
IsField f = (f.size ≡ be_digits 4 (length f.value)) × Fits f.value

pub field-eq-ok :
    (type_ : ℕ) (value : Bytes) {f : Field}
    → field type_ value ≡ ok f
    → (f ≡ field_of type_ value) × Fits value
unfolding field pack_u32
field-eq-ok type_ value h = ground arith

abbrev pub types_of : List Field → List ℕ
types_of = map (λ f. f.type_)

abbrev pub values_of : List Field → List Bytes
values_of = map (λ f. f.value)

abbrev sizes_of : List Field → Bytes
sizes_of fields = concat (map (λ f. f.size) fields)

abbrev lengths_of : List Field → List ℕ
lengths_of = map (λ f. length f.value)

-- The loading of a list of fields.
abbrev pub load_all : List Field → Loading → Result Loading
load_all fields = load_fields (types_of fields) (values_of fields)

length-types : (fields : List Field) → length (types_of fields) ≡ length fields
length-types [] = refl
length-types (f ∷ fields) = ap suc (length-types fields)

length-sizes :
    (fields : List Field) → All IsField fields → length (sizes_of fields) ≡ 4 * length fields
length-sizes [] h = refl
length-sizes (f ∷ fields) h =
    length-append f.size (sizes_of fields)
    ∙ omega (arith, length-sizes fields h.1, ap length h.0.0, length-be_digits 4 (length f.value))

read_lengths-sizes :
    (fields : List Field)
    → All IsField fields
    → read_lengths (length fields) (sizes_of fields) ≡ ok (lengths_of fields)
unfolding read_lengths
read_lengths-sizes [] h = refl
read_lengths-sizes (f ∷ fields) h =
    let packed = be_digits 4 (length f.value) in
    rw (h.0.0, unpack_from-packed [] (length f.value) 0 (sizes_of fields) h.0.1 refl)
      (rw
        (drop-append_left 4 packed (sizes_of fields)
          (omega (arith, length-be_digits 4 (length f.value))))
        (rw (read_lengths-sizes fields h.1)))

cut_values-values :
    (fields : List Field)
    → cut_values (lengths_of fields) (concat (values_of fields)) ≡ values_of fields
unfolding cut_values
cut_values-values [] = refl
cut_values-values (f ∷ fields) =
    let rest = concat (values_of fields) in
    rw
      (
        take-append_left (length f.value) f.value rest refl,
        drop-append_left (length f.value) f.value rest refl,
      )
      (ap (λ t. f.value ∷ t) (cut_values-values fields))

-- Three tables behind their lengths.
abbrev tables : Bytes → Bytes → Bytes → Bytes
tables types lengths values =
    (be_digits 4 (length types) ++ (be_digits 4 (length lengths) ++ be_digits 4 (length values)))
    ++ (types ++ (lengths ++ values))

join_tables-eq-ok :
    (fields : List Field) {serialized : Bytes}
    → join_tables fields ≡ ok serialized
    → (serialized ≡ tables (types_of fields) (sizes_of fields) (concat (values_of fields)))
      × Fits (types_of fields)
      × Fits (sizes_of fields)
      × Fits (concat (values_of fields))
unfolding join_tables pack_u32
join_tables-eq-ok fields h = ground arith

module _ (types lengths values : Bytes) where
  abbrev a : Bytes
  a = be_digits 4 (length types)

  abbrev b : Bytes
  b = be_digits 4 (length lengths)

  abbrev d : Bytes
  d = be_digits 4 (length values)

  header_size : length (a ++ (b ++ d)) ≡ 12
  header_size = omega (
    arith,
    length-be_digits 4 (length types),
    length-be_digits 4 (length lengths),
    length-be_digits 4 (length values),
    length-append a (b ++ d),
    length-append b d,
  )

  split_tables-tables :
      Fits types
      → Fits lengths
      → Fits values
      → split_tables (tables types lengths values) ≡ (
          read_lengths ((length lengths + 3) / 4) lengths >>= λ found.
          load_fields types (cut_values found values) nothing_loaded)
  unfolding split_tables
  split_tables-tables ht hl hv =
      let whole = tables types lengths values in
      let body = types ++ (lengths ++ values) in
      let first : unpack_from whole 0 ≡ ok (length types) =
        unpack_from-at whole [] (length types) 0 ((b ++ d) ++ body) (simp append_assoc) ht refl in
      let second : unpack_from whole 4 ≡ ok (length lengths) =
        unpack_from-at whole a (length lengths) 4 (d ++ body) (simp append_assoc) hl
          (omega (arith, length-be_digits 4 (length types))) in
      let third : unpack_from whole 8 ≡ ok (length values) =
        unpack_from-at whole (a ++ b) (length values) 8 body (simp append_assoc) hv (
          omega (
            arith,
            length-be_digits 4 (length types),
            length-be_digits 4 (length lengths),
            length-append a b,
          )) in
      let o1 = 12 + length types in
      let o2 = o1 + length lengths in
      let cut_types : slice 12 o1 whole ≡ types =
        slice-at 12 o1 whole (a ++ (b ++ d)) types (lengths ++ values) refl
          (omega (arith, header_size)) (omega (arith, header_size)) in
      let cut_lengths : slice o1 o2 whole ≡ lengths =
        slice-at o1 o2 whole ((a ++ (b ++ d)) ++ types) lengths values (simp append_assoc)
          (omega (arith, header_size, length-append (a ++ (b ++ d)) types))
          (omega (arith, header_size, length-append (a ++ (b ++ d)) types)) in
      let cut_all : slice o2 (o2 + length values) whole ≡ values =
        slice-at o2 (o2 + length values) whole (((a ++ (b ++ d)) ++ types) ++ lengths) values []
          (simp (append_assoc, append-nil))
          (omega (
            arith,
            header_size,
            length-append (a ++ (b ++ d)) types,
            length-append ((a ++ (b ++ d)) ++ types) lengths,
          ))
          (omega (
            arith,
            header_size,
            length-append (a ++ (b ++ d)) types,
            length-append ((a ++ (b ++ d)) ++ types) lengths,
          )) in
      rw (first, second, third) (rw (cut_types, cut_lengths, cut_all) refl)

-- The archive that is joined is split into the same fields.
pub split_tables-join_tables :
    (fields : List Field) {serialized : Bytes}
    → All IsField fields
    → join_tables fields ≡ ok serialized
    → split_tables serialized ≡ load_all fields nothing_loaded
split_tables-join_tables fields h joined =
    let (e, ht, hl, hv) = join_tables-eq-ok fields joined in
    let sized = length-sizes fields h in
    let rounds : (length (sizes_of fields) + 3) / 4 ≡ length fields = omega arith in
    rw e (
      split_tables-tables (types_of fields) (sizes_of fields) (concat (values_of fields)) ht hl hv
      ∙ rw (rounds, read_lengths-sizes fields h, cut_values-values fields))
