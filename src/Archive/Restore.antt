-- ===== src/Archive/Restore.antt =====
-- Loading the fields of a table puts its entries back, in their order: pipebomb/server.py,
-- `deserialize`, the two tables of texts.
use pipebomb.Base.{
  Bytes, Str, ℕ, ◌<◌, ◌+◌, List, [], ◌∷◌, ◌++◌, ◌≡◌, refl, ap, ◌∙◌, none, length, slice, slice-at,
  All, append_assoc, append-nil, arith, Bool-cases, inl, inr, ◌==◌,
}
use pipebomb.Base.Result.{ok, came-through}
use pipebomb.Base.Dict.{Dict, lookup, IsDict}
use pipebomb.Base.Dict.Append.{IsDict-fresh, insert-append_fresh}
use pipebomb.Wire.Struct.{be_digits, pack_u32, u32_limit}
use pipebomb.Wire.Struct.Laws.{length-be_digits}
use pipebomb.Server.State.{Client}
use pipebomb.Server.Monad.{encode_latin1}
use pipebomb.Archive.Read.{Loading, load_field, load_fields}
use pipebomb.Archive.Write.{Field, field, db_fields, address_fields, book_fields}
use pipebomb.Archive.Blocks.{block_of, Fits, unpack_from-packed}
use pipebomb.Archive.Layout.{field_of, IsField, field-eq-ok, load_all}
use pipebomb.Archive.Items.{encode_latin1-eq-ok}

-- The tables as they have been loaded, with no key or address that waits.
abbrev pub loaded : Dict Bytes → Dict Str → Dict Client → Loading
loaded db book clients = record {
  db = db;
  address_book = book;
  client_db = clients;
  pending_db_key = none;
  pending_address = none;
}

pub load_all-step :
    (f : Field) (fields : List Field) (l : Loading) {l' : Loading}
    → load_field f.type_ f.value l ≡ ok l'
    → load_all (f ∷ fields) l ≡ load_all fields l'
unfolding load_fields
load_all-step f fields l e = rw e

-- The fields of the key-value table.
abbrev pub db_list : Dict Bytes → List Field
db_list [] = []
db_list ((key, value) ∷ db) = field_of 0x10 key ∷ field_of 0x11 value ∷ db_list db

pub db_fields-eq-ok :
    (db : Dict Bytes) {fields : List Field}
    → db_fields db ≡ ok fields
    → (fields ≡ db_list db) × All IsField fields
unfolding db_fields
db_fields-eq-ok [] h = ground arith
db_fields-eq-ok ((key, value) ∷ db) h =
    let (k, ek, h1) = came-through (field 0x10 key) _ h in
    let (v, ev, h2) = came-through (field 0x11 value) _ h1 in
    let (more, em, h3) = came-through (db_fields db) _ h2 in
    ground (arith, field-eq-ok 0x10 key ek, field-eq-ok 0x11 value ev, db_fields-eq-ok db em)

load_db_entry :
    (key value : Bytes) (fields : List Field) (db : Dict Bytes) (book : Dict Str)
    (clients : Dict Client)
    → lookup key db ≡ none
    → load_all (field_of 0x10 key ∷ field_of 0x11 value ∷ fields) (loaded db book clients)
      ≡ load_all fields (loaded (db ++ ((key, value) ∷ [])) book clients)
unfolding load_fields load_field
load_db_entry key value fields db book clients fresh = rw (insert-append_fresh key value db fresh)

pub load_db :
    (db done : Dict Bytes) (fields : List Field) (book : Dict Str) (clients : Dict Client)
    → IsDict (done ++ db)
    → load_all (db_list db ++ fields) (loaded done book clients)
      ≡ load_all fields (loaded (done ++ db) book clients)
load_db [] done fields book clients h = rw append-nil
load_db ((key, value) ∷ db) done fields book clients h =
    load_db_entry key value (db_list db ++ fields) done book clients
      (IsDict-fresh key value done db h)
    ∙ load_db db (done ++ ((key, value) ∷ [])) fields book clients
        (rw (append_assoc done ((key, value) ∷ []) db) h)
    ∙ ap (λ d. load_all fields (loaded d book clients)) (append_assoc done ((key, value) ∷ []) db)

-- The fields of the address book.
abbrev pub book_list : Dict Str → List Field
book_list [] = []
book_list ((key, uuid) ∷ book) = field_of 0x20 (block_of key) ∷ field_of 0x21 uuid ∷ book_list book

abbrev pub AddressFits : Str × Str → Type 0
AddressFits (key, uuid) = Fits key

pack_u32-eq-ok :
    (n : ℕ) {size : Bytes} → pack_u32 n ≡ ok size → (size ≡ be_digits 4 n) × (n < u32_limit)
unfolding pack_u32
pack_u32-eq-ok n h = ground arith

address_fields-eq-ok :
    (key uuid : Str) {fields : List Field}
    → address_fields key uuid ≡ ok fields
    → (fields ≡ field_of 0x20 (block_of key) ∷ field_of 0x21 uuid ∷ [])
      × All IsField fields
      × Fits key
unfolding address_fields
address_fields-eq-ok key uuid h = elim (Bool-cases (length uuid == 36)) [
  | inr other ↦ absurd (ground arith)
  | inl sized ↦
      let chain = rw sized at h in
      let (size, es, h1) = came-through (pack_u32 (length key)) _ chain in
      let (encoded, ee, h2) = came-through (encode_latin1 key) _ h1 in
      let (k, ek, h3) = came-through (field 0x20 (size ++ encoded)) _ h2 in
      let (owner, eo, h4) = came-through (encode_latin1 uuid) _ h3 in
      let (v, ev, h5) = came-through (field 0x21 owner) _ h4 in
      ground (
        arith,
        pack_u32-eq-ok (length key) es,
        encode_latin1-eq-ok key ee,
        field-eq-ok 0x20 (size ++ encoded) ek,
        encode_latin1-eq-ok uuid eo,
        field-eq-ok 0x21 owner ev,
      )
]

pub book_fields-eq-ok :
    (book : Dict Str) {fields : List Field}
    → book_fields book ≡ ok fields
    → (fields ≡ book_list book) × All IsField fields × All AddressFits book
unfolding book_fields
book_fields-eq-ok [] h = ground arith
book_fields-eq-ok ((key, uuid) ∷ book) h =
    let (entry, ee, h1) = came-through (address_fields key uuid) _ h in
    let (more, em, h2) = came-through (book_fields book) _ h1 in
    ground (arith, address_fields-eq-ok key uuid ee, book_fields-eq-ok book em)

load_address :
    (key uuid : Str) (fields : List Field) (db : Dict Bytes) (book : Dict Str)
    (clients : Dict Client)
    → Fits key
    → lookup key book ≡ none
    → load_all (field_of 0x20 (block_of key) ∷ field_of 0x21 uuid ∷ fields) (loaded db book clients)
      ≡ load_all fields (loaded db (book ++ ((key, uuid) ∷ [])) clients)
unfolding load_fields load_field
load_address key uuid fields db book clients fits fresh =
    let cut : slice 4 (4 + length key) (block_of key) ≡ key =
      slice-at 4 (4 + length key) _ (be_digits 4 (length key)) key [] (rw append-nil)
        (omega (arith, length-be_digits 4 (length key)))
        (omega (arith, length-be_digits 4 (length key))) in
    rw (unpack_from-packed [] (length key) 0 key fits refl)
      (rw (cut, insert-append_fresh key uuid book fresh))

pub load_book :
    (book done : Dict Str) (fields : List Field) (db : Dict Bytes) (clients : Dict Client)
    → All AddressFits book
    → IsDict (done ++ book)
    → load_all (book_list book ++ fields) (loaded db done clients)
      ≡ load_all fields (loaded db (done ++ book) clients)
load_book [] done fields db clients fits h = rw append-nil
load_book ((key, uuid) ∷ book) done fields db clients fits h =
    load_address key uuid (book_list book ++ fields) db done clients fits.0
      (IsDict-fresh key uuid done book h)
    ∙ load_book book (done ++ ((key, uuid) ∷ [])) fields db clients fits.1
        (rw (append_assoc done ((key, uuid) ∷ []) book) h)
    ∙ ap (λ d. load_all fields (loaded db d clients)) (append_assoc done ((key, uuid) ∷ []) book)
