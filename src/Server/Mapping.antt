-- ===== src/Server/Mapping.antt =====
-- The mapping methods of `Server` in pipebomb/server.py: each takes the lock of the table, reads or
-- writes the table, and releases the lock, unless a KeyError comes between.
use pipebomb.Base.{
  Bytes, ℕ, ◌≡◌, refl, Bool, true, false, Option, none, some, List, map, length, eq_bytes,
  if◌then◌else◌, arith,
}
use pipebomb.Base.Result.{Result, ok, err, key_error}
use pipebomb.Base.Dict.{Dict, lookup, contains, insert, erase, lookup-insert}

-- `db` and whether `db_lock` is held.
pub record Table : Type 0 where
  pub held : Bool
  pub db : Dict Bytes

-- What a method gives: a value or an exception, or nothing while it waits for the lock.
abbrev pub Access : Type 0 → Type 0
Access A = Table → Option (Result A) × Table

-- `run_until_complete(self.db_lock.acquire())`, and what follows it.
unfoldable pub acquire_then : {A : Type 0} → Access A → Access A
acquire_then m t = if t.held then (none, t) else m (record t { held = true })

-- `self.db_lock.release()`, and the value.
abbrev pub release_and : {A : Type 0} → A → Access A
release_and a t = (some (ok a), record t { held = false })

-- `self.db[key]`, which raises before the lock is released where the key is missing.
unfoldable pub getitem_held : Option Bytes → Access Bytes
getitem_held (some value) t = release_and value t
getitem_held none t = (some (err key_error), t)

unfoldable pub getitem : Bytes → Access Bytes
unfolding acquire_then
getitem key = acquire_then (λ t. getitem_held (lookup key t.db) t)

unfoldable pub setitem : Bytes → Bytes → Access (Unit {0})
unfolding acquire_then
setitem key value = acquire_then (λ t. release_and tt (record t { db = insert key value t.db }))

-- `del self.db[key]`, which raises in the same way.
unfoldable pub delitem_held : Bytes → Option Bytes → Access (Unit {0})
delitem_held key (some value) t = release_and tt (record t { db = erase key t.db })
delitem_held key none t = (some (err key_error), t)

unfoldable pub delitem : Bytes → Access (Unit {0})
unfolding acquire_then
delitem key = acquire_then (λ t. delitem_held key (lookup key t.db) t)

unfoldable pub contains_item : Bytes → Access Bool
unfolding acquire_then
contains_item key = acquire_then (λ t. release_and (contains key t.db) t)

unfoldable pub len : Access ℕ
unfolding acquire_then
len = acquire_then (λ t. release_and (length t.db) t)

unfoldable pub keys : Access (List Bytes)
unfolding acquire_then
keys = acquire_then (λ t. release_and (map (λ entry. entry.0) t.db) t)

unfoldable pub values : Access (List Bytes)
unfolding acquire_then
values = acquire_then (λ t. release_and (map (λ entry. entry.1) t.db) t)

-- The answer of a table to a key.
abbrev pub value_or_error : Option Bytes → Result Bytes
value_or_error (some value) = ok value
value_or_error none = err key_error

-- No method returns or raises any more.
pub record IsStuck (t : Table) : Type 0 where
  pub reads : (key : Bytes) → (getitem key t).0 ≡ none
  pub writes : (key value : Bytes) → (setitem key value t).0 ≡ none
  pub deletes : (key : Bytes) → (delitem key t).0 ≡ none
  pub tests : (key : Bytes) → (contains_item key t).0 ≡ none
  pub counts : (len t).0 ≡ none
  pub lists_keys : (keys t).0 ≡ none
  pub lists_values : (values t).0 ≡ none

held-IsStuck : (t : Table) → t.held ≡ true → IsStuck t
unfolding getitem setitem delitem contains_item len keys values
held-IsStuck t h = record {
  reads = λ key. rw h;
  writes = λ key value. rw h;
  deletes = λ key. rw h;
  tests = λ key. rw h;
  counts = rw h;
  lists_keys = rw h;
  lists_values = rw h;
}

-- With the lock free, an item that was set is read back, and every other key is answered as it was
-- before.
pub getitem-setitem :
    (key other value : Bytes) (t : Table)
    → t.held ≡ false
    → (getitem other (setitem key value t).1).0
      ≡ some (if eq_bytes key other then ok value else value_or_error (lookup other t.db))
unfolding getitem setitem getitem_held
getitem-setitem key other value t free = ground (arith, lookup-insert key other value t.db)

-- With the lock free, reading or deleting a key that is missing raises a KeyError, and leaves the lock
-- held: every later access waits for ever.
pub missing_item-IsStuck :
    (key : Bytes) (t : Table)
    → t.held ≡ false
    → lookup key t.db ≡ none
    → ((getitem key t).0 ≡ some (err key_error))
      × IsStuck (getitem key t).1
      × ((delitem key t).0 ≡ some (err key_error))
      × IsStuck (delitem key t).1
unfolding getitem getitem_held delitem delitem_held
missing_item-IsStuck key t free missing =
    rw (free, missing) (refl, held-IsStuck _ refl, refl, held-IsStuck _ refl)
