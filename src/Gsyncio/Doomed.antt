-- ===== src/Gsyncio/Doomed.antt =====
-- A goroutine of pipebomb/gsyncio that was cancelled before it began, and that no order of events calls.
use pipebomb.Base.{
  ℕ, ◌+◌, ◌==◌, ==_iff, ◌≤◌, ◌<◌, ltb, ◌≡◌, sym, ap, ◌∙◌, Bool, true, false, if◌then◌else◌, Option,
  none, some, arith, ◌&&◌, Bool-cases, inl, inr,
}
use pipebomb.Base.Integer.{ℤ}
use pipebomb.Gsyncio.Go.{
  Cell, never, raised, python_cell, Phase, ready, calling, returned, dropped, Goroutine, begin,
  come_back, start_goroutine, cancel_task, raise_entry, raise_of, next_task, is_raised,
}
use pipebomb.Gsyncio.Bridge.{Bridge, raise_flag}
use pipebomb.Gsyncio.Events.{IsKept, count}

abbrev pub is_uncalled : Phase → Bool
is_uncalled ready = true
is_uncalled calling = false
is_uncalled returned = false
is_uncalled dropped = true

-- A cell that was allocated and is raised.
abbrev pub is_set : (ℕ → Bool) → ℕ → Cell → Bool
is_set cells allocated (python_cell n) = cells n && ltb n allocated
is_set cells allocated never = false
is_set cells allocated raised = true

-- A goroutine that checks a cell that is set, and was not called.
abbrev pub is_doomed : (ℕ → Bool) → ℕ → Option Goroutine → Bool
is_doomed cells allocated none = false
is_doomed cells allocated (some g) =
    g.checks && (is_uncalled g.phase && is_set cells allocated g.canceled)

pub record IsDoomed (k times : ℕ) (b : Bridge) : Type 0 where
  pub doomed : is_doomed b.cells b.allocated (b.go.goroutines k) ≡ true
  pub called_so_often : count k b.go.called ≡ times
  pub is_there : k < b.go.started

is_set-raised :
    (cells : ℕ → Bool) (allocated : ℕ) (c : Cell)
    → is_set cells allocated c ≡ true
    → is_raised cells c ≡ true
is_set-raised cells allocated (python_cell n) h = ground arith
is_set-raised cells allocated never h = h
is_set-raised cells allocated raised h = h

is_set-later :
    (cells later : ℕ → Bool) (allocated more : ℕ) (c : Cell)
    → ((n : ℕ) → cells n ≡ true → n < allocated → later n ≡ true)
    → allocated ≤ more
    → is_set cells allocated c ≡ true
    → is_set later more c ≡ true
is_set-later cells later allocated more (python_cell n) stays grows h = ground (arith, stays n)
is_set-later cells later allocated more never stays grows h = h
is_set-later cells later allocated more raised stays grows h = h

is_doomed-later :
    (cells later : ℕ → Bool) (allocated more : ℕ) (g : Option Goroutine)
    → ((n : ℕ) → cells n ≡ true → n < allocated → later n ≡ true)
    → allocated ≤ more
    → is_doomed cells allocated g ≡ true
    → is_doomed later more g ≡ true
is_doomed-later cells later allocated more none stays grows h = h
is_doomed-later cells later allocated more (some g) stays grows h =
    ground (arith, is_set-later cells later allocated more g.canceled stays grows)

is_doomed-raise_of :
    (cells : ℕ → Bool) (allocated : ℕ) (g : Option Goroutine)
    → is_doomed cells allocated g ≡ true
    → is_doomed cells allocated (raise_of g) ≡ true
is_doomed-raise_of cells allocated none h = h
is_doomed-raise_of cells allocated (some g) h = ground arith

pub is_doomed-raise_entry :
    (cells : ℕ → Bool) (allocated k : ℕ) (entry : Option ℕ) (gs : ℕ → Option Goroutine)
    → is_doomed cells allocated (gs k) ≡ true
    → is_doomed cells allocated (raise_entry entry gs k) ≡ true
is_doomed-raise_entry cells allocated k none gs h = h
is_doomed-raise_entry cells allocated k (some j) gs h =
    ground (arith, is_doomed-raise_of cells allocated (gs k) h)

raise_flag-keeps :
    (flag : Option ℕ) (cells : ℕ → Bool) (n : ℕ) → cells n ≡ true → raise_flag flag cells n ≡ true
raise_flag-keeps none cells n h = h
raise_flag-keeps (some m) cells n h = ground arith

module _ (k times : ℕ) where
  start-IsDoomed :
      (checks : Bool) (callback : ℕ) (id : ℤ) (cell : Cell) (b : Bridge)
      → IsDoomed k times b
      → (is_doomed b.cells b.allocated ((start_goroutine checks callback id cell b.go).goroutines k)
          ≡ true)
        × (k < (start_goroutine checks callback id cell b.go).started)
  unfolding start_goroutine
  start-IsDoomed checks callback id cell b h =
      (ground (arith, h.doomed, h.is_there), omega (arith, h.is_there))

  -- The goroutine under its own number.
  doomed_itself :
      (j : ℕ) (g : Goroutine) (b : Bridge)
      → b.go.goroutines j ≡ some g
      → IsDoomed k times b
      → (j == k) ≡ true
      → (g.checks ≡ true)
        × (is_uncalled g.phase ≡ true)
        × (is_set b.cells b.allocated g.canceled ≡ true)
  doomed_itself j g b there h same =
      let found : b.go.goroutines k ≡ some g =
        ap b.go.goroutines (sym ((==_iff j k).0 same)) ∙ there in
      let d : is_doomed b.cells b.allocated (some g) ≡ true =
        ap (is_doomed b.cells b.allocated) (sym found) ∙ h.doomed in
      (ground (arith, d), ground (arith, d), ground (arith, d))

  begin-IsDoomed :
      (j : ℕ) (g : Goroutine) (b : Bridge)
      → b.go.goroutines j ≡ some g
      → g.phase ≡ ready
      → IsDoomed k times b
      → IsDoomed k times (record b { go = begin b.cells j g b.go })
  unfolding begin count
  begin-IsDoomed j g b there waiting h =
      let itself = doomed_itself j g b there h in
      elim (Bool-cases (g.checks && is_raised b.cells g.canceled)) [
        | inl cancelled ↦ rw cancelled (record {
          doomed = ground (arith, itself, h.doomed);
          called_so_often = h.called_so_often;
          is_there = h.is_there;
        })
        | inr free ↦
            let other : (j == k) ≡ false =
              ground (arith, itself, is_set-raised b.cells b.allocated g.canceled, free) in
            rw free (record {
              doomed = rw other h.doomed;
              called_so_often = rw other h.called_so_often;
              is_there = h.is_there;
            })
      ]

  return-IsDoomed :
      (j : ℕ) (g : Goroutine) (b : Bridge)
      → b.go.goroutines j ≡ some g
      → g.phase ≡ calling
      → IsDoomed k times b
      → IsDoomed k times (record b { go = come_back j g b.go })
  unfolding come_back
  return-IsDoomed j g b there inside h =
      let itself = doomed_itself j g b there h in
      let other : (j == k) ≡ false = ground (arith, itself, inside) in
      record {
        doomed = rw other h.doomed;
        called_so_often = h.called_so_often;
        is_there = h.is_there;
      }

  pub IsDoomed-kept : IsKept (IsDoomed k times)
  unfolding next_task cancel_task start_goroutine
  IsDoomed-kept = record {
    on_start = λ callback id b h. record {
      doomed = (start-IsDoomed false b.made id never b h).0;
      called_so_often = h.called_so_often;
      is_there = (start-IsDoomed false b.made id never b h).1;
    };
    on_start_with_result = λ callback id b h.
        let cell = python_cell b.allocated in
        record {
          doomed =
              is_doomed-later b.cells (λ n. if b.allocated == n then false else b.cells n)
                b.allocated (b.allocated + 1)
                ((start_goroutine true b.made id cell b.go).goroutines k)
                (λ n set small. ground (arith, set, small)) (omega arith)
                (start-IsDoomed true b.made id cell b h).0;
          called_so_often = h.called_so_often;
          is_there = (start-IsDoomed true b.made id cell b h).1;
        };
    on_cancel = λ id b h. record {
      doomed =
          is_doomed-later b.cells (raise_flag (b.cancel_flags id) b.cells) b.allocated b.allocated
            (raise_entry (b.go.callbacks id) b.go.goroutines k)
            (λ n set small. raise_flag-keeps (b.cancel_flags id) b.cells n set) (omega arith)
            (is_doomed-raise_entry b.cells b.allocated k (b.go.callbacks id) b.go.goroutines
              h.doomed);
      called_so_often = h.called_so_often;
      is_there = h.is_there;
    };
    on_number = λ b h. record {
      doomed = h.doomed;
      called_so_often = h.called_so_often;
      is_there = h.is_there;
    };
    on_begin = begin-IsDoomed;
    on_return = return-IsDoomed;
  }
