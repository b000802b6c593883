-- ===== src/Gsyncio/Pending.antt =====
-- A goroutine of pipebomb/gsyncio between its start and its cancellation.
use pipebomb.Base.{
  ℕ, ◌==◌, ==_iff, ◌<◌, ◌≡◌, ◌≢◌, refl, sym, ap, ◌∙◌, Bool, true, false, if◌then◌else◌, Option,
  none, some, arith, ◌&&◌, Bool-cases, ◌⊎◌, inl, inr, List,
}
use pipebomb.Base.Integer.{ℤ}
use pipebomb.Base.Result.{Result, ok, err, runtime_error, attribute_error}
use pipebomb.Gsyncio.Go.{
  Cell, never, raised, python_cell, Phase, ready, calling, returned, dropped, Goroutine, Go, change,
  begin, come_back, start_goroutine, cancel_task, raise_entry, raise_of, next_task, is_raised,
}
use pipebomb.Gsyncio.Bridge.{Call, guarded, Bridge, raise_flag, cancelled_at, cancel_go_task}
use pipebomb.Gsyncio.Events.{IsKept, run-keeps, Event, run, count}
use pipebomb.Gsyncio.Doomed.{is_doomed, IsDoomed, is_doomed-raise_entry, IsDoomed-kept}

-- A call of a library that is loaded goes through.
pub guarded-loaded :
    {A : Type 0} (call : Call A) (b : Bridge)
    → b.has_functions ≡ true
    → b.library_loaded ≡ true
    → guarded call b ≡ call b
guarded-loaded call b functions loaded =
    ap
      (λ x.
        if x
        then (if b.library_loaded then call b else (err runtime_error, b))
        else (err attribute_error, b))
      functions
    ∙ ap (λ x. if x then call b else (err runtime_error, b)) loaded

abbrev is_waiting : Phase → Bool
is_waiting ready = true
is_waiting calling = false
is_waiting returned = false
is_waiting dropped = false

abbrev pub is_ready : Option Goroutine → Bool
is_ready none = false
is_ready (some g) = is_waiting g.phase

-- The cell is the one of this number, or was replaced when the task was cancelled.
abbrev pub is_cell : ℕ → Cell → Bool
is_cell flag (python_cell n) = n == flag
is_cell flag never = false
is_cell flag raised = true

abbrev pub looks_at : ℕ → Option Goroutine → Bool
looks_at flag none = true
looks_at flag (some g) = g.checks && is_cell flag g.canceled

-- A library that is loaded, and a goroutine that looks at the flag and that was called so often, unless
-- it has begun.
pub record IsPending (k flag times : ℕ) (b : Bridge) : Type 0 where
  pub functions : b.has_functions ≡ true
  pub loaded : b.library_loaded ≡ true
  pub small : flag < b.allocated
  pub is_there : k < b.go.started
  pub pending : looks_at flag (b.go.goroutines k) ≡ true
  pub uncalled : (count k b.go.called ≡ times) ⊎ (is_ready (b.go.goroutines k) ≡ false)

raise_entry-looks_at :
    (flag k : ℕ) (entry : Option ℕ) (gs : ℕ → Option Goroutine)
    → looks_at flag (gs k) ≡ true
    → looks_at flag (raise_entry entry gs k) ≡ true
raise_entry-looks_at flag k none gs h = h
raise_entry-looks_at flag k (some j) gs h = ground (arith, raise_of-looks_at (gs k))
  where
    raise_of-looks_at :
        (g : Option Goroutine) → looks_at flag g ≡ true → looks_at flag (raise_of g) ≡ true
    raise_of-looks_at none h = h
    raise_of-looks_at (some g) h = ground arith

raise_entry-is_ready :
    (k : ℕ) (entry : Option ℕ) (gs : ℕ → Option Goroutine)
    → is_ready (raise_entry entry gs k) ≡ is_ready (gs k)
raise_entry-is_ready k none gs = refl
raise_entry-is_ready k (some j) gs = ground (arith, raise_of-is_ready (gs k))
  where
    raise_of-is_ready : (g : Option Goroutine) → is_ready (raise_of g) ≡ is_ready g
    raise_of-is_ready none = refl
    raise_of-is_ready (some g) = refl

module _ (k flag times : ℕ) where
  -- Any goroutine that leaves its first phase.
  moved-IsPending :
      (j : ℕ) (g later : Goroutine) (b : Bridge) (go : Go)
      → b.go.goroutines j ≡ some g
      → looks_at flag (some later) ≡ looks_at flag (some g)
      → is_ready (some later) ≡ false
      → go.goroutines ≡ change j later b.go.goroutines
      → go.started ≡ b.go.started
      → ((j == k) ≡ false → count k go.called ≡ count k b.go.called)
      → IsPending k flag times b
      → IsPending k flag times (record b { go = go })
  moved-IsPending j g later b go there looks begun moved as_many called h = record {
    functions = h.functions;
    loaded = h.loaded;
    small = h.small;
    is_there = omega (arith, h.is_there, as_many);
    pending = ap (λ gs. looks_at flag (gs k)) moved ∙ elim (Bool-cases (j == k)) [
      | inl same ↦
          let itself : looks_at flag (some g) ≡ true =
            ap (looks_at flag) (sym there ∙ ap b.go.goroutines ((==_iff j k).0 same)) ∙ h.pending in
          rw same (looks ∙ itself)
      | inr other ↦ rw other h.pending
    ];
    uncalled = elim (Bool-cases (j == k)) [
      | inl same ↦ inr (ap (λ gs. is_ready (gs k)) moved ∙ rw same begun)
      | inr other ↦ elim h.uncalled [
        | inl so_often ↦ inl (called other ∙ so_often)
        | inr before ↦ inr (ap (λ gs. is_ready (gs k)) moved ∙ rw other before)
      ]
    ];
  }

  begin-IsPending :
      (j : ℕ) (g : Goroutine) (b : Bridge)
      → b.go.goroutines j ≡ some g
      → IsPending k flag times b
      → IsPending k flag times (record b { go = begin b.cells j g b.go })
  unfolding begin count
  begin-IsPending j g b there h = elim (Bool-cases (g.checks && is_raised b.cells g.canceled)) [
    | inl cancelled ↦ rw cancelled (
        moved-IsPending j g (record g { phase = dropped }) b _ there refl refl refl refl
          (λ other. refl) h)
    | inr free ↦ rw free (
        moved-IsPending j g (record g { phase = calling }) b _ there refl refl refl refl
          (λ other. rw other refl) h)
  ]

  return-IsPending :
      (j : ℕ) (g : Goroutine) (b : Bridge)
      → b.go.goroutines j ≡ some g
      → IsPending k flag times b
      → IsPending k flag times (record b { go = come_back j g b.go })
  unfolding come_back
  return-IsPending j g b there h =
      moved-IsPending j g (record g { phase = returned }) b _ there refl refl refl refl
        (λ other. refl) h

  -- A goroutine that is started is another one.
  start-IsPending :
      (checks : Bool) (callback : ℕ) (id : ℤ) (cell : Cell) (b : Bridge)
      → IsPending k flag times b
      → IsPending k flag times (record b { go = start_goroutine checks callback id cell b.go })
  unfolding start_goroutine
  start-IsPending checks callback id cell b h =
      let other : (b.go.started == k) ≡ false = ground (arith, h.is_there) in
      record {
        functions = h.functions;
        loaded = h.loaded;
        small = h.small;
        is_there = omega (arith, h.is_there);
        pending = rw other h.pending;
        uncalled = rw other h.uncalled;
      }

  IsPending-kept : IsKept (IsPending k flag times)
  unfolding next_task cancel_task
  IsPending-kept = record {
    on_start = λ callback id b h.
        let s = start-IsPending false b.made id never b h in
        record {
          functions = s.functions;
          loaded = s.loaded;
          small = s.small;
          is_there = s.is_there;
          pending = s.pending;
          uncalled = s.uncalled;
        };
    on_start_with_result = λ callback id b h.
        let s = start-IsPending true b.made id (python_cell b.allocated) b h in
        record {
          functions = s.functions;
          loaded = s.loaded;
          small = omega (arith, s.small);
          is_there = s.is_there;
          pending = s.pending;
          uncalled = s.uncalled;
        };
    on_cancel = λ id b h. record {
      functions = h.functions;
      loaded = h.loaded;
      small = h.small;
      is_there = h.is_there;
      pending = raise_entry-looks_at flag k (b.go.callbacks id) b.go.goroutines h.pending;
      uncalled = rw (raise_entry-is_ready k (b.go.callbacks id) b.go.goroutines) h.uncalled;
    };
    on_number = λ b h. record {
      functions = h.functions;
      loaded = h.loaded;
      small = h.small;
      is_there = h.is_there;
      pending = h.pending;
      uncalled = h.uncalled;
    };
    on_begin = λ j g b there now h. begin-IsPending j g b there h;
    on_return = λ j g b there now h. return-IsPending j g b there h;
  }

  pub run-IsPending :
      (events : List Event) (b : Bridge)
      → IsPending k flag times b
      → IsPending k flag times (run events b)
  run-IsPending = run-keeps (IsPending k flag times) IsPending-kept

  -- If it has not begun, and its task is cancelled under the number that leads to its flag, no order of
  -- calls and of steps of goroutines calls it.
  pub IsPending-stops :
      (id : ℤ) (b : Bridge) (g : Goroutine)
      → IsPending k flag times b
      → b.go.goroutines k ≡ some g
      → g.phase ≡ ready
      → b.cancel_flags id ≡ some flag
      → (events : List Event) → count k (run events (cancel_go_task id b).1).go.called ≡ times
  unfolding cancel_go_task cancel_task
  IsPending-stops id b g h there waiting filed events =
      let cells = raise_flag (some flag) b.cells in
      let looks : looks_at flag (some g) ≡ true = ap (looks_at flag) (sym there) ∙ h.pending in
      let set : is_doomed cells b.allocated (some g) ≡ true =
        g-is_doomed g b waiting looks h.small in
      let so_often : count k b.go.called ≡ times = elim h.uncalled [
        | inl uncalled ↦ uncalled
        | inr begun ↦ absurd (ready-begun g waiting (ap is_ready (sym there) ∙ begun))
      ] in
      let doomed : IsDoomed k times (cancelled_at id b) = record {
        doomed =
            is_doomed-raise_entry (raise_flag (b.cancel_flags id) b.cells) b.allocated k
              (b.go.callbacks id) b.go.goroutines
              (ap (λ f. is_doomed (raise_flag f b.cells) b.allocated (b.go.goroutines k)) filed
                ∙ ap (is_doomed cells b.allocated) there
                ∙ set);
        called_so_often = so_often;
        is_there = h.is_there;
      } in
      ap (λ (c : Result (Unit {0}) × Bridge). count k (run events c.1).go.called)
        (guarded-loaded (λ c. (ok tt, cancelled_at id c)) b h.functions h.loaded)
      ∙ (run-keeps (IsDoomed k times) (IsDoomed-kept k times) events (cancelled_at id b)
          doomed).called_so_often
    where
      g-is_doomed :
          (g : Goroutine) (b : Bridge)
          → g.phase ≡ ready
          → looks_at flag (some g) ≡ true
          → flag < b.allocated
          → is_doomed (raise_flag (some flag) b.cells) b.allocated (some g) ≡ true
      g-is_doomed g b waiting looks small = ground arith

      ready-begun : (g : Goroutine) → g.phase ≡ ready → is_ready (some g) ≢ false
      ready-begun g waiting begun = absurd (ground arith)
