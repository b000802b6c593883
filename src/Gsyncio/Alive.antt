-- ===== src/Gsyncio/Alive.antt =====
-- The callbacks that pipebomb/gsyncio/__init__.py gives to the Go library are kept alive.
use pipebomb.Base.{
  ℕ, ◌==◌, ◌≡◌, refl, sym, ap, ◌∙◌, List, ◌∷◌, [], ◌++◌, Bool, true, false, Option, none, some,
  arith, ◌&&◌, ◌||◌, Bool-cases, inl, inr,
}
use pipebomb.Base.Integer.{ℤ}
use pipebomb.Gsyncio.Go.{
  Cell, never, python_cell, calling, returned, dropped, Goroutine, Go, begin, come_back,
  start_goroutine, cancel_task, raise_entry, raise_of, change, next_task, is_raised,
}
use pipebomb.Gsyncio.Bridge.{Object, function, c_callback, Bridge}
use pipebomb.Gsyncio.Events.{IsKept, run-keeps, fresh, Event, run}

abbrev pub is_c_callback : ℕ → Object → Bool
is_c_callback n (function f) = false
is_c_callback n (c_callback m f) = m == n

abbrev pub listed : ℕ → List Object → Bool
listed n [] = false
listed n (x ∷ xs) = is_c_callback n x || listed n xs

listed-append :
    (n : ℕ) (x : Object) (xs : List Object)
    → listed n (xs ++ (x ∷ [])) ≡ (is_c_callback n x || listed n xs)
listed-append n x [] = refl
listed-append n x (y ∷ ys) = ground (arith, listed-append n x ys)

-- The C callback of a goroutine, if there is one, is listed.
abbrev pub is_alive : Option Goroutine → List Object → Bool
is_alive none live = true
is_alive (some g) live = listed g.callback live

is_alive-append :
    (g : Option Goroutine) (x : Object) (live : List Object)
    → is_alive g live ≡ true
    → is_alive g (live ++ (x ∷ [])) ≡ true
is_alive-append none x live h = refl
is_alive-append (some g) x live h = ground (arith, listed-append g.callback x live)

is_alive-raise_of :
    (g : Option Goroutine) (live : List Object) → is_alive (raise_of g) live ≡ is_alive g live
is_alive-raise_of none live = refl
is_alive-raise_of (some g) live = refl

abbrev AreAlive : (ℕ → Option Goroutine) → List Object → Type 0
AreAlive gs live = (k : ℕ) → is_alive (gs k) live ≡ true

start_goroutine-AreAlive :
    (checks : Bool) (made callback : ℕ) (id : ℤ) (cell : Cell) (go : Go) (live : List Object)
    → AreAlive go.goroutines live
    → AreAlive
        (start_goroutine checks made id cell go).goroutines
        (live ++ (c_callback made callback ∷ []))
unfolding start_goroutine
start_goroutine-AreAlive checks made callback id cell go live h k = ground (
  arith,
  listed-append made (c_callback made callback) live,
  is_alive-append (go.goroutines k) (c_callback made callback) live (h k),
)

raise_entry-AreAlive :
    (entry : Option ℕ) (gs : ℕ → Option Goroutine) (live : List Object)
    → AreAlive gs live
    → AreAlive (raise_entry entry gs) live
raise_entry-AreAlive none gs live h k = h k
raise_entry-AreAlive (some j) gs live h k = ground (arith, h k, is_alive-raise_of (gs k) live)

change-AreAlive :
    (j : ℕ) (old later : Goroutine) (gs : ℕ → Option Goroutine) (live : List Object)
    → gs j ≡ some old
    → later.callback ≡ old.callback
    → AreAlive gs live
    → AreAlive (change j later gs) live
change-AreAlive j old later gs live was same h k =
    let stays : is_alive (some later) live ≡ true =
      ap (λ c. listed c live) same ∙ ap (λ g. is_alive g live) (sym was) ∙ h j in
    ground (arith, h k, stays)

begin-AreAlive :
    (k : ℕ) (g : Goroutine) (b : Bridge)
    → b.go.goroutines k ≡ some g
    → AreAlive b.go.goroutines b.live_callbacks
    → AreAlive (begin b.cells k g b.go).goroutines b.live_callbacks
unfolding begin
begin-AreAlive k g b there h = elim (Bool-cases (g.checks && is_raised b.cells g.canceled)) [
  | inl cancelled ↦ rw cancelled (
      change-AreAlive k g (record g { phase = dropped }) b.go.goroutines b.live_callbacks there refl
        h)
  | inr free ↦ rw free (
      change-AreAlive k g (record g { phase = calling }) b.go.goroutines b.live_callbacks there refl
        h)
]

AreAlive-kept : IsKept (λ b. AreAlive b.go.goroutines b.live_callbacks)
unfolding next_task cancel_task come_back
AreAlive-kept = record {
  on_start = λ callback id b h.
      start_goroutine-AreAlive false b.made callback id never b.go b.live_callbacks h;
  on_start_with_result = λ callback id b h.
      start_goroutine-AreAlive true b.made callback id (python_cell b.allocated) b.go
        b.live_callbacks h;
  on_cancel = λ id b h. raise_entry-AreAlive (b.go.callbacks id) b.go.goroutines b.live_callbacks h;
  on_number = λ b h. h;
  on_begin = λ k g b there now h. begin-AreAlive k g b there h;
  on_return = λ k g b there now h.
      change-AreAlive k g (record g { phase = returned }) b.go.goroutines b.live_callbacks there
        refl h;
}

-- From a library that was just loaded on, by any order of calls and of steps of goroutines: the C
-- callback that a goroutine was given is among the objects that Python keeps alive.
pub run-alive :
    (events : List Event) (k : ℕ)
    → is_alive ((run events fresh).go.goroutines k) (run events fresh).live_callbacks ≡ true
run-alive events =
    run-keeps (λ b. AreAlive b.go.goroutines b.live_callbacks) AreAlive-kept events fresh
      (λ k. refl)
