-- ===== src/Gsyncio/Once.antt =====
-- A goroutine of pipebomb/gsyncio calls its callback once at most.
use pipebomb.Base.{
  ℕ, ◌==◌, ◌≤◌, ◌≡◌, refl, sym, ap, ◌∙◌, List, Bool, true, false, if◌then◌else◌, Option, none, some,
  arith, ◌&&◌, Bool-cases, inl, inr,
}
use pipebomb.Base.Integer.{ℤ}
use pipebomb.Gsyncio.Go.{
  Cell, never, python_cell, Phase, ready, calling, returned, dropped, Goroutine, Go, begin,
  come_back, start_goroutine, cancel_task, raise_entry, raise_of, change, next_task, is_raised,
}
use pipebomb.Gsyncio.Events.{IsKept, run-keeps, fresh, Event, run, count, calls_by, calls_of}

-- Each goroutine was called as often as its phase says, and those to come are not there.
record IsCounted (go : Go) : Type 0 where
  pub counts : (k : ℕ) → count k go.called ≡ calls_by (go.goroutines k)
  pub to_come : (k : ℕ) → go.started ≤ k → go.goroutines k ≡ none

start_goroutine-IsCounted :
    (checks : Bool) (callback : ℕ) (id : ℤ) (cell : Cell) (go : Go)
    → IsCounted go
    → IsCounted (start_goroutine checks callback id cell go)
unfolding start_goroutine
start_goroutine-IsCounted checks callback id cell go h = record {
  counts = λ k. ground (arith, h.counts k, h.to_come k);
  to_come = λ k later. ground (arith, h.to_come k);
}

calls_by-raise_of : (g : Option Goroutine) → calls_by (raise_of g) ≡ calls_by g
calls_by-raise_of none = refl
calls_by-raise_of (some g) = refl

calls_by-raise_entry :
    (entry : Option ℕ) (gs : ℕ → Option Goroutine) (k : ℕ)
    → calls_by (raise_entry entry gs k) ≡ calls_by (gs k)
calls_by-raise_entry none gs k = refl
calls_by-raise_entry (some j) gs k = ground (arith, calls_by-raise_of (gs k))

raise_entry-none :
    (entry : Option ℕ) (gs : ℕ → Option Goroutine) (k : ℕ)
    → gs k ≡ none
    → raise_entry entry gs k ≡ none
raise_entry-none none gs k h = h
raise_entry-none (some j) gs k h = ground (arith, h)

cancel_task-IsCounted : (id : ℤ) (go : Go) → IsCounted go → IsCounted (cancel_task id go)
unfolding cancel_task
cancel_task-IsCounted id go h = record {
  counts = λ k. h.counts k ∙ sym (calls_by-raise_entry (go.callbacks id) go.goroutines k);
  to_come = λ k later. raise_entry-none (go.callbacks id) go.goroutines k (h.to_come k later);
}

-- A goroutine that is there changes, and was called so often.
replaced-IsCounted :
    (k : ℕ) (g later : Goroutine) (go out : Go)
    → go.goroutines k ≡ some g
    → out.goroutines ≡ change k later go.goroutines
    → out.started ≡ go.started
    → ((j : ℕ) → count j out.called ≡ (if k == j then calls_of later.phase else count j go.called))
    → IsCounted go
    → IsCounted out
replaced-IsCounted k g later go out there changed same counted h = record {
  counts = λ j. counted j ∙ ground (arith, h.counts j) ∙ ap calls_by (sym (ap (λ f. f j) changed));
  to_come = λ j after. ap (λ f. f j) changed ∙ grind (arith, there, h.to_come j, same, after);
}

begin-IsCounted :
    (cells : ℕ → Bool) (k : ℕ) (g : Goroutine) (go : Go)
    → go.goroutines k ≡ some g
    → g.phase ≡ ready
    → IsCounted go
    → IsCounted (begin cells k g go)
unfolding begin count
begin-IsCounted cells k g go there waiting h =
    let none_yet : count k go.called ≡ 0 = h.counts k ∙ rw there (rw waiting refl) in
    elim (Bool-cases (g.checks && is_raised cells g.canceled)) [
      | inl cancelled ↦ rw cancelled (
          replaced-IsCounted k g (record g { phase = dropped }) go _ there refl refl
            (λ j. grind (arith, none_yet)) h)
      | inr free ↦ rw free (
          replaced-IsCounted k g (record g { phase = calling }) go _ there refl refl
            (λ j. grind (arith, none_yet)) h)
    ]

come_back-IsCounted :
    (k : ℕ) (g : Goroutine) (go : Go)
    → go.goroutines k ≡ some g
    → g.phase ≡ calling
    → IsCounted go
    → IsCounted (come_back k g go)
unfolding come_back count
come_back-IsCounted k g go there inside h =
    let once : count k go.called ≡ 1 = h.counts k ∙ rw there (rw inside refl) in
    replaced-IsCounted k g (record g { phase = returned }) go _ there refl refl
      (λ j. grind (arith, once)) h

IsCounted-kept : IsKept (λ b. IsCounted b.go)
unfolding next_task
IsCounted-kept = record {
  on_start = λ callback id b h. start_goroutine-IsCounted false b.made id never b.go h;
  on_start_with_result =
      λ callback id b h. start_goroutine-IsCounted true b.made id (python_cell b.allocated) b.go h;
  on_cancel = λ id b h. cancel_task-IsCounted id b.go h;
  on_number = λ b h. record { counts = h.counts; to_come = h.to_come };
  on_begin = λ k g b there now h. begin-IsCounted b.cells k g b.go there now h;
  on_return = λ k g b there now h. come_back-IsCounted k g b.go there now h;
}

calls_of-le : (phase : Phase) → calls_of phase ≤ 1
calls_of-le ready = omega arith
calls_of-le calling = omega arith
calls_of-le returned = omega arith
calls_of-le dropped = omega arith

calls_by-le : (g : Option Goroutine) → calls_by g ≤ 1
calls_by-le none = omega arith
calls_by-le (some g) = calls_of-le g.phase

IsCounted-fresh : IsCounted fresh.go
unfolding count
IsCounted-fresh = record { counts = λ k. refl; to_come = λ k later. refl }

-- From a library that was just loaded on, by any order of calls and of steps of goroutines: a
-- goroutine has called its callback just if it is in it or came back from it, and never twice.
pub run-once :
    (events : List Event) (k : ℕ)
    → (count k (run events fresh).go.called ≡ calls_by ((run events fresh).go.goroutines k))
      × (count k (run events fresh).go.called ≤ 1)
run-once events k =
    let h = run-keeps (λ b. IsCounted b.go) IsCounted-kept events fresh IsCounted-fresh in
    (h.counts k, ground (arith, h.counts k, calls_by-le ((run events fresh).go.goroutines k)))
