-- ===== src/Wire/Consumption.antt =====
-- A round of the receiving loops of pipebomb/server.py and pipebomb/client.py takes bytes off what is
-- pending.
use pipebomb.Base.{
  Bytes, ℕ, ◌+◌, ◌≤◌, List, [], ◌∷◌, ◌++◌, ap, Option, is_empty, length, concat, length-append,
  arith, inl, inr, Bool-cases,
}
use pipebomb.Base.Result.{Result, ok, err}
use pipebomb.Wire.Framing.{Extracted, whole, no_header, partial, bad_header, extract_total}
use pipebomb.Wire.Stream.{Received, frame, framing_error, end_of_stream, settle, recv_frame}
use mathlib.Core.Path.{subst}

-- Bytes that have arrived or will.
abbrev pub pending : Bytes → List Bytes → ℕ
pending buffer chunks = length buffer + length (concat chunks)

-- A frame that is received takes six bytes at least off what is pending.
abbrev pub Consumes : ℕ → Result Received → Type 0
Consumes n (ok (frame found left unread)) = pending left unread + 6 ≤ n
Consumes n (ok (framing_error code unread)) = Unit
Consumes n (ok (end_of_stream left)) = Unit
Consumes n (err e) = Unit

settle-Consumes :
    {buffer : Bytes} {r : Option Bytes × Bytes × Option ℕ} (chunks : List Bytes)
    (k : Bytes → Result Received)
    → Extracted buffer r
    → Consumes (pending buffer chunks) (k buffer)
    → Consumes (pending buffer chunks) (settle r chunks k)
settle-Consumes chunks k (whole found rest joined long _) h =
    omega (arith, ap length joined, length-append found rest)
settle-Consumes chunks k (no_header _) h = h
settle-Consumes chunks k (partial _ _) h = h
settle-Consumes chunks k (bad_header _ _) h = tt

pub recv_frame-Consumes :
    (buffer : Bytes) (chunks : List Bytes)
    → Consumes (pending buffer chunks) (recv_frame buffer chunks)
unfolding recv_frame
recv_frame-Consumes buffer [] =
    let (r, e, x) = extract_total buffer in rw e (settle-Consumes [] _ x tt)
recv_frame-Consumes buffer (chunk ∷ chunks) =
    let (r, e, x) = extract_total buffer in
    rw e (
      settle-Consumes (chunk ∷ chunks) _ x (elim (Bool-cases (is_empty chunk)) [
        | inl closed ↦ rw closed tt
        | inr open_chunk ↦ rw open_chunk (
            subst (λ n. Consumes n (recv_frame (buffer ++ chunk) chunks))
              (omega (arith, length-append buffer chunk, length-append chunk (concat chunks)))
              (recv_frame-Consumes (buffer ++ chunk) chunks))
      ]))
