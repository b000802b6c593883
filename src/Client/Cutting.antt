-- ===== src/Client/Cutting.antt =====
-- The fields of a payload are cut out as they were put together: `set` of pipebomb/client.py, and what
-- the other payloads of pipebomb/client.py and pipebomb/server.py share.
use pipebomb.Base.{
  Bytes, ℕ, ◌+◌, ◌<◌, [], ◌∷◌, ◌++◌, ◌≡◌, refl, length, slice, slice-at, append_assoc, append-nil,
  length-append, arith, ltb, false, Bool-cases, inl, inr, if◌then◌else◌,
}
use pipebomb.Base.Result.{ok}
use pipebomb.Wire.Struct.{be_digits, u32_limit}
use pipebomb.Wire.Struct.Laws.{pack_u32-fits, unpack_2-packed}
use pipebomb.Server.Fields.{set_fields}
use pipebomb.Client.Messages.{set_payload}

pub ruleset regroup = (append_assoc, append-nil)

-- The fields that follow a header of known length, cut out by their lengths.
module _ (h a b c d : Bytes) (n : ℕ) (sized : n ≡ length h) where
  pub cut_first : (rest : Bytes) → slice n (n + length a) (h ++ (a ++ rest)) ≡ a
  cut_first rest = slice-at _ _ _ h a rest refl sized (omega arith)

  pub cut_second :
      (rest : Bytes) → slice (n + length a) (n + length a + length b) (h ++ (a ++ (b ++ rest))) ≡ b
  cut_second rest =
      slice-at _ _ _ (h ++ a) b rest (simp regroup) (omega (arith, length-append h a))
        (omega (arith, length-append h a))

  pub cut_third :
      (rest : Bytes)
      → slice
          (n + length a + length b)
          (n + length a + length b + length c)
          (h ++ (a ++ (b ++ (c ++ rest))))
        ≡ c
  cut_third rest =
      slice-at _ _ _ (h ++ (a ++ b)) c rest (simp regroup)
        (omega (arith, length-append h (a ++ b), length-append a b))
        (omega (arith, length-append h (a ++ b), length-append a b))

  pub cut_fourth :
      (rest : Bytes)
      → slice
          (n + length a + length b + length c)
          (n + length a + length b + length c + length d)
          (h ++ (a ++ (b ++ (c ++ (d ++ rest)))))
        ≡ d
  cut_fourth rest =
      slice-at _ _ _ (h ++ (a ++ (b ++ c))) d rest (simp regroup)
        (omega
          (arith, length-append h (a ++ (b ++ c)), length-append a (b ++ c), length-append b c))
        (omega
          (arith, length-append h (a ++ (b ++ c)), length-append a (b ++ c), length-append b c))

-- The payload of `set`, behind its opcode.
abbrev pub set_value : Bytes → Bytes → Bytes
set_value key value = be_digits 4 (length key) ++ (be_digits 4 (length value) ++ (key ++ value))

pub set_payload_lem :
    (key value : Bytes)
    → length key < u32_limit
    → length value < u32_limit
    → set_payload key value ≡ ok (0x81 ∷ set_value key value)
unfolding set_payload be_digits
set_payload_lem key value hk hv =
    rw (pack_u32-fits (length key) hk, pack_u32-fits (length value) hv)

-- The server stores the value under the key that the client gave.
pub set_fields-set_value :
    (key value : Bytes)
    → length key < u32_limit
    → length value < u32_limit
    → set_fields (set_value key value) ≡ ok (key, value)
unfolding set_fields be_digits
set_fields-set_value key value hk hv =
    let h = be_digits 4 (length key) ++ be_digits 4 (length value) in
    rw (
      unpack_2-packed (length key) (length value) (key ++ value) hk hv,
      cut_first h key value [] [] 8 refl value,
      rw append-nil at (cut_second h key value [] [] 8 refl []),
    )
