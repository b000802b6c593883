-- ===== src/Wire/Reassembly.antt =====
-- However the network cuts the byte stream, the loop of `Stream` takes the frames off it whole.
use pipebomb.Base.{
  Bytes, ◌≤◌, ◌<◌, List, [], ◌∷◌, ◌++◌, ◌≡◌, refl, sym, ap, ◌∙◌, false, leb, is_empty, Bool-cases,
  none, length, take, drop, concat, All, length-append, take-append-drop, take-append_left,
  drop-append_left, take-append_within, drop-append_within, append_assoc, arith, inl, inr,
}
use pipebomb.Base.Result.{ok}
use pipebomb.Wire.Struct.{u32_limit}
use pipebomb.Wire.Packet.{extract_packet_frame}
use pipebomb.Wire.Framing.{frame_of, extract-frame_of, extract_partial}
use pipebomb.Wire.Stream.{frame, recv_frame}

-- `sock_recv` returns an empty chunk at the end of the stream only.
abbrev pub IsOpen : List Bytes → Type 0
IsOpen = All (λ chunk. is_empty chunk ≡ false)

-- What stands at the front of two splittings of one list.
front :
    {A : Type 0} (xs ys zs ws : List A)
    → xs ++ ys ≡ zs ++ ws
    → length zs ≤ length xs
    → xs ≡ zs ++ drop (length zs) xs
front xs ys zs ws e h =
    sym (take-append-drop (length zs) xs)
    ∙ ap (λ t. t ++ drop (length zs) xs)
        (sym (take-append_within (length zs) xs ys h)
          ∙ ap (take (length zs)) e
          ∙ take-append_left (length zs) zs ws refl)

back :
    {A : Type 0} (xs ys zs ws : List A)
    → xs ++ ys ≡ zs ++ ws
    → length zs ≤ length xs
    → drop (length zs) xs ++ ys ≡ ws
back xs ys zs ws e h =
    sym (drop-append_within (length zs) xs ys h)
    ∙ ap (drop (length zs)) e
    ∙ drop-append_left (length zs) zs ws refl

-- The first frame of a stream is received whole, and the rest of the stream is kept: in the buffer
-- and in the chunks not yet received.
pub record Reassembled (buffer : Bytes) (chunks : List Bytes) (ct more : Bytes) : Type 0 where
  pub left : Bytes
  pub unread : List Bytes
  pub received : recv_frame buffer chunks ≡ ok (frame (frame_of ct) left unread)
  pub rest : left ++ concat unread ≡ more
  pub still_open : IsOpen unread

pub recv_frame-whole :
    (buffer rest : Bytes) (chunks : List Bytes) (ct : Bytes)
    → length ct < u32_limit
    → buffer ≡ frame_of ct ++ rest
    → recv_frame buffer chunks ≡ ok (frame (frame_of ct) rest chunks)
unfolding recv_frame
recv_frame-whole buffer rest [] ct h e = rw (e, extract-frame_of ct rest h)
recv_frame-whole buffer rest (chunk ∷ chunks) ct h e = rw (e, extract-frame_of ct rest h)

pub recv_frame-partial :
    (buffer chunk : Bytes) (chunks : List Bytes)
    → is_empty chunk ≡ false
    → extract_packet_frame buffer ≡ ok (none, buffer, none)
    → recv_frame buffer (chunk ∷ chunks) ≡ recv_frame (buffer ++ chunk) chunks
unfolding recv_frame
recv_frame-partial buffer chunk chunks h e = rw (e, h)

-- A short front part of a stream that begins with a frame is a front part of the frame.
extract-front :
    (buffer rest ct more : Bytes)
    → length ct < u32_limit
    → buffer ++ rest ≡ frame_of ct ++ more
    → length buffer < length (frame_of ct)
    → extract_packet_frame buffer ≡ ok (none, buffer, none)
extract-front buffer rest ct more h e short =
    extract_partial ct buffer (drop (length buffer) (frame_of ct)) h
      (sym (front (frame_of ct) more buffer rest (sym e) (omega arith))) short

whole_arrived :
    (buffer : Bytes) (chunks : List Bytes) (ct more : Bytes)
    → length ct < u32_limit
    → IsOpen chunks
    → buffer ++ concat chunks ≡ frame_of ct ++ more
    → length (frame_of ct) ≤ length buffer
    → Reassembled buffer chunks ct more
whole_arrived buffer chunks ct more h open_chunks e enough = record {
  left = drop (length (frame_of ct)) buffer;
  unread = chunks;
  received =
      recv_frame-whole buffer (drop (length (frame_of ct)) buffer) chunks ct h
        (front buffer (concat chunks) (frame_of ct) more e enough);
  rest = back buffer (concat chunks) (frame_of ct) more e enough;
  still_open = open_chunks;
}

-- However the bytes of a frame and what follows it are cut into chunks, none of them empty: the
-- frame is received, and the buffer and the chunks that are left hold exactly what follows it.
pub recv_frame-reassembles :
    (buffer : Bytes) (chunks : List Bytes) (ct more : Bytes)
    → length ct < u32_limit
    → IsOpen chunks
    → buffer ++ concat chunks ≡ frame_of ct ++ more
    → Reassembled buffer chunks ct more
recv_frame-reassembles buffer [] ct more h open_chunks e =
    whole_arrived buffer [] ct more h open_chunks e
      (omega (arith, ap length e, length-append buffer [], length-append (frame_of ct) more))
recv_frame-reassembles buffer (chunk ∷ chunks) ct more h open_chunks e =
    elim (Bool-cases (leb (length (frame_of ct)) (length buffer))) [
      | inl enough ↦ whole_arrived buffer (chunk ∷ chunks) ct more h open_chunks e (ground arith)
      | inr short ↦
          let shorter : length buffer < length (frame_of ct) = ground arith in
          let waits = extract-front buffer (concat (chunk ∷ chunks)) ct more h e shorter in
          let step = recv_frame-partial buffer chunk chunks open_chunks.0 waits in
          let r =
            recv_frame-reassembles (buffer ++ chunk) chunks ct more h open_chunks.1
              (append_assoc buffer chunk (concat chunks) ∙ e) in
          record {
            left = r.left;
            unread = r.unread;
            received = step ∙ r.received;
            rest = r.rest;
            still_open = r.still_open;
          }
    ]
