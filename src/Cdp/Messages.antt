-- ===== src/Cdp/Messages.antt =====
-- env/cdp.py: `recv_text` puts a message together from its fragments, and answers the pings.
use celestia_devtools.Prelude.{
  ℕ, zero, suc, ◌+◌, ◌≤◌, ◌<◌, Bool, true, false, List, [], ◌∷◌, ◌++◌, ltb, length, length-append,
  ◌≡◌, refl, arith, sym, ◌∙◌,
}
use mathlib.Core.List.{append_assoc, append-nil}
use celestia_devtools.Cdp.Utf8.{utf8}
use celestia_devtools.Cdp.{
  Frame, max_message_bytes, Ending, Connection, join, text, Outcome, Pending, send_frame, stop,
  on_frame, recv_loop, recv_text,
}
use celestia_devtools.Cdp.Frames.{
  server_frame, IsSendable, read_server_frame-server_frame, length-server_frame,
}

abbrev frame : Bool → ℕ → List ℕ → Frame
frame fin opcode payload = record { fin = fin; opcode = opcode; payload = payload }

-- What a server may send between the first and the last fragment of a message.
pub data Item : Type 0 where
  ping pong more : (payload : List ℕ) → Item

abbrev pub frame_of : Item → Frame
frame_of (ping payload) = frame true 9 payload
frame_of (pong payload) = frame true 10 payload
frame_of (more payload) = frame false 0 payload

-- Their frames, followed by a stream.
abbrev pub stream_of : List Item → List ℕ → List ℕ
stream_of [] tail = tail
stream_of (i ∷ items) tail = server_frame (frame_of i) ++ stream_of items tail

abbrev pub parts_of : List Item → List ℕ
parts_of [] = []
parts_of (more payload ∷ items) = payload ++ parts_of items
parts_of (i ∷ items) = parts_of items

-- The pongs that answer the pings.
abbrev pub pongs_of : List Item → List (ℕ × List ℕ)
pongs_of [] = []
pongs_of (ping payload ∷ items) = (10, payload) ∷ pongs_of items
pongs_of (i ∷ items) = pongs_of items

abbrev pub AreSendable : List Item → Type 0
AreSendable [] = Unit
AreSendable (i ∷ items) = IsSendable (frame_of i) × AreSendable items

join_snoc : (parts : List (List ℕ)) (part : List ℕ) → join (parts ++ part ∷ []) ≡ join parts ++ part
join_snoc [] part = append-nil part
join_snoc (p ∷ parts) part = rw (join_snoc parts part) (sym (append_assoc p (join parts) part))

module _ (sends : List (ℕ × List ℕ) → Bool) (ending : Ending)
    (takes : (sent : List (ℕ × List ℕ)) → sends sent ≡ true) where
  abbrev open_with : List (ℕ × List ℕ) → Connection
  open_with sent = record { closed = false; sent = sent }

  round :
      (fuel : ℕ) (f : Frame) (p : Pending) (c : Connection) (rest : List ℕ)
      → IsSendable f
      → recv_loop sends ending (suc fuel) p c (server_frame f ++ rest)
        ≡ on_frame sends ending (recv_loop sends ending fuel) f p c rest
  unfolding recv_loop
  round fuel f p c rest s = rw (recv_loop, read_server_frame-server_frame f rest s) refl

  on_pong :
      (next : Pending → Connection → List ℕ → Outcome) (payload : List ℕ) (p : Pending)
      (c : Connection) (rest : List ℕ)
      → on_frame sends ending next (frame true 10 payload) p c rest ≡ next p c rest
  unfolding on_frame
  on_pong next payload p c rest = refl

  on_first :
      (next : Pending → Connection → List ℕ → Outcome) (payload : List ℕ) (c : Connection)
      (rest : List ℕ)
      → on_frame sends ending next
          (frame false 1 payload)
          (record { fragments = []; total = 0; in_message = false })
          c
          rest
        ≡ next
            (record { fragments = payload ∷ []; total = length payload; in_message = true })
            c
            rest
  unfolding on_frame
  on_first next payload c rest = refl

  on_ping :
      (next : Pending → Connection → List ℕ → Outcome) (payload : List ℕ) (p : Pending)
      (sent : List (ℕ × List ℕ)) (rest : List ℕ)
      → on_frame sends ending next (frame true 9 payload) p (open_with sent) rest
        ≡ next p (open_with (sent ++ (10, payload) ∷ [])) rest
  unfolding on_frame send_frame
  on_ping next payload p sent rest = rw (takes sent) refl

  abbrev middle : List (List ℕ) → ℕ → Pending
  middle fragments total = record { fragments = fragments; total = total; in_message = true }

  on_more :
      (next : Pending → Connection → List ℕ → Outcome) (payload : List ℕ)
      (fragments : List (List ℕ)) (total : ℕ) (c : Connection) (rest : List ℕ)
      → total + length payload ≤ max_message_bytes
      → on_frame sends ending next (frame false 0 payload) (middle fragments total) c rest
        ≡ next (middle (fragments ++ payload ∷ []) (total + length payload)) c rest
  unfolding on_frame
  on_more next payload fragments total c rest small = rw fits refl
    where
      fits : ltb max_message_bytes (total + length payload) ≡ false
      fits = ground arith

  on_last :
      (next : Pending → Connection → List ℕ → Outcome) (payload : List ℕ)
      (fragments : List (List ℕ)) (total : ℕ) (c : Connection) (rest : List ℕ)
      → total + length payload ≤ max_message_bytes
      → on_frame sends ending next (frame true 0 payload) (middle fragments total) c rest
        ≡ stop (text (utf8 (join (fragments ++ payload ∷ [])))) c rest
  unfolding on_frame
  on_last next payload fragments total c rest small = rw fits refl
    where
      fits : ltb max_message_bytes (total + length payload) ≡ false
      fits = ground arith

  inside_message :
      (fuel total : ℕ) (items : List Item) (last : List ℕ) (fragments : List (List ℕ))
      (sent : List (ℕ × List ℕ)) (rest : List ℕ)
      → length items < fuel
      → AreSendable items
      → IsSendable (frame true 0 last)
      → total + length (parts_of items) + length last ≤ max_message_bytes
      → recv_loop sends ending fuel
          (middle fragments total)
          (open_with sent)
          (stream_of items (server_frame (frame true 0 last) ++ rest))
        ≡ stop
            (text (utf8 (join fragments ++ (parts_of items ++ last))))
            (open_with (sent ++ pongs_of items))
            rest
  inside_message zero total items last fragments sent rest enough a l small =
      absurd (omega (arith, enough))
  inside_message (suc fuel) total [] last fragments sent rest enough a l small =
      round fuel (frame true 0 last) (middle fragments total) (open_with sent) rest l
      ∙ on_last (recv_loop sends ending fuel) last fragments total (open_with sent) rest
          (omega arith)
      ∙ rw (join_snoc fragments last, append-nil sent) refl
  inside_message (suc fuel) total (ping payload ∷ items) last fragments sent rest enough a l small =
      round fuel (frame true 9 payload) (middle fragments total) (open_with sent) _ a.0
      ∙ on_ping (recv_loop sends ending fuel) payload (middle fragments total) sent _
      ∙ inside_message fuel total items last fragments (sent ++ (10, payload) ∷ []) rest
          (omega arith) a.1 l small
      ∙ rw (append_assoc sent ((10, payload) ∷ []) (pongs_of items)) refl
  inside_message (suc fuel) total (pong payload ∷ items) last fragments sent rest enough a l small =
      round fuel (frame true 10 payload) (middle fragments total) (open_with sent) _ a.0
      ∙ on_pong (recv_loop sends ending fuel) payload (middle fragments total) (open_with sent) _
      ∙ inside_message fuel total items last fragments sent rest (omega arith) a.1 l small
  inside_message (suc fuel) total (more payload ∷ items) last fragments sent rest enough a l small =
      round fuel (frame false 0 payload) (middle fragments total) (open_with sent) _ a.0
      ∙ on_more (recv_loop sends ending fuel) payload fragments total (open_with sent) _
          (omega (arith, length-append payload (parts_of items)))
      ∙ inside_message fuel (total + length payload) items last (fragments ++ payload ∷ []) sent
          rest (omega arith) a.1 l (omega (arith, length-append payload (parts_of items)))
      ∙ rw
          (
            join_snoc fragments payload,
            append_assoc (join fragments) payload (parts_of items ++ last),
            append_assoc payload (parts_of items) last,
          )
          refl

  length-stream_of :
      (items : List Item) (tail : List ℕ)
      → length items + length tail ≤ length (stream_of items tail)
  length-stream_of [] tail = omega arith
  length-stream_of (i ∷ items) tail =
      omega (
        arith,
        length-server_frame (frame_of i) (stream_of items tail),
        length-stream_of items tail,
      )

-- A text message that comes in fragments, with pings and pongs in between, is put together by
-- `recv_text`: its text is decoded from the bytes of the fragments in order, each ping is answered by a pong of the same
-- payload, and the reader stands behind the message. Each frame is one that a server may send, the
-- message is within the limit, and the socket takes what is sent.
pub recv_text-fragments :
    (sends : List (ℕ × List ℕ) → Bool) (ending : Ending)
    → ((sent : List (ℕ × List ℕ)) → sends sent ≡ true)
    → (first last : List ℕ) (items : List Item) (sent : List (ℕ × List ℕ)) (rest : List ℕ)
    → IsSendable (frame false 1 first)
    → AreSendable items
    → IsSendable (frame true 0 last)
    → length first + length (parts_of items) + length last ≤ max_message_bytes
    → recv_text sends ending
        (record { closed = false; sent = sent })
        (server_frame (frame false 1 first)
          ++ stream_of items (server_frame (frame true 0 last) ++ rest))
      ≡ stop
          (text (utf8 (first ++ (parts_of items ++ last))))
          (record { closed = false; sent = sent ++ pongs_of items })
          rest
unfolding recv_text
recv_text-fragments sends ending takes first last items sent rest s a l small =
    let tail = stream_of items (server_frame (frame true 0 last) ++ rest) in
    round sends ending takes (length (server_frame (frame false 1 first) ++ tail))
      (frame false 1 first) (record { fragments = []; total = 0; in_message = false })
      (record { closed = false; sent = sent }) tail s
    ∙ on_first sends ending takes
        (recv_loop sends ending (length (server_frame (frame false 1 first) ++ tail))) first
        (record { closed = false; sent = sent }) tail
    ∙ inside_message sends ending takes (length (server_frame (frame false 1 first) ++ tail))
        (length first) items last (first ∷ []) sent rest
        (omega (
          arith,
          length-server_frame (frame false 1 first) tail,
          length-stream_of sends ending takes items (server_frame (frame true 0 last) ++ rest),
        ))
        a l small
    ∙ rw (append-nil first) refl
