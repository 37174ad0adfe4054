-- ===== src/Cdp.antt =====
-- env/cdp.py: the frames of the websocket to the app, `recv_text`, and the choice of a page. A byte
-- is a number below 256; the stream is the bytes that the reader has still to give.
pub mod Utf8
pub mod Frames
pub mod Messages
pub mod Ends
mod Samples
use Utf8.{utf8}
use celestia_devtools.Prelude.{
  Text, ℕ, zero, suc, ◌+◌, ◌*◌, ◌/◌, ◌%◌, Bool, true, false, Option, none, some, List, [], ◌∷◌,
  ◌++◌, ltb, leb, ◌==◌, if◌then◌else◌, ◌||◌, ◌&&◌, not, length,
}

-- The code of a `cdp_error`.
pub data Failure : Type 0 where
  disconnected timeout protocol : Failure
  out_of_fuel : Failure

-- What a read meets behind the last byte of the stream.
pub data Ending : Type 0 where
  end_of_file time_out os_error : Ending

abbrev pub max_message_bytes : ℕ
max_message_bytes = 67108864

abbrev pub is_control : ℕ → Bool
is_control opcode = opcode == 8 || (opcode == 9 || opcode == 10)

abbrev pub is_known : ℕ → Bool
is_known opcode = ltb opcode 3 || is_control opcode

-- `_read_exact`; `none` where the stream ends before.
unfoldable pub read_exact : ℕ → List ℕ → Option (List ℕ × List ℕ)
read_exact zero stream = some ([], stream)
read_exact (suc size) [] = none
read_exact (suc size) (byte ∷ stream) = elim (read_exact size stream) [
  | none ↦ none
  | some (bytes, rest) ↦ some (byte ∷ bytes, rest)
]

-- `int.from_bytes(bytes, "big")`
unfoldable pub from_bytes : ℕ → List ℕ → ℕ
from_bytes acc [] = acc
from_bytes acc (byte ∷ bytes) = from_bytes (acc * 256 + byte) bytes

-- The outcome of reading a length, and of reading a frame: what it is with the rest of the stream, a
-- violation of the protocol, or a stream that ends too early.
pub data Read {ℓ} (A : Type ℓ) : Type ℓ where
  got : A → (rest : List ℕ) → Read A
  bad : Read A
  short : Read A

abbrev pub high_bit : List ℕ → Bool
high_bit [] = false
high_bit (byte ∷ bytes) = leb 128 byte

unfoldable pub read_length : ℕ → List ℕ → Read ℕ
unfolding read_exact from_bytes
read_length code stream =
    if code == 126
    then elim (read_exact 2 stream) [
      | none ↦ short
      | some (bytes, rest) ↦ got (from_bytes 0 bytes) rest
    ]
    else if code == 127
    then elim (read_exact 8 stream) [
      | none ↦ short
      | some (bytes, rest) ↦ if high_bit bytes then bad else got (from_bytes 0 bytes) rest
    ]
    else got code stream

pub record Frame : Type 0 where
  pub fin : Bool
  pub opcode : ℕ
  pub payload : List ℕ

unfoldable pub read_payload : Bool → ℕ → ℕ → List ℕ → Read Frame
unfolding read_exact
read_payload fin opcode size stream =
    if is_control opcode && (not fin || ltb 125 size)
    then bad
    else if ltb max_message_bytes size
    then bad
    else elim (read_exact size stream) [
      | none ↦ short
      | some (payload, rest) ↦ got (record { fin = fin; opcode = opcode; payload = payload }) rest
    ]

-- `read_server_frame`; `first & 0x70`, `& 0x80` and `& 0x0F` in arithmetic.
unfoldable pub read_server_frame : List ℕ → Read Frame
unfolding read_length read_payload
read_server_frame (first ∷ second ∷ stream) =
    if not (first / 16 % 8 == 0)
    then bad
    else if not (is_known (first % 16))
    then bad
    else if leb 128 second
    then bad
    else elim (read_length (second % 128) stream) [
      | got size rest ↦ read_payload (leb 128 first) (first % 16) size rest
      | bad ↦ bad
      | short ↦ short
    ]
read_server_frame stream = short

-- The connection: whether it is closed, and the frames (opcode and payload) that it has sent.
pub record Connection : Type 0 where
  pub closed : Bool
  pub sent : List (ℕ × List ℕ)

abbrev pub join : List (List ℕ) → List ℕ
join [] = []
join (part ∷ parts) = part ++ join parts

pub data Answer : Type 0 where
  text : Text → Answer
  failed : Failure → Answer

pub record Outcome : Type 0 where
  pub answer : Answer
  pub connection : Connection
  pub rest : List ℕ

-- The variables of the loop of `recv_text`.
pub record Pending : Type 0 where
  pub fragments : List (List ℕ)
  pub total : ℕ
  pub in_message : Bool

-- `sends` says whether the socket takes the next frame.
module _ (sends : List (ℕ × List ℕ) → Bool) where
  -- `send_frame`; `none` where it raises.
  unfoldable pub send_frame : ℕ → List ℕ → Connection → Bool × Connection
  send_frame opcode payload c =
      if c.closed
      then (false, c)
      else if sends c.sent
      then (true, record c { sent = c.sent ++ (opcode, payload) ∷ [] })
      else (false, record c { closed = true })

abbrev pub ended : Ending → Connection → Outcome
ended end_of_file c = record { answer = failed disconnected; connection = c; rest = [] }
ended time_out c = record { answer = failed timeout; connection = c; rest = [] }
ended os_error c = record {
  answer = failed disconnected;
  connection = record c { closed = true };
  rest = [];
}

abbrev pub stop : Answer → Connection → List ℕ → Outcome
stop answer c rest = record { answer = answer; connection = c; rest = rest }

module _ (sends : List (ℕ × List ℕ) → Bool) (ending : Ending) where
  -- One round of `recv_text` with the frame that it read; `next` is the round after it.
  unfoldable pub on_frame :
      (next : Pending → Connection → List ℕ → Outcome)
      → Frame
      → Pending
      → Connection
      → List ℕ
      → Outcome
  unfolding send_frame utf8
  on_frame next f p c rest =
      if f.opcode == 9
      then (let (went, after) = send_frame sends 10 f.payload c in
          if went then next p after rest else stop (failed disconnected) after rest)
      else if f.opcode == 10
      then next p c rest
      else if f.opcode == 8
      then stop (failed disconnected) (record c { closed = true }) rest
      else if f.opcode == 2
      then stop (failed protocol) c rest
      else if f.opcode == 0
      then (if not p.in_message
          then stop (failed protocol) c rest
          else (let q = record p {
            fragments = p.fragments ++ f.payload ∷ [];
            total = p.total + length f.payload;
          } in
              if ltb max_message_bytes q.total
              then stop (failed protocol) c rest
              else if not f.fin
              then next q c rest
              else stop (text (utf8 (join q.fragments))) c rest))
      else if not (f.opcode == 1)
      then stop (failed protocol) c rest
      else if p.in_message
      then stop (failed protocol) c rest
      else if f.fin
      then stop (text (utf8 f.payload)) c rest
      else next (record { fragments = f.payload ∷ []; total = length f.payload; in_message = true })
          c rest

  unfoldable pub recv_loop : ℕ → Pending → Connection → List ℕ → Outcome
  unfolding read_server_frame on_frame
  recv_loop zero p c stream = stop (failed out_of_fuel) c stream
  recv_loop (suc fuel) p c stream = elim (read_server_frame stream) [
    | got f rest ↦ on_frame (recv_loop fuel) f p c rest
    | bad ↦ stop (failed protocol) c stream
    | short ↦ ended ending c
  ]

  -- Each round reads two bytes at least, so a round for each byte is enough.
  unfoldable pub recv_text : Connection → List ℕ → Outcome
  unfolding recv_loop
  recv_text c stream =
      recv_loop (suc (length stream)) (record { fragments = []; total = 0; in_message = false }) c
        stream
