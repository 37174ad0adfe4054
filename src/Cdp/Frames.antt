-- ===== src/Cdp/Frames.antt =====
-- env/cdp.py: `read_server_frame` reads what RFC 6455 has a server write.
use celestia_devtools.Prelude.{
  ℕ, ◌+◌, ◌*◌, ◌/◌, ◌%◌, ◌≤◌, ◌<◌, Bool, true, false, some, List, [], ◌∷◌, ◌++◌, ltb, leb,
  if◌then◌else◌, ◌||◌, ◌&&◌, not, length, length-append, ◌≡◌, refl, arith, ap, subst, sym, ◌∙◌,
  Bool-cases, inl, inr,
}
use mathlib.Core.List.{append_assoc}
use celestia_devtools.Cdp.{
  Frame, got, read_exact, from_bytes, read_length, read_payload, read_server_frame, is_control,
  is_known, max_message_bytes,
}

pub read_exact-append :
    (bytes rest : List ℕ) → read_exact (length bytes) (bytes ++ rest) ≡ some (bytes, rest)
unfolding read_exact
read_exact-append [] rest = refl
read_exact-append (byte ∷ bytes) rest = rw (read_exact-append bytes rest) refl

-- The second byte of a frame and the extended length, for a payload below 4 GiB.
abbrev pub length_code : ℕ → ℕ
length_code n = if ltb n 126 then n else if ltb n 65536 then 126 else 127

abbrev pub extended_length : ℕ → List ℕ
extended_length n =
    if ltb n 126
    then []
    else if ltb n 65536
    then n / 256 ∷ n % 256 ∷ []
    else 0 ∷ 0 ∷ 0 ∷ 0 ∷ n / 16777216 ∷ n / 65536 % 256 ∷ n / 256 % 256 ∷ n % 256 ∷ []

-- The frame as a server writes it: unmasked, with no reserved bit.
unfoldable pub server_frame : Frame → List ℕ
server_frame f =
    ((if f.fin then 128 else 0) + f.opcode)
      ∷ length_code (length f.payload)
      ∷ extended_length (length f.payload)
    ++ f.payload

-- A frame that a server may send: a known opcode, a payload within the limits, control frames whole.
abbrev pub IsSendable : Frame → Type 0
IsSendable f =
    (is_known f.opcode ≡ true)
    × (length f.payload ≤ max_message_bytes)
    × ((is_control f.opcode && (not f.fin || ltb 125 (length f.payload))) ≡ false)

two_bytes : (n : ℕ) → (0 * 256 + n / 256) * 256 + n % 256 ≡ n
two_bytes n = omega arith

four_bytes :
    (n : ℕ)
    → ((((0 * 256 + n / 16777216) * 256 + n / 65536 % 256)) * 256 + n / 256 % 256) * 256 + n % 256
      ≡ n
four_bytes n = omega arith

short_length : (n : ℕ) (rest : List ℕ) → ltb n 126 ≡ true → read_length n rest ≡ got n rest
unfolding read_length
short_length n rest h = ground arith

medium_length : (n : ℕ) (rest : List ℕ) → read_length 126 (n / 256 ∷ n % 256 ∷ rest) ≡ got n rest
unfolding read_length read_exact from_bytes
medium_length n rest = ap (λ x. got x rest) (two_bytes n)

long_length :
    (n : ℕ) (rest : List ℕ)
    → read_length 127
        (0 ∷ 0 ∷ 0 ∷ 0 ∷ n / 16777216 ∷ n / 65536 % 256 ∷ n / 256 % 256 ∷ n % 256 ∷ rest)
      ≡ got n rest
unfolding read_length read_exact from_bytes
long_length n rest = ap (λ x. got x rest) (four_bytes n)

read_length_lem :
    (n : ℕ) (rest : List ℕ) → read_length (length_code n) (extended_length n ++ rest) ≡ got n rest
read_length_lem n rest = elim (Bool-cases (ltb n 126)) [
  | inl small ↦ rw (length_code, extended_length, small) (short_length n rest small)
  | inr more ↦ elim (Bool-cases (ltb n 65536)) [
    | inl medium ↦ rw (length_code, extended_length, more, medium) (medium_length n rest)
    | inr large ↦ rw (length_code, extended_length, more, large) (long_length n rest)
  ]
]

length_code-lt : (n : ℕ) → length_code n < 128
length_code-lt n = ground arith

first_byte :
    (fin : Bool) (opcode : ℕ)
    → is_known opcode ≡ true
    → (((if fin then 128 else 0) + opcode) / 16 % 8 ≡ 0)
      × (((if fin then 128 else 0) + opcode) % 16 ≡ opcode)
      × (leb 128 ((if fin then 128 else 0) + opcode) ≡ fin)
first_byte true opcode k = ground arith
first_byte false opcode k = ground arith

read_payload_lem :
    (f : Frame) (rest : List ℕ)
    → IsSendable f
    → read_payload f.fin f.opcode (length f.payload) (f.payload ++ rest) ≡ got f rest
unfolding read_payload
read_payload_lem f rest (k, small, control) =
    rw (read_payload, control, fits, read_exact-append f.payload rest) refl
  where
    fits : ltb max_message_bytes (length f.payload) ≡ false
    fits = ground arith

mod_small : (m : ℕ) → m < 128 → m % 128 ≡ m
mod_small m h = omega arith

header_lem :
    (first second size : ℕ) (stream rest : List ℕ)
    → first / 16 % 8 ≡ 0
    → is_known (first % 16) ≡ true
    → second < 128
    → read_length (second % 128) stream ≡ got size rest
    → read_server_frame (first ∷ second ∷ stream)
      ≡ read_payload (leb 128 first) (first % 16) size rest
unfolding read_server_frame
header_lem first second size stream rest reserved known unmasked sized =
    rw (read_server_frame, reserved, known, plain, sized) refl
  where
    plain : leb 128 second ≡ false
    plain = ground arith

-- `read_server_frame` reads each frame that a server may send and whose payload is within the limit of
-- 64 MiB, whatever follows it in the stream.
pub read_server_frame-server_frame :
    (f : Frame) (rest : List ℕ)
    → IsSendable f
    → read_server_frame (server_frame f ++ rest) ≡ got f rest
unfolding server_frame
read_server_frame-server_frame f rest (k, small, control) =
    let first = first_byte f.fin f.opcode k in
    header_lem ((if f.fin then 128 else 0) + f.opcode) (length_code (length f.payload))
      (length f.payload) _ (f.payload ++ rest) first.0
      (subst (λ o. is_known o ≡ true) (sym first.1) k) (length_code-lt (length f.payload))
      (rw
        (
          append_assoc (extended_length (length f.payload)) f.payload rest,
          mod_small (length_code (length f.payload)) (length_code-lt (length f.payload)),
        )
        (read_length_lem (length f.payload) (f.payload ++ rest)))
    ∙ ap
        (λ b.
          read_payload b (((if f.fin then 128 else 0) + f.opcode) % 16) (length f.payload)
            (f.payload ++ rest))
        first.2
    ∙ ap (λ o. read_payload f.fin o (length f.payload) (f.payload ++ rest)) first.1
    ∙ read_payload_lem f rest (k, small, control)

-- A frame takes two bytes of the stream at least.
pub length-server_frame :
    (f : Frame) (tail : List ℕ) → length tail + 2 ≤ length (server_frame f ++ tail)
unfolding server_frame
length-server_frame f tail =
    omega (arith, length-append (extended_length (length f.payload) ++ f.payload) tail)
