-- ===== src/Cdp/Ends.antt =====
-- env/cdp.py: the fuel of `recv_text` is enough for what is left of the stream.
use celestia_devtools.Prelude.{
  ℕ, zero, suc, ◌+◌, ◌≤◌, ◌<◌, ◌/◌, ◌%◌, Bool, true, false, Option, none, some, List, [], ◌∷◌, ltb,
  leb, ◌==◌, if◌then◌else◌, not, ◌&&◌, ◌||◌, length, ◌≡◌, ◌≢◌, refl, arith, ap, subst, Option-cases,
  inl, inr,
}
use celestia_devtools.Cdp.{
  Frame, Read, got, bad, short, read_exact, read_length, read_payload, read_server_frame,
  is_control, is_known, max_message_bytes, Ending, end_of_file, time_out, os_error, Connection,
  Answer, failed, out_of_fuel, protocol, high_bit, Outcome, Pending, send_frame, stop, ended,
  on_frame, recv_loop, recv_text,
}

abbrev rest_of {ℓ} : {A : Type ℓ} → Option (A × List ℕ) → List ℕ
rest_of none = []
rest_of (some (a, rest)) = rest

read_exact-le :
    (size : ℕ) (stream : List ℕ) → length (rest_of (read_exact size stream)) ≤ length stream
unfolding read_exact
read_exact-le zero stream = omega arith
read_exact-le (suc size) [] = omega arith
read_exact-le (suc size) (byte ∷ stream) = elim (Option-cases (read_exact size stream)) [
  | inl n ↦ rw (rest_of, n) (omega arith)
  | inr ((more, left), e) ↦
      rw (rest_of, e)
        (let shorter = read_exact-le size stream in
          let here : length left ≤ length stream =
            subst (λ o. length (rest_of o) ≤ length stream) e shorter in
          omega (arith, here))
]

abbrev left_of {ℓ} : {A : Type ℓ} → Read A → List ℕ
left_of (got a rest) = rest
left_of bad = []
left_of short = []

abbrev is_ended : Answer → Bool
is_ended (failed out_of_fuel) = false
is_ended answer = true

-- The outcome is not that of used-up fuel.
data Ends (o : Outcome) : Type 0 where
  ends : is_ended o.answer ≡ true → Ends o

either : (b : Bool) {x y : Outcome} → Ends x → Ends y → Ends (if b then x else y)
either true a b = a
either false a b = b

on_frame-Ends :
    (sends : List (ℕ × List ℕ) → Bool) (ending : Ending)
    (next : Pending → Connection → List ℕ → Outcome) (f : Frame) (p : Pending) (c : Connection)
    (rest : List ℕ)
    → ((q : Pending) (d : Connection) → Ends (next q d rest))
    → Ends (on_frame sends ending next f p c rest)
unfolding on_frame
on_frame-Ends sends ending next f p c rest h =
    either (f.opcode == 9) (either (send_frame sends 10 f.payload c).0 (h _ _) (ends refl)) (
      either (f.opcode == 10) (h _ _) (
        either (f.opcode == 8) (ends refl) (
          either (f.opcode == 2) (ends refl) (
            either (f.opcode == 0)
              (either (not p.in_message) (ends refl) (
                either (ltb max_message_bytes (p.total + length f.payload)) (ends refl)
                  (either (not f.fin) (h _ _) (ends refl))))
              (either (not (f.opcode == 1)) (ends refl)
                (either p.in_message (ends refl) (either f.fin (ends refl) (h _ _))))))))

ended-Ends : (ending : Ending) (c : Connection) → Ends (ended ending c)
ended-Ends end_of_file c = ends refl
ended-Ends time_out c = ends refl
ended-Ends os_error c = ends refl

-- What is left of the stream is no longer than `n`.
data Leaves {A : Type 0} (n : ℕ) (r : Read A) : Type 0 where
  leaves : length (left_of r) ≤ n → Leaves n r

choose :
    {A : Type 0} (b : Bool) {n : ℕ} {x y : Read A}
    → Leaves n x
    → Leaves n y
    → Leaves n (if b then x else y)
choose true a b = a
choose false a b = b

reject : {A : Type 0} (b : Bool) {n : ℕ} {y : Read A} → Leaves n y → Leaves n (if b then bad else y)
reject true a = leaves (omega arith)
reject false a = a

after_read :
    {A : Type 0} (o : Option (List ℕ × List ℕ)) (n : ℕ) (k : List ℕ × List ℕ → Read A)
    → length (rest_of o) ≤ n
    → ((x : List ℕ × List ℕ) → length x.1 ≤ n → Leaves n (k x))
    → Leaves n (elim o [ none ↦ short | some x ↦ k x ])
after_read none n k le each = leaves (omega arith)
after_read (some (bytes, rest)) n k le each = each (bytes, rest) le

read_length-Leaves : (code : ℕ) (stream : List ℕ) → Leaves (length stream) (read_length code stream)
unfolding read_length
read_length-Leaves code stream =
    choose (code == 126)
      (after_read (read_exact 2 stream) _ _ (read_exact-le 2 stream) (λ x le. leaves le))
      (choose (code == 127)
        (after_read (read_exact 8 stream) _ _ (read_exact-le 8 stream)
          (λ x le. reject (high_bit x.0) (leaves le)))
        (leaves (omega arith)))

read_payload-Leaves :
    (fin : Bool) (opcode size n : ℕ) (stream : List ℕ)
    → length stream ≤ n
    → Leaves n (read_payload fin opcode size stream)
unfolding read_payload
read_payload-Leaves fin opcode size n stream le =
    reject (is_control opcode && (not fin || ltb 125 size)) (
      reject (ltb max_message_bytes size) (
        after_read (read_exact size stream) n _ (omega (arith, le, read_exact-le size stream))
          (λ x less. leaves less)))

sized :
    (r : Read ℕ) (n : ℕ) (k : ℕ → List ℕ → Read Frame)
    → Leaves n r
    → ((size : ℕ) (rest : List ℕ) → length rest ≤ n → Leaves n (k size rest))
    → Leaves n (elim r [ got size rest ↦ k size rest | bad ↦ bad | short ↦ short ])
sized (got size rest) n k (leaves le) each = each size rest le
sized bad n k le each = leaves (omega arith)
sized short n k le each = leaves (omega arith)

-- A frame takes two bytes at least from the stream.
read_server_frame-Leaves :
    (first second : ℕ) (stream : List ℕ)
    → Leaves (length stream) (read_server_frame (first ∷ second ∷ stream))
unfolding read_server_frame
read_server_frame-Leaves first second stream = reject (not (first / 16 % 8 == 0)) (
    reject (not (is_known (first % 16))) (
      reject (leb 128 second) (
        sized (read_length (second % 128) stream) (length stream) _
          (read_length-Leaves (second % 128) stream)
          (λ size rest le.
            read_payload-Leaves (leb 128 first) (first % 16) size (length stream) rest le))))

-- `recv_loop` with a round for each two bytes that are left, and one more.
recv_loop-Ends :
    (sends : List (ℕ × List ℕ) → Bool) (ending : Ending) (fuel : ℕ) (p : Pending) (c : Connection)
    (stream : List ℕ)
    → length stream < fuel
    → Ends (recv_loop sends ending fuel p c stream)
unfolding recv_loop read_server_frame
recv_loop-Ends sends ending zero p c stream enough = absurd (omega (arith, enough))
recv_loop-Ends sends ending (suc fuel) p c [] enough = ended-Ends ending c
recv_loop-Ends sends ending (suc fuel) p c (byte ∷ []) enough = ended-Ends ending c
recv_loop-Ends sends ending (suc fuel) p c (first ∷ second ∷ stream) enough =
    framed (read_server_frame (first ∷ second ∷ stream))
      (read_server_frame-Leaves first second stream)
      (λ q d rest le. recv_loop-Ends sends ending fuel q d rest (omega (arith, le, enough)))
  where
    framed :
        (r : Read Frame)
        → Leaves (length stream) r
        → ((q : Pending) (d : Connection) (rest : List ℕ)
            → length rest ≤ length stream
            → Ends (recv_loop sends ending fuel q d rest))
        → Ends (elim r [
          | got f rest ↦ on_frame sends ending (recv_loop sends ending fuel) f p c rest
          | bad ↦ stop (failed protocol) c (first ∷ second ∷ stream)
          | short ↦ ended ending c
        ])
    framed (got f rest) (leaves le) each =
        on_frame-Ends sends ending (recv_loop sends ending fuel) f p c rest
          (λ q d. each q d rest le)
    framed bad le each = ends refl
    framed short le each = ended-Ends ending c

-- On a stream that ends, whatever the socket takes, the fuel of `recv_text` is never used up.
pub recv_text-ends :
    (sends : List (ℕ × List ℕ) → Bool) (ending : Ending) (c : Connection) (stream : List ℕ)
    → (recv_text sends ending c stream).answer ≢ failed out_of_fuel
unfolding recv_text
recv_text-ends sends ending c stream =
    fueled _ (recv_loop-Ends sends ending (suc (length stream)) _ c stream (omega arith))
  where
    fueled : (o : Outcome) → Ends o → o.answer ≢ failed out_of_fuel
    fueled o (ends h) = λ e. ground (arith, h, ap is_ended e)
