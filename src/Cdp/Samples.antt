-- ===== src/Cdp/Samples.antt =====
-- env/cdp.py: a message in three fragments with a ping in between, and the theorems at it.
use celestia_devtools.Prelude.{ℕ, Bool, true, false, List, [], ◌∷◌, ◌++◌, ◌≡◌, refl, arith}
use celestia_devtools.Cdp.{Frame, got, read_server_frame, end_of_file, text, stop, recv_text}
use celestia_devtools.Cdp.Frames.{server_frame, read_server_frame-server_frame}
use celestia_devtools.Cdp.Messages.{
  Item, ping, pong, more, stream_of, pongs_of, parts_of, recv_text-fragments,
}
use celestia_devtools.Cdp.Utf8.{utf8}

abbrev greeting : Frame
greeting = record { fin = true; opcode = 1; payload = 104 ∷ 105 ∷ [] }

abbrev items : List Item
items = ping (7 ∷ []) ∷ more (108 ∷ 108 ∷ []) ∷ pong [] ∷ []

abbrev quiet : List (ℕ × List ℕ) → Bool
quiet sent = true

greeting_bytes : server_frame greeting ≡ 129 ∷ 2 ∷ 104 ∷ 105 ∷ []
unfolding server_frame
greeting_bytes = refl

read_server_frame-server_frame_example :
    read_server_frame (server_frame greeting ++ (1 ∷ [])) ≡ got greeting (1 ∷ [])
read_server_frame-server_frame_example =
    read_server_frame-server_frame greeting (1 ∷ []) (refl, omega arith, refl)

recv_text-fragments_example :
    recv_text quiet end_of_file
      (record { closed = false; sent = [] })
      (server_frame (record { fin = false; opcode = 1; payload = 104 ∷ 101 ∷ [] })
        ++ stream_of items
            (server_frame (record { fin = true; opcode = 0; payload = 111 ∷ [] }) ++ (9 ∷ [])))
    ≡ stop
        (text (utf8 ((104 ∷ 101 ∷ []) ++ (parts_of items ++ (111 ∷ [])))))
        (record { closed = false; sent = [] ++ pongs_of items })
        (9 ∷ [])
recv_text-fragments_example =
    recv_text-fragments quiet end_of_file (λ sent. refl) (104 ∷ 101 ∷ []) (111 ∷ []) items []
      (9 ∷ []) (refl, omega arith, refl)
      ((refl, omega arith, refl), ((refl, omega arith, refl), ((refl, omega arith, refl), tt)))
      (refl, omega arith, refl) (omega arith)

-- "é€😀", a byte that begins nothing, and a sequence that is cut off.
decoded :
    utf8 (195 ∷ 169 ∷ 226 ∷ 130 ∷ 172 ∷ 240 ∷ 159 ∷ 152 ∷ 128 ∷ 255 ∷ 226 ∷ 130 ∷ 65 ∷ 195 ∷ [])
    ≡ 233 ∷ 8364 ∷ 128512 ∷ 65533 ∷ 65533 ∷ 65 ∷ 65533 ∷ []
unfolding utf8
decoded = refl
