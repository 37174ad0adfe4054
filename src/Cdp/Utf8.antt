-- ===== src/Cdp/Utf8.antt =====
-- env/cdp.py: `bytes.decode("utf-8", "replace")`, which `recv_text` calls on a whole message. Each
-- longest start of a sequence that cannot be completed is replaced by the code point 65533.
use celestia_devtools.Prelude.{
  ℕ, ◌+◌, ◌-◌, ◌*◌, List, [], ◌∷◌, ◌++◌, ltb, leb, ◌==◌, ◌&&◌, if◌then◌else◌, Text,
}

-- The sequence that was begun: how many bytes are missing, what the ones read give, and the range of
-- the next one.
pub record Utf8 : Type 0 where
  pub missing : ℕ
  pub value : ℕ
  pub low : ℕ
  pub high : ℕ

abbrev pub sequence : (missing value low high : ℕ) → Utf8
sequence missing value low high = record {
  missing = missing;
  value = value;
  low = low;
  high = high;
}

abbrev pub between : Utf8
between = sequence 0 0 128 191

abbrev pub replacement : ℕ
replacement = 65533

-- A byte where no sequence was begun: the code points that it gives, and the state behind it.
unfoldable pub first_byte : ℕ → Text × Utf8
first_byte b =
    if ltb b 128
    then (b ∷ [], between)
    else if ltb b 194
    then (replacement ∷ [], between)
    else if ltb b 224
    then ([], sequence 1 (b - 192) 128 191)
    else if b == 224
    then ([], sequence 2 0 160 191)
    else if b == 237
    then ([], sequence 2 13 128 159)
    else if ltb b 240
    then ([], sequence 2 (b - 224) 128 191)
    else if b == 240
    then ([], sequence 3 0 144 191)
    else if ltb b 244
    then ([], sequence 3 (b - 240) 128 191)
    else if b == 244
    then ([], sequence 3 4 128 143)
    else (replacement ∷ [], between)

-- A byte within a sequence: it goes on with it, ends it, or breaks it and is read anew.
unfoldable pub next_byte : Utf8 → ℕ → Text × Utf8
unfolding first_byte
next_byte s b =
    let value = s.value * 64 + (b - 128) in
    let (points, after) = first_byte b in
    if s.missing == 0
    then (points, after)
    else if leb s.low b && leb b s.high
    then (if s.missing == 1
        then (value ∷ [], between)
        else ([], sequence (s.missing - 1) value 128 191))
    else (replacement ∷ points, after)

unfoldable pub utf8_from : Utf8 → List ℕ → Text
unfolding next_byte
utf8_from s [] = if s.missing == 0 then [] else replacement ∷ []
utf8_from s (b ∷ bytes) = let (points, after) = next_byte s b in points ++ utf8_from after bytes

unfoldable pub utf8 : List ℕ → Text
unfolding utf8_from
utf8 bytes = utf8_from between bytes
