-- ===== src/AppLaunch/Words.antt =====
-- env/app_drive_proc.py, `merge_webview2_arguments`: the words of the merged arguments.
use celestia_devtools.Prelude.{
  ℕ, zero, suc, ◌+◌, ◌/◌, ◌%◌, ◌≡◌, refl, ap, ◌∙◌, Bool, true, false, ◌&&◌, not, List, [], ◌∷◌,
  ◌++◌, arith, is_nil, select, Text, is_space, is_prefix, decimal, decimal_on, all_of,
}
use celestia_devtools.AppLaunch.{
  add_char, split_words, join_words, port_flag, merge_webview2_arguments,
}

-- A word of a line: not empty, and without white space.
abbrev no_space : Text → Bool
no_space = all_of (λ c. not (is_space c))

abbrev is_word : Text → Bool
is_word w = not (is_nil w) && no_space w

add_char-space : (c : ℕ) (s : Text) (ws : List Text) → add_char c (32 ∷ s) ws ≡ (c ∷ []) ∷ ws
add_char-space c s [] = refl
add_char-space c s (w ∷ ws) = refl

split_words-append : (w s : Text) → is_word w ≡ true → split_words (w ++ 32 ∷ s) ≡ w ∷ split_words s
unfolding split_words
split_words-append [] s h = absurd (ground arith)
split_words-append (c ∷ []) s h = ground (arith, add_char-space c s (split_words s))
split_words-append (c ∷ d ∷ w) s h = ground (arith, split_words-append (d ∷ w) s)

split_words-word : (w : Text) → is_word w ≡ true → split_words w ≡ w ∷ []
unfolding split_words
split_words-word [] h = absurd (ground arith)
split_words-word (c ∷ []) h = ground arith
split_words-word (c ∷ d ∷ w) h = ground (arith, split_words-word (d ∷ w))

split_words-join_words :
    (ws : List Text) → all_of is_word ws ≡ true → split_words (join_words ws) ≡ ws
unfolding split_words join_words
split_words-join_words [] h = refl
split_words-join_words (w ∷ []) h = split_words-word w (ground arith)
split_words-join_words (w ∷ v ∷ ws) h =
    split_words-append w (join_words (v ∷ ws)) (ground arith)
    ∙ ap (λ us. w ∷ us) (split_words-join_words (v ∷ ws) (ground arith))

add_char-words :
    (c : ℕ) (s : Text) (ws : List Text)
    → is_space c ≡ false
    → all_of is_word ws ≡ true
    → all_of is_word (add_char c s ws) ≡ true
add_char-words c [] ws plain h = ground arith
add_char-words c (d ∷ s) [] plain h = ground arith
add_char-words c (d ∷ s) (w ∷ ws) plain h = ground arith

split_words_words : (s : Text) → all_of is_word (split_words s) ≡ true
unfolding split_words
split_words_words [] = refl
split_words_words (c ∷ s) = ground (arith, add_char-words c s (split_words s), split_words_words s)

all_of-select :
    {A : Type 0} (p q : A → Bool) (xs : List A) → all_of p xs ≡ true → all_of p (select q xs) ≡ true
all_of-select p q [] h = refl
all_of-select p q (x ∷ xs) h = ground (arith, all_of-select p q xs)

all_of-append :
    {A : Type 0} (p : A → Bool) (xs ys : List A)
    → all_of p (xs ++ ys) ≡ (all_of p xs && all_of p ys)
all_of-append p [] ys = refl
all_of-append p (x ∷ xs) ys = ground (arith, all_of-append p xs ys)

no_space-decimal_on : (rounds n : ℕ) → no_space (decimal_on rounds n) ≡ true
unfolding decimal_on
no_space-decimal_on zero n = refl
no_space-decimal_on (suc rounds) n = ground (
  arith,
  no_space-decimal_on rounds (n / 10),
  all_of-append (λ c. not (is_space c)) (decimal_on rounds (n / 10)) ((b'0' + n % 10) ∷ []),
)

is_word-flag : (port : ℕ) → is_word (port_flag ++ decimal port) ≡ true
unfolding decimal
is_word-flag port = no_space-decimal_on (suc port) port

is_word-flag_alone : (port : ℕ) → all_of is_word ((port_flag ++ decimal port) ∷ []) ≡ true
is_word-flag_alone port = ground (arith, is_word-flag port)

-- The words that the merge keeps are no port flags.
abbrev kept : Text → Bool
kept token = not (is_nil token) && not (is_prefix port_flag token)

select-select-kept :
    (ws vs : List Text)
    → select (is_prefix port_flag) (select kept ws ++ vs) ≡ select (is_prefix port_flag) vs
select-select-kept [] vs = refl
select-select-kept (w ∷ ws) vs = ground (arith, select-select-kept ws vs)

pub merged_flags :
    (existing : Text) (port : ℕ)
    → select (is_prefix port_flag) (split_words (merge_webview2_arguments existing port))
      ≡ (port_flag ++ decimal port) ∷ []
unfolding merge_webview2_arguments
merged_flags existing port =
    ap (select (is_prefix port_flag)) (
      split_words-join_words
        (select kept (split_words existing) ++ (port_flag ++ decimal port) ∷ [])
        (all_of-append is_word (select kept (split_words existing))
            ((port_flag ++ decimal port) ∷ [])
          ∙ rw (all_of-select is_word kept (split_words existing) (split_words_words existing))
              (is_word-flag_alone port)))
    ∙ select-select-kept (split_words existing) ((port_flag ++ decimal port) ∷ [])
