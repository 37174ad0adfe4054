-- ===== src/Paging.antt =====
-- publish/release_notes.py: what a call of the GitHub interface gives back, and its listings, which
-- come in pages of a hundred.
use celestia_devtools.Prelude.{
  ℕ, suc, ◌+◌, ◌*◌, ◌≡◌, refl, sym, ap, ◌∙◌, true, false, List, [], ◌∷◌, ◌++◌, arith, ltb, is_nil,
  length, take, drop, take-drop, length-take-le, take_short, drop-drop, take-nil, take_all,
  take-append, ltb→lt,
}

-- What a call returns, or the exception that it raises: `not_found_error` or another.
pub data Reply {ℓ} (A : Type ℓ) : Type ℓ where
  found : A → Reply A
  not_found_error : Reply A
  git_hub_error : Reply A

infixl 5 ◌>>=◌
abbrev pub ◌>>=◌ {ℓ κ} : {A : Type ℓ} {B : Type κ} → Reply A → (A → Reply B) → Reply B
found a >>= f = f a
not_found_error >>= f = not_found_error
git_hub_error >>= f = git_hub_error

-- per_page=100
abbrev pub per_page : ℕ
per_page = 100

-- A listing: the batch of each page, from page 1 on.
abbrev pub Listing : Type 0 → Type 0
Listing A = ℕ → Reply (List A)

module _ {A : Type 0} where
  -- What is listed from a page on, the pages counted from 0.
  abbrev pub from_page : ℕ → List A → List A
  from_page p all = drop (p * per_page) all

  -- The listing serves a list: each page has its next hundred elements.
  abbrev pub Serves : Listing A → List A → Type 0
  Serves listing all = (p : ℕ) → listing (suc p) ≡ found (take per_page (from_page p all))

nil-of_is_nil : {A : Type 0} (xs : List A) → is_nil xs ≡ true → xs ≡ []
nil-of_is_nil [] h = refl
nil-of_is_nil (x ∷ xs) h = cc

module _ {A : Type 0} (p : ℕ) (all : List A) where
  abbrev batch : List A
  batch = take per_page (from_page p all)

  from_page-suc : batch ++ from_page (suc p) all ≡ from_page p all
  from_page-suc =
      ap (λ k. batch ++ drop k all) (let e : suc p * 100 ≡ p * 100 + 100 = omega arith in e)
      ∙ ap (λ xs. batch ++ xs) (sym (drop-drop (p * per_page) per_page all))
      ∙ take-drop per_page (from_page p all)

  length-batch : ltb (length batch) per_page ≡ false → length batch ≡ per_page
  length-batch full = ground (arith, length-take-le per_page (from_page p all))

  batch_short : ltb (length batch) per_page ≡ true → batch ≡ from_page p all
  batch_short short = take_short per_page (from_page p all) (ground arith)

  -- The elements of `n + 1` pages, by what the loops test of the first.
  pub take-empty_batch : (k : ℕ) → is_nil batch ≡ true → take k (from_page p all) ≡ []
  take-empty_batch k empty =
      ap (take k) (sym (batch_short (ground arith)) ∙ nil-of_is_nil batch empty) ∙ take-nil k

  pub take-short_batch :
      (n : ℕ)
      → ltb (length batch) per_page ≡ true
      → take (suc n * per_page) (from_page p all) ≡ batch
  take-short_batch n short =
      let whole = batch_short short in
      take_all (suc n * per_page) (from_page p all)
        (omega (arith, ap length whole, ltb→lt _ _ short))
      ∙ sym whole

  pub take-full_batch :
      (n : ℕ)
      → ltb (length batch) per_page ≡ false
      → take (suc n * per_page) (from_page p all)
        ≡ batch ++ take (n * per_page) (from_page (suc p) all)
  take-full_batch n full =
      ap (λ k. take k (from_page p all)) (let e : suc n * 100 ≡ 100 + n * 100 = omega arith in e)
      ∙ ap (take (per_page + n * per_page)) (sym from_page-suc)
      ∙ take-append per_page (n * per_page) batch (from_page (suc p) all) (length-batch full)
