-- ===== src/CdpClient/Pages.antt =====
-- env/cdp.py: `select_page_target` gives the first target that it prefers.
use celestia_devtools.Prelude.{
  ◌&&◌, String, Bool, true, false, not, Option, none, some, List, [], ◌∷◌, ◌≡◌, refl, arith,
  Bool-cases, Option-cases, inl, inr, Elem, select, str_eq, ◌⊎◌, ap, sym, subst, ◌∙◌,
}
use celestia_devtools.CdpClient.{
  Page, starts_with, first_where, is_page, is_real, prefer_real, select_page_target,
}

-- A page that is picked from a list: it stands there and passes a test that is asked of it, unless
-- no page of the list passes the test.
abbrev pub IsPick : (Page → Bool) → List Page → Page → Type 0
IsPick p pages page =
    Elem page pages × ((p page ≡ true) ⊎ ((q : Page) → Elem q pages → p q ≡ false))

first_where-some :
    (p : Page → Bool) (pages : List Page) (page : Page)
    → first_where p pages ≡ some page
    → Elem page pages × (p page ≡ true)
unfolding first_where
first_where-some p [] page h = cc
first_where-some p (x ∷ pages) page h = elim (Bool-cases (p x)) [
  | inl here ↦ grind (arith, here, h)
  | inr past ↦ grind (arith, past, h, first_where-some p pages page)
]

first_where-none :
    (p : Page → Bool) (pages : List Page)
    → first_where p pages ≡ none
    → (q : Page) → Elem q pages
    → p q ≡ false
unfolding first_where
first_where-none p [] h q m = elim m [ ]
first_where-none p (x ∷ pages) h q m = elim (Bool-cases (p x)) [
  | inl here ↦ grind (arith, here, h)
  | inr past ↦ grind (arith, past, h, m, first_where-none p pages)
]

abbrev or_page : Page → Option Page → Page
or_page page none = page
or_page page (some other) = other

-- Two answers of the same choice are the same page.
one_answer : {o : Option Page} (a b : Page) → o ≡ some a → o ≡ some b → a ≡ b
one_answer a b g h = ap (or_page a) (sym g ∙ h)

found-IsPick :
    (p : Page → Bool) (pages : List Page) (found : Page)
    → first_where p pages ≡ some found
    → IsPick p pages found
found-IsPick p pages found at = let here = first_where-some p pages found at in (here.0, inl here.1)

prefer_real-IsPick :
    (pages : List Page) (page : Page) → prefer_real pages ≡ some page → IsPick is_real pages page
unfolding prefer_real first_where
prefer_real-IsPick [] page h = cc
prefer_real-IsPick (x ∷ pages) page h = elim (Option-cases (first_where is_real (x ∷ pages))) [
  | inl unreal ↦ (
    inl (one_answer page x h (rw (prefer_real, unreal) refl)),
    inr (first_where-none is_real (x ∷ pages) unreal),
  )
  | inr (found, at) ↦
      subst (IsPick is_real (x ∷ pages)) (one_answer found page (rw (prefer_real, at) refl) h)
        (found-IsPick is_real (x ∷ pages) found at)
]

-- Without a wanted id, the page that `select_page_target` picks is one of the pages that are no
-- devtools; with a preferred prefix its url has that prefix, unless no such page has it, and then,
-- as without a prefix, it is a web, tauri or file page, unless there is none among them.
pub select_page_target-IsPick :
    (targets : List Page) (prefer_url : String) (page : Page)
    → select_page_target targets prefer_url "" ≡ some page
    → (IsPick is_real (select is_page targets) page
        × ((q : Page)
            → Elem q (select is_page targets)
            → (not (str_eq prefer_url "") && starts_with q.url prefer_url) ≡ false))
      ⊎ (Elem page (select is_page targets) × (starts_with page.url prefer_url ≡ true))
unfolding select_page_target
select_page_target-IsPick targets prefer_url page h = elim (Bool-cases (str_eq prefer_url "")) [
  | inl empty ↦ inl (
    prefer_real-IsPick (select is_page targets) page
        (sym (rw (select_page_target, empty) refl) ∙ h),
    λ q m. rw empty refl,
  )
  | inr given ↦
      elim (Option-cases
        (first_where (λ q. starts_with q.url prefer_url) (select is_page targets))) [
          | inl none_has ↦ inl (
            prefer_real-IsPick (select is_page targets) page
                (sym (rw (select_page_target, given, none_has) refl) ∙ h),
            λ q m. rw given (
                first_where-none (λ r. starts_with r.url prefer_url) (select is_page targets)
                  none_has q m),
          )
          | inr (found, at) ↦ inr (
              subst (λ q. Elem q (select is_page targets) × (starts_with q.url prefer_url ≡ true))
                (one_answer found page (rw (select_page_target, given, at) refl) h)
                (first_where-some (λ q. starts_with q.url prefer_url) (select is_page targets) found
                  at))
        ]
]
