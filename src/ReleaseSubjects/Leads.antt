-- ===== src/ReleaseSubjects/Leads.antt =====
-- publish/release_notes.py, `match_gitmoji`: the emoji that leads a subject.
use celestia_devtools.Prelude.{
  ◌≡◌, refl, ap, ◌∙◌, ◌↔◌, ltb, ◌⊎◌, inl, inr, true, false, ◌&&◌, Option, none, some, List, [], ◌∷◌,
  arith, ◌≤◌, length, Text, is_prefix, Elem, Bool-cases, subst,
}
use celestia_devtools.Gitmoji.{gitmoji_whitelist}
use celestia_devtools.ReleaseSubjects.{normalize, is_longer, longer, longest, match_gitmoji}

-- A listed emoji, with its variation selectors or without.
abbrev pub Spells : List Text → Text → Type 0
Spells emojis s = (emoji : Text) × Elem emoji emojis × ((s ≡ emoji) ⊎ (s ≡ normalize emoji))

abbrev pub Leads : (Text → Type 0) → Text → Option Text → Type 0
Leads Known subject none = (s : Text) → Known s → is_prefix s subject ≡ false
Leads Known subject (some best) =
    Known best
    × (is_prefix best subject ≡ true)
    × ((s : Text) → Known s → is_prefix s subject ≡ true → length s ≤ length best)

-- One more candidate.
abbrev Or : (Text → Type 0) → Text → Text → Type 0
Or Known t s = Known s ⊎ (s ≡ t)

longer-Leads :
    (Known : Text → Type 0) (subject : Text) (best : Option Text) (t : Text)
    → Leads Known subject best
    → Leads (Or Known t) subject (longer subject best t)
unfolding longer is_longer
longer-Leads Known subject none t no_best = elim (Bool-cases (is_prefix t subject)) [
  | inl leads ↦ subst (Leads (Or Known t) subject) {x = some t} (rw (longer, leads) refl) (
    inr refl,
    leads,
    λ s known p. elim known [
      | inl k ↦ absurd (ground (arith, no_best s k))
      | inr e ↦ omega (arith, ap length e)
    ],
  )
  | inr apart ↦ subst (Leads (Or Known t) subject) {x = none} (rw (longer, apart) refl) (λ s known.
      elim known [ inl k ↦ no_best s k | inr e ↦ ap (λ u. is_prefix u subject) e ∙ apart ])
]
longer-Leads Known subject (some best) t (known, leads, greatest) =
    elim (Bool-cases (is_prefix t subject && ltb (length best) (length t))) [
      | inl takes ↦ subst (Leads (Or Known t) subject) {x = some t} (rw (longer, takes) refl) (
        inr refl,
        ground arith,
        λ s k p. elim k [
          | inl k' ↦ ground (arith, greatest s k' p)
          | inr e ↦ omega (arith, ap length e)
        ],
      )
      | inr keeps ↦ subst (Leads (Or Known t) subject) {x = some best} (rw (longer, keeps) refl) (
        inl known,
        leads,
        λ s k p. elim k [
          | inl k' ↦ greatest s k' p
          | inr e ↦ ground (arith, ap length e, ap (λ u. is_prefix u subject) e)
        ],
      )
    ]

-- What is known may be said in another way.
Leads-iff :
    (P Q : Text → Type 0) (subject : Text) (best : Option Text)
    → ((s : Text) → P s ↔ Q s)
    → Leads P subject best
    → Leads Q subject best
Leads-iff P Q subject none same l = λ s q. l s ((same s).1 q)
Leads-iff P Q subject (some best) same (p, leads, greatest) =
    ((same best).0 p, leads, λ s q. greatest s ((same s).1 q))

abbrev Wider : (Text → Type 0) → Text → List Text → Text → Type 0
Wider Known emoji emojis s = Or (Or Known emoji) (normalize emoji) s ⊎ Spells emojis s

widen :
    (Known : Text → Type 0) (emoji : Text) (emojis : List Text) (s : Text)
    → Wider Known emoji emojis s
    → Known s ⊎ Spells (emoji ∷ emojis) s
widen Known emoji emojis s (inl (inl (inl k))) = inl k
widen Known emoji emojis s (inl (inl (inr e))) = inr (emoji, inl refl, inl e)
widen Known emoji emojis s (inl (inr e)) = inr (emoji, inl refl, inr e)
widen Known emoji emojis s (inr (emoji', m, e)) = inr (emoji', inr m, e)

narrow :
    (Known : Text → Type 0) (emoji : Text) (emojis : List Text) (s : Text)
    → Known s ⊎ Spells (emoji ∷ emojis) s
    → Wider Known emoji emojis s
narrow Known emoji emojis s (inl k) = inl (inl (inl k))
narrow Known emoji emojis s (inr (emoji', inl here, inl e)) = inl (inl (inr (e ∙ here)))
narrow Known emoji emojis s (inr (emoji', inl here, inr e)) = inl (inr (e ∙ ap normalize here))
narrow Known emoji emojis s (inr (emoji', inr m, e)) = inr (emoji', m, e)

longest-Leads :
    (Known : Text → Type 0) (subject : Text) (best : Option Text) (emojis : List Text)
    → Leads Known subject best
    → Leads (λ s. Known s ⊎ Spells emojis s) subject (longest subject best emojis)
unfolding longest
longest-Leads Known subject best [] l =
    Leads-iff Known (λ s. Known s ⊎ Spells [] s) subject best
      (λ s. (λ k. inl k, λ e. elim e [ inl k ↦ k | inr (_, m, _) ↦ elim m [ ] ])) l
longest-Leads Known subject best (emoji ∷ emojis) l =
    Leads-iff (λ s. Or (Or Known emoji) (normalize emoji) s ⊎ Spells emojis s)
      (λ s. Known s ⊎ Spells (emoji ∷ emojis) s) subject (longest subject best (emoji ∷ emojis))
      (λ s. (widen Known emoji emojis s, narrow Known emoji emojis s))
      (longest-Leads (Or (Or Known emoji) (normalize emoji)) subject
        (longer subject (longer subject best emoji) (normalize emoji)) emojis
        (longer-Leads (Or Known emoji) subject (longer subject best emoji) (normalize emoji)
          (longer-Leads Known subject best emoji l)))

-- The emoji that match_gitmoji answers is a spelling of a listed one that the subject starts with,
-- and no such spelling is longer; where it answers none, the subject starts with no listed emoji.
pub match_gitmoji-Leads :
    (subject : Text) → Leads (Spells gitmoji_whitelist) subject (match_gitmoji subject)
unfolding match_gitmoji
match_gitmoji-Leads subject =
    Leads-iff (λ s. ⊥ ⊎ Spells gitmoji_whitelist s) (Spells gitmoji_whitelist) subject
      (match_gitmoji subject) (λ s. (λ e. elim e [ inl k ↦ elim k [ ] | inr k ↦ k ], λ k. inr k))
      (longest-Leads (λ s. ⊥) subject none gitmoji_whitelist (λ s k. elim k [ ]))
