-- ===== src/Scheduler/Names/Laws.antt =====
-- core/scheduler.py: what discarding, sorting and indexing steps by name do to the names they hold.
use celestia_devtools.Prelude.{
  suc, ◌≤◌, String, Bool, true, false, List, [], ◌∷◌, ◌++◌, str_eq, eq_iff, if◌then◌else◌, ◌||◌,
  ◌≡◌, refl, sym, ◌∙◌, length, arith, Elem, inl, inr, ◌⊎◌, select,
}
use celestia_devtools.Scheduler.Names.{Step, contains, discard, insert_step, sort_steps}

-- No two steps have one name.
abbrev pub Distinct : List Step → Type 0
Distinct [] = Unit
Distinct (s ∷ ss) = (contains s.name ss ≡ false) × Distinct ss

pub contains-discard :
    (n m : String) (l : List Step)
    → contains n (discard m l) ≡ (if str_eq m n then false else contains n l)
contains-discard n m [] = ground arith
contains-discard n m (s ∷ ss) =
    ground (arith, contains-discard n m ss, eq_iff s.name n, eq_iff s.name m, eq_iff m n)

pub contains-append :
    (n : String) (l k : List Step) → contains n (l ++ k) ≡ (contains n l || contains n k)
contains-append n [] k = refl
contains-append n (s ∷ ss) k = ground (arith, contains-append n ss k)

contains-insert_step :
    (n : String) (s : Step) (l : List Step)
    → contains n (insert_step s l) ≡ (str_eq s.name n || contains n l)
contains-insert_step n s [] = refl
contains-insert_step n s (t ∷ ts) = ground (arith, contains-insert_step n s ts)

contains-sort_steps : (n : String) (l : List Step) → contains n (sort_steps l) ≡ contains n l
unfolding sort_steps
contains-sort_steps n [] = refl
contains-sort_steps n (s ∷ ss) =
    ground (arith, contains-insert_step n s (sort_steps ss), contains-sort_steps n ss)

Distinct-insert_step :
    (s : Step) (l : List Step) → contains s.name l ≡ false → Distinct l → Distinct (insert_step s l)
Distinct-insert_step s [] new d = ground arith
Distinct-insert_step s (t ∷ ts) new d = ground (
  arith,
  Distinct-insert_step s ts,
  contains-insert_step t.name s ts,
  eq_iff s.name t.name,
  eq_iff t.name s.name,
)

pub Distinct-sort_steps : (l : List Step) → Distinct l → Distinct (sort_steps l)
unfolding sort_steps
Distinct-sort_steps [] d = tt
Distinct-sort_steps (s ∷ ss) d =
    Distinct-insert_step s (sort_steps ss) (ground (arith, contains-sort_steps s.name ss))
      (Distinct-sort_steps ss d.1)

pub Distinct-discard : (n : String) (l : List Step) → Distinct l → Distinct (discard n l)
Distinct-discard n [] d = tt
Distinct-discard n (s ∷ ss) d =
    ground (arith, Distinct-discard n ss d.1, contains-discard s.name n ss)

pub length-discard-le : (n : String) (l : List Step) → length (discard n l) ≤ length l
length-discard-le n [] = omega arith
length-discard-le n (s ∷ ss) = ground (arith, length-discard-le n ss)

pub length-discard-lt :
    (n : String) (l : List Step) → contains n l ≡ true → suc (length (discard n l)) ≤ length l
length-discard-lt n [] h = cc
length-discard-lt n (s ∷ ss) h = ground (arith, length-discard-lt n ss, length-discard-le n ss)

pub contains_of_Elem : (s : Step) (l : List Step) → Elem s l → contains s.name l ≡ true
contains_of_Elem s [] m = elim m [ ]
contains_of_Elem s (t ∷ ts) m = ground (arith, contains_of_Elem s ts, eq_iff t.name s.name)

pub Elem-discard :
    (n : String) (s : Step) (l : List Step)
    → Elem s l
    → str_eq s.name n ≡ false
    → Elem s (discard n l)
Elem-discard n s [] m other = elim m [ ]
Elem-discard n s (t ∷ ts) m other = ground (arith, Elem-discard n s ts)

pub Elem-of_discard : (n : String) (s : Step) (l : List Step) → Elem s (discard n l) → Elem s l
Elem-of_discard n s [] m = elim m [ ]
Elem-of_discard n s (t ∷ ts) m = ground (arith, Elem-of_discard n s ts)

Elem-of_insert_step : (s t : Step) (l : List Step) → Elem s (insert_step t l) → (s ≡ t) ⊎ Elem s l
Elem-of_insert_step s t [] m = m
Elem-of_insert_step s t (u ∷ us) m = ground (arith, Elem-of_insert_step s t us)

pub Elem-of_sort_steps : (s : Step) (l : List Step) → Elem s (sort_steps l) → Elem s l
unfolding sort_steps
Elem-of_sort_steps s [] m = m
Elem-of_sort_steps s (t ∷ ts) m =
    ground (arith, Elem-of_insert_step s t (sort_steps ts), Elem-of_sort_steps s ts)

Elem-insert_step : (s t : Step) (l : List Step) → (s ≡ t) ⊎ Elem s l → Elem s (insert_step t l)
Elem-insert_step s t [] m = m
Elem-insert_step s t (u ∷ us) m = ground (arith, Elem-insert_step s t us)

pub Elem-sort_steps : (s : Step) (l : List Step) → Elem s l → Elem s (sort_steps l)
unfolding sort_steps
Elem-sort_steps s [] m = m
Elem-sort_steps s (t ∷ ts) (inl e) = Elem-insert_step s t (sort_steps ts) (inl e)
Elem-sort_steps s (t ∷ ts) (inr m) =
    Elem-insert_step s t (sort_steps ts) (inr (Elem-sort_steps s ts m))

-- Of two steps with one name in such a list there is only one.
pub Distinct-unique :
    (s t : Step) (l : List Step) → Distinct l → Elem s l → Elem t l → s.name ≡ t.name → s ≡ t
Distinct-unique s t [] d m k e = elim m [ ]
Distinct-unique s t (u ∷ us) d (inl p) (inl q) e = p ∙ sym q
Distinct-unique s t (u ∷ us) d (inl p) (inr k) e = ground (arith, contains_of_Elem t us k, p)
Distinct-unique s t (u ∷ us) d (inr m) (inl q) e = ground (arith, contains_of_Elem s us m, q)
Distinct-unique s t (u ∷ us) d (inr m) (inr k) e = Distinct-unique s t us d.1 m k e

pub contains_of_select :
    (p : Step → Bool) (n : String) (l : List Step)
    → contains n l ≡ false
    → contains n (select p l) ≡ false
contains_of_select p n [] h = refl
contains_of_select p n (s ∷ ss) h = ground (arith, contains_of_select p n ss)

pub Distinct-select : (p : Step → Bool) (l : List Step) → Distinct l → Distinct (select p l)
Distinct-select p [] d = tt
Distinct-select p (s ∷ ss) d =
    ground (arith, Distinct-select p ss d.1, contains_of_select p s.name ss d.0)

pub Elem-of_select : (p : Step → Bool) (s : Step) (l : List Step) → Elem s (select p l) → Elem s l
Elem-of_select p s [] m = elim m [ ]
Elem-of_select p s (t ∷ ts) m = ground (arith, Elem-of_select p s ts)
