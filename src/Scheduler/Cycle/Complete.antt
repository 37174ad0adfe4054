-- ===== src/Scheduler/Cycle/Complete.antt =====
-- core/scheduler.py: `_find_cycle` ends, what it finds is a cycle, and where it finds none the graph
-- has a rank that falls along every dependency.
use celestia_devtools.Prelude.{
  ℕ, ◌≤◌, String, true, Option, some, List, [], ◌∷◌, ◌++◌, str_eq, eq_iff, ◌≡◌, refl, sym, subst,
  ap, ◌∙◌, arith, Elem, inl, inr, Bool-cases, ◌⊎◌,
}
use celestia_devtools.Dict.{Dict, lookup, insert, lookup-insert}
use celestia_devtools.Scheduler.Names.{Step, name_in, names}
use celestia_devtools.Scheduler.Cycle.{
  Color, white, gray, black, Search, Outcome, found, finished, failed, step_of, from_name, enter,
  visit_deps,
}
use celestia_devtools.Scheduler.Cycle.Chain.{
  name_in-snoc, from_name_head, from_name_last, Edge, Chain, IsCycle, Chain-from_name, Chain-snoc,
  Good, Extends, Extends-refl, Extends-trans, whites, whites_mono,
}

pub name_in_of_step :
    (n : String) (graph : List Step) (s : Step)
    → step_of n graph ≡ some s
    → name_in n (names graph) ≡ true
unfolding step_of
name_in_of_step n [] s h = cc
name_in_of_step n (t ∷ ts) s h = ground (arith, name_in_of_step n ts s)

pub Color-cases :
    (o : Option Color) (c : Color)
    → o ≡ some c
    → (o ≡ some white) ⊎ (o ≡ some gray) ⊎ (o ≡ some black)
Color-cases o white e = inl e
Color-cases o gray e = inr (inl e)
Color-cases o black e = inr (inr e)

module _ (graph : List Step) where
  -- What a part of the search may end with, where `ds` have been visited.
  abbrev pub Post : List String → Search → Outcome → Type 0
  Post ds s (found c) = IsCycle graph c
  Post ds s (finished t) =
      Extends graph s t × Good graph t × ((d : String) → Elem d ds → lookup d t.color ≡ some black)
  Post ds s failed = ⊥

  abbrev pub left : Search → ℕ
  left s = whites s.color (names graph)

  -- A visit with enough fuel for the white steps, from a path that leads to its step.
  abbrev pub Visits : ℕ → (String → Search → Outcome) → Type 0
  Visits k visit =
      (d : String) (s : Search)
      → lookup d s.color ≡ some white
      → Good graph s
      → Chain graph (s.path ++ d ∷ [])
      → left s ≤ k
      → Post (d ∷ []) s (visit d s)

  pub Post-cons :
      (d : String) (ds : List String) (s t : Search)
      → Extends graph s t
      → lookup d t.color ≡ some black
      → (o : Outcome) → Post ds t o
      → Post (d ∷ ds) s o
  Post-cons d ds s t ext done (found c) h = h
  Post-cons d ds s t ext done (finished u) h = (
    Extends-trans graph s t u ext h.0,
    h.1,
    λ e m. elim m [ inl same ↦ rw same (h.0.blacks d done) | inr m' ↦ h.2 e m' ],
  )
  Post-cons d ds s t ext done failed h = h

  -- A gray dependency closes a cycle.
  gray-IsCycle :
      (node d : String) (p : List String) (s : Search)
      → Good graph s
      → s.path ≡ p ++ node ∷ []
      → Edge graph node d
      → lookup d s.color ≡ some gray
      → IsCycle graph (from_name d s.path ++ d ∷ [])
  gray-IsCycle node d p s good at e is =
      let on_path = good.gray_path d is in
      let (rest, head) = from_name_head d s.path on_path in
      let (q, last) = from_name_last d node p (rw at at on_path) in
      let tail_form : from_name d s.path ≡ q ++ node ∷ [] = rw at last in
      (
        d,
        rest,
        ap (λ l. l ++ d ∷ []) head,
        subst (λ l. Chain graph (l ++ d ∷ [])) (sym tail_form)
            (Chain-snoc graph q node d
              (subst (Chain graph) tail_form (Chain-from_name graph d s.path good.chain)) e),
      )

  pub after_visit :
      (visit : String → Search → Outcome) (d : String) (ds : List String) (s : Search) (o : Outcome)
      → Post (d ∷ []) s o
      → ((t : Search) → Extends graph s t → Good graph t → Post ds t (visit_deps visit ds t))
      → Post
          (d ∷ ds)
          s
          (elim o [ found c ↦ found c | finished t ↦ visit_deps visit ds t | failed ↦ failed ])
  after_visit visit d ds s (found c) h next = h
  after_visit visit d ds s (finished t) h next =
      Post-cons d ds s t h.0 (h.2 d (inl refl)) _ (next t h.0 h.1)
  after_visit visit d ds s failed h next = h

  pub visit_deps-Post :
      (visit : String → Search → Outcome) (k : ℕ)
      → Visits k visit
      → (node : String) (p ds : List String) (s : Search) → Good graph s
      → s.path ≡ p ++ node ∷ []
      → ((d : String) → Elem d ds → Edge graph node d)
      → left s ≤ k
      → Post ds s (visit_deps visit ds s)
  unfolding visit_deps
  visit_deps-Post visit k vis node p [] s good at es fuel =
      (Extends-refl graph s, good, λ d m. absurd m)
  visit_deps-Post visit k vis node p (d ∷ ds) s good at es fuel =
      let edge = es d (inl refl) in
      let (c, has) = good.has_color node d edge in
      elim (Color-cases (lookup d s.color) c has) [
        | inr (inl is) ↦ rw (is, visit_deps) (gray-IsCycle node d p s good at edge is)
        | inr (inr is) ↦
            rw (is, visit_deps)
              (Post-cons d ds s s (Extends-refl graph s) is _
                (visit_deps-Post visit k vis node p ds s good at (λ e m. es e (inr m)) fuel))
        | inl is ↦
            rw (is, visit_deps)
              (after_visit visit d ds s (visit d s)
                (vis d s is good
                  (rw at (Chain-snoc graph p node d (subst (Chain graph) at good.chain) edge)) fuel)
                (λ t ext good'.
                  visit_deps-Post visit k vis node p ds t good' (ext.same_path ∙ at)
                    (λ e m. es e (inr m))
                    (omega (arith, whites_mono s.color t.color (names graph) ext.no_new_white))))
      ]

  pub enter-Good :
      (node : String) (s : Search)
      → lookup node s.color ≡ some white
      → Good graph s
      → Chain graph (s.path ++ node ∷ [])
      → Good graph (enter node s)
  enter-Good node s is good chain = record {
    rank = good.rank;
    bound = good.bound;
    ranked = record {
      below = λ n h. good.ranked.below n (ground (arith, lookup-insert node n gray s.color));
      black_deps = λ n d h e.
          let was : lookup n s.color ≡ some black =
            ground (arith, lookup-insert node n gray s.color) in
          let (b, r) = good.ranked.black_deps n d was e in
          (ground (arith, lookup-insert node d gray s.color, eq_iff node d, b, is), r);
    };
    gray_path = λ n h.
        ground
          (arith, lookup-insert node n gray s.color, name_in-snoc n node s.path, good.gray_path n);
    chain = chain;
    has_color = λ n d e. let (c, h) = good.has_color n d e in recolored node d s.color c h;
    colored = λ n m. let (c, h) = good.colored n m in recolored node n s.color c h;
    has_step = λ n c h. elim (Bool-cases (str_eq node n)) [
      | inl same ↦ good.has_step n white (rw (← (eq_iff node n).0 same) is)
      | inr other ↦ good.has_step n c (ground (arith, lookup-insert node n gray s.color, other))
    ];
  }
    where
      recolored :
          (m d : String) (c : Dict Color) (k : Color)
          → lookup d c ≡ some k
          → (k' : Color) × (lookup d (insert m gray c) ≡ some k')
      recolored m d c k h = elim (Bool-cases (str_eq m d)) [
        | inl same ↦ (gray, rw lookup-insert (rw same))
        | inr other ↦ (k, rw lookup-insert (rw other h))
      ]
