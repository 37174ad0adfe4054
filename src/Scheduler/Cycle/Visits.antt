-- ===== src/Scheduler/Cycle/Visits.antt =====
-- core/scheduler.py: `_dfs_visit` and the loop of `_find_cycle` keep the invariant of the search.
use celestia_devtools.Prelude.{
  ℕ, zero, suc, ◌≤◌, String, true, some, List, [], ◌∷◌, str_eq, eq_iff, eq_refl, ◌≡◌, refl, ap, ◌∙◌,
  arith, Elem, inl, inr, if◌then◌else◌, Bool-cases,
}
use celestia_devtools.Dict.{lookup, insert, lookup-insert}
use celestia_devtools.Scheduler.Names.{Step, name_in, names}
use celestia_devtools.Scheduler.Cycle.{
  white, gray, black, Search, Outcome, found, finished, failed, step_of, enter, leave, dfs,
  search_all, drop_last,
}
use celestia_devtools.Scheduler.Cycle.Chain.{
  drop_last_snoc, name_in-snoc, Ranked, Good, Extends, Extends-refl, whites_mono, whites_drop,
}
use celestia_devtools.Scheduler.Cycle.Complete.{
  name_in_of_step, Color-cases, Post, Post-cons, Visits, left, visit_deps-Post, enter-Good,
}

module _ (graph : List Step) where
  module _ (node : String) (st : Step) (s : Search) (was_white : lookup node s.color ≡ some white)
      (is_step : step_of node graph ≡ some st) where
    abbrev closed : Search → Search
    closed t = record { color = insert node black t.color; path = drop_last t.path }

    closed-Ranked :
        (t : Search)
        → Good graph t
        → lookup node t.color ≡ some gray
        → ((d : String) → Elem d st.deps → lookup d t.color ≡ some black)
        → (rank : String → ℕ) × (bound : ℕ) × Ranked graph (closed t).color rank bound
    closed-Ranked t good is_gray done = (
      (λ n. if str_eq node n then good.bound else good.rank n),
      suc good.bound,
      record {
        below = λ n h. ground (arith, lookup-insert node n black t.color, good.ranked.below n);
        black_deps = λ n d h e. elim (Bool-cases (str_eq node n)) [
          | inl same ↦
              let (u, at, dep) = e in
              let one : u ≡ st = cc (at, is_step, (eq_iff node n).0 same) in
              let d_black = done d (rw one at dep) in
              (
                ground (arith, lookup-insert node d black t.color, d_black),
                ground (arith, same, eq_iff node d, d_black, is_gray, good.ranked.below d),
              )
          | inr other ↦
              let n_black : lookup n t.color ≡ some black =
                ground (arith, other, lookup-insert node n black t.color) in
              let (d_black, lower) = good.ranked.black_deps n d n_black e in
              (
                ground (arith, lookup-insert node d black t.color, d_black),
                ground (arith, other, eq_iff node d, d_black, is_gray),
              )
        ];
      },
    )

    closed-Good :
        (t : Search)
        → Good graph t
        → Extends graph (enter node s) t
        → Good graph s
        → ((d : String) → Elem d st.deps → lookup d t.color ≡ some black)
        → Good graph (closed t)
    closed-Good t good ext before done =
        let (rank, bound, ranked) = closed-Ranked t good (ext.grays node entered) done in
        record {
          rank = rank;
          bound = bound;
          ranked = ranked;
          gray_path = λ n h. ground (
            arith,
            lookup-insert node n black t.color,
            path_back,
            good.gray_path n,
            name_in-snoc n node s.path,
            eq_iff node n,
            ext.same_path,
          );
          chain = rw path_back before.chain;
          has_color = λ n d e.
              let (c, h) = good.has_color n d e in
              elim (Bool-cases (str_eq node d)) [
                | inl same ↦ (black, rw lookup-insert (rw same))
                | inr other ↦ (c, rw lookup-insert (rw other h))
              ];
          colored = λ d m.
              let (c, h) = good.colored d m in
              elim (Bool-cases (str_eq node d)) [
                | inl same ↦ (black, rw lookup-insert (rw same))
                | inr other ↦ (c, rw lookup-insert (rw other h))
              ];
          has_step = λ n c h. elim (Bool-cases (str_eq node n)) [
            | inl same ↦ (st, rw (← (eq_iff node n).0 same) is_step)
            | inr other ↦
                good.has_step n c (ground (arith, lookup-insert node n black t.color, other))
          ];
        }
      where
        entered : lookup node (insert node gray s.color) ≡ some gray
        entered = rw lookup-insert (rw eq_refl)

        path_back : drop_last t.path ≡ s.path
        path_back = rw ext.same_path (drop_last_snoc s.path node)

    closed-Extends : (t : Search) → Extends graph (enter node s) t → Extends graph s (closed t)
    closed-Extends t ext = record {
      same_path = rw ext.same_path (drop_last_snoc s.path node);
      grays = λ n h. ground (
        arith,
        lookup-insert node n black t.color,
        lookup-insert node n gray s.color,
        eq_iff node n,
        was_white,
        h,
        ext.grays n,
      );
      no_new_gray = λ n h. ground (
        arith,
        lookup-insert node n black t.color,
        lookup-insert node n gray s.color,
        ext.no_new_gray n,
      );
      blacks = λ n h. ground (
        arith,
        lookup-insert node n black t.color,
        lookup-insert node n gray s.color,
        eq_iff node n,
        was_white,
        h,
        ext.blacks n,
      );
      no_new_white = λ n h. ground (
        arith,
        lookup-insert node n black t.color,
        lookup-insert node n gray s.color,
        ext.no_new_white n,
      );
    }

    leave-Post :
        (o : Outcome)
        → Good graph s
        → Post graph st.deps (enter node s) o
        → Post graph (node ∷ []) s (leave node o)
    leave-Post (found c) before h = h
    leave-Post (finished t) before h = (
      closed-Extends t h.0,
      closed-Good t h.1 h.0 before h.2,
      λ d m. elim m [ inl e ↦ rw e (rw lookup-insert (rw eq_refl)) | inr no_more ↦ absurd no_more ],
    )
    leave-Post failed before h = h

  pub dfs-Visits : (k : ℕ) → Visits graph k (dfs graph k)
  unfolding dfs
  dfs-Visits zero node s is good chain fuel =
      let (t, at) = good.has_step node white is in
      absurd
        (omega (arith, whites_drop s.color node (names graph) is (name_in_of_step node graph t at)))
  dfs-Visits (suc k) node s is good chain fuel =
      let (t, at) = good.has_step node white is in
      rw (at, dfs)
        (leave-Post node t s is at _ good (
          visit_deps-Post graph (dfs graph k) k (dfs-Visits k) node s.path t.deps (enter node s)
            (enter-Good graph node s is good chain) refl (λ d m. (t, at, m))
            (omega (
              arith,
              whites_drop s.color node (names graph) is (name_in_of_step node graph t at),
            ))))

  top_visit :
      (visit : String → Search → Outcome) (n : String) (ns : List String) (s : Search) (o : Outcome)
      → Post graph (n ∷ []) s o
      → ((t : Search) → Extends graph s t → Good graph t → Post graph ns t (search_all visit ns t))
      → Post graph
          (n ∷ ns)
          s
          (elim o [ found c ↦ found c | finished t ↦ search_all visit ns t | failed ↦ failed ])
  top_visit visit n ns s (found c) h next = h
  top_visit visit n ns s (finished t) h next =
      Post-cons graph n ns s t h.0 (h.2 n (inl refl)) _ (next t h.0 h.1)
  top_visit visit n ns s failed h next = h

  pub search_all-Post :
      (visit : String → Search → Outcome) (k : ℕ)
      → Visits graph k visit
      → (ns : List String) (s : Search) → Good graph s
      → s.path ≡ []
      → ((n : String) → Elem n ns → name_in n (names graph) ≡ true)
      → left graph s ≤ k
      → Post graph ns s (search_all visit ns s)
  unfolding search_all
  search_all-Post visit k vis [] s good top has fuel = (Extends-refl graph s, good, λ d m. absurd m)
  search_all-Post visit k vis (n ∷ ns) s good top has fuel =
      let (c, is_colored) = good.colored n (has n (inl refl)) in
      elim (Color-cases (lookup n s.color) c is_colored) [
        | inr (inl is) ↦
            let on_path : name_in n s.path ≡ true = good.gray_path n is in
            cc (on_path, ap (name_in n) top)
        | inr (inr is) ↦
            rw (is, search_all)
              (Post-cons graph n ns s s (Extends-refl graph s) is _
                (search_all-Post visit k vis ns s good top (λ m e. has m (inr e)) fuel))
        | inl is ↦
            rw (is, search_all)
              (top_visit visit n ns s (visit n s) (vis n s is good (rw top tt) fuel) (λ t ext good'.
                search_all-Post visit k vis ns t good' (ext.same_path ∙ top) (λ m e. has m (inr e))
                  (omega (arith, whites_mono s.color t.color (names graph) ext.no_new_white))))
      ]
