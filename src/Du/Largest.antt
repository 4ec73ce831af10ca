-- ===== src/Du/Largest.antt =====
-- The largest and the smallest files that the tool lists.
use quick_cmake.Prelude.{
  ℕ, ◌<◌, ◌≡◌, refl, sym, ap, fun_ext, ◌∙◌, Bool, ltb, subst, List, [], ◌∷◌, ◌++◌, if◌then◌else◌,
  arith, Bool-cases, inl, inr,
}
use quick_cmake.Outcome.{value, ◌>>=◌, bind_assoc, bind_value}
use quick_cmake.TopK.{reversed, TopBottomK, push_both, pop_top, pop_bottom}
use quick_cmake.TopK.Order.{IsOrder}
use quick_cmake.TopK.Largest.{IsTop}
use quick_cmake.TopK.Both.{push_both_all, push_both_all-pops}
use quick_cmake.Du.{
  File, Entry, missing, regular, directory, Entries, end, entry, comp_file_size, comp_sizes, top_n,
  top_n_entries,
}
use quick_cmake.Du.Total.{files, files_of}

comp_file_size-IsOrder : IsOrder comp_file_size
unfolding comp_file_size comp_sizes
comp_file_size-IsOrder = record {
  asym = λ a b h. ground arith;
  through = λ a b c h k. ground arith;
}

-- Whether the first file is smaller, in bytes.
abbrev pub smaller : File → File → Bool
smaller a b = ltb a.size b.size

comp_file_size-smaller : comp_file_size ≡ smaller
unfolding comp_file_size comp_sizes
comp_file_size-smaller = refl

-- The files that pass, in order.
unfoldable pub passing : (File → Bool) → List File → List File
passing filter [] = []
passing filter (f ∷ r) = let rest = passing filter r in if filter f then f ∷ rest else rest

passing-append :
    (filter : File → Bool) (a b : List File)
    → passing filter (a ++ b) ≡ passing filter a ++ passing filter b
unfolding passing
passing-append filter [] b = refl
passing-append filter (f ∷ a) b = elim (Bool-cases (filter f)) [
  | inl e ↦ rw e (ap (λ l. f ∷ l) (passing-append filter a b))
  | inr e ↦ rw e (passing-append filter a b)
]

push_both_all-append :
    (a b : List File) (q : TopBottomK File)
    → push_both_all comp_file_size (a ++ b) q
      ≡ (push_both_all comp_file_size a q >>= push_both_all comp_file_size b)
unfolding push_both_all
push_both_all-append [] b q = refl
push_both_all-append (f ∷ a) b q =
    bind_assoc (push_both comp_file_size f q) _ _ _ (push_both_all-append a b)

mutual
  unfolding top_n files files_of passing push_both_all

  top_n-pushes :
      (e : Entry) (filter : File → Bool) (q : TopBottomK File)
      → top_n e filter q ≡ push_both_all comp_file_size (passing filter (files e)) q
  top_n-pushes missing filter q = refl
  top_n-pushes (regular f) filter q = elim (Bool-cases (filter f)) [
    | inl e ↦ rw e (sym (bind_value (push_both comp_file_size f q)))
    | inr e ↦ rw e refl
  ]
  top_n-pushes (directory es) filter q = top_n_entries-pushes es filter q

  top_n_entries-pushes :
      (es : Entries) (filter : File → Bool) (q : TopBottomK File)
      → top_n_entries es filter q ≡ push_both_all comp_file_size (passing filter (files_of es)) q
  top_n_entries-pushes end filter q = refl
  top_n_entries-pushes (entry e es) filter q =
      let here = passing filter (files e) in
      let there = passing filter (files_of es) in
      ap (λ o. o >>= top_n_entries es filter) (top_n-pushes e filter q)
      ∙ ap (λ f. push_both_all comp_file_size here q >>= f)
          (fun_ext (λ t. top_n_entries-pushes es filter t))
      ∙ sym (push_both_all-append here there q)
      ∙ ap (λ l. push_both_all comp_file_size l q)
          (sym (passing-append filter (files e) (files_of es)))

-- With room for at least one file, the walk over a path returns; pop_top then lists the largest,
-- by their sizes in bytes, of the files below the path that pass the filter, from the largest on,
-- and pop_bottom the smallest, from the smallest on, as many as there is room for.
pub top_n-lists :
    (e : Entry) (filter : File → Bool) (k : ℕ)
    → 0 < k
    → (q : TopBottomK File) × (top_n e filter (record {
      max_queue = record { cap = k; pq = [] };
      min_queue = record { cap = k; pq = [] };
    })
        ≡ value q)
      × IsTop smaller k (passing filter (files e)) (pop_top comp_file_size q).0
      × IsTop (reversed smaller) k (passing filter (files e)) (pop_bottom comp_file_size q).0
top_n-lists e filter k pos =
    let kept = passing filter (files e) in
    let (q, ends, top, bottom) =
      push_both_all-pops comp_file_size comp_file_size-IsOrder k (passing filter (files e)) pos in
    (
      q,
      top_n-pushes e filter _ ∙ ends,
      subst (λ c. IsTop c k kept (pop_top comp_file_size q).0) comp_file_size-smaller top,
      subst (λ c. IsTop (reversed c) k kept (pop_bottom comp_file_size q).0) comp_file_size-smaller
          bottom,
    )
