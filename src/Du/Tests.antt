-- ===== src/Du/Tests.antt =====
-- Runs of the disk usage tool, and its theorems at a concrete tree.
use quick_cmake.Prelude.{ℕ, ◌≡◌, refl, [], ◌∷◌, arith}
use quick_cmake.Outcome.{value}
use quick_cmake.TopK.{reversed, TopBottomK, pop_top, pop_bottom}
use quick_cmake.TopK.Largest.{IsTop}
use quick_cmake.Du.{
  File, Entry, missing, regular, directory, end, entry, du, comp_file_size, passes, with_dot, top_n,
  format_size,
}
use quick_cmake.Du.Total.{files}
use quick_cmake.Du.Largest.{smaller, passing, top_n-lists}

abbrev file : ℕ → File
file n = record { path = n ∷ []; extension = b'.' ∷ b'h' ∷ []; size = n }

abbrev tree : Entry
tree = directory (
    entry (regular (file 20)) (
      entry missing
        (entry (directory (entry (regular (file 5)) (entry (regular (file 7000)) end))) end)))

du-tree : du tree ≡ 7025
unfolding du
du-tree = refl

with_dot-h : with_dot (b'h' ∷ []) ≡ b'.' ∷ b'h' ∷ []
unfolding with_dot
with_dot-h = refl

format_size-tree : format_size 7025 ≡ (1024, b'K' ∷ b'B' ∷ [])
unfolding format_size
format_size-tree = refl

top_n-lists_example :
    (q : TopBottomK File) × (top_n tree (passes []) (record {
      max_queue = record { cap = 2; pq = [] };
      min_queue = record { cap = 2; pq = [] };
    })
      ≡ value q)
    × IsTop smaller 2 (passing (passes []) (files tree)) (pop_top comp_file_size q).0
    × IsTop (reversed smaller) 2 (passing (passes []) (files tree)) (pop_bottom comp_file_size q).0
top_n-lists_example = top_n-lists tree (passes []) 2 (omega arith)
