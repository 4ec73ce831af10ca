-- ===== src/Lc/Tests.antt =====
-- Runs on a list and a tree, and the example of the theorem.
use mathlib.Core.List.{reverse}
use quick_cmake.Prelude.{◌+◌, ◌≡◌, refl, none, some, ℤ, pos, negsuc, [], ◌∷◌, ◌++◌, codes, map}
use quick_cmake.Outcome.{value, ◌>>=◌}
use quick_cmake.Str.{Text}
use quick_cmake.Printer.Listed.{join}
use quick_cmake.Lc.{
  vector_to_list, reverse_list, text_loop, without_sep, list_to_string, leaf, node, inorder,
  preorder, tree_to_string,
}
use quick_cmake.Lc.Printed.{reversed_text}

abbrev digit : ℤ → Text
digit (pos n) = (48 + n) ∷ []
digit (negsuc n) = codes "-"

-- The text of no list, and of no tree, has lost its bracket.
no_list : list_to_string digit (codes ",") 0 none [] ≡ value (codes "]")
unfolding list_to_string text_loop without_sep
no_list = refl

no_tree : tree_to_string digit (codes ",") leaf ≡ codes "(Pre)],(In)]"
unfolding tree_to_string inorder preorder without_sep
no_tree = refl

three_nodes :
    tree_to_string digit
      (codes ",")
      (node (node leaf (pos 1) leaf) (pos 2) (node leaf (pos 3) leaf))
    ≡ codes "(Pre)[2,1,3],(In)[1,2,3]"
unfolding tree_to_string inorder preorder without_sep
three_nodes = refl

reversed_text_example :
    (do
      (h, t) ← vector_to_list (pos 1 ∷ pos 2 ∷ pos 3 ∷ []) []
      (k, u) ← reverse_list 2 h t
      list_to_string digit (codes ",") 3 (some k) u)
    ≡ value (
        codes "["
        ++ (join (codes ",") (map digit (reverse (pos 1 ∷ pos 2 ∷ pos 3 ∷ []))) ++ codes "]"))
reversed_text_example = reversed_text digit (codes ",") (pos 1) (pos 2 ∷ pos 3 ∷ []) []
