-- ===== src/UnionFind/Linked.antt =====
-- The equivalence that connected pairs generate, for both implementations of UnionFindSet.
use mathlib.Core.List.{Memᴰ}
use quick_cmake.Prelude.{◌≡◌, List, ◌∷◌}

-- The least equivalence that holds of the pairs.
pub data Linked {A : Type 0} (es : List (A × A)) : A → A → Type 0 where
  pair : {x y : A} → Memᴰ (x, y) es → Linked es x y
  same : {x y : A} → x ≡ y → Linked es x y
  back : {x y : A} → Linked es y x → Linked es x y
  through : {x y z : A} → Linked es x y → Linked es y z → Linked es x z

module _ {A : Type 0} where
  pub weaken : {e : A × A} {es : List (A × A)} {x y : A} → Linked es x y → Linked (e ∷ es) x y
  weaken (pair m) = pair (Memᴰ.tail m)
  weaken (same e) = same e
  weaken (back l) = back (weaken l)
  weaken (through l k) = through (weaken l) (weaken k)

  pub Linked-mono :
      (ds es : List (A × A)) {x y : A}
      → ((e : A × A) → Memᴰ e ds → Memᴰ e es)
      → Linked ds x y
      → Linked es x y
  Linked-mono ds es h (pair m) = pair (h _ m)
  Linked-mono ds es h (same e) = same e
  Linked-mono ds es h (back l) = back (Linked-mono ds es h l)
  Linked-mono ds es h (through l k) = through (Linked-mono ds es h l) (Linked-mono ds es h k)
