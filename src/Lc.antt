-- ===== src/Lc.antt =====
-- include/skutils/containers/lc.h: the linked lists on a store of nodes, and the texts of lists and
-- trees. A pointer is the place of its node in the store, and nullptr is `none`; how operator<<
-- writes an int is a parameter.
pub mod Chains
pub mod Reversed
pub mod Printed
mod Tests
use quick_cmake.Prelude.{
  ℕ, zero, suc, ◌+◌, ◌-◌, Bool, Option, none, some, ℤ, List, [], ◌∷◌, ◌++◌, codes, length,
  get_elem?, set, take, ltb, if◌then◌else◌,
}
use quick_cmake.Outcome.{Outcome, value, undefined, out_of_fuel, ◌>>=◌}
use quick_cmake.Str.{Text}

pub record ListNode : Type 0 where
  pub val : ℤ
  pub next : Option ℕ

abbrev pub Store : Type 0
Store = List ListNode

found : Option ListNode → Outcome ListNode
found none = undefined
found (some n) = value n

-- *p
unfoldable pub deref : Store → ℕ → Outcome ListNode
unfolding found
deref s p = found (get_elem? s p)

-- p->next = q
unfoldable pub set_next : Store → ℕ → Option ℕ → Outcome Store
set_next s p q = deref s p >>= λ n. value (set s p (record n { next = q }))

abbrev pub new_node : ℤ → ListNode
new_node v = record { val = v; next = none }

-- The loop of vector2List, with its `tail`.
unfoldable pub append_loop : List ℤ → ℕ → Store → Outcome Store
append_loop [] tail s = value s
append_loop (v ∷ vs) tail s =
    let p = length s in set_next (s ++ new_node v ∷ []) tail (some p) >>= λ t. append_loop vs p t

-- data[0] of an empty vector is undefined.
unfoldable pub vector_to_list : List ℤ → Store → Outcome (ℕ × Store)
vector_to_list [] s = undefined
vector_to_list (v ∷ vs) s =
    let head = length s in append_loop vs head (s ++ new_node v ∷ []) >>= λ t. value (head, t)

-- The loop of reverseList and the two lines behind it.
unfoldable pub reverse_loop : ℕ → ℕ → ℕ → Store → Outcome (ℕ × Store)
reverse_loop zero p q s = out_of_fuel
reverse_loop (suc fuel) p q s = deref s q >>= λ n. elim n.next [
  | none ↦ set_next s q (some p) >>= λ t. value (q, t)
  | some r ↦ set_next s q (some p) >>= λ t. reverse_loop fuel q r t
]

-- *head is given and the new one returned; `fuel` bounds the rounds of the loop.
unfoldable pub reverse_list : ℕ → ℕ → Store → Outcome (ℕ × Store)
reverse_list fuel head s = deref s head >>= λ n. elim n.next [
  | none ↦ value (head, s)
  | some q ↦ set_next s head none >>= λ t. reverse_loop fuel head q t
]

-- The loop of listToString.
unfoldable pub text_loop : (ℤ → Text) → Text → ℕ → Option ℕ → Store → Text → Outcome Text
text_loop show sep fuel none s ss = value ss
text_loop show sep zero (some p) s ss = out_of_fuel
text_loop show sep (suc fuel) (some p) s ss =
    deref s p >>= λ n. text_loop show sep fuel n.next s (ss ++ (show n.val ++ sep))

-- substr(0, length - sep.length()), where a difference below zero wraps around.
unfoldable pub without_sep : Text → Text → Text
without_sep ss sep = if ltb (length ss) (length sep) then ss else take (length ss - length sep) ss

unfoldable pub list_to_string : (ℤ → Text) → Text → ℕ → Option ℕ → Store → Outcome Text
list_to_string show sep fuel p s =
    text_loop show sep fuel p s (codes "[") >>= λ ss. value (without_sep ss sep ++ codes "]")

pub data Tree : Type 0 where
  leaf : Tree
  node : Tree → ℤ → Tree → Tree

unfoldable pub inorder : (ℤ → Text) → Text → Tree → Text → Text
inorder show sep leaf ss = ss
inorder show sep (node l v r) ss = inorder show sep r (inorder show sep l ss ++ (show v ++ sep))

unfoldable pub preorder : (ℤ → Text) → Text → Tree → Text → Text
preorder show sep leaf ss = ss
preorder show sep (node l v r) ss =
    preorder show sep r (preorder show sep l (ss ++ (show v ++ sep)))

unfoldable pub tree_to_string : (ℤ → Text) → Text → Tree → Text
tree_to_string show sep t =
    let ret = without_sep (inorder show sep t (codes "(In)[")) sep ++ codes "]" in
    let ret2 = without_sep (preorder show sep t (codes "(Pre)[")) sep ++ codes "]" in
    ret2 ++ (sep ++ ret)
