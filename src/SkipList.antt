-- ===== src/SkipList.antt =====
-- include/skutils/containers/skiplist.h: SkipList, over any types of keys and values and the keys'
-- `<` and `==`. The nodes stand in a store, a pointer is an address of it, and nullptr is `none`.
pub mod Levels
pub mod Threads
pub mod Search
pub mod Splice
pub mod Rounds
pub mod Represents
pub mod Change
pub mod Entries
pub mod Refines
mod Tests
use quick_cmake.Prelude.{
  ℕ, zero, suc, ◌+◌, ◌-◌, Bool, true, false, not, ◌&&◌, Option, none, some, ltb, leb, ◌==◌,
  if◌then◌else◌,
}
use quick_cmake.Outcome.{Outcome, value, thrown, undefined, out_of_fuel, runtime_error, ◌>>=◌}

-- nextNodes is a vector of `level` pointers, of which `next_nodes` gives each by its index.
pub record SkipListNode (K V : Type 0) : Type 0 where
  pub key : K
  pub val : V
  pub level : ℕ
  pub next_nodes : ℕ → Option ℕ

-- node_num and head, with the nodes at their addresses, and the address of the next new node.
pub record SkipList (K V : Type 0) : Type 0 where
  pub node_num : ℕ
  pub head : ℕ
  pub nodes : ℕ → Option (SkipListNode K V)
  pub unused : ℕ

abbrev pub max_level : ℕ
max_level = 20

abbrev pub write : {A : Type 0} → (ℕ → A) → ℕ → A → ℕ → A
write f i a j = if i == j then a else f j

-- What a pointer that must not be null points at.
abbrev pub required : {A : Type 0} → Option A → Outcome A
required none = undefined
required (some a) = value a

-- `draws i` says whether getRandomDouble(0, 1) is below 0.5 while level is i.
unfoldable pub level_loop : ℕ → (ℕ → Bool) → ℕ → Outcome ℕ
level_loop zero draws level = out_of_fuel
level_loop (suc fuel) draws level =
    let again = level_loop fuel draws (level + 1) in
    if draws level && leb level max_level then again else value level

unfoldable pub get_random_level : (ℕ → Bool) → Outcome ℕ
get_random_level draws = level_loop (max_level + 1) draws 1

abbrev pub Nodes : Type 0 → Type 0 → Type 0
Nodes K V = ℕ → Option (SkipListNode K V)

module _ {K V : Type 0} where
  -- p->nextNodes[i]
  unfoldable pub next_at : Nodes K V → ℕ → ℕ → Outcome (Option ℕ)
  next_at m p i =
      required (m p) >>= λ n. if ltb i n.level then value (n.next_nodes i) else undefined

  -- p->nextNodes[i] = q
  unfoldable pub set_next : Nodes K V → ℕ → ℕ → Option ℕ → Outcome (Nodes K V)
  set_next m p i q = required (m p) >>= λ n.
      if ltb i n.level
      then value (write m p (some (record n { next_nodes = write n.next_nodes i q })))
      else undefined

  abbrev pub new_node : ℕ → K → V → SkipListNode K V
  new_node level k v = record { key = k; val = v; level = level; next_nodes = λ i. none }

  -- The constructor, where K{} and V{} are given.
  unfoldable pub make : K → V → SkipList K V
  make k v = record {
    node_num = 0;
    head = 0;
    nodes = write (λ p. none) 0 (some (new_node max_level k v));
    unused = 1;
  }

  abbrev pub size : SkipList K V → ℕ
  size s = s.node_num

  -- The second loop of insert, from round i on.
  unfoldable pub link : ℕ → ℕ → (ℕ → Option ℕ) → ℕ → Nodes K V → Outcome (Nodes K V)
  link zero i update p m = value m
  link (suc n) i update p m = do
    q ← required (update i)
    next ← next_at m q i
    m1 ← set_next m p i next
    m2 ← set_next m1 q i (some p)
    link n (i + 1) update p m2

  -- The second loop of erase, from round i on.
  unfoldable pub unlink : ℕ → ℕ → (ℕ → Option ℕ) → ℕ → Nodes K V → Outcome (Nodes K V)
  unlink zero i update p m = value m
  unlink (suc n) i update p m = do
    q ← required (update i)
    next ← next_at m p i
    m1 ← set_next m q i next
    m2 ← set_next m1 p i none
    unlink n (i + 1) update p m2

module _ {K V : Type 0} (lt eq : K → K → Bool) where
  -- The inner loop of find, insert and erase, on level i from curr.
  unfoldable pub walk : ℕ → Nodes K V → ℕ → K → ℕ → Outcome ℕ
  walk zero m i k curr = out_of_fuel
  walk (suc fuel) m i k curr = next_at m curr i >>= λ next. elim next [
    | none ↦ value curr
    | some q ↦ required (m q) >>= λ n.
        let further = walk fuel m i k q in if lt n.key k then further else value curr
  ]

  -- The outer loop of find, with `levels` levels to go.
  unfoldable pub find_loop : ℕ → Nodes K V → K → ℕ → ℕ → Outcome ℕ
  find_loop fuel m k zero curr = value curr
  find_loop fuel m k (suc i) curr = walk fuel m i k curr >>= λ p. find_loop fuel m k i p

  -- The outer loop of insert and erase: curr, and `update`, which has max_level entries; the ones
  -- that are not written, and those beyond, are nullptr.
  unfoldable pub search_loop :
      ℕ → Nodes K V → K → ℕ → ℕ → (ℕ → Option ℕ) → Outcome (ℕ × (ℕ → Option ℕ))
  search_loop fuel m k zero curr update = value (curr, update)
  search_loop fuel m k (suc i) curr update =
      walk fuel m i k curr >>= λ p. search_loop fuel m k i p (write update i (some p))

  -- `curr == nullptr || curr->key != key` of the node behind curr: that node's address otherwise.
  unfoldable pub match_next : Nodes K V → K → ℕ → Outcome (Option ℕ)
  match_next m k curr = next_at m curr 0 >>= λ next. elim next [
    | none ↦ value none
    | some q ↦ required (m q) >>= λ n. value (if eq n.key k then some q else none)
  ]

  unfoldable pub find : SkipList K V → K → Outcome (Option ℕ)
  find s k = do
    curr ← find_loop (suc s.node_num) s.nodes k max_level s.head
    match_next s.nodes k curr

  -- operator[]
  unfoldable pub at : SkipList K V → K → Outcome V
  at s k = find s k >>= λ r. elim r [
    | none ↦ thrown runtime_error
    | some p ↦ required (s.nodes p) >>= λ n. value n.val
  ]

  unfoldable pub insert : (ℕ → Bool) → SkipList K V → K → V → Outcome (Bool × SkipList K V)
  insert draws s k v = do
    (curr, update) ← search_loop (suc s.node_num) s.nodes k max_level s.head (λ i. none)
    there ← match_next s.nodes k curr
    elim there [
      | some q ↦ value (false, s)
      | none ↦ do
        level ← get_random_level draws
        m ← link level 0 update s.unused (write s.nodes s.unused (some (new_node level k v)))
        value (true, record s { node_num = s.node_num + 1; nodes = m; unused = s.unused + 1 })
    ]

  unfoldable pub erase : SkipList K V → K → Outcome (Bool × SkipList K V)
  erase s k =
      let run : Outcome (Bool × SkipList K V) = do
        (curr, update) ← search_loop (suc s.node_num) s.nodes k max_level s.head (λ i. none)
        there ← match_next s.nodes k curr
        elim there [
          | none ↦ value (false, s)
          | some p ↦ do
            n ← required (s.nodes p)
            m ← unlink n.level 0 update p s.nodes
            value (true, record s { node_num = s.node_num - 1; nodes = write m p none })
        ]
      in if leb s.node_num 0 then value (false, s) else run
