-- ===== src/Graph/Shape.antt =====
-- The constructors of Graph, addNode and addEdge: the shape of the graph and its cells.
use native.Mathlib.Decide.{ℕ_discrete}
use quick_cmake.Prelude.{
  ℕ, zero, suc, ◌+◌, ◌-◌, ◌≤◌, ◌<◌, ◌≡◌, refl, sym, ap, ◌∙◌, Bool, true, false, ◌&&◌, ◌||◌, not,
  ◌⊎◌, inl, inr, List, [], ◌∷◌, ◌++◌, map, length, get_or, replicate, length-append,
  length-replicate, leb, Bool-cases, ltb, ◌==◌, ℤ, pos, if◌then◌else◌, arith,
}
use quick_cmake.Outcome.{value}
use quick_cmake.Graph.{
  dummy_value, Matrix, Graph, cell, write, mirror, of_nodes, of_matrix, add_node, put_edge,
  add_edge,
}
use quick_cmake.Prelude.{get_or-append, get_or-replicate, get_or-end}
use quick_cmake.Graph.Edges.{IsSquare, IsSymmetric, cell-write, write-IsSquare, mirror_lem}

pub record IsGraph {A : Type 0} (g : Graph A) : Type 0 where
  pub counted : g.node_num ≡ length g.nodes
  pub square : IsSquare g.node_num g.edges
  pub symmetric : g.is_directed ≡ false → IsSymmetric g.edges

pub cell-end :
    (n : ℕ) (m : Matrix) (a b : ℕ) → IsSquare n m → (n ≤ a) ⊎ (n ≤ b) → cell m a b ≡ dummy_value
cell-end n m a b sq (inl h) = rw (get_or-end m a [] (rw (sq.rows) h)) refl
cell-end n m a b sq (inr h) = elim (Bool-cases (leb n a)) [
  | inl e ↦
      let none_left : n ≤ a = ground arith in rw (get_or-end m a [] (rw (sq.rows) none_left)) refl
  | inr e ↦
      let inside : a < n = ground arith in
      let long : length (get_or m a []) ≤ b = rw (sq.row a inside) h in
      get_or-end (get_or m a []) b dummy_value long
]

lower-IsSymmetric :
    (m w : Matrix)
    → ((a b : ℕ) → cell w a b ≡ (if ltb a b then cell m b a else cell m a b))
    → IsSymmetric w
lower-IsSymmetric m w lower a b = elim (ℕ_discrete a b) [
  | yes e ↦ ap (λ z. cell w z b) e ∙ ap (λ z. cell w b z) (sym e)
  | no other ↦ ground (arith, lower a b, lower b a)
]

module _ {A : Type 0} where
  -- An undirected graph built from a square matrix takes the cells above the diagonal from below
  -- it; a directed one takes the matrix as it is. The graph is well formed.
  pub of_matrix_correct :
      (v : List A) (m : Matrix) (directed : Bool)
      → IsSquare (length v) m
      → IsGraph (of_matrix v m directed)
        × ((a b : ℕ)
            → cell (of_matrix v m directed).edges a b
              ≡ (if not directed && ltb a b then cell m b a else cell m a b))
  unfolding of_matrix
  of_matrix_correct v m true sq =
      (record { counted = refl; square = sq; symmetric = λ e. absurd (ground arith) }, λ a b. refl)
  of_matrix_correct v m false sq =
      let n = length v in
      let (sq', cells) = mirror_lem n n 0 m sq (omega arith) in
      let lower : (a b : ℕ)
          → cell (mirror n 0 m) a b ≡ (if ltb a b then cell m b a else cell m a b) =
        λ a b.
          let e = cells a b in
          elim (Bool-cases (leb n b)) [
            | inl far ↦
                let out : n ≤ b = ground arith in
                let p = cell-end n m a b sq (inr out) in
                let q = cell-end n m b a sq (inl out) in ground arith
            | inr near ↦ ground arith
          ] in
      (record { counted = refl; square = sq'; symmetric = λ _. lower-IsSymmetric m _ lower }, lower)

  Written : Graph A → ℕ → ℕ → ℤ → Matrix → Type 0
  Written g f t val m =
      (a b : ℕ)
      → cell m a b ≡ (
          if ((f == a) && (t == b)) || (not g.is_directed && ((t == a) && (f == b)))
          then val
          else cell g.edges a b)

  abbrev graph_of : List A → Matrix → Bool → ℕ → Graph A
  graph_of v m directed n = record { nodes = v; edges = m; is_directed = directed; node_num = n }

  put_edge_lem :
      (v : List A) (m : Matrix) (d : Bool) (n f t : ℕ) (val : ℤ)
      → let g = graph_of v m d n in
        IsGraph g
        → f < n
        → t < n
        → IsGraph (put_edge f t val g) × Written g f t val (put_edge f t val g).edges
  unfolding Written
  put_edge_lem v m true n f t val ok hf ht = (
    record {
      counted = ok.counted;
      square = write-IsSquare n m ok.square f t val hf ht;
      symmetric = λ e. absurd (ground arith);
    },
    λ a b. ground (arith, cell-write n m ok.square f t val hf ht a b),
  )
  put_edge_lem v m false n f t val ok hf ht =
      let sq = write-IsSquare n m ok.square f t val hf ht in
      let there = cell-write n m ok.square f t val hf ht in
      let back = cell-write n (write m f t val) sq t f val ht hf in
      (
        record {
          counted = ok.counted;
          square = write-IsSquare n (write m f t val) sq t f val ht hf;
          symmetric = λ _ a b.
              ground (arith, there a b, there b a, back a b, back b a, ok.symmetric refl a b);
        },
        λ a b. ground (arith, there a b, back a b),
      )

  pub add_edge_correct :
      (g : Graph A) (f t : ℕ) (val : ℤ)
      → IsGraph g
      → f < g.node_num
      → t < g.node_num
      → (h : Graph A) × (add_edge (pos f) (pos t) val g ≡ value h)
        × IsGraph h
        × (h.nodes ≡ g.nodes)
        × ((a b : ℕ)
            → cell h.edges a b ≡ (
                if ((f == a) && (t == b)) || (not g.is_directed && ((t == a) && (f == b)))
                then val
                else cell g.edges a b))
  unfolding add_edge Written
  add_edge_correct g f t val ok hf ht =
      let (ok', written) = put_edge_lem g.nodes g.edges g.is_directed g.node_num f t val ok hf ht in
      (put_edge f t val g, ground (arith, ok.square.rows), ok', refl, written)

abbrev wider : List ℤ → List ℤ
wider r = r ++ (dummy_value ∷ [])

length-wider : (m : Matrix) → length (map wider m) ≡ length m
length-wider [] = refl
length-wider (r ∷ m) = ap suc (length-wider m)

get_or-wider :
    (m : Matrix) (a : ℕ)
    → get_or (map wider m) a [] ≡ (if ltb a (length m) then wider (get_or m a []) else [])
get_or-wider [] a = ground arith
get_or-wider (r ∷ m) zero = ground arith
get_or-wider (r ∷ m) (suc a) = ground (arith, get_or-wider m a)

get_or-single : {A : Type 0} (r d : A) (k : ℕ) → get_or (r ∷ []) k d ≡ (if k == 0 then r else d)
get_or-single r d zero = ground arith
get_or-single r d (suc k) = ground arith

module _ (n : ℕ) (m : Matrix) (sq : IsSquare n m) where
  abbrev grown : Matrix
  grown = map wider m ++ (replicate (n + 1) dummy_value ∷ [])

  row-grown :
      (a : ℕ)
      → get_or grown a [] ≡ (
          if ltb a n
          then wider (get_or m a [])
          else if a == n
          then replicate (n + 1) dummy_value
          else [])
  row-grown a =
      let last = replicate (n + 1) dummy_value in
      ground (
        arith,
        get_or-append (map wider m) (last ∷ []) a [],
        length-wider m,
        sq.rows,
        get_or-wider m a,
        get_or-single last [] (a - length (map wider m)),
      )

  grown-IsSquare : IsSquare (n + 1) grown
  grown-IsSquare = record {
    rows = ground (
      arith,
      length-append (map wider m) (replicate (n + 1) dummy_value ∷ []),
      length-wider m,
      sq.rows,
    );
    row = λ a h. ground (
      arith,
      row-grown a,
      sq.row a,
      length-append (get_or m a []) (dummy_value ∷ []),
      length-replicate (n + 1) dummy_value,
    );
  }

  cell-grown : (a b : ℕ) → cell grown a b ≡ cell m a b
  cell-grown a b = elim (Bool-cases (ltb a n)) [
    | inl e ↦
        let old = get_or m a [] in
        let inside : a < n = ground arith in
        let at : get_or grown a [] ≡ wider old = ground (arith, row-grown a) in
        rw (at) ground (
          arith,
          get_or-append old (dummy_value ∷ []) b dummy_value,
          sq.row a inside,
          get_or-end old b dummy_value,
          get_or-single dummy_value dummy_value (b - length old),
        )
    | inr e ↦
        let outside : n ≤ a = ground arith in
        let old = cell-end n m a b sq (inl outside) in
        elim (ℕ_discrete a n) [
          | yes last ↦
              let at : get_or grown a [] ≡ replicate (n + 1) dummy_value =
                ground (arith, row-grown a) in
              rw (at, old) ground (arith, get_or-replicate (n + 1) b dummy_value dummy_value)
          | no other ↦
              let at : get_or grown a [] ≡ [] = ground (arith, row-grown a) in rw (at, old) refl
        ]
  ]

module _ {A : Type 0} where
  -- A new node keeps every weight, and has the dummy value in its own row and column.
  pub add_node_correct :
      (g : Graph A) (val : A)
      → IsGraph g
      → IsGraph (add_node val g) × ((a b : ℕ) → cell (add_node val g).edges a b ≡ cell g.edges a b)
  unfolding add_node
  add_node_correct g val ok =
      let n = g.node_num in
      let same = cell-grown n g.edges ok.square in
      (
        record {
          counted = ground (arith, length-append g.nodes (val ∷ []), ok.counted);
          square = grown-IsSquare n g.edges ok.square;
          symmetric = λ e a b. same a b ∙ ok.symmetric e a b ∙ sym (same b a);
        },
        same,
      )

  pub of_nodes-IsGraph :
      (v : List A) (d : Bool)
      → IsGraph (of_nodes v d) × ((a b : ℕ) → cell (of_nodes v d).edges a b ≡ dummy_value)
  unfolding of_nodes
  of_nodes-IsGraph v d =
      let n = length v in
      let blank : (a b : ℕ) → cell (replicate n (replicate n dummy_value)) a b ≡ dummy_value =
        λ a b.
          let row = get_or-replicate n a (replicate n dummy_value) [] in
          elim (Bool-cases (ltb a n)) [
            | inl e ↦ rw (row, e) ground (arith, get_or-replicate n b dummy_value dummy_value)
            | inr e ↦ rw (row, e) refl
          ] in
      (
        record {
          counted = refl;
          square = record {
            rows = length-replicate n _;
            row = λ a h. ground (
              arith,
              get_or-replicate n a (replicate n dummy_value) [],
              length-replicate n dummy_value,
            );
          };
          symmetric = λ e a b. blank a b ∙ sym (blank b a);
        },
        blank,
      )
