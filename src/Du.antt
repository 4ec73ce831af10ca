-- ===== src/Du.antt =====
-- src/ducpp.cpp, on a file system that does not change while the tool runs. std::filesystem gives
-- the tree: what a path leads to, and a directory's entries in the order of its iterator.
pub mod Total
pub mod Largest
mod Tests
use quick_cmake.Prelude.{
  ℕ, ◌+◌, ◌%◌, Bool, true, false, Option, none, some, List, [], ◌∷◌, ◌++◌, ltb, ◌==◌, if◌then◌else◌,
}
use quick_cmake.Outcome.{Outcome, value, ◌>>=◌}
use quick_cmake.Str.{Text}
use quick_cmake.Args.Map.{text_eq}
use quick_cmake.TopK.{TopBottomK, push_both}

pub record File : Type 0 where
  pub path : Text
  pub extension : Text
  pub size : ℕ

-- `missing` is a path for which fs::exists is false; every directory can be read, and every other
-- entry has a size.
mutual
  pub data Entry : Type 0 where
    missing : Entry
    regular : File → Entry
    directory : Entries → Entry

  pub data Entries : Type 0 where
    end : Entries
    entry : Entry → Entries → Entries

-- CompFileSize, with `none` for a path that does not exist.
pub comp_sizes : Option ℕ → Option ℕ → Bool
comp_sizes none b = true
comp_sizes (some a) none = false
comp_sizes (some a) (some b) = ltb a b

pub comp_file_size : File → File → Bool
unfolding comp_sizes
comp_file_size p1 p2 = comp_sizes (some p1.size) (some p2.size)

-- A sum of type size_t.
abbrev pub size_add : ℕ → ℕ → ℕ
size_add a b = (a + b) % 18446744073709551616

unfoldable mutual
  pub du : Entry → ℕ
  du missing = 0
  du (directory es) = du_entries es 0
  du (regular f) = size_add 0 f.size

  -- The loop over a directory, with `sz` counted so far.
  pub du_entries : Entries → ℕ → ℕ
  du_entries end sz = sz
  du_entries (entry e es) sz = du_entries es (size_add sz (du e))

-- What the tasks of du_pool return, in the order in which they were submitted.
pub du_tasks : Entries → List ℕ
du_tasks end = []
du_tasks (entry e es) = du e ∷ du_tasks es

-- The loop over the futures.
pub add_all : List ℕ → ℕ → ℕ
add_all [] sz = sz
add_all (n ∷ r) sz = add_all r (size_add sz n)

pub du_pool : Entry → ℕ
unfolding du_tasks add_all
du_pool missing = 0
du_pool (directory es) = add_all (du_tasks es) 0
du_pool (regular f) = size_add 0 f.size

-- The function that main makes of the extensions.
abbrev pub is_one_of : List Text → Text → Bool
is_one_of [] e = false
is_one_of (x ∷ r) e = if text_eq x e then true else is_one_of r e

pub passes : List Text → File → Bool
passes [] p = true
passes (x ∷ r) p = is_one_of (x ∷ r) p.extension

-- An extension of the command line, with its dot; ext[0] of an empty text is '\0'.
pub with_dot : Text → Text
with_dot [] = b'.' ∷ []
with_dot (x ∷ s) = if x == b'.' then x ∷ s else b'.' ∷ x ∷ s

mutual
  pub top_n : Entry → (File → Bool) → TopBottomK File → Outcome (TopBottomK File)
  top_n missing filter top = value top
  top_n (directory es) filter top = top_n_entries es filter top
  top_n (regular f) filter top = if filter f then push_both comp_file_size f top else value top

  pub top_n_entries : Entries → (File → Bool) → TopBottomK File → Outcome (TopBottomK File)
  top_n_entries end filter top = value top
  top_n_entries (entry e es) filter top = top_n e filter top >>= top_n_entries es filter

-- The unit, and by what the size is divided for it.
pub format_size : ℕ → ℕ × Text
format_size sz =
    if ltb sz 1024
    then (1, b'B' ∷ [])
    else if ltb sz 1048576
    then (1024, b'K' ∷ b'B' ∷ [])
    else if ltb sz 1073741824
    then (1048576, b'M' ∷ b'B' ∷ [])
    else (1073741824, b'G' ∷ b'B' ∷ [])
