-- ===== src/Combine/Tests.antt =====
-- Runs of combine_files, and its theorems at a concrete command line.
use quick_cmake.Prelude.{ℕ, ◌≡◌, refl, false, Option, none, some, List, [], ◌∷◌, ◌-◌, codes}
use quick_cmake.Outcome.{value, thrown, out_of_range, Returns}
use quick_cmake.Str.{Text, split_char, strip, text_greater}
use quick_cmake.Args.{Conversions, Argument, drop_empty, tokens}
use quick_cmake.Args.Map.{text_eq}
use quick_cmake.Combine.{
  Entry, file, directory, end, entry, filename, is_skipped, collect_files, combine_files,
  combine_main,
}
use quick_cmake.Combine.Options.{IsReadyIfAny, combine_main-IsReady}
use quick_cmake.Combine.Output.{sections}
use quick_cmake.Combine.Collected.{selected, found_at, files_below, combine_files-sections}

-- One decimal digit.
abbrev digit : Text → Option ℕ
digit (x ∷ []) = some (x - b'0')
digit _ = none

abbrev conversions : Conversions
conversions = record { Int = ℕ; Double = ℕ; stoi = digit; stod = digit }

abbrev words : List Text
words = codes "-e" ∷ codes "md" ∷ codes "docs" ∷ []

abbrev line : List Argument
line =
    record { text = codes "-e"; is_literal = false }
    ∷ record { text = codes "md"; is_literal = false }
    ∷ record { text = codes "docs"; is_literal = false }
    ∷ []

tokens-line : tokens line ≡ value words
unfolding tokens drop_empty strip split_char
tokens-line = refl

-- An argument that is not made of spaces, with a part that is.
tokens-part : tokens (record { text = codes "x= "; is_literal = false } ∷ []) ≡ thrown out_of_range
unfolding tokens drop_empty strip split_char
tokens-part = refl

combine_main-IsReady_example :
    Returns IsReadyIfAny (combine_main conversions (codes "/tmp") (codes "2024") [] line)
combine_main-IsReady_example =
    combine_main-IsReady conversions (codes "/tmp") (codes "2024") [] line words tokens-line

-- A file, and one of that extension in a directory that is skipped.
abbrev docs : Text → Entry
docs path = directory (codes "docs") (
    entry (file (codes "docs/a.md") (codes ".md") (some (codes "text"))) (
      entry
        (directory (codes "docs/build")
          (entry (file (codes "docs/build/b.md") (codes ".md") (some [])) end))
        (entry (file (codes "docs/c.md") (codes ".md") none) end)))

docs-selected :
    selected (codes ".md") false (found_at docs (codes "docs" ∷ []))
    ≡ (codes "docs/a.md", some (codes "text")) ∷ (codes "docs/c.md", none) ∷ []
unfolding files_below text_eq text_greater
docs-selected = refl

-- A path with a slash at its end has no file name, so this directory is not left out.
abbrev slashed : Text → Entry
slashed path =
    directory (codes "build/") (entry (file (codes "build/b.md") (codes ".md") (some [])) end)

slashed-collected :
    collect_files (codes ".md") false (slashed []) ≡ (codes "build/b.md", some []) ∷ []
unfolding collect_files is_skipped filename text_eq text_greater
slashed-collected = refl

combine_files-sections_example :
    combine_files docs (codes "docs" ∷ []) (codes ".md") false
    ≡ sections (selected (codes ".md") false (found_at docs (codes "docs" ∷ [])))
combine_files-sections_example = combine_files-sections docs (codes "docs" ∷ []) (codes ".md") false
