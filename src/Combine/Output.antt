-- ===== src/Combine/Output.antt =====
-- What combine_files writes: which files, in which order, and how.
use quick_cmake.Prelude.{
  append_assoc, ℕ, ◌≡◌, refl, ap, Option, none, some, List, [], ◌∷◌, ◌++◌, codes, ◌==◌,
  if◌then◌else◌, Bool-cases, inl, inr, arith,
}
use quick_cmake.Str.{Text, start_with}
use quick_cmake.Printer.{
  no_more, more, streamed, format, replace_all, replace_next, replace_at, to_strings,
}
use quick_cmake.Str.Search.{find, find_at}
use quick_cmake.Combine.{write_lines, begin_mark, end_mark, write_file, write_files}

-- Up to the last line feed, the lines are written as they stand.
write_lines_step :
    (line : Text) (y : ℕ) (s : Text)
    → write_lines line (y ∷ s)
      ≡ (if y == 10 then line ++ 10 ∷ write_lines [] s else write_lines (line ++ y ∷ []) s)
unfolding write_lines
write_lines_step [] y s = refl
write_lines_step (c ∷ line) y s = refl

write_lines_left : (line : Text) (x : ℕ) → write_lines (line ++ x ∷ []) [] ≡ line ++ x ∷ 10 ∷ []
unfolding write_lines
write_lines_left [] x = refl
write_lines_left (c ∷ line) x = ap (λ l. c ∷ l) (append_assoc line (x ∷ []) (10 ∷ []))

-- The text with a line feed behind it, unless it is empty or ends in one.
abbrev pub ended : Text → Text
ended [] = []
ended (x ∷ []) = if x == 10 then x ∷ [] else x ∷ 10 ∷ []
ended (x ∷ y ∷ s) = x ∷ ended (y ∷ s)

write_lines_nothing : write_lines [] [] ≡ []
unfolding write_lines
write_lines_nothing = refl

write_lines-ended :
    (line : Text) (x : ℕ) (s : Text) → write_lines line (x ∷ s) ≡ line ++ ended (x ∷ s)
write_lines-ended line x [] = elim (Bool-cases (x == 10)) [
  | inl e ↦
      let same : 10 ≡ x = ground arith in
      rw (write_lines_step, e, write_lines_nothing) (ap (λ y. line ++ y ∷ []) same)
  | inr e ↦ rw (write_lines_step, e) (write_lines_left line x)
]
write_lines-ended line x (y ∷ s) = elim (Bool-cases (x == 10)) [
  | inl e ↦
      let same : 10 ≡ x = ground arith in
      rw (write_lines_step, e, write_lines-ended [] y s) (ap (λ z. line ++ z ∷ ended (y ∷ s)) same)
  | inr e ↦
      rw (write_lines_step, e, write_lines-ended (line ++ x ∷ []) y s)
        (append_assoc line (x ∷ []) (ended (y ∷ s)))
]

begin_filled :
    (path : Text)
    → format begin_mark (more (streamed path) no_more)
      ≡ codes "<<<<<<<<<< [FILE-BEGIN] '" ++ (path ++ (codes "' <<<<<<<<<<" ++ 10 ∷ 10 ∷ []))
unfolding format replace_all to_strings replace_next replace_at find find_at start_with
begin_filled path = refl

end_filled :
    (path : Text)
    → format end_mark (more (streamed path) no_more)
      ≡ 10
        ∷ (codes ">>>>>>>>>> [FILE-END] '" ++ (path ++ (codes "' >>>>>>>>>>" ++ 10 ∷ 10 ∷ 10 ∷ [])))
unfolding format replace_all to_strings replace_next replace_at find find_at start_with
end_filled path = refl

-- What stands in the output for a file: its path between marks, its content with the last line
-- ended, and the marks again; nothing for a file that cannot be opened.
abbrev pub section : Text × Option Text → Text
section (path, none) = []
section (path, some content) =
    codes "<<<<<<<<<< [FILE-BEGIN] '"
    ++ (path
        ++ ((codes "' <<<<<<<<<<" ++ 10 ∷ 10 ∷ [])
            ++ (ended content
                ++ (10 ∷ codes ">>>>>>>>>> [FILE-END] '"
                    ++ (path ++ (codes "' >>>>>>>>>>" ++ 10 ∷ 10 ∷ 10 ∷ []))))))

abbrev pub sections : List (Text × Option Text) → Text
sections [] = []
sections (f ∷ fs) = section f ++ sections fs

write_lines-whole : (content : Text) → write_lines [] content ≡ ended content
write_lines-whole [] = write_lines_nothing
write_lines-whole (x ∷ s) = write_lines-ended [] x s

write_file-section : (f : Text × Option Text) → write_file f ≡ section f
unfolding write_file
write_file-section (path, none) = refl
write_file-section (path, some content) =
    rw (begin_filled path, end_filled path, write_lines-whole content)
      (ap (λ t. codes "<<<<<<<<<< [FILE-BEGIN] '" ++ t)
        (append_assoc path (codes "' <<<<<<<<<<" ++ 10 ∷ 10 ∷ []) _))

pub write_files-sections : (fs : List (Text × Option Text)) → write_files fs ≡ sections fs
unfolding write_files
write_files-sections [] = refl
write_files-sections (f ∷ fs) = rw (write_file-section f, write_files-sections fs) refl
