-- ===== src/Combine/Collected.antt =====
-- Which files combine_files collects.
use mathlib.Core.Bool.{or-true}
use quick_cmake.Prelude.{
  ◌≡◌, refl, ap, ◌∙◌, codes, arith, ◌==◌, Bool, true, false, not, ◌&&◌, ◌||◌, Option, List, [], ◌∷◌,
  ◌++◌, if◌then◌else◌, Bool-cases, inl, inr,
}
use quick_cmake.Str.{Text}
use quick_cmake.Args.Map.{text_eq}
use quick_cmake.Combine.{
  Entry, missing, file, directory, Entries, end, entry, filename, has_slash, is_skipped,
  collect_files, collect_entries, collect_all, combine_files,
}
use quick_cmake.Combine.Output.{sections, write_files-sections}

-- A file that is found: the paths of the directories above it, from the nearest on, its path,
-- extension and content.
pub record Found : Type 0 where
  pub above : List Text
  pub path : Text
  pub extension : Text
  pub content : Option Text

-- All files below an entry, in the order of the directories' entries.
unfoldable mutual
  pub files_below : List Text → Entry → List Found
  files_below above missing = []
  files_below above (file path extension content) =
      record { above = above; path = path; extension = extension; content = content } ∷ []
  files_below above (directory path es) = files_below_entries (path ∷ above) es

  pub files_below_entries : List Text → Entries → List Found
  files_below_entries above end = []
  files_below_entries above (entry e es) = files_below above e ++ files_below_entries above es

-- Whether some slash of the path stands directly before the name, which ends the path.
abbrev ends_behind_slash : Text → Text → Bool
ends_behind_slash name [] = false
ends_behind_slash name (x ∷ s) = ((x == b'/') && text_eq s name) || ends_behind_slash name s

-- Whether the name is the whole path, or the end of the path behind a slash.
abbrev ends_as : Text → Text → Bool
ends_as name path = text_eq path name || ends_behind_slash name path

-- Whether one of the directories is to be left out: its path is or ends in ".git" or "build".
abbrev pub any_skipped : List Text → Bool
any_skipped [] = false
any_skipped (path ∷ paths) =
    (ends_as (codes ".git") path || ends_as (codes "build") path) || any_skipped paths

text_eq-slash :
    (s name : Text) → has_slash s ≡ true → has_slash name ≡ false → text_eq s name ≡ false
unfolding text_eq
text_eq-slash [] name h k = cc
text_eq-slash (x ∷ s) [] h k = refl
text_eq-slash (x ∷ s) (y ∷ name) h k = ground (arith, text_eq-slash s name)

ends_behind_slash-none : (name s : Text) → has_slash s ≡ false → ends_behind_slash name s ≡ false
ends_behind_slash-none name [] h = refl
ends_behind_slash-none name (x ∷ s) h = ground (arith, ends_behind_slash-none name s)

text_eq-filename :
    (name path : Text) → has_slash name ≡ false → text_eq (filename path) name ≡ ends_as name path
unfolding filename
text_eq-filename name [] h = ground arith
text_eq-filename name (x ∷ s) h = ground (
  arith,
  text_eq-filename name s h,
  text_eq-slash s name,
  text_eq-slash (x ∷ s) name,
  ends_behind_slash-none name s,
)

is_skipped-ends :
    (path : Text)
    → is_skipped (filename path) ≡ (ends_as (codes ".git") path || ends_as (codes "build") path)
unfolding is_skipped
is_skipped-ends path =
    rw (text_eq-filename (codes ".git") path refl, text_eq-filename (codes "build") path refl) refl

-- The files of the extension; without no_skip, only those below no directory that is skipped.
abbrev pub selected : Text → Bool → List Found → List (Text × Option Text)
selected ext no_skip [] = []
selected ext no_skip (f ∷ fs) =
    let rest = selected ext no_skip fs in
    if (no_skip || not (any_skipped f.above)) && text_eq f.extension ext
    then (f.path, f.content) ∷ rest
    else rest

selected-append :
    (ext : Text) (no_skip : Bool) (fs gs : List Found)
    → selected ext no_skip (fs ++ gs) ≡ selected ext no_skip fs ++ selected ext no_skip gs
selected-append ext no_skip [] gs = refl
selected-append ext no_skip (f ∷ fs) gs =
    elim (Bool-cases ((no_skip || not (any_skipped f.above)) && text_eq f.extension ext)) [
      | inl e ↦ rw (e, selected-append ext no_skip fs gs) refl
      | inr e ↦ rw (e, selected-append ext no_skip fs gs) refl
    ]

module _ {A : Type 0} where
  if-directory :
      (no_skip here above : Bool) (l : List A)
      → (if no_skip || not (here || above) then l else [])
        ≡ (if no_skip || not above then (if not no_skip && here then [] else l) else [])
  if-directory true here above l = refl
  if-directory false true true l = refl
  if-directory false true false l = refl
  if-directory false false above l = refl

  if-nothing : (test : Bool) → ◌≡◌ {A = List A} [] (if test then [] else [])
  if-nothing true = refl
  if-nothing false = refl

  if-append :
      (test : Bool) (l m : List A)
      → (if test then l else []) ++ (if test then m else []) ≡ (if test then l ++ m else [])
  if-append true l m = refl
  if-append false l m = refl

  if-and :
      (test more : Bool) (l : List A)
      → (if test && more then l else []) ≡ (if test then (if more then l else []) else [])
  if-and true more l = refl
  if-and false more l = refl

mutual
  unfolding collect_files files_below

  selected-collected :
      (ext : Text) (no_skip : Bool) (above : List Text) (e : Entry)
      → selected ext no_skip (files_below above e)
        ≡ (if no_skip || not (any_skipped above) then collect_files ext no_skip e else [])
  selected-collected ext no_skip above missing =
      if-nothing {A = Text × Option Text} (no_skip || not (any_skipped above))
  selected-collected ext no_skip above (file path extension content) =
      if-and (no_skip || not (any_skipped above)) (text_eq extension ext) ((path, content) ∷ [])
  selected-collected ext no_skip above (directory path es) =
      let skipped = ends_as (codes ".git") path || ends_as (codes "build") path in
      rw (is_skipped-ends path) (
        selected-collected_entries ext no_skip (path ∷ above) es
        ∙ if-directory no_skip skipped (any_skipped above) (collect_entries ext no_skip es))

  selected-collected_entries :
      (ext : Text) (no_skip : Bool) (above : List Text) (es : Entries)
      → selected ext no_skip (files_below_entries above es)
        ≡ (if no_skip || not (any_skipped above) then collect_entries ext no_skip es else [])
  selected-collected_entries ext no_skip above end =
      if-nothing {A = Text × Option Text} (no_skip || not (any_skipped above))
  selected-collected_entries ext no_skip above (entry e es) =
      rw
        (
          selected-append,
          selected-collected ext no_skip above e,
          selected-collected_entries ext no_skip above es,
          if-append,
        )
        refl

-- The files below several paths, where `at` says what is at a path.
abbrev pub found_at : (Text → Entry) → List Text → List Found
found_at at [] = []
found_at at (p ∷ ps) = files_below [] (at p) ++ found_at at ps

collect_all-selected :
    (at : Text → Entry) (ext : Text) (no_skip : Bool) (paths : List Text)
    → collect_all at ext no_skip paths ≡ selected ext no_skip (found_at at paths)
unfolding collect_all
collect_all-selected at ext no_skip [] = refl
collect_all-selected at ext no_skip (p ∷ ps) =
    rw
      (
        selected-append,
        selected-collected ext no_skip [] (at p),
        collect_all-selected at ext no_skip ps,
        or-true,
      )
      refl

-- Where every directory can be read, combine_files writes a section for each file below its paths,
-- in the order of the paths and of the directories' entries, that has the extension, can be opened
-- and, without no_skip, stands in no directory whose path is or ends behind a slash in ".git" or
-- "build", the paths themselves included; so one given as "build/" is not left out. The section
-- holds the file's path between marks, its content with its last line ended, and the marks again.
pub combine_files-sections :
    (at : Text → Entry) (paths : List Text) (ext : Text) (no_skip : Bool)
    → combine_files at paths ext no_skip ≡ sections (selected ext no_skip (found_at at paths))
unfolding combine_files
combine_files-sections at paths ext no_skip =
    write_files-sections (collect_all at ext no_skip paths)
    ∙ ap sections (collect_all-selected at ext no_skip paths)
