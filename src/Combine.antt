-- ===== src/Combine.antt =====
-- src/combine_files.cpp, on a file system that does not change while the tool runs; the time, the
-- working directory and the home directory are parameters.
pub mod Options
pub mod Output
pub mod Collected
mod Tests
use quick_cmake.Prelude.{
  ℕ, zero, suc, ◌+◌, Bool, true, false, not, ◌&&◌, ◌||◌, Option, none, some, List, [], ◌∷◌, ◌++◌,
  codes, ◌==◌, if◌then◌else◌,
}
use quick_cmake.Outcome.{Outcome, value, thrown, bad_variant_access, ◌>>=◌}
use quick_cmake.Str.{Text}
use quick_cmake.Args.{
  Conversions, ArgType, bool_type, str_type, list_type, ArgValue, bool_value, int_value,
  double_value, str_value, list_value, ArgInfo, Parser, Argument, empty_parser, add_arg, get_value,
  get_front_args, get_back_args, need_help, parse,
}
use quick_cmake.Args.Map.{text_eq}
use quick_cmake.Printer.{no_more, more, streamed, format}

-- What is at a path: nothing, a file with its path, its extension and what it holds (`none` if it
-- cannot be opened), or a directory with its path, whose entries can be read. The path of an entry
-- is that of its directory with a slash and the entry's name behind it.
mutual
  pub data Entry : Type 0 where
    missing : Entry
    file : Text → Text → Option Text → Entry
    directory : Text → Entries → Entry

  pub data Entries : Type 0 where
    end : Entries
    entry : Entry → Entries → Entries

abbrev pub has_slash : Text → Bool
has_slash [] = false
has_slash (x ∷ s) = (x == b'/') || has_slash s

-- path.filename(): what stands behind the last slash, nothing for "build/".
unfoldable pub filename : Text → Text
filename [] = []
filename (x ∷ s) =
    let behind = filename s in if has_slash s then behind else if x == b'/' then s else x ∷ s

-- skipped_dirs
unfoldable pub is_skipped : Text → Bool
is_skipped name = text_eq name (codes ".git") || text_eq name (codes "build")

unfoldable mutual
  pub collect_files : Text → Bool → Entry → List (Text × Option Text)
  collect_files ext no_skip missing = []
  collect_files ext no_skip (file path extension content) =
      if text_eq extension ext then (path, content) ∷ [] else []
  collect_files ext no_skip (directory path es) =
      let inside = collect_entries ext no_skip es in
      if not no_skip && is_skipped (filename path) then [] else inside

  pub collect_entries : Text → Bool → Entries → List (Text × Option Text)
  collect_entries ext no_skip end = []
  collect_entries ext no_skip (entry e es) =
      collect_files ext no_skip e ++ collect_entries ext no_skip es

-- The loop over std::getline, which writes each line with a line feed behind it; `line` has been
-- read of the current one.
unfoldable pub write_lines : Text → Text → Text
write_lines [] [] = []
write_lines (c ∷ line) [] = (c ∷ line) ++ 10 ∷ []
write_lines line (x ∷ s) =
    let next = write_lines [] s in
    let later = write_lines (line ++ x ∷ []) s in if x == 10 then line ++ 10 ∷ next else later

abbrev pub begin_mark : Text
begin_mark = codes "<<<<<<<<<< [FILE-BEGIN] '{}' <<<<<<<<<<" ++ 10 ∷ 10 ∷ []

abbrev pub end_mark : Text
end_mark = 10 ∷ (codes ">>>>>>>>>> [FILE-END] '{}' >>>>>>>>>>" ++ 10 ∷ 10 ∷ 10 ∷ [])

-- A file that cannot be opened is skipped.
unfoldable pub write_file : Text × Option Text → Text
write_file (path, none) = []
write_file (path, some content) =
    format begin_mark (more (streamed path) no_more)
    ++ (write_lines [] content ++ format end_mark (more (streamed path) no_more))

unfoldable pub write_files : List (Text × Option Text) → Text
write_files [] = []
write_files (f ∷ fs) = write_file f ++ write_files fs

-- The files below the paths, where `at` says what is at a path whose home directory is expanded.
unfoldable pub collect_all : (Text → Entry) → Text → Bool → List Text → List (Text × Option Text)
collect_all at ext no_skip [] = []
collect_all at ext no_skip (p ∷ ps) =
    collect_files ext no_skip (at p) ++ collect_all at ext no_skip ps

-- What combine_files writes to the output, if it can be created.
unfoldable pub combine_files : (Text → Entry) → List Text → Text → Bool → Text
combine_files at paths ext no_skip = write_files (collect_all at ext no_skip paths)

-- The end of main: the help is shown, or combine_files is called.
pub record Call : Type 0 where
  pub paths : List Text
  pub output : Text
  pub ext : Text
  pub show_detail : Bool
  pub no_skip : Bool

abbrev pub or_none : Option (List Text) → List Text
or_none none = []
or_none (some l) = l

unfoldable pub or_current : Text → List Text → List Text
or_current current_path [] = current_path ∷ []
or_current current_path (p ∷ ps) = p ∷ ps

-- ext[0] of an empty text is 0.
unfoldable pub dotted : Text → Text
dotted [] = b'.' ∷ []
dotted (x ∷ s) = if x == b'.' then x ∷ s else b'.' ∷ x ∷ s

unfoldable pub has_dot : Text → Bool
has_dot [] = false
has_dot (x ∷ s) = (x == b'.') || has_dot s

module _ {c : Conversions} where
  unfoldable pub option : Text → ArgType → ArgInfo c
  option name kind = record {
    name = name;
    kind = kind;
    help = [];
    sname = [];
    content = bool_value false;
    has_value = false;
  }

  unfoldable pub combine_parser : Parser c
  combine_parser = add_arg (option (codes "-uu") bool_type) (
      add_arg (option (codes "-v") bool_type) (
        add_arg (option (codes "-e") str_type) (
          add_arg (option (codes "-o") str_type)
            (add_arg (option (codes "-p") list_type) empty_parser))))

  -- std::get of a value, or of the default in its place.
  unfoldable pub str_or : Text → Option (ArgValue c) → Outcome Text
  str_or d none = value d
  str_or d (some (str_value t)) = value t
  str_or d (some _) = thrown bad_variant_access

  unfoldable pub list_or_empty : Option (ArgValue c) → Outcome (List Text)
  list_or_empty none = value []
  list_or_empty (some (list_value l)) = value l
  list_or_empty (some _) = thrown bad_variant_access

  unfoldable pub bool_or_false : Option (ArgValue c) → Outcome Bool
  bool_or_false none = value false
  bool_or_false (some (bool_value b)) = value b
  bool_or_false (some _) = thrown bad_variant_access

  unfoldable pub read_options : Text → Text → Parser c → Outcome Call
  read_options current_path now q = do
    args_p ← list_or_empty (get_value q (codes "-p"))
    e ← str_or (codes ".txt") (get_value q (codes "-e"))
    let ext = dotted e
    o ← str_or (codes "combined_files" ++ (now ++ ext)) (get_value q (codes "-o"))
    v ← bool_or_false (get_value q (codes "-v"))
    uu ← bool_or_false (get_value q (codes "-uu"))
    value (record {
      paths =
          or_current current_path
            (or_none (get_front_args q) ++ (or_none (get_back_args q) ++ args_p));
      output = if has_dot o then o else o ++ ext;
      ext = ext;
      show_detail = v;
      no_skip = uu;
    })

-- main, with `none` where it shows the help.
unfoldable pub combine_main :
    Conversions → Text → Text → Text → List Argument → Outcome (Option Call)
combine_main c current_path now name argv = parse name argv (combine_parser {c = c}) >>= λ q.
    let run = read_options current_path now q >>= λ call. value (some call) in
    if need_help q then value none else run
