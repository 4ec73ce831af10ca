-- ===== src/ModernTools.antt =====
-- src/moderntools.cpp: which tools are downloaded and from which links. The operating system, what
-- the network answers and trim of string_utils.h, which is std::regex, are parameters.
pub mod Links
mod Tests
use quick_cmake.Prelude.{
  Bool, true, false, not, ◌&&◌, ◌||◌, Option, none, some, List, [], ◌∷◌, ◌++◌, codes, if◌then◌else◌,
}
use quick_cmake.Outcome.{Outcome, value, undefined, ◌>>=◌}
use quick_cmake.Str.{Text, split_text, end_with}
use quick_cmake.Str.Search.{contains}
use quick_cmake.Args.Map.{text_eq, emplace}
use quick_cmake.Printer.{no_more, more, streamed, format}

pub record Asset : Type 0 where
  pub name : Text
  pub browser_download_url : Text

-- What comes of a request for a release: the assets of its JSON, or a status that is no success, of
-- which the code prints a message. A body that is not such JSON, whose exception ends the tool, is
-- left out.
pub data Release : Type 0 where
  published : List Asset → Release
  failed : Release

pub record World : Type 0 where
  pub is_linux : Bool
  pub trim_quotes : Text → Text
  pub fetch : Text → Release

-- The futures are left out; download_links has a link once.
pub record ToolInfo : Type 0 where
  pub repo : Text
  pub name : Text
  pub api_address : Text
  pub suffixes : List Text
  pub download_links : List (Text × Unit {0})

abbrev pub win_suffix : List Text
win_suffix =
    codes "Windows_x86_64.zip"
    ∷ codes "windows_amd64.zip"
    ∷ codes "x86_64-windows.zip"
    ∷ codes "x86_64-pc-windows-gnu.zip"
    ∷ codes "x86_64-pc-windows-msvc.zip"
    ∷ codes "windows-amd64.zip"
    ∷ codes "Windows-msvc-x86_64.zip"
    ∷ []

abbrev pub linux_suffix : List Text
linux_suffix =
    codes "Linux_x86_64.tar.gz"
    ∷ codes "linux_x86_x64.tar.gz"
    ∷ codes "x86_64-linux.zip"
    ∷ codes "x86_64-unknown-linux-gnu.tar.gz"
    ∷ codes "linux_amd64.tar.gz"
    ∷ codes "linux-amd64.tar.gz"
    ∷ codes " amd64.deb "
    ∷ codes "Linux-gnu-x86_64.tar.gz"
    ∷ codes "x86_64-unknown-linux-musl"
    ∷ []

-- split(repo, "/")[1]
abbrev pub second : List Text → Outcome Text
second (a ∷ b ∷ l) = value b
second _ = undefined

unfoldable pub from_repo_to_name : Text → Outcome Text
from_repo_to_name repo = split_text repo (codes "/") >>= second

unfoldable pub generate_api_address : World → Text → Text
generate_api_address w repo =
    format (codes "https://api.github.com/repos/{}/releases/latest")
      (more (streamed (w.trim_quotes (w.trim_quotes repo))) no_more)

-- The constructor of ToolInfo.
unfoldable pub make_tool : World → Text → Outcome ToolInfo
make_tool w repo = from_repo_to_name repo >>= λ name. value (record {
  repo = repo;
  name = name;
  api_address = generate_api_address w repo;
  suffixes = if w.is_linux then linux_suffix else win_suffix;
  download_links = [];
})

unfoldable pub is_wanted : Text → Text → Bool
is_wanted release_name suffix =
    end_with release_name suffix && not (contains release_name (codes "musl"))

-- The loop over the suffixes, for one asset.
unfoldable pub add_link : Asset → List Text → List (Text × Unit {0}) → List (Text × Unit {0})
add_link asset [] links = links
add_link asset (suffix ∷ l) links =
    add_link asset l
      (if is_wanted asset.name suffix then emplace asset.browser_download_url tt links else links)

unfoldable pub add_links : List Asset → List Text → List (Text × Unit {0}) → List (Text × Unit {0})
add_links [] suffixes links = links
add_links (asset ∷ l) suffixes links = add_links l suffixes (add_link asset suffixes links)

abbrev pub extract : Release → ToolInfo → ToolInfo
extract failed tool = tool
extract (published assets) tool = record tool {
  download_links = add_links assets tool.suffixes tool.download_links;
}

-- FetchAsString and SyncAndExtractLinkFromRelease.
unfoldable pub fetch_links : World → ToolInfo → ToolInfo
fetch_links w tool = extract (w.fetch tool.api_address) tool

unfoldable pub fetch_all : World → List ToolInfo → List ToolInfo
fetch_all w [] = []
fetch_all w (t ∷ l) = fetch_links w t ∷ fetch_all w l

unfoldable pub register_new_repo : World → Text → List ToolInfo → Outcome (List ToolInfo)
register_new_repo w repo tools = make_tool w repo >>= λ t. value (tools ++ fetch_links w t ∷ [])

-- std::find of the name among the arguments.
unfoldable pub is_named : Text → List Text → Bool
is_named name [] = false
is_named name (t ∷ l) = text_eq t name || is_named name l

unfoldable pub filter_tools : List Text → List ToolInfo → List ToolInfo
filter_tools names [] = []
filter_tools names (t ∷ l) =
    let rest = filter_tools names l in if is_named t.name names then t ∷ rest else rest

-- The tools whose links Download then asks for.
unfoldable pub download : World → List Text → List ToolInfo → List ToolInfo
download w names tools = fetch_all w (filter_tools names tools)

-- The loop of main over the arguments that are given.
unfoldable pub register_repos :
    World → List Text → List ToolInfo → Outcome (List Text × List ToolInfo)
register_repos w [] tools = value ([], tools)
register_repos w (tool ∷ l) tools =
    if contains tool (codes "/")
    then (do
      more_tools ← register_new_repo w tool tools
      name ← from_repo_to_name tool
      (names, all) ← register_repos w l more_tools
      value (name ∷ names, all))
    else (do (names, all) ← register_repos w l tools; value (tool ∷ names, all))

-- What main downloads for its arguments: everything without one.
unfoldable pub run_download : World → List Text → List ToolInfo → Outcome (List ToolInfo)
run_download w [] tools = value (fetch_all w tools)
run_download w (t ∷ l) tools =
    register_repos w (t ∷ l) tools >>= λ (names, all). value (download w names all)
