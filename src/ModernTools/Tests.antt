-- ===== src/ModernTools/Tests.antt =====
-- Runs of moderntools, and its theorem at a concrete release.
use quick_cmake.Prelude.{◌≡◌, refl, true, ◌||◌, List, [], ◌∷◌, codes}
use quick_cmake.Args.Map.{contains}
use quick_cmake.ModernTools.{Asset, published, World, ToolInfo, linux_suffix, fetch_links}
use quick_cmake.ModernTools.Links.{offers, fetch_links-contains}

abbrev assets : List Asset
assets =
    record { name = codes "fd-linux-amd64.tar.gz"; browser_download_url = codes "u/fd" }
    ∷ record { name = codes "fd.zip"; browser_download_url = codes "u/zip" }
    ∷ []

abbrev world : World
world = record { is_linux = true; trim_quotes = λ t. t; fetch = λ t. published assets }

abbrev fd : ToolInfo
fd = record {
  repo = codes "sharkdp/fd";
  name = codes "fd";
  api_address = codes "api";
  suffixes = linux_suffix;
  download_links = [];
}

fetch_links-contains_example :
    contains (codes "u/fd") (fetch_links world fd).download_links
    ≡ (offers (codes "u/fd") linux_suffix assets || contains {V = Unit {0}} (codes "u/fd") [])
fetch_links-contains_example = fetch_links-contains world fd assets (codes "u/fd") refl
