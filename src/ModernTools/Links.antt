-- ===== src/ModernTools/Links.antt =====
-- The links of a release that are downloaded.
use quick_cmake.Prelude.{
  ◌≡◌, refl, sym, ap, ◌∙◌, Bool, true, false, not, codes, ◌&&◌, ◌||◌, List, [], ◌∷◌, Bool-cases,
  inl, inr, arith,
}
use quick_cmake.Str.{Text, end_with}
use quick_cmake.Str.Search.{contains as has}
use quick_cmake.Args.Map.{text_eq, text_eq_iff, emplace, contains, insert}
use quick_cmake.ModernTools.{
  Asset, published, World, ToolInfo, is_wanted, add_link, add_links, extract, fetch_links,
}

contains-insert :
    {V : Type 0} (k j : Text) (v : V) (m : List (Text × V))
    → contains k (insert j v m) ≡ (text_eq j k || contains k m)
unfolding contains insert
contains-insert k j v [] = ground arith
contains-insert k j v ((i, w) ∷ m) = ground (arith, contains-insert k j v m)

contains-emplace :
    {V : Type 0} (k j : Text) (v : V) (m : List (Text × V))
    → contains k (emplace j v m) ≡ (text_eq j k || contains k m)
unfolding emplace
contains-emplace k j v m = elim (Bool-cases (contains j m)) [
  | inl e ↦ elim (Bool-cases (text_eq j k)) [
    | inl same ↦
        let here : contains k m ≡ true =
          ap (λ i. contains i m) (sym ((text_eq_iff j k).0 same)) ∙ e in
        rw (e, same) here
    | inr other ↦ rw (e, other) refl
  ]
  | inr e ↦ rw e (contains-insert k j v m)
]

-- Whether a name ends in one of the suffixes and does not contain "musl".
abbrev pub fits : Text → List Text → Bool
fits name [] = false
fits name (suffix ∷ l) = (end_with name suffix && not (has name (codes "musl"))) || fits name l

-- Whether the link is that of an asset whose name is wanted.
abbrev pub offers : Text → List Text → List Asset → Bool
offers url suffixes [] = false
offers url suffixes (asset ∷ l) =
    (fits asset.name suffixes && text_eq asset.browser_download_url url) || offers url suffixes l

contains-add_link :
    (url : Text) (asset : Asset) (suffixes : List Text) (links : List (Text × Unit {0}))
    → contains url (add_link asset suffixes links)
      ≡ ((fits asset.name suffixes && text_eq asset.browser_download_url url) || contains url links)
unfolding add_link is_wanted
contains-add_link url asset [] links = refl
contains-add_link url asset (suffix ∷ l) links =
    let url_of = asset.browser_download_url in
    ground (
      arith,
      contains-add_link url asset l links,
      contains-add_link url asset l (emplace url_of tt links),
      contains-emplace url url_of tt links,
    )

contains-add_links :
    (url : Text) (assets : List Asset) (suffixes : List Text) (links : List (Text × Unit {0}))
    → contains url (add_links assets suffixes links)
      ≡ (offers url suffixes assets || contains url links)
unfolding add_links
contains-add_links url [] suffixes links = refl
contains-add_links url (asset ∷ l) suffixes links = ground (
  arith,
  contains-add_links url l suffixes (add_link asset suffixes links),
  contains-add_link url asset suffixes links,
)

-- Behind a fetch that succeeds, a link is one of the tool's if it was, or if it is the link of an
-- asset whose name ends in one of the tool's suffixes and does not contain "musl".
pub fetch_links-contains :
    (w : World) (tool : ToolInfo) (assets : List Asset) (url : Text)
    → w.fetch tool.api_address ≡ published assets
    → contains url (fetch_links w tool).download_links
      ≡ (offers url tool.suffixes assets || contains url tool.download_links)
unfolding fetch_links
fetch_links-contains w tool assets url h =
    ap (λ r. contains url (extract r tool).download_links) h
    ∙ contains-add_links url assets tool.suffixes tool.download_links
