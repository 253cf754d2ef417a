-- ===== src/Persistence/Upstream.antt =====
-- configuration/config_persistence.go, persistUpstreamSettings: the same settings are written twice.
use http_stack_lens.Base.{
  ℕ, ◌+◌, ◌<◌, ◌≡◌, refl, ap, ◌∙◌, arith, Bool, true, false, none, some, List, [], ◌∷◌, ◌++◌, Bytes,
  codes, equal, trim_space, trim_left, trim_right, is_space, cut, lacks,
}
use http_stack_lens.Runtime.Settings.{UpstreamSettings}
use http_stack_lens.Persistence.{entry, trim_spaces, ends_line, truth, keep_lines, is_one_of}
use http_stack_lens.Persistence.Settings.{
  yaml_line, upstream_keys, item_lines, uri_line, no_proxy_lines, render_upstream_lines,
  upstream_edit,
}
use http_stack_lens.Persistence.Values.{entry-spaces}
use http_stack_lens.Persistence.Sections.{Quiet}
use http_stack_lens.Persistence.Whole.{IsWhole, AllWhole}
use http_stack_lens.Persistence.Repeated.{replaced_again}
use http_stack_lens.Persistence.Rendered.{
  has_no_space, Child, Child-line, Child-QuietLine, keep-removed, keep-removed_next, keep-passed,
  yaml_line-IsWhole,
}

module _ (quote : Bytes → Bytes) where
  pub item-Child :
      (title : Bytes) (n : ℕ) (item : Bytes)
      → ((t : Bytes) → equal (b'-' ∷ t) title ≡ false)
      → Child title n (yaml_line n (codes "- " ++ quote item))
  unfolding is_space has_no_space
  item-Child title n item differs = Child-line title n b'-' [] _ refl refl refl differs

  pub item_lines-Quiet :
      (title : Bytes) (indent n : ℕ) (items : List Bytes)
      → ((t : Bytes) → equal (b'-' ∷ t) title ≡ false)
      → indent < n
      → Quiet title indent (item_lines quote n items)
  unfolding item_lines
  item_lines-Quiet title indent n [] differs h = tt
  item_lines-Quiet title indent n (item ∷ items) differs h = (
    Child-QuietLine title indent n _ h (item-Child title n item differs),
    item_lines-Quiet title indent n items differs h,
  )

  pub item_lines-AllWhole :
      (n : ℕ) (items : List Bytes)
      → ((s : Bytes) → lacks 10 (quote s) ≡ true)
      → AllWhole (item_lines quote n items)
  unfolding item_lines lacks
  item_lines-AllWhole n [] plain = tt
  item_lines-AllWhole n (item ∷ items) plain = (
    yaml_line-IsWhole n (codes "- " ++ quote item) (plain item),
    item_lines-AllWhole n items plain,
  )

  pub item_lines-passed :
      (title : Bytes) (names : List Bytes) (indent n : ℕ) (items : List Bytes)
      → ((t : Bytes) → equal (b'-' ∷ t) title ≡ false)
      → indent + 2 < n
      → keep_lines names indent (some (indent + 2)) (item_lines quote n items) ≡ []
  unfolding item_lines keep_lines
  item_lines-passed title names indent n [] differs h = refl
  item_lines-passed title names indent n (item ∷ items) differs h =
      keep-passed title names indent n _ (item_lines quote n items) h
        (item-Child title n item differs)
      ∙ item_lines-passed title names indent n items differs h

  kept_none :
      (names : List Bytes) (indent : ℕ) → keep_lines names indent (some (indent + 2)) [] ≡ []
  unfolding keep_lines
  kept_none names indent = refl

  -- The three keys of the section.
  uri-Child : (n : ℕ) (uri : Bytes) → Child (codes "proxy:") n (uri_line quote n uri)
  unfolding is_space has_no_space equal
  uri-Child n [] = Child-line (codes "proxy:") n b'o' [] _ refl refl refl (λ t. refl)
  uri-Child n (c ∷ uri) = Child-line (codes "proxy:") n b'o' [] _ refl refl refl (λ t. refl)

  uri-IsWhole :
      (n : ℕ) (uri : Bytes)
      → ((s : Bytes) → lacks 10 (quote s) ≡ true)
      → IsWhole (uri_line quote n uri)
  unfolding lacks
  uri-IsWhole n [] plain = yaml_line-IsWhole n (codes "output_proxy_uri:") refl
  uri-IsWhole n (c ∷ uri) plain =
      yaml_line-IsWhole n (codes "output_proxy_uri: " ++ quote (c ∷ uri)) (plain (c ∷ uri))

  uri-key : (n : ℕ) (uri : Bytes) → is_one_of upstream_keys (entry (uri_line quote n uri)) ≡ true
  unfolding entry trim_spaces cut trim_space trim_left trim_right is_space equal
  uri-key n [] = ap (is_one_of upstream_keys) (entry-spaces n _)
  uri-key n (c ∷ uri) = ap (is_one_of upstream_keys) (entry-spaces n _)

  abbrev windows_line : ℕ → Bool → Bytes
  windows_line n b = yaml_line n (codes "add_windows_authentication_to_output_proxy: " ++ truth b)

  windows-Child : (n : ℕ) (b : Bool) → Child (codes "proxy:") n (windows_line n b)
  unfolding is_space has_no_space equal
  windows-Child n b = Child-line (codes "proxy:") n b'a' [] _ refl refl refl (λ t. refl)

  windows-IsWhole : (n : ℕ) (b : Bool) → IsWhole (windows_line n b)
  unfolding lacks
  windows-IsWhole n true =
      yaml_line-IsWhole n (codes "add_windows_authentication_to_output_proxy: true") refl
  windows-IsWhole n false =
      yaml_line-IsWhole n (codes "add_windows_authentication_to_output_proxy: false") refl

  windows-key : (n : ℕ) (b : Bool) → is_one_of upstream_keys (entry (windows_line n b)) ≡ true
  unfolding entry trim_spaces cut trim_space trim_left trim_right is_space equal
  windows-key n b = ap (is_one_of upstream_keys) (entry-spaces n _)

  no_proxy-Quiet :
      (indent : ℕ) (hosts : List Bytes)
      → Quiet (codes "proxy:") indent (no_proxy_lines quote (indent + 2) hosts)
  unfolding is_space has_no_space equal
  no_proxy-Quiet indent [] = (
    Child-QuietLine (codes "proxy:") indent (indent + 2) _ (omega arith)
        (Child-line (codes "proxy:") (indent + 2) b'n' [] _ refl refl refl (λ t. refl)),
    tt,
  )
  no_proxy-Quiet indent (host ∷ hosts) = (
    Child-QuietLine (codes "proxy:") indent (indent + 2) _ (omega arith)
        (Child-line (codes "proxy:") (indent + 2) b'n' [] _ refl refl refl (λ t. refl)),
    item_lines-Quiet (codes "proxy:") indent (indent + 2 + 2) (host ∷ hosts) (λ t. refl)
        (omega arith),
  )

  no_proxy-AllWhole :
      (n : ℕ) (hosts : List Bytes)
      → ((s : Bytes) → lacks 10 (quote s) ≡ true)
      → AllWhole (no_proxy_lines quote n hosts)
  unfolding lacks
  no_proxy-AllWhole n [] plain = (yaml_line-IsWhole n (codes "no_proxy: []") refl, tt)
  no_proxy-AllWhole n (host ∷ hosts) plain = (
    yaml_line-IsWhole n (codes "no_proxy:") refl,
    item_lines-AllWhole (n + 2) (host ∷ hosts) plain,
  )

  no_proxy-removed :
      (indent : ℕ) (hosts : List Bytes)
      → keep_lines upstream_keys indent
          (some (indent + 2))
          (no_proxy_lines quote (indent + 2) hosts)
        ≡ []
  unfolding entry trim_spaces cut trim_space trim_left trim_right is_space equal has_no_space
  no_proxy-removed indent [] =
      keep-removed_next (codes "proxy:") upstream_keys indent _ []
        (Child-line (codes "proxy:") (indent + 2) b'n' [] _ refl refl refl (λ t. refl))
        (ap (is_one_of upstream_keys) (entry-spaces (indent + 2) _))
      ∙ kept_none upstream_keys indent
  no_proxy-removed indent (host ∷ hosts) =
      keep-removed_next (codes "proxy:") upstream_keys indent _
        (item_lines quote (indent + 2 + 2) (host ∷ hosts))
        (Child-line (codes "proxy:") (indent + 2) b'n' [] _ refl refl refl (λ t. refl))
        (ap (is_one_of upstream_keys) (entry-spaces (indent + 2) _))
      ∙ item_lines-passed (codes "proxy:") upstream_keys indent (indent + 2 + 2) (host ∷ hosts)
          (λ t. refl) (omega arith)

  module _ (settings : UpstreamSettings) where
    render-Quiet :
        (indent : ℕ)
        → Quiet (codes "proxy:") indent (render_upstream_lines quote settings (indent + 2))
    unfolding render_upstream_lines
    render-Quiet indent = (
      Child-QuietLine (codes "proxy:") indent (indent + 2) _ (omega arith)
          (uri-Child (indent + 2) (trim_space settings.output_proxy_uri)),
      (
        Child-QuietLine (codes "proxy:") indent (indent + 2) _ (omega arith)
            (windows-Child (indent + 2) settings.add_windows_authentication),
        no_proxy-Quiet indent settings.no_proxy,
      ),
    )

    render-removed :
        (indent : ℕ)
        → keep_lines upstream_keys indent none (render_upstream_lines quote settings (indent + 2))
          ≡ []
    unfolding render_upstream_lines
    render-removed indent =
        keep-removed (codes "proxy:") upstream_keys indent _ _
          (uri-Child (indent + 2) (trim_space settings.output_proxy_uri))
          (uri-key (indent + 2) (trim_space settings.output_proxy_uri))
        ∙ keep-removed_next (codes "proxy:") upstream_keys indent _ _
            (windows-Child (indent + 2) settings.add_windows_authentication)
            (windows-key (indent + 2) settings.add_windows_authentication)
        ∙ no_proxy-removed indent settings.no_proxy

    render-AllWhole :
        ((s : Bytes) → lacks 10 (quote s) ≡ true)
        → (n : ℕ) → AllWhole (render_upstream_lines quote settings n)
    unfolding render_upstream_lines
    render-AllWhole plain n = (
      uri-IsWhole n (trim_space settings.output_proxy_uri) plain,
      (
        windows-IsWhole n settings.add_windows_authentication,
        no_proxy-AllWhole n settings.no_proxy plain,
      ),
    )

-- Where the quoted texts have no line break and the file ends with one, what PersistUpstreamSettings
-- makes of the file is not changed when it writes the same settings again.
pub upstream_edit_again :
    (quote : Bytes → Bytes) (settings : UpstreamSettings) (text text' : Bytes)
    → ((s : Bytes) → lacks 10 (quote s) ≡ true)
    → ends_line text ≡ true
    → upstream_edit quote settings text ≡ some text'
    → upstream_edit quote settings text' ≡ some text'
unfolding upstream_edit
upstream_edit_again quote settings text text' plain e h =
    replaced_again (codes "proxy:") upstream_keys (render_upstream_lines quote settings)
      (render-Quiet quote settings) (render-removed quote settings)
      (render-AllWhole quote settings plain) text text' e h
