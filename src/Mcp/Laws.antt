-- ===== src/Mcp/Laws.antt =====
-- How the base URL and a route are joined.
use Prim.Native.String.{[], ◌∷◌}
use mathlib.Core.Option.{get_or}
use text.Mathlib.TextLemmas.{nil-append, cons-append}
use text.Mathlib.TextEquality.{Char-path}
use go_mcp_server.Base.{String, ◌<>◌, Char, code, true, false, Option, some, ◌≡◌, refl, sym, ap}
use go_mcp_server.Base.{◌∙◌, arith, inl, inr, if◌then◌else◌, Bool-cases, last_is, all_chars}
use go_mcp_server.Base.{drop_end-Dropped, drop_end_of_clean}
use go_mcp_server.Mcp.{is_slash, mcp_base_url, mcp_url, default_base_url}

-- The base URL is the configured one, or the default, less a run of slashes at its end, and does
-- not end with a slash.
pub mcp_base_url-decompose :
    (env : Option String)
    → (t : String) × (get_or env default_base_url ≡ mcp_base_url env <> t)
      × (all_chars is_slash t ≡ true)
      × (last_is is_slash (mcp_base_url env) ≡ false)
unfolding mcp_base_url
mcp_base_url-decompose env = drop_end-Dropped is_slash (get_or env default_base_url)

-- Configuring the base URL that the site shows gives the same base URL again.
pub mcp_base_url_idem :
    (env : Option String) → mcp_base_url (some (mcp_base_url env)) ≡ mcp_base_url env
unfolding mcp_base_url
mcp_base_url_idem env =
    drop_end_of_clean is_slash _ (drop_end-Dropped is_slash (get_or env default_base_url)).3

-- A route without its one leading slash.
abbrev pub bare : String → String
bare [] = []
bare (c ∷ s) = if is_slash c then s else c ∷ s

slash-append : (c : Char) → is_slash c ≡ true → (s : String) → c ∷ s ≡ "/" <> s
slash-append c h s =
    let e : code c ≡ 47 = ground arith in
    ap (λ (d : Char). d ∷ s) (Char-path c "/" e)
    ∙ ap (λ t. "/" ∷ t) (sym (nil-append s))
    ∙ sym (cons-append "/" [] s)

-- The URL is the base URL, a slash, and the route less one leading slash: a route gives the same
-- URL whether or not it is written with that slash.
pub mcp_url-join : (base path : String) → mcp_url base path ≡ base <> ("/" <> bare path)
unfolding mcp_url
mcp_url-join base [] = refl
mcp_url-join base (c ∷ s) = elim (Bool-cases (is_slash c)) [
  | inl slash ↦ rw slash (ap (λ t. base <> t) (slash-append c slash s))
  | inr other ↦ rw other refl
]
