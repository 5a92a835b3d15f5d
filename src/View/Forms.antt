-- ===== src/View/Forms.antt =====
-- The pages with the sign-in and the sign-up form: layout.tsx, _components/auth-brand-panel.tsx and the
-- two pages under frontend/src/app/(auth). The forms are Clerk's.
use go_mcp_server.Base.{String, [], ◌∷◌, Option, if◌then◌else◌}
use go_mcp_server.Keys.{truthy}
use go_mcp_server.View.{Dom, text, el, prop, link_to, icon}
use go_mcp_server.View.Site.{site}

-- `AuthBrandPanel`
abbrev pub auth_brand_panel : Dom
auth_brand_panel = el "div" [] (
    el "div" [] []
    ∷ link_to "/" (icon "Logo" ∷ text site.name ∷ [])
    ∷ el "div" [] (
        el "h2" [] (text site.tagline ∷ [])
        ∷ el "p" [] (text site.description ∷ [])
        ∷ link_to "/" (icon "ArrowLeft" ∷ text "Back to home" ∷ [])
        ∷ [])
    ∷ el "p" [] (text site.license ∷ text " licensed · Built with Go" ∷ [])
    ∷ [])

-- `AuthLayout`
unfoldable pub auth_layout : Dom → Dom
auth_layout children = el "div" [] (
    auth_brand_panel
    ∷ el "div" [] (link_to "/" (icon "Logo" ∷ text site.name ∷ []) ∷ children ∷ [])
    ∷ [])

-- What `SignInPage` and `SignUpPage` come to: a redirect, or Clerk's form in the layout.
pub data FormPage : Type 0 where
  redirected : (path : String) → FormPage
  page_with : Dom → FormPage

-- Clerk's form, by its `forceRedirectUrl`.
abbrev pub clerk_form : String → Dom
clerk_form tag = el tag (prop "forceRedirectUrl" "/doc/keys" ∷ []) []

-- A page with a form, by the user that `auth()` finds.
abbrev pub form_page : String → Option String → FormPage
form_page tag user_id =
    if truthy user_id then redirected "/doc/keys" else page_with (auth_layout (clerk_form tag))

abbrev pub sign_in_page : Option String → FormPage
sign_in_page user_id = form_page "SignIn" user_id

abbrev pub sign_up_page : Option String → FormPage
sign_up_page user_id = form_page "SignUp" user_id
