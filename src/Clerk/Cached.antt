-- ===== src/Clerk/Cached.antt =====
-- The cache of Clerk's keys changes no verdict.
use go_mcp_server.Base.{String, List, [], ◌∷◌, Option, none, some, Bool, true, false}
use go_mcp_server.Base.{◌≡◌, refl, sym, ◌∙◌, subst, inl, inr, ◌⊎◌, ◌==◌, eq_iff}
use go_mcp_server.Base.{Bool-cases, Option-cases, lookup, is_empty, if◌then◌else◌, map}
use go_mcp_server.Clerk.{bearer_token, Verdict, refused, require_user, serve_all}
use go_mcp_server.Clerk.{json_web_key}

module _ {Jwk : Type 0} (key_id : String → Option String) (verify : Jwk → String → Option String)
    (published : String → Option Jwk) where
  -- What Clerk gives while it answers, and while it does not.
  abbrev pub given : Bool → String → Option Jwk
  given up kid = if up then published kid else none

  -- The keys of the cache are Clerk's.
  abbrev IsPublished : List (String × Jwk) → Type 0
  IsPublished jwks =
      (kid : String) (key : Jwk) → lookup kid jwks ≡ some key → published kid ≡ some key

  IsPublished-cons :
      (kid : String) (key : Jwk) (jwks : List (String × Jwk))
      → published kid ≡ some key
      → IsPublished jwks
      → IsPublished ((kid, key) ∷ jwks)
  IsPublished-cons kid key jwks is h other k found = elim (Bool-cases (kid == other)) [
    | inl same ↦
        let it : some key ≡ some k = rw same at found in
        subst (λ x. published x ≡ some key) ((eq_iff kid other).0 same) is ∙ it
    | inr differs ↦ h other k (rw differs at found)
  ]

  -- A key is Clerk's, or Clerk does not answer.
  abbrev IsKey : String → Bool → Option Jwk → Type 0
  IsKey kid up key = (key ≡ published kid) ⊎ ((key ≡ none) × (up ≡ false))

  fetched :
      (kid : String) (up : Bool) (jwks : List (String × Jwk))
      → lookup kid jwks ≡ none
      → IsPublished jwks
      → IsKey kid up (json_web_key (given up) kid jwks).0
        × IsPublished (json_web_key (given up) kid jwks).1
  fetched kid false jwks missing h = rw (json_web_key, missing) (inr (refl, refl), h)
  fetched kid true jwks missing h = elim (Option-cases (published kid)) [
    | inl unknown ↦ rw (json_web_key, missing, unknown) (inl refl, h)
    | inr (key, is) ↦ rw (json_web_key, missing, is) (inl refl, IsPublished-cons kid key jwks is h)
  ]

  json_web_key-IsKey :
      (kid : String) (up : Bool) (jwks : List (String × Jwk))
      → IsPublished jwks
      → IsKey kid up (json_web_key (given up) kid jwks).0
        × IsPublished (json_web_key (given up) kid jwks).1
  json_web_key-IsKey kid up jwks h = elim (Option-cases (lookup kid jwks)) [
    | inl missing ↦ fetched kid up jwks missing h
    | inr (key, found) ↦ rw (json_web_key, found) (inl (sym (h kid key found)), h)
  ]

  -- The verdict on a header with Clerk's keys at hand, and nothing cached.
  abbrev pub direct : String → Verdict
  direct header = (require_user key_id verify published header []).0

  abbrev pub IsVerdict : String → Bool → Verdict → Type 0
  IsVerdict header up verdict =
      (verdict ≡ direct header)
      ⊎ ((verdict ≡ refused 503 "cannot verify credentials") × (up ≡ false))

  pub uncached : (kid : String) → (json_web_key published kid []).0 ≡ published kid
  uncached kid = elim (Option-cases (published kid)) [
    | inl unknown ↦ rw (json_web_key, unknown) refl
    | inr (key, is) ↦ rw (json_web_key, is) refl
  ]

  require_user-IsVerdict :
      (header : String) (up : Bool) (jwks : List (String × Jwk))
      → IsPublished jwks
      → IsVerdict header up (require_user key_id verify (given up) header jwks).0
        × IsPublished (require_user key_id verify (given up) header jwks).1
  unfolding require_user
  require_user-IsVerdict header up jwks h =
      let token = bearer_token header in
      elim (Bool-cases (is_empty token)) [
        | inl empty ↦ rw empty (inl (rw (direct, empty) refl), h)
        | inr full ↦ elim (Option-cases (key_id token)) [
          | inl malformed ↦ rw (full, malformed) (inl (rw (direct, full, malformed) refl), h)
          | inr (kid, is) ↦
              let (key, kept) = json_web_key-IsKey kid up jwks h in
              elim key [
                | inl same ↦
                    rw (full, is) (inl (rw (direct, full, is, same, uncached kid) refl), kept)
                | inr (none_given, down) ↦ rw (full, is) (inr (rw none_given refl, down), kept)
              ]
        ]
      ]

  abbrev pub requests_of : List (String × Bool) → List (String × (String → Option Jwk))
  requests_of requests = map (λ (header, up). (header, given up)) requests

  abbrev pub AreVerdicts : List (String × Bool) → List Verdict → Type 0
  AreVerdicts [] [] = true ≡ true
  AreVerdicts [] (v ∷ vs) = false ≡ true
  AreVerdicts (q ∷ qs) [] = false ≡ true
  AreVerdicts ((header, up) ∷ qs) (v ∷ vs) = IsVerdict header up v × AreVerdicts qs vs

  serve-AreVerdicts :
      (requests : List (String × Bool)) (jwks : List (String × Jwk))
      → IsPublished jwks
      → AreVerdicts requests (serve_all key_id verify (requests_of requests) jwks)
  unfolding serve_all
  serve-AreVerdicts [] jwks h = refl
  serve-AreVerdicts ((header, up) ∷ requests) jwks h =
      let (verdict, kept) = require_user-IsVerdict header up jwks h in
      (
        verdict,
        serve-AreVerdicts requests (require_user key_id verify (given up) header jwks).1 kept,
      )

  -- As long as Clerk's keys stay the same, the cache changes no verdict, whatever requests come, in
  -- whatever order, and whenever Clerk does not answer: each gets the verdict that it would get with
  -- Clerk answering and nothing cached, or else the status 503, and that only while Clerk does not
  -- answer.
  pub serve_all-cached :
      (requests : List (String × Bool))
      → AreVerdicts requests (serve_all key_id verify (requests_of requests) [])
  serve_all-cached requests = serve-AreVerdicts requests [] (λ kid key found. absurd (cc found))
