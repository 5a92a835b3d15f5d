-- ===== src/Docs/Pages/Authentication.antt =====
-- The `authentication` entry of `pages`, frontend/src/lib/docs.tsx.
use go_mcp_server.Base.{[], ◌∷◌, none, some, false}
use go_mcp_server.Docs.Types.{
  lead, heading, text, callout, str, element, fragment, nil, cons, Icon, Variant, Block, DocPage,
}

abbrev pub authentication : DocPage
authentication = record {
  slug = "authentication";
  group = "Get started";
  eyebrow = "Get started";
  title = "Authentication";
  description = str "How requests are admitted and scoped across the namespaces.";
  blocks =
      lead (
        fragment (
          cons (str "One credential secures the whole server: every namespace requires an") (
            cons (str " ") (
              cons (element "code" (cons (str "X-API-Key") nil)) (
                cons
                  (str
                    " header carrying a registered key. There is no second mechanism and no per-namespace exception.")
                  nil)))))
      ∷ heading "api-key" "Admission (X-API-Key)" (some Icon.key_round)
      ∷ text (
          fragment (
            cons (str "The ") (
              cons (element "code" (cons (str "RequireAPIKey") nil)) (
                cons (str " middleware guards the whole mux, so every namespace verifies the key ")
                  (cons (element "em" (cons (str "before") nil)) (
                    cons
                      (str
                        " dispatch — a namespace cannot forget the check, and a new one inherits it for free. A missing, malformed, or unregistered key gets a ")
                      (cons (element "code" (cons (str "401") nil)) (
                        cons (str " and no tool ever runs. ") (
                          cons (element "code" (cons (str "GET /healthz") nil)) (
                            cons
                              (str
                                " is the one exempt route, so an uptime probe needs no credential; it reveals only liveness.")
                              nil))))))))))
      ∷ Block.code (some "bash") (some "request header") "X-API-Key: <your-key>"
      ∷ heading "scope" "Per-caller scope (memory)" (some Icon.key_round)
      ∷ text (
          fragment (
            cons (str "The memory namespace resolves the same key a second time, to an") (
              cons (str " ") (
                cons (element "code" (cons (str "api_key_id") nil)) (
                  cons
                    (str
                      " that scopes every store call — so one caller can never read another’s memories. That is the key used as an")
                    (cons (str " ") (
                      cons (element "strong" (cons (str "identity") nil)) (
                        cons
                          (str
                            ", not merely as admission, which is why the check lives in both places.")
                          nil))))))))
      ∷ callout (some Variant.info) (some "Admission vs. scoping") (
          fragment (
            cons
              (str
                "Every namespace requires a key to be reached. Only memory uses it to partition data — the other tools hold no per-caller state, so any valid key sees the same thing.")
              nil))
      ∷ [];
  wip = false;
  wip_icon = none;
  wip_features = [];
}
