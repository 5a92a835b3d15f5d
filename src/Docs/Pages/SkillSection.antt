-- ===== src/Docs/Pages/SkillSection.antt =====
-- `memorySkillSection` of frontend/src/lib/docs.tsx.
use go_mcp_server.Base.{List, [], ◌∷◌, some}
use go_mcp_server.Docs.Types.{
  heading, text, callout, skill, str, element, fragment, nil, cons, Icon, Variant, Block,
}

abbrev pub memory_skill_section : List Block
memory_skill_section =
    heading "stateful-skill" "Make your agent stateful" (some Icon.sparkles)
    ∷ text (
        fragment (
          cons (str "The tools above give an agent a place to keep knowledge; they don’t teach it ")
            (cons (element "em" (cons (str "when") nil)) (
              cons (str " to reach for that place. Install the") (
                cons (str " ") (
                  cons (element "strong" (cons (str "stateful-memory skill") nil)) (
                    cons
                      (str
                        " and your agent recalls relevant context before it acts and persists what it learns after — the difference between having memory and actually using it.")
                      nil)))))))
    ∷ skill
    ∷ callout (some Variant.tip) (some "What the skill encodes") (
        element "p" (
          cons
            (str
              "The protocol: recall once per topic at the start, search before asking, write a tight summary after substantial work, capture durable user facts the moment they’re stated, and keep a consistent tag taxonomy so retrieval stays precise. It’s tuned for the eviction window — store what matters, keep it current.")
            nil))
    ∷ []
