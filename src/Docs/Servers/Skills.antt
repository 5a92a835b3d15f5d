-- ===== src/Docs/Servers/Skills.antt =====
-- The `skills` entry of `servers`, frontend/src/lib/docs.tsx.
use go_mcp_server.Base.{[], ◌∷◌, none, some}
use go_mcp_server.Docs.Types.{ServerDoc, Icon, tool, needs, takes}

abbrev pub skills : ServerDoc
skills = record {
  key = "skills";
  name = "Skills";
  path = "/skills/mcp";
  icon = Icon.sparkles;
  tagline =
      "Find and download Agent Skills live from GitHub. Nothing is cached; every call reflects live GitHub.";
  requires = some (record { caller = "X-API-Key header"; user_provided = none; server = none });
  note = none;
  example =
      (some
        "Need a capability the agent lacks, like editing a PDF form or scaffolding a route? Call skills_find with the requirement in plain language, get the matching SKILL.md back with its source links, then skills_download to pull the whole skill folder from GitHub and use it.");
  tools =
      tool "skills_find"
        "THE tool for obtaining Agent Skills. Runs a live OpenAI + web agent that finds the most relevant SKILL.md on GitHub and returns its complete, ready-to-use content plus source links. Pass multiple needs to resolve them in parallel."
        (takes "requirement" "string" "A single need, in natural language, e.g. 'edit a PDF form'."
          ∷ takes "requirements" "string[]" "Several needs at once; each is searched in parallel."
          ∷ [])
      ∷ tool "skills_download"
          "Download a COMPLETE Agent Skill from GitHub: every file in the skill folder (SKILL.md plus scripts and reference files, recursively), fetched concurrently. Use after skills_find to install a skill you located."
          (needs "source" "string" "GitHub URL (repo/tree/blob/raw) or 'owner/repo/path'." ∷ [])
      ∷ [];
}
