-- ===== src/Docs/Skill/Laws.antt =====
-- Where the skill is installed, and what is downloaded.
use text.Mathlib.TextLemmas.{append_assoc}
use go_mcp_server.Base.{String, ◌<>◌, ◌≡◌, refl, sym, true, begins_with, ◌∙◌}
use go_mcp_server.Docs.Skill.{
  stateful_skill, stateful_skill_markdown, install_cmd, get_skill, route,
}

-- Whatever the origin, the command makes a folder and downloads from the route into a file of that
-- folder, which is the path that the docs show; the route's body begins with the front matter of a
-- skill that has the folder's name.
pub install_cmd-path :
    (origin : String)
    → (folder : String) × (stateful_skill.install_path ≡ folder <> "/SKILL.md")
      × (install_cmd origin
          ≡ "mkdir -p "
            <> (folder
                <> ("\ncurl -sL " <> (origin <> (route <> (" -o " <> (folder <> "/SKILL.md")))))))
      × (folder ≡ ".claude/skills/" <> stateful_skill.name)
      × (begins_with get_skill.body ("---\nname: " <> (stateful_skill.name <> "\n")) ≡ true)
unfolding install_cmd get_skill stateful_skill_markdown
install_cmd-path origin =
    let folder : String = ".claude/skills/stateful-memory" in
    let rest : String =
      "\ncurl -sL " <> (origin <> (route <> (" -o " <> stateful_skill.install_path))) in
    (
      folder,
      refl,
      sym (append_assoc "mkdir -p .claude/skills/" stateful_skill.name rest)
          ∙ append_assoc "mkdir -p " folder rest,
      refl,
      refl,
    )
