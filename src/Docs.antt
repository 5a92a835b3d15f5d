-- ===== src/Docs.antt =====
-- frontend/src/lib/docs.tsx: the documentation's data and what is derived from it.
pub mod Types
pub mod Config
pub mod Servers
pub mod Nav
pub mod Pages
pub mod Markdown
pub mod Connect
pub mod Toc
pub mod Search
pub mod Links
pub mod Highlight
pub mod Skill
pub mod CopyButton
pub mod Page
pub mod ServerPages
