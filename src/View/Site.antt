-- ===== src/View/Site.antt =====
-- frontend/src/lib/site.ts: the constants of the project.
use go_mcp_server.Base.{String}

pub record Site : Type 0 where
  pub name : String
  pub full_name : String
  pub tagline : String
  pub description : String
  pub github : String
  pub app : String
  pub app_status : String
  pub console : String
  pub license : String
  pub go_version : String

abbrev pub site : Site
site = record {
  name = "Relivo";
  full_name = "Relivo MCP Server";
  tagline = "Memory, skills, and live data sources behind one MCP endpoint.";
  description =
      "An open-source, multi-namespace Model Context Protocol server in Go. Five independent MCP servers on one HTTP mux over the Streamable HTTP transport.";
  github = "https://github.com/Hitesh-s0lanki/go-mcp-server";
  app = "https://relivo-fe.vercel.app/";
  app_status = "In development";
  console = "https://master.d2p4p6tfmpfvri.amplifyapp.com/projects/relivo";
  license = "MIT";
  go_version = "Go 1.26+";
}
