-- ===== src/Docs/Types.antt =====
-- The types of frontend/src/lib/docs.tsx. A `ReactNode` is a text or an element with its children;
-- of an element's attributes only a link's `href` is kept, and an icon is its name.
use go_mcp_server.Base.{String, Bool, Option, List, none, some, true, false}

pub data Icon : Type 0 where
  bot brain compass key_round layers line_chart radio rocket sparkles waypoints workflow wrench :
      Icon

mutual
  pub data Node : Type 0 where
    str : String → Node
    element : String → Nodes → Node
    link : String → Nodes → Node
    fragment : Nodes → Node

  pub data Nodes : Type 0 where
    nil : Nodes
    cons : Node → Nodes → Nodes

pub record ToolParam : Type 0 where
  pub name : String
  pub type_name : String
  pub required : Bool
  pub default : Option String
  pub description : String

pub record ToolDoc : Type 0 where
  pub name : String
  pub summary : String
  pub params : List ToolParam

pub record ServerRequires : Type 0 where
  pub caller : String
  pub user_provided : Option String
  pub server : Option String

pub record ServerDoc : Type 0 where
  pub key : String
  pub name : String
  pub path : String
  pub icon : Icon
  pub tagline : String
  pub requires : Option ServerRequires
  pub note : Option String
  pub example : Option String
  pub tools : List ToolDoc

pub record NavItem : Type 0 where
  pub slug : String
  pub label : String
  pub badge : Option String

pub record NavGroup : Type 0 where
  pub title : String
  pub items : List NavItem

pub data Variant : Type 0 where
  tip info warning : Variant

pub data Diagram : Type 0 where
  request register : Diagram

pub record Card : Type 0 where
  pub title : String
  pub description : String
  pub href : String
  pub icon : Icon

pub record Step : Type 0 where
  pub title : String
  pub content : Node

pub data Block : Type 0 where
  lead : Node → Block
  -- id, text, icon
  heading : String → String → Option Icon → Block
  text : Node → Block
  callout : Option Variant → Option String → Node → Block
  -- lang, title, code
  code : Option String → Option String → String → Block
  connect : List String → Block
  tools : String → Block
  skill : Block
  cards : List Card → Block
  steps : List Step → Block
  diagram : Diagram → Block

pub record Feature : Type 0 where
  pub title : String
  pub body : String

pub record DocPage : Type 0 where
  pub slug : String
  pub group : String
  pub eyebrow : String
  pub title : String
  pub description : Node
  pub blocks : List Block
  pub wip : Bool
  pub wip_icon : Option Icon
  pub wip_features : List Feature

-- The entries of `tools`, written short.
abbrev pub needs : String → String → String → ToolParam
needs name type_name description = record {
  name = name;
  type_name = type_name;
  required = true;
  default = none;
  description = description;
}

abbrev pub takes : String → String → String → ToolParam
takes name type_name description = record {
  name = name;
  type_name = type_name;
  required = false;
  default = none;
  description = description;
}

abbrev pub defaults : String → String → String → String → ToolParam
defaults name type_name default description = record {
  name = name;
  type_name = type_name;
  required = false;
  default = some default;
  description = description;
}

abbrev pub tool : String → String → List ToolParam → ToolDoc
tool name summary params = record { name = name; summary = summary; params = params }

abbrev pub card : String → String → String → Icon → Card
card title description href icon = record {
  title = title;
  description = description;
  href = href;
  icon = icon;
}

abbrev pub step : String → Node → Step
step title content = record { title = title; content = content }
