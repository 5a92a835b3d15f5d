-- ===== src/Tests/Json.antt =====
-- Tests of reading JSON, and theorems about the texts in JSON at concrete inputs.
use go_mcp_server.Base.{String, Option, none, some, ◌≡◌, refl, trim, ap, All, arith}
use go_mcp_server.Json.{Json, num, str, obj, arr, field, end, item, nil}
use go_mcp_server.Json.Read.{parse, read, result, step}
use go_mcp_server.Docs.Config.{client_example, mcp_servers}
use go_mcp_server.Docs.Servers.{servers}
use go_mcp_server.Docs.Pages.{pages}
use go_mcp_server.Docs.Connect.Laws.{entries_of}
use go_mcp_server.Docs.Connect.Configs.{
  client_example-parse, all_json_codes, all_json_codes-Parses, Parses,
}
use go_mcp_server.Dashboard.{post_body}
use go_mcp_server.Keys.StoredLabel.{create_label, create_label-post_body}

abbrev local : String
local = "http://localhost:8080"

nested :
    parse " {\"a\" : [1, 20 , {}], \"b\":\"x\\u00e9\\n\"} "
    ≡ some (
        obj (
          field "a"
            (arr (item (num 1) (item (num 20) (item (obj end) nil))))
            (field "b" (str "xé\n") end)))
unfolding parse read result step
nested = refl

leading_zero : parse "[01]" ≡ none
unfolding parse read result step
leading_zero = refl

trailing_comma : parse "[1,]" ≡ none
unfolding parse read result step
trailing_comma = refl

unclosed : parse "{\"a\":1" ≡ none
unfolding parse read result step
unclosed = refl

client_example-parse_example :
    parse (client_example local) ≡ some (mcp_servers (entries_of local servers))
client_example-parse_example = client_example-parse local

all_json_codes-Parses_example : All Parses (all_json_codes (pages local))
all_json_codes-Parses_example = all_json_codes-Parses local

-- A decoder of an object with the label alone.
abbrev label_in : Option Json → String
label_in (some (obj (field k (str s) end))) = s
label_in _ = ""

decoded_label : String → String
decoded_label body = label_in (parse body)

decodes :
    (body s : String) → parse body ≡ some (obj (field "label" (str s) end)) → decoded_label body ≡ s
unfolding decoded_label
decodes body s h = ap label_in h

create_label-post_body_example :
    create_label decoded_label (post_body " my \"laptop\" ") ≡ trim " my \"laptop\" "
create_label-post_body_example =
    create_label-post_body decoded_label " my \"laptop\" " decodes (omega arith) refl
