-- ===== src/Tests/Server.antt =====
-- The dashboard and the server at work: a key is made and its answer comes in.
use go_mcp_server.Base.{List, [], ◌∷◌, none, some, true, ◌≡◌, ◌≤◌, refl, trim, is_space}
use go_mcp_server.Json.{quote, quote_rest, quote_char}
use go_mcp_server.Dashboard.{Summary, Created, State, initial, step, begin_create, end_create}
use go_mcp_server.Dashboard.{
  create_answered, press_create, press_enter, summary_of, response, object,
}
use go_mcp_server.Dashboard.Server.{System, Move, Reach, here, next, server_create}
use go_mcp_server.Dashboard.Server.View.{view}
use go_mcp_server.Dashboard.Server.Agreement.{opened, Reach-view, Reach-rows}
use go_mcp_server.Dashboard.Server.Turns.{Turns, no_turn, turn, count, Reach-turns}

abbrev desk : Summary
desk = record { id = "k1"; label = "Desk"; masked = "mcp_••6715"; created_at = "2026-01-01" }

abbrev made : Created
made = record { id = "k2"; label = ""; masked = "mcp_••0001"; created_at = "2026-01-02"; key = "s" }

abbrev rows : List Summary
rows = desk ∷ []

abbrev dialog : State
dialog = record (initial rows) { create_open = true }

abbrev sending : State
sending = record dialog { creating = true; posts = "{\"label\":\"\"}" ∷ [] }

abbrev shown : State
shown = record (initial rows) { keys = summary_of made ∷ rows; revealed = some "s" }

abbrev final : System
final = record (opened rows) { ui = shown; rows = summary_of made ∷ rows; used = "k2" ∷ "k1" ∷ [] }

abbrev asked : System
asked = record (opened rows) { ui = sending }

abbrev handled : System
handled = record asked {
  rows = summary_of made ∷ rows;
  used = "k2" ∷ "k1" ∷ [];
  post_answer = some (response true (object none (some made)));
}

asking : Reach 2 (opened rows) asked
unfolding initial step begin_create trim is_space quote quote_rest quote_char
asking =
    next {s = record (opened rows) { ui = dialog }}
      (next {s = opened rows} here (Move.user (opened rows) press_create dialog refl refl))
      (Move.user (record (opened rows) { ui = dialog }) press_enter sending refl refl)

handling : Reach 2 (opened rows) handled
unfolding server_create
handling = next {s = asked} asking (Move.handle_post asked "{\"label\":\"\"}" made refl refl refl)

journey : Reach 2 (opened rows) final
unfolding initial step end_create create_answered
journey =
    next {s = handled} handling
      (Move.post_arrives handled (response true (object none (some made))) shown refl refl)

Reach-view_example : handled.rows ≡ view handled
Reach-view_example = Reach-view 2 rows {s = handled} handling

Reach-rows_example : final.rows ≡ final.ui.keys
Reach-rows_example = Reach-rows 2 rows {s = final} journey refl refl

-- The row that the database would insert next.
abbrev spare : Created
spare = record {
  id = "k3";
  label = "";
  masked = "mcp_••0002";
  created_at = "2026-01-03";
  key = "t";
}

-- The POST is handled, and its answer comes in.
two_turns : Turns 2 asked final
unfolding step end_create create_answered server_create initial
two_turns =
    turn {s = handled}
      (turn {s = asked} no_turn (Move.handle_post asked "{\"label\":\"\"}" made refl refl refl)
        refl)
      (Move.post_arrives handled (response true (object none (some made))) shown refl refl) refl

Reach-turns_example : count two_turns ≤ 4
Reach-turns_example = Reach-turns 2 rows {s = asked} {t = final} asking two_turns
