-- ===== src/Json/Read/RoundTrip.antt =====
-- `JSON.parse` of what `JSON.stringify` writes.
use Prim.Native.String.{[]}
use text.Mathlib.TextLemmas.{append-nil, append_assoc}
use go_mcp_server.Base.{
  String, ◌<>◌, Char, true, false, some, ◌≡◌, refl, sym, ap, ◌∙◌, first_is, all_chars,
}
use go_mcp_server.Json.{Json, null, bool, num, str, arr, obj, Items, nil, item, Fields, end, field}
use go_mcp_server.Json.{pretty, pretty_items, pretty_fields, quote, quote_rest}
use go_mcp_server.Json.Escapes.{is_digit, is_white}
use go_mcp_server.Json.Read.{
  Reader, value, alone, in_array, in_object, first_item, first_key, next_key, after_item,
  after_field, in_text, colon, value_text, key_text, Around, push, items_append, fields_append,
  step, read, result, outcome, parse,
}
use go_mcp_server.Json.Read.Strings.{quote_lem}
use go_mcp_server.Json.Read.Starts.{
  outcome-indent, outcome-append, first_item-value, all_chars-append, first_is-value,
  pretty_items-Stops, pretty_fields-Stops, items_append_assoc, items_append-nil,
  fields_append_assoc, fields_append-end,
}
use go_mcp_server.Json.Read.Numbers.{decimal_lem}

pub quote_value :
    (s rest : String) (around : Around)
    → outcome (value around) (quote s <> rest) ≡ outcome (push (str s) around) rest
unfolding quote read step
quote_value s rest around =
    ap (outcome (value around)) (append_assoc "\"" (quote_rest s) rest)
    ∙ outcome-append (value around) (in_text [] (value_text around)) "\"" (quote_rest s <> rest)
        refl
    ∙ ap result (quote_lem s rest (value_text around))

-- A key with its colon and the space behind it.
read_key :
    (fields : Fields) (key rest : String) (around : Around)
    → outcome (next_key fields around) (quote key <> (": " <> rest))
      ≡ outcome (value (in_object fields key around)) rest
unfolding quote read step
read_key fields key rest around =
    ap (outcome (next_key fields around)) (append_assoc "\"" (quote_rest key) (": " <> rest))
    ∙ outcome-append (next_key fields around) (in_text [] (key_text fields around)) "\""
        (quote_rest key <> (": " <> rest)) refl
    ∙ ap result (quote_lem key (": " <> rest) (key_text fields around))
    ∙ outcome-append (colon fields key around) (value (in_object fields key around)) ": " rest refl

read_first_key :
    (key rest : String) (around : Around)
    → outcome (first_key around) (quote key <> (": " <> rest))
      ≡ outcome (value (in_object end key around)) rest
unfolding quote read step
read_first_key key rest around =
    ap (outcome (first_key around)) (append_assoc "\"" (quote_rest key) (": " <> rest))
    ∙ outcome-append (first_key around) (in_text [] (key_text end around)) "\""
        (quote_rest key <> (": " <> rest)) refl
    ∙ ap result (quote_lem key (": " <> rest) (key_text end around))
    ∙ outcome-append (colon end key around) (value (in_object end key around)) ": " rest refl

-- A line break, the indentation and a bracket.
close_items :
    (indent rest : String) (items : Items) (around : Around)
    → all_chars is_white indent ≡ true
    → outcome (after_item items around) (("\n" <> indent) <> ("]" <> rest))
      ≡ outcome (push (arr items) around) rest
unfolding read step
close_items indent rest items around white =
    ap (outcome (after_item items around)) (append_assoc "\n" indent ("]" <> rest))
    ∙ outcome-append (after_item items around) (after_item items around) "\n"
        (indent <> ("]" <> rest)) refl
    ∙ outcome-indent (after_item items around) indent ("]" <> rest) (λ c h. rw h refl) white
    ∙ outcome-append (after_item items around) (push (arr items) around) "]" rest refl

close_fields :
    (indent rest : String) (fields : Fields) (around : Around)
    → all_chars is_white indent ≡ true
    → outcome (after_field fields around) (("\n" <> indent) <> ("}" <> rest))
      ≡ outcome (push (obj fields) around) rest
unfolding read step
close_fields indent rest fields around white =
    ap (outcome (after_field fields around)) (append_assoc "\n" indent ("}" <> rest))
    ∙ outcome-append (after_field fields around) (after_field fields around) "\n"
        (indent <> ("}" <> rest)) refl
    ∙ outcome-indent (after_field fields around) indent ("}" <> rest) (λ c h. rw h refl) white
    ∙ outcome-append (after_field fields around) (push (obj fields) around) "}" rest refl

-- A bracket or a comma, the line break and the indentation of the next line.
open_line :
    (r r' : Reader) (start indent rest : String)
    → read r start ≡ some r'
    → ((c : Char) → is_white c ≡ true → step r' c ≡ some r')
    → all_chars is_white indent ≡ true
    → outcome r (start <> (indent <> rest)) ≡ outcome r' rest
open_line r r' start indent rest h skip white =
    outcome-append r r' start (indent <> rest) h ∙ outcome-indent r' indent rest skip white

deeper :
    (indent : String)
    → all_chars is_white indent ≡ true
    → all_chars is_white (indent <> "  ") ≡ true
deeper indent h = all_chars-append is_white indent "  " h refl

-- The rest of a text stands behind its last part.
append_assoc_4 : (a b c d e : String) → (a <> (b <> (c <> d))) <> e ≡ a <> (b <> (c <> (d <> e)))
append_assoc_4 a b c d e =
    rw (append_assoc a (b <> (c <> d)) e, append_assoc b (c <> d) e, append_assoc c d e) refl

append_assoc_5 :
    (a b c d e f : String) → (a <> (b <> (c <> (d <> e)))) <> f ≡ a <> (b <> (c <> (d <> (e <> f))))
append_assoc_5 a b c d e f =
    append_assoc_4 a b c (d <> e) f ∙ ap (λ t. a <> (b <> (c <> t))) (append_assoc d e f)

append_assoc_6 :
    (a b c d e f g : String)
    → (a <> (b <> (c <> (d <> (e <> f))))) <> g ≡ a <> (b <> (c <> (d <> (e <> (f <> g)))))
append_assoc_6 a b c d e f g =
    append_assoc_5 a b c d (e <> f) g ∙ ap (λ t. a <> (b <> (c <> (d <> t)))) (append_assoc e f g)

mutual
  unfolding pretty read step

  read_value :
      (j : Json) (indent rest : String) (around : Around)
      → all_chars is_white indent ≡ true
      → first_is is_digit rest ≡ false
      → outcome (value around) (pretty indent j <> rest) ≡ outcome (push j around) rest
  read_value null indent rest around white stops =
      outcome-append (value around) (push null around) "null" rest refl
  read_value (bool true) indent rest around white stops =
      outcome-append (value around) (push (bool true) around) "true" rest refl
  read_value (bool false) indent rest around white stops =
      outcome-append (value around) (push (bool false) around) "false" rest refl
  read_value (num n) indent rest around white stops = decimal_lem around n rest stops
  read_value (str s) indent rest around white stops = quote_value s rest around
  read_value (arr nil) indent rest around white stops =
      outcome-append (value around) (push (arr nil) around) "[]" rest refl
  read_value (arr (item v vs)) indent rest around white stops =
      let inner = pretty (indent <> "  ") v in
      let more = pretty_items indent vs <> ("]" <> rest) in
      ap (outcome (value around))
        (append_assoc_5 "[\n  " indent inner (pretty_items indent vs) "]" rest)
      ∙ open_line (value around) (first_item around) "[\n  " indent (inner <> more) refl
          (λ c h. rw h refl) white
      ∙ first_item-value around (inner <> more) (first_is-value (indent <> "  ") v more)
      ∙ read_value v (indent <> "  ") more (in_array nil around) (deeper indent white)
          (pretty_items-Stops indent vs ("]" <> rest))
      ∙ read_items vs indent rest (item v nil) around white
  read_value (obj end) indent rest around white stops =
      outcome-append (value around) (push (obj end) around) "{}" rest refl
  read_value (obj (field k v fs)) indent rest around white stops =
      let inner = pretty (indent <> "  ") v in
      let more = pretty_fields indent fs <> ("}" <> rest) in
      ap (outcome (value around)) (
        append_assoc_6 "{\n  " indent (quote k) ": " inner (pretty_fields indent fs <> "}") rest
        ∙ ap (λ t. "{\n  " <> (indent <> (quote k <> (": " <> (inner <> t)))))
            (append_assoc (pretty_fields indent fs) "}" rest))
      ∙ open_line (value around) (first_key around) "{\n  " indent
          (quote k <> (": " <> (inner <> more))) refl (λ c h. rw h refl) white
      ∙ read_first_key k (inner <> more) around
      ∙ read_value v (indent <> "  ") more (in_object end k around) (deeper indent white)
          (pretty_fields-Stops indent fs ("}" <> rest))
      ∙ read_fields fs indent rest (field k v end) around white

  read_items :
      (vs : Items) (indent rest : String) (items : Items) (around : Around)
      → all_chars is_white indent ≡ true
      → outcome (after_item items around) (pretty_items indent vs <> ("]" <> rest))
        ≡ outcome (push (arr (items_append items vs)) around) rest
  read_items nil indent rest items around white =
      close_items indent rest items around white
      ∙ ap (λ a. outcome (push (arr a) around) rest) (sym (items_append-nil items))
  read_items (item v vs) indent rest items around white =
      let inner = pretty (indent <> "  ") v in
      let more = pretty_items indent vs <> ("]" <> rest) in
      ap (outcome (after_item items around))
        (append_assoc_4 ",\n  " indent inner (pretty_items indent vs) ("]" <> rest))
      ∙ open_line (after_item items around) (value (in_array items around)) ",\n  " indent
          (inner <> more) refl (λ c h. rw h refl) white
      ∙ read_value v (indent <> "  ") more (in_array items around) (deeper indent white)
          (pretty_items-Stops indent vs ("]" <> rest))
      ∙ read_items vs indent rest (items_append items (item v nil)) around white
      ∙ ap (λ a. outcome (push (arr a) around) rest) (items_append_assoc items (item v nil) vs)

  read_fields :
      (fs : Fields) (indent rest : String) (fields : Fields) (around : Around)
      → all_chars is_white indent ≡ true
      → outcome (after_field fields around) (pretty_fields indent fs <> ("}" <> rest))
        ≡ outcome (push (obj (fields_append fields fs)) around) rest
  read_fields end indent rest fields around white =
      close_fields indent rest fields around white
      ∙ ap (λ a. outcome (push (obj a) around) rest) (sym (fields_append-end fields))
  read_fields (field k v fs) indent rest fields around white =
      let inner = pretty (indent <> "  ") v in
      let more = pretty_fields indent fs <> ("}" <> rest) in
      ap (outcome (after_field fields around))
        (append_assoc_6 ",\n  " indent (quote k) ": " inner (pretty_fields indent fs) ("}" <> rest))
      ∙ open_line (after_field fields around) (next_key fields around) ",\n  " indent
          (quote k <> (": " <> (inner <> more))) refl (λ c h. rw h refl) white
      ∙ read_key fields k (inner <> more) around
      ∙ read_value v (indent <> "  ") more (in_object fields k around) (deeper indent white)
          (pretty_fields-Stops indent fs ("}" <> rest))
      ∙ read_fields fs indent rest (fields_append fields (field k v end)) around white
      ∙ ap (λ a. outcome (push (obj a) around) rest) (fields_append_assoc fields (field k v end) fs)

-- What is written is read back.
pub parse-pretty : (j : Json) → parse (pretty "" j) ≡ some j
unfolding parse read result
parse-pretty j =
    ap (outcome (value alone)) (sym (append-nil (pretty "" j))) ∙ read_value j "" [] alone refl refl
