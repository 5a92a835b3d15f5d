-- ===== src/Dashboard/Labels.antt =====
-- The labels that the dashboard sends. The server keeps 60 runes of a label (maxLabelRunes in
-- internal/keysapi/keys.go).
use go_mcp_server.Base.{
  String, Char, ◌<>◌, code, List, [], ◌∷◌, ◌++◌, ◌⊎◌, inl, inr, ℕ, ◌≤◌, Bool, true, false, none,
  some, ◌≡◌,
}
use go_mcp_server.Base.{refl, arith, All, All-append, trim, is_space, first_is, last_is}
use go_mcp_server.Base.{drop_start, drop_end, trim-clean, subst}
use go_mcp_server.Json.{quote}
use go_mcp_server.Dashboard.{
  State, Summary, Event, Reply, rejected, response, object, not_json, null_data, post_ends, step,
  run, initial, begin_create, utf16_length, post_body,
}
use go_mcp_server.Dashboard.{begin_delete, end_create, end_delete, create_answered, delete_answered}
use go_mcp_server.Dashboard.Runs.{run-keeps, post_ends-step}

-- The body of a label that has at most 60 code units and no white space at either end.
abbrev pub IsBody : String → Type 0
IsBody body =
    (label : String) × (body ≡ "{\"label\":" <> quote label <> "}")
    × (utf16_length label ≤ 60)
    × (first_is (λ c. is_space (code c)) label ≡ false)
    × (last_is (λ c. is_space (code c)) label ≡ false)

length-drop_start : (p : Char → Bool) (s : String) → utf16_length (drop_start p s) ≤ utf16_length s
length-drop_start p String.[] = omega arith
length-drop_start p (String.◌∷◌ c s) = ground (arith, length-drop_start p s)

length-drop_end : (p : Char → Bool) (s : String) → utf16_length (drop_end p s) ≤ utf16_length s
length-drop_end p String.[] = omega arith
length-drop_end p (String.◌∷◌ c s) = ground (arith, length-drop_end p s)

pub length-trim : (s : String) → utf16_length (trim s) ≤ utf16_length s
unfolding trim
length-trim s =
    let p = λ (c : Char). is_space (code c) in
    let start = length-drop_start p s in
    let tail = length-drop_end p (drop_start p s) in omega (arith, start, tail)

post_body-IsBody : (label : String) → utf16_length label ≤ 60 → IsBody (post_body label)
post_body-IsBody label h =
    let (starts, ends) = trim-clean label in
    let short = length-trim label in (trim label, refl, omega (arith, short, h), starts, ends)

-- The field holds at most 60 code units, and every awaited body is one of a label.
abbrev pub IsLabelled : State → Type 0
IsLabelled s = (utf16_length s.label ≤ 60) × All IsBody s.posts

end_create-label :
    (reply : Reply) (s : State)
    → utf16_length s.label ≤ 60
    → (utf16_length (end_create reply s).label ≤ 60) × ((end_create reply s).posts ≡ s.posts)
unfolding end_create create_answered
end_create-label (response true (object e (some c))) s h = (omega arith, refl)
end_create-label rejected s h = (h, refl)
end_create-label (response ok not_json) s h = (h, refl)
end_create-label (response ok null_data) s h = (h, refl)
end_create-label (response false (object e k)) s h = (h, refl)
end_create-label (response true (object e none)) s h = (h, refl)

-- What an event does to the field and to the awaited bodies.
IsPosted : State → Event → State → Type 0
IsPosted s e s' =
    (utf16_length s'.label ≤ 60)
    × ((s'.posts ≡ s.posts)
        ⊎ (s'.posts ≡ s.posts ++ post_body s.label ∷ [])
        ⊎ ((body : String) × (s.posts ≡ body ∷ s'.posts)))

step-IsPosted :
    (max : ℕ) (s : State) (e : Event) (s' : State)
    → utf16_length s.label ≤ 60
    → step max s e ≡ some s'
    → IsPosted s e s'
unfolding step IsPosted begin_create begin_delete end_delete delete_answered
step-IsPosted max s (post_ends reply) s' short h =
    let (body, rest, awaited, ends) = post_ends-step max s reply s' h in
    let (label, posts) = end_create-label reply (record s { posts = rest }) short in
    subst (λ (t : State). IsPosted s (post_ends reply) t) ends
      (label, inr (inr (body, rw posts awaited)))
step-IsPosted max s e s' short h = ground arith

step-IsLabelled :
    (max : ℕ) (s : State) (e : Event) (s' : State)
    → IsLabelled s
    → step max s e ≡ some s'
    → IsLabelled s'
unfolding IsPosted
step-IsLabelled max s e s' (short, bodies) h =
    let (label, posts) = step-IsPosted max s e s' short h in
    (
      label,
      elim posts [
        | inl same ↦ rw same bodies
        | inr (inl more) ↦
            rw more (All-append IsBody s.posts _ bodies (post_body-IsBody s.label short, tt))
        | inr (inr (body, fewer)) ↦ (rw fewer at bodies).1
      ],
    )

-- Every body that the dashboard posts is the JSON of a label of at most 60 UTF-16 code units that
-- neither begins nor ends with white space.
pub run-labels :
    (max : ℕ) (keys : List Summary) (es : List Event) (s : State)
    → run max (initial keys) es ≡ some s
    → All IsBody s.posts
unfolding initial
run-labels max keys es s r =
    (run-keeps max IsLabelled (initial keys) es s (step-IsLabelled max) (omega arith, tt) r).1
