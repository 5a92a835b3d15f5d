-- ===== src/Auth/Laws.antt =====
-- Which keys are admitted over time.
use mathlib.Core.List.{Mem, mem-cons_self, mem-cons_of_mem}
use go_mcp_server.Base.{String, List, [], ◌∷◌, some, Bool, true, ◌≡◌, refl, not}
use go_mcp_server.Base.{
  arith, All, keep, lookup, lookup-All, eq_iff, ◌==◌, Bool-cases, inl, inr, ◌⊎◌, subst, sym,
}
use go_mcp_server.Auth.{valid_format, resolved, Rows, resolve, State, Event}
use go_mcp_server.Auth.{request, mint, revoke, step, run}

-- A resolved key is in the cache afterwards, and has the minted format.
resolve-cached :
    (up : Bool) (table cache : Rows) (key id : String)
    → (resolve up table cache key).0 ≡ resolved id
    → (lookup key (resolve up table cache key).1 ≡ some id) × (valid_format key ≡ true)
unfolding resolve
resolve-cached up table cache key id h = ground (arith, eq_iff key key)

step-cached :
    (s : State) (e : Event) (key id : String)
    → lookup key s.cache ≡ some id
    → lookup key (step s e).cache ≡ some id
unfolding step resolve
step-cached s (request up other) key id h = ground (arith, eq_iff other key)
step-cached s (mint k i) key id h = h
step-cached s (revoke i) key id h = h

run-cached :
    (s : State) (es : List Event) (key id : String)
    → lookup key s.cache ≡ some id
    → lookup key (run s es).cache ≡ some id
unfolding run
run-cached s [] key id h = h
run-cached s (e ∷ es) key id h = run-cached (step s e) es key id (step-cached s e key id h)

-- Once a request with a key was admitted, the key is admitted with the same id after whatever other
-- requests, mints and revocations: also when its row was revoked, and when the database is down.
pub resolve-after_revoke :
    (s : State) (up : Bool) (key id : String) (es : List Event) (up' : Bool)
    → (resolve up s.table s.cache key).0 ≡ resolved id
    → (resolve up'
        (run (step s (request up key)) es).table
        (run (step s (request up key)) es).cache
        key).0
      ≡ resolved id
unfolding resolve step
resolve-after_revoke s up key id es up' h =
    let (cached, format) = resolve-cached up s.table s.cache key id h in
    let kept = run-cached (step s (request up key)) es key id cached in
    rw (resolve, format, kept) refl

-- The rows that a run ever had: those of its start, and those that were minted.
abbrev pub minted : List Event → Rows
minted [] = []
minted (mint key id ∷ es) = (key, id) ∷ minted es
minted (e ∷ es) = minted es

abbrev Within : Rows → Rows → Type 0
Within ever rows = All (λ (key, id). Mem (key, id) ever) rows

Within-keep :
    (ever rows : Rows) (id : String)
    → Within ever rows
    → Within ever (keep (λ (_, i). not (i == id)) rows)
Within-keep ever [] id h = tt
Within-keep ever ((key, i) ∷ rows) id (p, h) = elim (Bool-cases (i == id)) [
  | inl same ↦ rw same (Within-keep ever rows id h)
  | inr other ↦ rw other (p, Within-keep ever rows id h)
]

lookup-Within :
    (ever rows : Rows) (key id : String)
    → Within ever rows
    → lookup key rows ≡ some id
    → Mem (key, id) ever
lookup-Within ever rows key id h e = lookup-All (λ k i. Mem (k, i) ever) key rows h e

resolve-cache :
    (up : Bool) (table cache : Rows) (key : String)
    → ((resolve up table cache key).1 ≡ cache)
      ⊎ ((id : String) × (lookup key table ≡ some id)
          × ((resolve up table cache key).1 ≡ (key, id) ∷ cache))
unfolding resolve
resolve-cache up table cache key = ground arith

resolve-Within :
    (ever : Rows) (up : Bool) (table cache : Rows) (key : String)
    → Within ever table
    → Within ever cache
    → Within ever (resolve up table cache key).1
resolve-Within ever up table cache key t c = elim (resolve-cache up table cache key) [
  | inl same ↦ subst (Within ever) (sym same) c
  | inr (id, found, more) ↦
      subst (Within ever) (sym more) (lookup-Within ever table key id t found, c)
]

Within-run :
    (ever : Rows) (s : State) (es : List Event)
    → Within ever s.table
    → Within ever s.cache
    → Within ever (minted es)
    → Within ever (run s es).table × Within ever (run s es).cache
unfolding run step
Within-run ever s [] t c m = (t, c)
Within-run ever s (request up key ∷ es) t c m =
    Within-run ever (step s (request up key)) es t (resolve-Within ever up s.table s.cache key t c)
      m
Within-run ever s (mint key id ∷ es) t c (p, m) =
    Within-run ever (step s (mint key id)) es (p, t) c m
Within-run ever s (revoke id ∷ es) t c m =
    Within-run ever (step s (revoke id)) es (Within-keep ever s.table id t) c m

Within-later : (ever rows : Rows) (r : String × String) → Within ever rows → Within (r ∷ ever) rows
Within-later ever [] r h = tt
Within-later ever (_ ∷ rows) r (p, h) = (mem-cons_of_mem r p, Within-later ever rows r h)

Within-self : (rows : Rows) → Within rows rows
Within-self [] = tt
Within-self (r ∷ rows) = (mem-cons_self, Within-later rows rows r (Within-self rows))

abbrev pub fresh : State
fresh = record { table = []; cache = [] }

-- From an empty table on, a key is admitted with an id only if it was minted with that id at some
-- time, whatever requests, mints and revocations came before.
pub resolve-minted :
    (es : List Event) (up : Bool) (key id : String)
    → (resolve up (run fresh es).table (run fresh es).cache key).0 ≡ resolved id
    → Mem (key, id) (minted es)
resolve-minted es up key id h =
    let s = run fresh es in
    let (t, c) = Within-run (minted es) fresh es tt tt (Within-self (minted es)) in
    lookup-Within (minted es) (resolve up s.table s.cache key).1 key id
      (resolve-Within (minted es) up s.table s.cache key t c)
      (resolve-cached up s.table s.cache key id h).0
