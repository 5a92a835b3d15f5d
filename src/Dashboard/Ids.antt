-- ===== src/Dashboard/Ids.antt =====
-- The keys that the dashboard lists: what each event does to them, and the ids they have.
use go_mcp_server.Base.{String, List, [], ◌∷◌, ℕ, Bool, true, false, not, Option, none, some, ◌≡◌}
use go_mcp_server.Base.{
  refl, sym, arith, keep, contains, distinct, all, map, eq_iff, ap, some-injective,
}
use go_mcp_server.Base.{all_mono, subst}
use go_mcp_server.Dashboard.{State, Summary, Created, Event, Reply, response, object, step, run}
use go_mcp_server.Dashboard.{initial, begin_create, other_than, summary_of, post_ends, delete_ends}
use go_mcp_server.Dashboard.{begin_delete, end_create, end_delete, create_answered, delete_answered}
use go_mcp_server.Dashboard.Runs.{run-step, delete_ends-step, post_ends-step}

abbrev pub ids : List Summary → List String
ids keys = map (λ (k : Summary). k.id) keys

-- The key that an event brings, where it is the answer of a POST that made one.
abbrev pub created : Event → Option Created
created (post_ends (response true (object e k))) = k
created e = none

abbrev first_awaited : List Summary → Option Summary
first_awaited [] = none
first_awaited (k ∷ rest) = some k

-- The key that an event says is revoked, where it is the answer of a DELETE that succeeded: the one
-- that the DELETE was sent for.
abbrev pub revoked : State → Event → Option Summary
revoked s (delete_ends (response true d)) = first_awaited s.deletes
revoked s e = none

-- What becomes of the list, by the key that was made and the key that was revoked.
abbrev pub IsListedBy : Option Created → Option Summary → State → State → Type 0
IsListedBy (some c) lost s s' = s'.keys ≡ summary_of c ∷ s.keys
IsListedBy none (some k) s s' =
    (s'.keys ≡ keep (other_than k.id) s.keys) × (s'.pending_delete ≡ none)
IsListedBy none none s s' = s'.keys ≡ s.keys

abbrev pub IsListed : State → Event → State → Type 0
IsListed s e s' = IsListedBy (created e) (revoked s e) s s'

abbrev pub keeps_list : Event → Bool
keeps_list (post_ends _) = false
keeps_list (delete_ends _) = false
keeps_list e = true

pub step-keeps_list :
    (max : ℕ) (s : State) (e : Event) (s' : State)
    → keeps_list e ≡ true
    → step max s e ≡ some s'
    → s'.keys ≡ s.keys
unfolding step begin_create begin_delete
step-keeps_list max s e s' h k = ground arith

end_create-IsListed :
    (reply : Reply) (s : State) (posts : List String) {s' : State}
    → end_create reply (record s { posts = posts }) ≡ s'
    → IsListed s (post_ends reply) s'
unfolding end_create create_answered
end_create-IsListed (response true (object e (some c))) s posts h =
    ap (λ (t : State). t.keys) (sym h)
end_create-IsListed reply s posts h = ground arith

end_delete-IsListed :
    (k : Summary) (rest : List Summary) (reply : Reply) (s : State) {s' : State}
    → s.deletes ≡ k ∷ rest
    → end_delete k reply (record s { deletes = rest }) ≡ s'
    → IsListed s (delete_ends reply) s'
unfolding end_delete delete_answered
end_delete-IsListed k rest (response true d) s e h =
    rw e (ap (λ (t : State). t.keys) (sym h), ap (λ (t : State). t.pending_delete) (sym h))
end_delete-IsListed k rest reply s e h = ground arith

-- What each event does to the listed keys: where it is the answer that a POST made a key, that key
-- stands first and the others behind it; where it is the answer that a DELETE succeeded, the keys of
-- the id that this DELETE was sent for are taken out, whichever key the confirmation shows by then,
-- and the confirmation is closed; and every other event leaves the list as it is.
pub step-IsListed :
    (max : ℕ) (s : State) (e : Event) (s' : State) → step max s e ≡ some s' → IsListed s e s'
step-IsListed max s (post_ends reply) s' h =
    let (_, rest, _, ends) = post_ends-step max s reply s' h in
    end_create-IsListed reply s rest ends
step-IsListed max s (delete_ends reply) s' h =
    let (k, rest, awaited, ends) = delete_ends-step max s reply s' h in
    end_delete-IsListed k rest reply s awaited ends
step-IsListed max s e s' h = (step-keeps_list max s e s' refl h)

-- The ids that the answers of a run bring.
abbrev pub created_ids : List Event → List String
created_ids [] = []
created_ids (e ∷ es) = elim (created e) [ none ↦ created_ids es | some c ↦ c.id ∷ created_ids es ]

-- The ids of the list and the ids to come are all different.
abbrev pub IsFresh : List String → List String → Type 0
IsFresh now later =
    (distinct now ≡ true)
    × (distinct later ≡ true)
    × (all (λ id. not (contains now id)) later ≡ true)

pub contains-keep :
    (id : String) (keys : List Summary) (x : String)
    → contains (ids (keep (other_than id) keys)) x ≡ true
    → contains (ids keys) x ≡ true
contains-keep id [] x h = h
contains-keep id (k ∷ keys) x h = ground (arith, contains-keep id keys x)

distinct-keep :
    (id : String) (keys : List Summary)
    → distinct (ids keys) ≡ true
    → distinct (ids (keep (other_than id) keys)) ≡ true
distinct-keep id [] h = h
distinct-keep id (k ∷ keys) h = ground (arith, distinct-keep id keys, contains-keep id keys k.id)

apart :
    (now later : List String) (id : String)
    → contains later id ≡ false
    → all (λ x. not (contains now x)) later ≡ true
    → all (λ x. not (contains (id ∷ now) x)) later ≡ true
apart now [] id h k = refl
apart now (x ∷ later) id h k = ground (arith, eq_iff id x, eq_iff x id, apart now later id)

IsFresh-create :
    (now later : List String) (id : String) → IsFresh now (id ∷ later) → IsFresh (id ∷ now) later
IsFresh-create now later id h = ground (arith, apart now later id)

all-fewer :
    (id : String) (keys : List Summary) (later : List String)
    → all (λ x. not (contains (ids keys) x)) later ≡ true
    → all (λ x. not (contains (ids (keep (other_than id) keys)) x)) later ≡ true
all-fewer id keys later h =
    all_mono (λ x. not (contains (ids keys) x))
      (λ x. not (contains (ids (keep (other_than id) keys)) x)) later
      (λ x k. ground (arith, contains-keep id keys x)) h

IsFresh-later :
    (now : List String) (e : Event) (es : List Event)
    → IsFresh now (created_ids (e ∷ es))
    → IsFresh now (created_ids es)
IsFresh-later now e es h = ground arith

step-IsFresh :
    (s : State) (e : Event) (es : List Event) (s' : State) (new : Option Created)
    (lost : Option Summary)
    → created e ≡ new
    → IsListedBy new lost s s'
    → IsFresh (ids s.keys) (created_ids (e ∷ es))
    → IsFresh (ids s'.keys) (created_ids es)
step-IsFresh s e es s' (some c) lost brought listed h =
    rw listed (IsFresh-create (ids s.keys) (created_ids es) c.id (rw (created_ids, brought) at h))
step-IsFresh s e es s' none (some k) nothing (listed, closed) h =
    let (now, later, disjoint) = IsFresh-later (ids s.keys) e es h in
    rw listed
      (distinct-keep k.id s.keys now, later, all-fewer k.id s.keys (created_ids es) disjoint)
step-IsFresh s e es s' none none nothing same h = rw same (IsFresh-later (ids s.keys) e es h)

run-IsFresh :
    (max : ℕ) (s : State) (es : List Event) (s' : State)
    → IsFresh (ids s.keys) (created_ids es)
    → run max s es ≡ some s'
    → distinct (ids s'.keys) ≡ true
unfolding run
run-IsFresh max s [] s' (now, _, _) r =
    subst (λ (t : State). distinct (ids t.keys) ≡ true) (some-injective s s' r) now
run-IsFresh max s (e ∷ es) s' h r =
    let (t, stepped, rest) = run-step max s e es s' r in
    run-IsFresh max t es s'
      (step-IsFresh s e es t (created e) (revoked s e) refl (step-IsListed max s e t stepped) h)
      rest

-- Where the page's keys and the keys that the answers of the POSTs make have pairwise different
-- ids, no two keys that the dashboard lists ever have the same id, which React needs of their
-- `key`s.
pub run-distinct-ids :
    (max : ℕ) (keys : List Summary) (es : List Event) (s : State)
    → IsFresh (ids keys) (created_ids es)
    → run max (initial keys) es ≡ some s
    → distinct (ids s.keys) ≡ true
unfolding initial
run-distinct-ids max keys es s h r = run-IsFresh max (initial keys) es s h r
