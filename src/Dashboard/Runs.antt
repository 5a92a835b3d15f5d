-- ===== src/Dashboard/Runs.antt =====
-- Induction over the runs of the dashboard.
use go_mcp_server.Base.{String, List, ◌∷◌, ℕ, Option, none, some, some-injective, ◌≡◌, refl}
use go_mcp_server.Base.{subst}
use go_mcp_server.Dashboard.{State, Summary, Event, Reply, step, run, end_delete, end_create}
use go_mcp_server.Dashboard.{delete_ends, post_ends}

chained {ℓ} :
    {A : Type ℓ} (o : Option A) (next : A → Option A) (b : A)
    → elim o [ none ↦ none | some a ↦ next a ] ≡ some b
    → (a : A) × (o ≡ some a) × (next a ≡ some b)
chained none next b h = absurd (cc h)
chained (some a) next b h = (a, refl, h)

-- The first step of a run, and the rest of it.
pub run-step :
    (max : ℕ) (s : State) (e : Event) (es : List Event) (s' : State)
    → run max s (e ∷ es) ≡ some s'
    → (t : State) × (step max s e ≡ some t) × (run max t es ≡ some s')
unfolding run
run-step max s e es s' h = chained (step max s e) (λ t. run max t es) s' h

-- What every step keeps, every run keeps.
pub run-keeps {ℓ} :
    (max : ℕ) (P : State → Type ℓ) (s : State) (es : List Event) (s' : State)
    → ((t : State) (e : Event) (t' : State) → P t → step max t e ≡ some t' → P t')
    → P s
    → run max s es ≡ some s'
    → P s'
unfolding run
run-keeps max P s List.[] s' keeps p h = subst P (some-injective _ _ h) p
run-keeps max P s (e ∷ es) s' keeps p h =
    let (t, stepped, rest) = run-step max s e es s' h in
    run-keeps max P t es s' keeps (keeps s e t p stepped) rest

taken {ℓ κ} :
    {A : Type ℓ} {B : Type κ} (xs : List A) (next : A → List A → B) (b : B)
    → elim xs [ List.[] ↦ none | a ∷ rest ↦ some (next a rest) ] ≡ some b
    → (a : A) × (rest : List A) × (xs ≡ a ∷ rest) × (next a rest ≡ b)
taken List.[] next b h = absurd (cc h)
taken (a ∷ rest) next b h = (a, rest, refl, some-injective _ _ h)

-- The answer of a DELETE is taken by the first that is awaited.
pub delete_ends-step :
    (max : ℕ) (s : State) (reply : Reply) (s' : State)
    → step max s (delete_ends reply) ≡ some s'
    → (k : Summary) × (rest : List Summary) × (s.deletes ≡ k ∷ rest)
      × (end_delete k reply (record s { deletes = rest }) ≡ s')
unfolding step
delete_ends-step max s reply s' h =
    taken s.deletes (λ k rest. end_delete k reply (record s { deletes = rest })) s' h

-- The answer of a POST is taken by the first that is awaited.
pub post_ends-step :
    (max : ℕ) (s : State) (reply : Reply) (s' : State)
    → step max s (post_ends reply) ≡ some s'
    → (body : String) × (rest : List String) × (s.posts ≡ body ∷ rest)
      × (end_create reply (record s { posts = rest }) ≡ s')
unfolding step
post_ends-step max s reply s' h =
    taken s.posts (λ _ rest. end_create reply (record s { posts = rest })) s' h
