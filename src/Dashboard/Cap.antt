-- ===== src/Dashboard/Cap.antt =====
-- The cap on the keys, as the dashboard keeps it by itself.
use go_mcp_server.Base.{◌⊎◌, String, List, [], ◌∷◌, ℕ, Bool, true, false, some, ◌≡◌, refl}
use go_mcp_server.Base.{arith, length, ◌≤◌, ◌<◌, keep, subst}
use go_mcp_server.Dashboard.{
  State, at_limit, Summary, Event, Reply, delete_ends, step, run, initial, begin_create, other_than,
}
use go_mcp_server.Dashboard.{begin_delete, end_create, end_delete, create_answered, delete_answered}
use go_mcp_server.Dashboard.Flight.{IsFlag}
use go_mcp_server.Dashboard.Runs.{run-keeps, delete_ends-step}

length-keep {ℓ} : {A : Type ℓ} (p : A → Bool) (xs : List A) → length (keep p xs) ≤ length xs
length-keep p [] = omega arith
length-keep p (x ∷ xs) = ground (arith, length-keep p xs)

abbrev RoomIfAwaited : ℕ → ℕ → List String → Type 0
RoomIfAwaited n max [] = n ≤ max
RoomIfAwaited n max (x ∷ xs) = n < max

abbrev RoomIfOpen : ℕ → ℕ → Bool → Type 0
RoomIfOpen n max false = n ≤ max
RoomIfOpen n max true = n < max

-- There is room for one more key while the create dialog is open, and while a POST is awaited.
abbrev pub IsWithinCap : ℕ → State → Type 0
IsWithinCap max s =
    RoomIfOpen (length s.keys) max s.create_open
    × RoomIfAwaited (length s.keys) max s.posts
    × IsFlag s.posts s.creating

end_delete-IsWithinCap :
    (max : ℕ) (k : Summary) (reply : Reply) (s : State)
    → IsWithinCap max s
    → IsWithinCap max (end_delete k reply s)
unfolding end_delete delete_answered
end_delete-IsWithinCap max k reply s h = ground (arith, length-keep (other_than k.id) s.keys)

step-IsWithinCap :
    (max : ℕ) (s : State) (e : Event) (s' : State)
    → 0 < max
    → IsWithinCap max s
    → step max s e ≡ some s'
    → IsWithinCap max s'
unfolding step begin_create end_create begin_delete create_answered
step-IsWithinCap max s (delete_ends reply) s' pos h e =
    let (k, rest, _, ends) = delete_ends-step max s reply s' e in
    subst (IsWithinCap max) ends
      (end_delete-IsWithinCap max k reply (record s { deletes = rest }) h)
step-IsWithinCap max s e s' pos h k = ground arith

within-length : (max : ℕ) (s : State) → IsWithinCap max s → length s.keys ≤ max
within-length max s h = ground arith

at_limit-or :
    (max : ℕ) (s : State)
    → IsWithinCap max s
    → (at_limit max s ≡ false) ⊎ ((s.create_open ≡ false) × (s.posts ≡ []))
at_limit-or max s h = ground arith

-- A dashboard that opens with at most `max` keys, and a `max` of at least 1, never lists more; and
-- when it lists `max` keys, the create dialog is closed and no POST is awaited. The dashboard keeps
-- the cap without help of the server.
pub run-within_cap :
    (max : ℕ) (keys : List Summary) (es : List Event) (s : State)
    → 0 < max
    → length keys ≤ max
    → run max (initial keys) es ≡ some s
    → (length s.keys ≤ max)
      × ((at_limit max s ≡ false) ⊎ ((s.create_open ≡ false) × (s.posts ≡ [])))
unfolding initial
run-within_cap max keys es s pos h r =
    let kept =
      run-keeps max (IsWithinCap max) (initial keys) es s
        (λ t e t' w k. step-IsWithinCap max t e t' pos w k) (h, h, refl) r in
    (within-length max s kept, at_limit-or max s kept)
