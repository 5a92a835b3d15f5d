-- ===== src/Tests/Auth.antt =====
-- Tests of the admission of keys, and its theorems at concrete inputs.
use mathlib.Core.List.{Mem}
use go_mcp_server.Base.{String, List, [], ◌∷◌, true, false, ◌≡◌, refl}
use go_mcp_server.Auth.{
  State, Event, request, mint, revoke, step, run, resolve, valid_format, resolved,
}
use go_mcp_server.Auth.{invalid_key}
use go_mcp_server.Auth.Laws.{minted, fresh, resolve-after_revoke, resolve-minted}

abbrev key : String
key = "mcp_0123456789abcdef0123456789abcdef"

abbrev holding : State
holding = record { table = (key, "k1") ∷ []; cache = [] }

admitted : (resolve true holding.table holding.cache key).0 ≡ resolved "k1"
unfolding resolve valid_format
admitted = refl

-- A revoked key that no request used before is refused.
refused :
    (resolve true (step holding (revoke "k1")).table (step holding (revoke "k1")).cache key).0
    ≡ invalid_key
unfolding step resolve valid_format
refused = refl

resolve-after_revoke_example :
    (resolve false
      (run (step holding (request true key)) (revoke "k1" ∷ [])).table
      (run (step holding (request true key)) (revoke "k1" ∷ [])).cache
      key).0
    ≡ resolved "k1"
resolve-after_revoke_example =
    resolve-after_revoke holding true key "k1" (revoke "k1" ∷ []) false admitted

abbrev history : List Event
history = mint key "k1" ∷ request true key ∷ revoke "k1" ∷ []

admitted_still :
    (resolve true (run fresh history).table (run fresh history).cache key).0 ≡ resolved "k1"
unfolding run step resolve valid_format
admitted_still = refl

resolve-minted_example : Mem (key, "k1") (minted history)
resolve-minted_example = resolve-minted history true key "k1" admitted_still
