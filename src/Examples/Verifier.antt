-- ===== src/Examples/Verifier.antt =====
-- Presentation requests and answers at concrete inputs.
use tpt_identity.Prelude.{
  ℕ, pos, negsuc, ◌*◌, ◌≤◌, ◌<◌, ◌≡◌, ◌⊎◌, refl, String, List, [], ◌∷◌, Option, some, arith,
}
use tpt_identity.Prelude.Table.{find}
use tpt_identity.Oidc.Jwt.{second}
use tpt_identity.Vc.Json.{Json}
use tpt_identity.Oidc.Presentations.{
  VpRequest, VpStore, RequestBody, VpReply, Call, new_request, object_reply, get_request,
  get_response, calls, ttl_of,
}
use tpt_identity.Oidc.Presentations.Kept.{get_request-create}
use tpt_identity.Oidc.Presentations.Answered.{get_response-orphan}
use tpt_identity.Examples.Fixtures.{differ}

abbrev nothing_yet : VpStore
nothing_yet = record { requests = []; responses = [] }

abbrev body : RequestBody
body = record {
  client_id = "did:web:shop";
  presentation_definition = some Json.null;
  expires_in = pos 60;
  response_mode = "";
}

abbrev sign : VpRequest → ℕ → Option String
sign r now = some r.nonce

abbrev traffic : List Call
traffic =
    Call.posts "vp" "r1" 5
    ∷ Call.creates (some body) (some "r2") (some "n2") 6
    ∷ Call.evicts (30 * second)
    ∷ []

get_request-create_example :
    let r = new_request "https://id" body Json.null (some "r1") (some "n1") 0 in
    let reply = get_request sign "r1" (40 * second) (
      calls "https://id"
        (Call.creates (some body) (some "r1") (some "n1") 0 ∷ traffic)
        nothing_yet) in
    ((40 * second ≤ r.expires_at) × (reply ≡ object_reply (sign r (40 * second))))
    ⊎ ((r.expires_at < 40 * second) × ((reply ≡ VpReply.gone) ⊎ (reply ≡ VpReply.not_found)))
get_request-create_example =
    get_request-create "https://id" body Json.null (some "r1") (some "n1") 0 (40 * second)
      nothing_yet traffic sign refl (differ "r2" "r1" refl, (omega arith, tt))

get_response-orphan_example :
    get_response "nobody" (
      calls "https://id"
        (Call.posts "vp" "nobody" 5 ∷ Call.evicts (1000 * second) ∷ [])
        nothing_yet)
    ≡ VpReply.complete "vp" 5
unfolding find
get_response-orphan_example =
    get_response-orphan "https://id" "vp" "nobody" 5 nothing_yet (Call.evicts (1000 * second) ∷ [])
      (differ "vp" "" refl) refl tt

-- A number of seconds that wraps around in 64 bits, and one below zero that does.
ttl_run :
    (ttl_of (pos 60) ≡ 60 * second)
    × (ttl_of (negsuc 0) ≡ 300 * second)
    × (ttl_of (pos 18446744074) ≡ 290448384)
    × (ttl_of (negsuc 18446744072) ≡ 709551616)
ttl_run = (refl, refl, refl, refl)
