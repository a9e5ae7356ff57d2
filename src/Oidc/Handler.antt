-- ===== src/Oidc/Handler.antt =====
-- What every handler of oidc works in: the provider with its tables and the map of revoked access
-- tokens, the request, what the handler draws from its surroundings, and the reply.
-- A handler runs in `Handler`, a state monad with early return: what was written before an error
-- reply stays written.
use tpt_identity.Prelude.{ℕ, String, Bool, List, Option, none, some, if◌then◌else◌}
use tpt_identity.Store.Rows.{Session, Client, RefreshToken, ParRequest, DeviceCode, CredentialOffer}

-- The first argument of writeError, and the codes that handlers write themselves.
pub data Code : Type 0 where
  invalid_request invalid_grant invalid_client unauthorized_client unsupported_grant_type : Code
  invalid_scope invalid_token access_denied expired_token authorization_pending : Code
  invalid_client_metadata insufficient_scope unsupported_credential_type : Code

-- `refused` is writeError (400 with a code), `status` is http.Error.
pub data Failure : Type 0 where
  refused : Code → Failure
  status : ℕ → Failure

pub data Reply {ℓ} (A : Type ℓ) : Type ℓ where
  ok : A → Reply A
  err : Failure → Reply A

abbrev pub internal_error : Failure
internal_error = status 500

pub record World : Type 0 where
  pub sessions : List Session
  pub clients : List Client
  pub refresh_tokens : List RefreshToken
  pub par_requests : List ParRequest
  pub device_codes : List DeviceCode
  pub credential_offers : List CredentialOffer
  pub revoked : List (String × ℕ)

-- `form` is r.FormValue and `query` is r.URL.Query().Get: "" where there is no value.
pub record Request : Type 0 where
  pub form : String → String
  pub query : String → String
  pub form_pairs : List (String × String)
  pub header : String → String
  pub basic : Option (String × String)
  pub user_agent : String
  pub remote_ip : String

-- One request's surroundings: the clock, read once; the results of its calls of randomHex, in
-- order (`none` where the generator fails), and of math/rand's Intn; and which of its calls of the store fail, the calls
-- being numbered as they stand in the handler's text.
pub record Env : Type 0 where
  pub now : ℕ
  pub draws : ℕ → Option String
  pub picks : ℕ → ℕ
  pub down : ℕ → Bool

abbrev pub Handler : Type 0 → Type 0
Handler A = World → Reply A × World

abbrev pub continue : {A B : Type 0} → Reply A × World → (A → Handler B) → Reply B × World
continue (ok a, w) f = f a w
continue (err e, w) f = (err e, w)

infixl 10 ◌>>=◌ ◌>>◌
abbrev pub ◌>>=◌ : {A B : Type 0} → Handler A → (A → Handler B) → Handler B
◌>>=◌ m f w = continue (m w) f

abbrev pub ◌>>◌ : {A B : Type 0} → Handler A → Handler B → Handler B
m >> k = m >>= λ _. k

abbrev pub pure : {A : Type 0} → A → Handler A
pure a w = (ok a, w)

abbrev pub fail : {A : Type 0} → Failure → Handler A
fail e w = (err e, w)

-- `if bad { writeError(…); return }`
abbrev pub reject_if : Bool → Failure → Handler (Unit {0})
reject_if bad e w = (if bad then err e else ok tt, w)

abbrev pub or_fail : {A : Type 0} → Failure → Option A → Reply A
or_fail e none = err e
or_fail e (some a) = ok a

-- `x, err := …; if err != nil { …; return }`, for a read and for a call that leaves the world alone.
abbrev pub read : {A : Type 0} → (World → Option A) → Failure → Handler A
read get e w = (or_fail e (get w), w)

abbrev pub need : {A : Type 0} → Option A → Failure → Handler A
need o e w = (or_fail e o, w)

abbrev pub written : Failure → World → Option World → Reply (Unit {0}) × World
written e w none = (err e, w)
written e w (some w') = (ok tt, w')

-- `if err := p.store.Save…; err != nil { 500; return }`
abbrev pub write : (World → Option World) → Handler (Unit {0})
write f w = written internal_error w (f w)

abbrev pub kept : World → Option World → World
kept w none = w
kept w (some w') = w'

-- `_ = p.store.Delete…`: an error goes unnoticed.
abbrev pub try : (World → Option World) → Handler (Unit {0})
try f w = (ok tt, kept w (f w))

-- Store calls on a table, lifted to the world.
abbrev pub with_sessions : World → Option (List Session) → Option World
with_sessions w none = none
with_sessions w (some rows) = some (record w { sessions = rows })

abbrev pub with_clients : World → Option (List Client) → Option World
with_clients w none = none
with_clients w (some rows) = some (record w { clients = rows })

abbrev pub with_refresh_tokens : World → Option (List RefreshToken) → Option World
with_refresh_tokens w none = none
with_refresh_tokens w (some rows) = some (record w { refresh_tokens = rows })

abbrev pub with_par_requests : World → Option (List ParRequest) → Option World
with_par_requests w none = none
with_par_requests w (some rows) = some (record w { par_requests = rows })

abbrev pub with_device_codes : World → Option (List DeviceCode) → Option World
with_device_codes w none = none
with_device_codes w (some rows) = some (record w { device_codes = rows })

abbrev pub with_credential_offers : World → Option (List CredentialOffer) → Option World
with_credential_offers w none = none
with_credential_offers w (some rows) = some (record w { credential_offers = rows })
