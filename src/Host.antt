-- ===== src/Host.antt =====
-- What the services run on and do not implement: the network and the peers behind it, the clock,
-- random identifiers, JSON and base64 codecs, the signing key. `W` is the state of all that.
pub mod Effects
pub mod Tasks
unfoldable pub use Effects.*
use fiu_data_governance.Prelude.{ℕ, String, Bool}
use fiu_data_governance.Prelude.Dict.{Dict}
use fiu_data_governance.Python.Errors.{Result}
use fiu_data_governance.Python.Json.{Json}

pub data Verb : Type 0 where
  post get : Verb

-- A call of `requests.post` or `requests.get`. A body or query that is not sent is `null`; `verify`
-- says whether the certificate of the peer is to be verified, which is the default.
pub record HttpRequest : Type 0 where
  pub verb : Verb
  pub url : String
  pub headers : Dict String String
  pub body : Json
  pub query : Json
  pub verify : Bool

-- A response has a status code and a text; otherwise `requests` raises.
pub data Outcome : Type 0 where
  response : ℕ → String → Outcome
  unreachable : Outcome

pub record Host (W : Type 0) : Type 0 where
  pub send : HttpRequest → W → Outcome × W
  -- the status codes at which `raise_for_status` raises an HTTPError
  pub is_error : ℕ → Bool
  -- datetime.now().isoformat() and str(uuid.uuid4())
  pub now : W → String × W
  pub uuid4 : W → String × W
  -- json.loads and json.dumps
  pub loads : String → Result Json
  pub dumps : Json → String
  -- base64 of the UTF-8 bytes of a text, and back
  pub b64encode : String → String
  pub b64decode : String → Result String
  -- jws.sign with the consent key, and the public half of that key in jwk form
  pub sign : Json → Result String
  pub public_jwk : Json
