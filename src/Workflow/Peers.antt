-- ===== src/Workflow/Peers.antt =====
-- A service as a peer in the world of another one: `peer` is its state, `P` the type of its globals.
-- The two may run on different hosts.
use fiu_data_governance.Prelude.{◌≡◌, String, Bool, false}
use fiu_data_governance.Host.{Host, HttpRequest, Action, Sys, response}
use fiu_data_governance.Python.Errors.{ok}
use fiu_data_governance.Python.Json.{Json, null}
use fiu_data_governance.Client.{make_url, post_json_request, get_json_request}
use fiu_data_governance.Client.Failures.{
  post_request, get_request, post_json_request_lem, get_json_request_lem,
}

module _ {W V : Type 0} (host : Host W) (other : Host V) where
  -- What the peer writes as JSON, the caller reads.
  abbrev pub Understands : Json → Type 0
  Understands j = host.loads (other.dumps j) ≡ ok j

module _ {W V P : Type 0} (host : Host W) (other : Host V) (peer : W → Sys P V) where
  -- A request is answered with status 200 and the JSON of what the handler returns, and leaves the
  -- peer in the state that the handler leaves, which is how FastAPI serves it.
  abbrev pub Serves : HttpRequest → Action P V Json → Type 0
  Serves request handler =
      (answer : Json) (w : W) (t : Sys P V)
      → handler (peer w) ≡ (ok answer, t)
      → (v : W) × (host.send request w ≡ (response 200 (other.dumps answer), v)) × (peer v ≡ t)

  module _ {S : Type 0} (verify : Bool) (endpoint path url : String) (handler : Action P V Json)
      (accepted : host.is_error 200 ≡ false) (built : make_url endpoint path ≡ ok url)
      (answer : Json) (s : Sys S W) (t : Sys P V)
      (runs : handler (peer s.world) ≡ (ok answer, t)) where
    -- The client returns what the peer answers.
    pub post-served :
        (body : Json)
        → Serves (post_request verify url body) handler
        → (v : W) × (post_json_request host verify endpoint path body s
            ≡ (ok (200, other.dumps answer), record s { world = v }))
          × (peer v ≡ t)
    post-served body serves =
        let (v, sent, after) = serves answer s.world t runs in
        let call = post_json_request_lem host verify endpoint path url body s built in
        (v, rw (call, sent, accepted), after)

    pub get-served :
        Serves (get_request verify url null) handler
        → (v : W) × (get_json_request host verify endpoint path null s
            ≡ (ok (200, other.dumps answer), record s { world = v }))
          × (peer v ≡ t)
    get-served serves =
        let (v, sent, after) = serves answer s.world t runs in
        let call = get_json_request_lem host verify endpoint path url null s built in
        (v, rw (call, sent, accepted), after)

module _ {W V P : Type 0} (host : Host W) (peer : W → Sys P V) where
  -- The clock of the caller does not change the peer.
  abbrev pub IsApart : Type 0
  IsApart = (w : W) → peer (host.now w).1 ≡ peer w
