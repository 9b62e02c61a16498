-- ===== src/Interleaving/Replay.antt =====
-- A handler that waits for an answer. While `requests` waits (client.py), nothing else runs in the
-- service: what the handler has done so far is its run with the answers that have come, which stops at
-- the first request without one. The handlers catch no exception, so that in this run the missing
-- answer is one that `requests` raises for.
use fiu_data_governance.Prelude.{String, Option, some, List, [], ◌∷◌}
use fiu_data_governance.Host.{Host, HttpRequest, Outcome, unreachable}

pub record Answered (W : Type 0) : Type 0 where
  -- the answers that the run has not used
  pub answers : List Outcome
  -- the request that waits for its answer
  pub waiting : Option HttpRequest
  pub inner : W

module _ {W : Type 0} where
  abbrev pub send : HttpRequest → Answered W → Outcome × Answered W
  send request w = elim w.answers [
    | [] ↦ (unreachable, record w { waiting = some request })
    | o ∷ os ↦ (o, record w { answers = os })
  ]

  abbrev local : (W → String × W) → Answered W → String × Answered W
  local f w = let (text, w') = f w.inner in (text, record w { inner = w' })

  -- The clock, the identifiers, the codecs and the key are those of the host.
  abbrev pub replay : Host W → Host (Answered W)
  replay host = record {
    send = send;
    is_error = host.is_error;
    now = local host.now;
    uuid4 = local host.uuid4;
    loads = host.loads;
    dumps = host.dumps;
    b64encode = host.b64encode;
    b64decode = host.b64decode;
    sign = host.sign;
    public_jwk = host.public_jwk;
  }
