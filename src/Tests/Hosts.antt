-- ===== src/Tests/Hosts.antt =====
-- A host for the witnesses: the answers of the peers and the random identifiers are given as a
-- script, the JSON codec knows the documents of a table, and base64 and the clock do nothing.
use fiu_data_governance.Prelude.{String, List, [], ◌∷◌, leb, string_eq}
use fiu_data_governance.Prelude.Dict.{Dict, lookup}
use fiu_data_governance.Host.{Host, Outcome, Sys, response, unreachable}
use fiu_data_governance.Python.Errors.{Exn, Result, ok, err}
use fiu_data_governance.Python.Json.{Json, null, str, object}
use fiu_data_governance.Python.Subscript.{or_raise}

pub record Script : Type 0 where
  pub outcomes : List Outcome
  pub names : List String

-- The next answer; a peer that has no more is unreachable.
abbrev next_outcome : Script → Outcome × Script
next_outcome w = elim w.outcomes [
  | [] ↦ (unreachable, w)
  | o ∷ os ↦ (o, record w { outcomes = os })
]

abbrev next_name : Script → String × Script
next_name w = elim w.names [ [] ↦ ("", w) | n ∷ ns ↦ (n, record w { names = ns }) ]

abbrev pub scripted : Dict String Json → Host Script
scripted documents = record {
  send = λ r w. next_outcome w;
  is_error = λ n. leb 400 n;
  now = λ w. ("2022-01-01T00:00:00", w);
  uuid4 = next_name;
  loads = λ text. or_raise (lookup text documents) Exn.decode_error;
  dumps = λ j. "a document";
  b64encode = λ text. text;
  b64decode = λ text. ok text;
  sign = λ claims. ok "a signature";
  public_jwk = object (("kty", str "RSA") ∷ []);
}

-- A host with no network and no documents, whose clock and codecs do nothing.
abbrev pub plain : {W : Type 0} → Host W
plain = record {
  send = λ r w. (unreachable, w);
  is_error = λ n. leb 400 n;
  now = λ w. ("2022-01-01T00:00:00", w);
  uuid4 = λ w. ("", w);
  loads = λ text. err Exn.decode_error;
  dumps = λ j. "a document";
  b64encode = λ text. text;
  b64decode = λ text. ok text;
  sign = λ claims. ok "a signature";
  public_jwk = null;
}

-- The answer of a service that is the world, for what its handler returns or raises.
abbrev pub serve : {S W : Type 0} → Result Json × Sys S W → Outcome × Sys S W
serve (ok j, t) = (response 200 "a document", t)
serve (err e, t) = (response 500 "Internal Server Error", t)
