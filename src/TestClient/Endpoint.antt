-- ===== src/TestClient/Endpoint.antt =====
-- The test client (client.py) and the client of the services (src/*/src/client.py) build the same URL.
use Prim.Native.Char.{Char, code}
use Prim.Native.String.{◌++◌ as ◌<>◌}
use text.Mathlib.TextLemmas.{append_assoc, cons-append, nil-append}
use text.Mathlib.TextEquality.{Char-path}
use fiu_data_governance.Prelude.{
  ◌≡◌, refl, ap, sym, ◌∙◌, String, true, nat_eq, Bool-cases, inl, inr,
}
use fiu_data_governance.Python.Errors.{Result, ok, map_result}
use fiu_data_governance.Python.Text.{is_slash, last_from, init_from}
use fiu_data_governance.Client.{make_url}
use fiu_data_governance.Client.Url.{StartsPlain, without_first_slash-plain}
use fiu_data_governance.TestClient.{with_slash}

-- The URL that the test client sends a request to.
abbrev pub setup_url : String → String → Result String
setup_url url path = map_result (λ base. base <> path) (with_slash url)

-- A text that ends in a slash is what comes before it, and the slash.
slash-at_end :
    (c : Char) (s : String)
    → is_slash (last_from c s) ≡ true
    → String.◌∷◌ c s ≡ init_from c s <> "/"
slash-at_end c String.[] h =
    ap (λ d. String.◌∷◌ d String.[]) (Char-path c "/" ((nat_eq.beq_iff (code c) b'/').0 h))
    ∙ sym (nil-append "/")
slash-at_end c (String.◌∷◌ d s) h =
    ap (λ t. String.◌∷◌ c t) (slash-at_end d s h) ∙ sym (cons-append c (init_from d s) "/")

-- For a path that begins with no slash, the test client joins an endpoint and the path as the client of
-- the services does, and fails on an empty endpoint as that does.
pub setup_url-make_url :
    (url path : String) → StartsPlain path → setup_url url path ≡ make_url url path
unfolding make_url
setup_url-make_url String.[] path h = refl
setup_url-make_url (String.◌∷◌ c s) path h = elim (Bool-cases (is_slash (last_from c s))) [
  | inl slash ↦
      rw (slash, without_first_slash-plain path h)
        (ap (λ u. ok (u <> path)) (slash-at_end c s slash)
          ∙ ap ok (append_assoc (init_from c s) "/" path))
  | inr plain ↦
      rw (plain, without_first_slash-plain path h) (ap ok (append_assoc (String.◌∷◌ c s) "/" path))
]
