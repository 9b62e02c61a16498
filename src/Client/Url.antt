-- ===== src/Client/Url.antt =====
-- `_make_url` of client.py puts one slash between endpoint and path, whichever of them brings one.
use Prim.Native.Char.{Char}
use Prim.Native.String.{◌++◌ as ◌<>◌}
use text.Mathlib.TextLemmas.{cons-append, nil-append}
use mathlib.Core.Option
use fiu_data_governance.Prelude.{◌≡◌, refl, ap, String, false, some, arith}
use fiu_data_governance.Python.Errors.{Result, ok}
use fiu_data_governance.Python.Text.{first_char, last_char, is_slash, last_from, init_from}
use fiu_data_governance.Client.{make_url, without_last_slash, without_first_slash}

-- The text ends, or begins, with a character that is no slash.
abbrev pub EndsPlain : String → Type 0
EndsPlain s = Option.map is_slash (last_char s) ≡ some false

abbrev pub StartsPlain : String → Type 0
StartsPlain s = Option.map is_slash (first_char s) ≡ some false

last_from-append_slash : (c : Char) (s : String) → last_from c (s <> "/") ≡ "/"
last_from-append_slash c String.[] = refl
last_from-append_slash c (String.◌∷◌ d s) = rw cons-append (last_from-append_slash d s)

init_from-append_slash : (c : Char) (s : String) → init_from c (s <> "/") ≡ String.◌∷◌ c s
init_from-append_slash c String.[] = refl
init_from-append_slash c (String.◌∷◌ d s) =
    rw cons-append (ap (λ t. String.◌∷◌ c t) (init_from-append_slash d s))

without_last_slash-append_slash : (u : String) → without_last_slash (u <> "/") ≡ ok u
without_last_slash-append_slash String.[] = refl
without_last_slash-append_slash (String.◌∷◌ c s) =
    rw cons-append (rw last_from-append_slash (ap ok (init_from-append_slash c s)))

without_first_slash-slash_append : (p : String) → without_first_slash ("/" <> p) ≡ ok p
without_first_slash-slash_append p = rw (cons-append "/" "" p) (rw nil-append)

without_last_slash-plain : (u : String) → EndsPlain u → without_last_slash u ≡ ok u
without_last_slash-plain String.[] h = cc
without_last_slash-plain (String.◌∷◌ c s) h = ground arith

pub without_first_slash-plain : (p : String) → StartsPlain p → without_first_slash p ≡ ok p
without_first_slash-plain String.[] h = cc
without_first_slash-plain (String.◌∷◌ c s) h = ground arith

abbrev pub one_slash : String → String → Result String
one_slash u p = ok (u <> "/" <> p)

-- For an endpoint that ends in no slash and a path that begins with none, the URL is the two with one
-- slash between them, and it stays the same if the endpoint, the path or both bring a slash along.
pub make_url-one_slash :
    (u p : String)
    → EndsPlain u
    → StartsPlain p
    → (make_url u p ≡ one_slash u p)
      × (make_url (u <> "/") p ≡ one_slash u p)
      × (make_url u ("/" <> p) ≡ one_slash u p)
      × (make_url (u <> "/") ("/" <> p) ≡ one_slash u p)
unfolding make_url
make_url-one_slash u p hu hp =
    let a = without_last_slash-plain u hu in
    let b = without_first_slash-plain p hp in
    let c = without_last_slash-append_slash u in
    let d = without_first_slash-slash_append p in (rw (a, b), rw (c, b), rw (a, d), rw (c, d))
