-- ===== src/Certs/Examples.antt =====
-- A certificate request, and the theorem on it applied to it.
use v2node_hy.Base.{
  ℕ, ap, sym, or_else, false, none, get, put, some, Bytes, [], ◌∷◌, bytes_key, ◌≡◌, refl,
}
use v2node_hy.Traffic.Checks.{codes}
use v2node_hy.Traffic.Effect.{nil_pointer, Result, ok, err, text}
use v2node_hy.NodeInfo.{CertInfo}
use v2node_hy.Certs.{Files, CertResults, Resource, expand, parse_params, request_cert, renew_cert}
use v2node_hy.Certs.Ready.{IsReady, IsPlainPath, request_cert-IsReady}
use v2node_hy.Certs.Account.{Session, User, AccountResults, register_user, new_lego_user}
use v2node_hy.Certs.Reopened.{KeyLaws, with_text, register_user-new_lego_user}

abbrev info : CertInfo
info = record {
  cert_mode = "http";
  cert_file = "/c";
  key_file = "/k";
  tls_cert = "";
  tls_key = "";
  email = "e";
  cert_domain = "d";
  dns_env = [];
  provider = "";
  reject_unknown_sni = false;
}

abbrev pair : Resource
pair = record { certificate = codes "C"; private_key = codes "K" }

abbrev results : CertResults
results = record {
  stat_fault = λ p. false;
  read_fault = λ p. none;
  make_directory = λ p. none;
  write_fault = λ p. none;
  user = none;
  client = none;
  http_provider = none;
  dns_provider = none;
  set_dns_provider = none;
  obtain = ok pair;
  renew = λ c. ok pair;
  days_left = λ c. none;
  self_signed = err (text "x509");
}

plain_paths : IsPlainPath results info
unfolding parse_params
plain_paths = (refl, refl)

request_cert-IsReady_example : IsReady results info (request_cert results info [])
request_cert-IsReady_example = request_cert-IsReady results info [] refl plain_paths

-- A certificate file that cannot be parsed is not renewed, and there is no error.
unparsed-renewal :
    renew_cert results info ((codes "/c", codes "bad") ∷ [])
    ≡ (none, (codes "/c", codes "bad") ∷ [])
unfolding renew_cert
unparsed-renewal = refl

-- A path with the domain in it.
expanded : expand (codes "d") (codes "e") 0 (codes "/{domain}.{email}x") ≡ codes "/d.ex"
unfolding expand
expanded = refl

-- A key is a number here, and the text of a user is that of its key.
abbrev account : Bytes → User ℕ
account t = record { email = "e"; registration = some "R"; key = some 7; key_encoded = t }

abbrev parse_number : Bytes → Result ℕ
parse_number [] = err (text "x509")
parse_number (k ∷ ks) = ok k

abbrev account_results : AccountResults ℕ
account_results = record {
  stat_fault = λ p. false;
  read_fault = none;
  write_fault = none;
  make_directory = none;
  new_key = λ n. ok 7;
  client = λ n. none;
  register = λ n u. ok "R";
  encode = λ f. f.key_encoded;
  encode_fault = none;
  decode = λ b. some (record { email = "e"; registration = some "R"; key_encoded = b });
  marshal_key = λ k. some (k ∷ []);
  parse_key = parse_number;
  pem_encode = λ b. 45 ∷ b;
  pem_decode = λ b. elim b [ [] ↦ none | c ∷ cs ↦ some cs ];
}

account_laws : KeyLaws account_results
account_laws = record {
  finds_block = λ b. refl;
  parses = λ k b e. ap parse_number (sym (bytes_of e));
}
  where
    bytes_of : {a b : Bytes} → some a ≡ some b → a ≡ b
    bytes_of {a} e = ap (λ o. or_else o a) e

abbrev unregistered : User ℕ
unregistered = record { email = "e"; registration = none; key = none; key_encoded = [] }

abbrev session : Files → ℕ → Session
session files n = record { files = files; registrations = n }

registered :
    register_user account_results unregistered (codes "/u") (session [] 0)
    ≡ (ok (account []), session ((codes "/u", 45 ∷ 7 ∷ []) ∷ []) 1)
unfolding register_user put
registered = refl

register_user-new_lego_user_example :
    new_lego_user account_results (codes "/u") "e" (session ((codes "/u", 45 ∷ 7 ∷ []) ∷ []) 1)
    ≡ (ok (with_text account_results 7 (account [])), session ((codes "/u", 45 ∷ 7 ∷ []) ∷ []) 1)
register_user-new_lego_user_example =
    register_user-new_lego_user account_results account_laws unregistered (account []) 7
      (codes "/u") (session [] 0) (session ((codes "/u", 45 ∷ 7 ∷ []) ∷ []) 1) registered refl refl
      refl refl

-- A text that does not decode is an error.
undecoded :
    new_lego_user
      (record account_results { decode = λ b. none })
      (codes "/u")
      "e"
      (session ((codes "/u", []) ∷ []) 0)
    ≡ (err (text "unmarshal json error"), session ((codes "/u", []) ∷ []) 0)
unfolding new_lego_user get
undecoded = refl

-- A key without a block of PEM is a nil pointer.
without_block :
    new_lego_user account_results (codes "/u") "e" (session ((codes "/u", []) ∷ []) 0)
    ≡ (err nil_pointer, session ((codes "/u", []) ∷ []) 0)
unfolding new_lego_user get
without_block = refl
