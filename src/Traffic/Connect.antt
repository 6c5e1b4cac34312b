-- ===== src/Traffic/Connect.antt =====
-- Making the client of a panel: New of api/v2board/panel.go, and the calls on online devices,
-- GetUserAlive and ReportNodeOnlineUsers of user.go. Parsing of addresses and JSON are parameters.
use Prim.Native.String.{slice}
use v2node_hy.Base.{
  ℤ, pos, ltb_ℤ, leb_ℤ, Bool, true, false, not, ◌&&◌, ◌||◌, String, str_append, str_eq, Option,
  none, some, List, [], ◌∷◌, Table, decimal, if◌then◌else◌,
}
use v2node_hy.Conf.{NodeConfig, default_node_timeout}
use v2node_hy.Traffic.Effect.{
  text, outside, wrapped, Client, Env, Result, ok, err, M, ◌>>=◌, pure, raise, new_client,
}
use v2node_hy.Traffic.Panel.{request}

-- The parts of an address that New looks at; `is_loopback` is of the host as an IP address.
pub record Url : Type 0 where
  pub scheme : String
  pub host : String
  pub is_loopback : Bool
  pub has_user : Bool
  pub raw_query : String
  pub fragment : String
  pub path : String

abbrev pub is_secure : Url → Bool
is_secure u = str_eq u.scheme "https" || (str_eq u.scheme "http" && u.is_loopback)

unfoldable pub is_origin : Url → Bool
is_origin u =
    is_secure u
    && not (str_eq u.host "")
    && not u.has_user
    && str_eq u.raw_query ""
    && str_eq u.fragment ""
    && (str_eq u.path "" || str_eq u.path "/")

-- What a client keeps of its configuration; `base_url` is the address without slashes at its end.
pub record Panel : Type 0 where
  pub base_url : String
  pub key : String
  pub node_id : ℤ
  pub timeout : ℤ
  pub client : Client

abbrev timeout_of : NodeConfig → ℤ
timeout_of c = if leb_ℤ c.timeout (pos 0) then default_node_timeout else c.timeout

abbrev directory_of : NodeConfig → String
directory_of c = if str_eq c.state_directory "" then "/var/lib/v2node-hy2" else c.state_directory

-- `join_path` is filepath.Join; the name of the file is half of a digest in hexadecimal digits.
unfoldable pub panel_of :
    (String → String) → (String → String → String) → String → NodeConfig → Panel
panel_of sha256_hex join_path base_url c =
    let identity = sha256_hex (str_append base_url (str_append ":" (decimal c.node_id))) in
    record {
      base_url = base_url;
      key = c.key;
      node_id = c.node_id;
      timeout = timeout_of c;
      client = new_client (join_path (directory_of c) (str_append (slice identity 0 32) ".json"));
    }

unfoldable pub checked_panel :
    (String → String)
    → (String → String → String)
    → (String → String)
    → NodeConfig
    → Option Url
    → Result Panel
unfolding is_origin panel_of
checked_panel sha256_hex join_path trim_slashes c none = err (text "invalid panel ApiHost")
checked_panel sha256_hex join_path trim_slashes c (some u) =
    if not (is_origin u)
    then err (text "panel ApiHost must be an HTTPS origin without credentials or query")
    else if ltb_ℤ c.node_id (pos 1) || str_eq c.key ""
    then err (text "panel NodeID and ApiKey are required")
    else ok (panel_of sha256_hex join_path (trim_slashes c.api_host) c)

unfoldable pub new_panel :
    (String → Option Url)
    → (String → String)
    → (String → String → String)
    → (String → String)
    → NodeConfig
    → Result Panel
unfolding checked_panel
new_panel parse_url sha256_hex join_path trim_slashes c =
    checked_panel sha256_hex join_path trim_slashes c (parse_url c.api_host)

unfoldable pub any_invalid_count : Table ℤ ℤ → Bool
any_invalid_count [] = false
any_invalid_count ((uid, n) ∷ alive) =
    leb_ℤ uid (pos 0) || ltb_ℤ n (pos 0) || any_invalid_count alive

-- `none` is an error of the decoder, and the inner one an object without counts.
unfoldable pub alive_in : Option (Option (Table ℤ ℤ)) → Result (Table ℤ ℤ)
unfolding any_invalid_count
alive_in none = err (wrapped "decode alive" (outside "json"))
alive_in (some none) = err (text "missing alive object")
alive_in (some (some alive)) =
    if any_invalid_count alive then err (text "invalid alive count") else ok alive

module _ (env : Env) where
  unfoldable pub get_user_alive : (String → Option (Option (Table ℤ ℤ))) → M (Table ℤ ℤ)
  unfolding request alive_in
  get_user_alive decode_alive = do
    a ← request env (record { method = "GET"; action = "alive"; etag = ""; body = none })
    λ w. (alive_in (decode_alive a.body), w)

  -- `accepted` decodes the answer.
  unfoldable pub report_node_online_users :
      (Table ℤ (List String) → Option String)
      → (String → Option Bool)
      → Table ℤ (List String)
      → M (Unit {0})
  unfolding request
  report_node_online_users encode accepted devices = elim (encode devices) [
    | none ↦ raise (outside "json")
    | some body ↦ (do
      a ← request env (record { method = "POST"; action = "alive"; etag = ""; body = some body })
      elim (accepted a.body) [
        | some true ↦ pure tt
        | _ ↦ raise (text "online report was not acknowledged")
      ])
  ]
