-- ===== src/Certs/Account.antt =====
-- The account of the ACME client and its file: NewLegoUser, registerUser, Save and Load with
-- EncodePrivate and DecodePrivate of node/lego.go. JSON, x509, PEM, the files' faults and the ACME
-- server are a record of results, and keys are of the x509 library.
use v2node_hy.Base.{
  ℕ, suc, String, Bool, ◌||◌, str_eq, Option, none, some, is_some, or_else, [], Bytes, get, put,
  bytes_key, if◌then◌else◌,
}
use v2node_hy.Traffic.Effect.{Error, text, wrapped, nil_pointer, Result, ok, err}
use v2node_hy.Certs.{Files}

pub record User (K : Type 0) : Type 0 where
  pub email : String
  pub registration : Option String
  pub key : Option K
  pub key_encoded : Bytes

-- The fields of a user that JSON sees.
pub record UserFile : Type 0 where
  pub email : String
  pub registration : Option String
  pub key_encoded : Bytes

-- `encode_fault` comes with the bytes that were written before it. What generating a key, making
-- the client and registering give is by the number of the registration in this process.
pub record AccountResults (K : Type 0) : Type 0 where
  pub stat_fault : Bytes → Bool
  pub read_fault : Option Error
  pub write_fault : Option Error
  pub make_directory : Option Error
  pub new_key : ℕ → Result K
  pub client : ℕ → Option Error
  pub register : ℕ → User K → Result String
  pub encode : UserFile → Bytes
  pub encode_fault : Option (Error × Bytes)
  pub decode : Bytes → Option UserFile
  pub marshal_key : K → Option Bytes
  pub parse_key : Bytes → Result K
  pub pem_encode : Bytes → Bytes
  pub pem_decode : Bytes → Option Bytes

-- The files, and the number of registrations that have been tried.
pub record Session : Type 0 where
  pub files : Files
  pub registrations : ℕ

module _ {K : Type 0} (r : AccountResults K) where
  -- An error of the x509 library is left out by Save, which goes on with the empty text.
  unfoldable pub encode_private : K → Bytes
  encode_private k = elim (r.marshal_key k) [ none ↦ [] | some b ↦ r.pem_encode b ]

  -- A text without a block of PEM gives a nil pointer, whose use ends the process.
  unfoldable pub decode_private : Bytes → Result K
  decode_private s = elim (r.pem_decode s) [ none ↦ err nil_pointer | some b ↦ r.parse_key b ]

  abbrev pub file_of : User K → UserFile
  file_of u = record { email = u.email; registration = u.registration; key_encoded = u.key_encoded }

  unfoldable pub write_user :
      User K → Bytes → Session → Option (Error × Bytes) → Option Error × (User K × Session)
  write_user u path s (some (e, part)) =
      (some (wrapped "marshal json error" e), (u, record s { files = put path part s.files }))
  write_user u path s none = (
    none,
    (record u { key_encoded = [] }, record s { files = put path (r.encode (file_of u)) s.files }),
  )

  unfoldable pub save_encoded :
      User K → Bytes → Session → Option K → Option Error × (User K × Session)
  unfolding write_user encode_private
  save_encoded u path s none = (some nil_pointer, (u, s))
  save_encoded u path s (some k) =
      let v = record u { key_encoded = encode_private k } in
      elim r.write_fault [ some e ↦ (some e, (v, s)) | none ↦ write_user v path s r.encode_fault ]

  -- Without a key the conversion of the key would end the process; registerUser has set one.
  unfoldable pub save_user : User K → Bytes → Session → Option Error × (User K × Session)
  unfolding save_encoded
  save_user u path s = elim r.make_directory [
    | some e ↦ (some (wrapped "check path error" e), (u, s))
    | none ↦ save_encoded u path s u.key
  ]

  abbrev pub saved_user : Option Error × (User K × Session) → Result (User K) × Session
  saved_user (some e, (u, s)) = (err (wrapped "save user error" e), s)
  saved_user (none, (u, s)) = (ok u, s)

  unfoldable pub registered_as :
      User K → Bytes → Session → Result String → Result (User K) × Session
  unfolding save_user
  registered_as u path s (err e) = (err e, s)
  registered_as u path s (ok reg) =
      saved_user (save_user (record u { registration = some reg }) path s)

  unfoldable pub register_with : User K → Bytes → Session → Result K → Result (User K) × Session
  unfolding registered_as
  register_with u path s (err e) =
      (err (wrapped "generate key error" e), record s { registrations = suc s.registrations })
  register_with u path s (ok k) =
      let v = record u { key = some k } in
      let t = record s { registrations = suc s.registrations } in
      elim (r.client s.registrations) [
        | some e ↦ (err (wrapped "create lego client error" e), t)
        | none ↦ registered_as v path t (r.register s.registrations v)
      ]

  unfoldable pub register_user : User K → Bytes → Session → Result (User K) × Session
  unfolding register_with
  register_user u path s = register_with u path s (r.new_key s.registrations)

  abbrev pub with_key : UserFile → Result K → Result (User K)
  with_key f (err nil_pointer) = err nil_pointer
  with_key f (err e) = err (wrapped "decode private key error" e)
  with_key f (ok k) = ok (record {
    email = f.email;
    registration = f.registration;
    key = some k;
    key_encoded = f.key_encoded;
  })

  unfoldable pub decoded_user : Option UserFile → Result (User K)
  unfolding decode_private
  decoded_user none = err (text "unmarshal json error")
  decoded_user (some f) = with_key f (decode_private f.key_encoded)

  unfoldable pub load_user : Bytes → Files → Result (User K)
  unfolding decoded_user
  load_user path files = elim r.read_fault [
    | some e ↦ err (wrapped "open file error" e)
    | none ↦ decoded_user (r.decode (or_else (get path files) []))
  ]

  unfoldable pub loaded_user :
      String → Bytes → Session → Result (User K) → Result (User K) × Session
  unfolding register_user
  loaded_user email path s (err e) = (err e, s)
  loaded_user email path s (ok u) =
      if str_eq u.email email
      then (ok u, s)
      else register_user (record u { registration = none; email = email }) path s

  unfoldable pub new_lego_user : Bytes → String → Session → Result (User K) × Session
  unfolding loaded_user load_user
  new_lego_user path email s =
      if is_some (get path s.files) || r.stat_fault path
      then loaded_user email path s (load_user path s.files)
      else register_user
          (record { email = email; registration = none; key = none; key_encoded = [] }) path s
