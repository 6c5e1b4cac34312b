-- ===== src/Certs/Reopened.antt =====
-- An account that has been registered is found again in its file.
use v2node_hy.Base.{
  suc, String, ◌||◌, str_eq, str_eq_iff, Option, none, some, is_some, or_else, [], Bytes, get,
  get-put_self, bytes_key, true, ◌≡◌, refl, sym, ap, ◌∙◌, subst, arith, unless_not,
}
use v2node_hy.Traffic.Effect.{Error, wrapped, nil_pointer, Result, ok, err}
use v2node_hy.Certs.Account.{
  User, AccountResults, Session, encode_private, decode_private, file_of, write_user, save_encoded,
  save_user, saved_user, registered_as, register_with, register_user, with_key, decoded_user,
  load_user, loaded_user, new_lego_user,
}

-- What PEM and x509 promise: a block is read back from its text, and a key from its bytes.
pub record KeyLaws {K : Type 0} (r : AccountResults K) : Type 0 where
  pub finds_block : (b : Bytes) → r.pem_decode (r.pem_encode b) ≡ some b
  pub parses : (k : K) (b : Bytes) → r.marshal_key k ≡ some b → r.parse_key b ≡ ok k

module _ {K : Type 0} (r : AccountResults K) where
  -- The user as it is saved and loaded, with the text of its key.
  abbrev pub with_text : K → User K → User K
  with_text k u = record u { key_encoded = encode_private r k }

  -- A user who is returned has this address and a key, and is in the file with the key's text.
  abbrev IsSaved : Bytes → String → Result (User K) × Session → Type 0
  IsSaved path email (err e, s) = Unit
  IsSaved path email (ok u, s) =
      (u.email ≡ email)
      × ((k : K) × (u.key ≡ some k)
          × (get path s.files ≡ some (r.encode (file_of r (with_text k u)))))

  save_encoded-IsSaved :
      (u : User K) (path : Bytes) (email : String) (s : Session) (key : Option K)
      → u.email ≡ email
      → u.key ≡ key
      → IsSaved path email (saved_user r (save_encoded r u path s key))
  unfolding save_encoded write_user
  save_encoded-IsSaved u path email s none h e = tt
  save_encoded-IsSaved u path email s (some k) h e = by_faults r.write_fault r.encode_fault
    where
      by_faults :
          (w : Option Error) (f : Option (Error × Bytes))
          → IsSaved path email (
              saved_user r (elim w [
                | some e ↦ (some e, (with_text k u, s))
                | none ↦ write_user r (with_text k u) path s f
              ]))
      by_faults (some e) f = tt
      by_faults none (some (e, part)) = tt
      by_faults none none =
          (h, (k, e, get-put_self path (r.encode (file_of r (with_text k u))) s.files))

  save_user-IsSaved :
      (u : User K) (path : Bytes) (email : String) (s : Session)
      → u.email ≡ email
      → IsSaved path email (saved_user r (save_user r u path s))
  unfolding save_user
  save_user-IsSaved u path email s h = by_directory r.make_directory
    where
      by_directory :
          (d : Option Error)
          → IsSaved path email (
              saved_user r (elim d [
                | some e ↦ (some (wrapped "check path error" e), (u, s))
                | none ↦ save_encoded r u path s u.key
              ]))
      by_directory (some e) = tt
      by_directory none = save_encoded-IsSaved u path email s u.key h refl

  registered_as-IsSaved :
      (u : User K) (path : Bytes) (email : String) (s : Session) (reg : Result String)
      → u.email ≡ email
      → IsSaved path email (registered_as r u path s reg)
  unfolding registered_as
  registered_as-IsSaved u path email s (err e) h = tt
  registered_as-IsSaved u path email s (ok reg) h =
      save_user-IsSaved (record u { registration = some reg }) path email s h

  register_with-IsSaved :
      (u : User K) (path : Bytes) (email : String) (s : Session) (key : Result K)
      → u.email ≡ email
      → IsSaved path email (register_with r u path s key)
  unfolding register_with
  register_with-IsSaved u path email s (err e) h = tt
  register_with-IsSaved u path email s (ok k) h = by_client (r.client s.registrations)
    where
      v : User K
      v = record u { key = some k }

      t : Session
      t = record s { registrations = suc s.registrations }

      by_client :
          (o : Option Error)
          → IsSaved path email (elim o [
            | some e ↦ (err (wrapped "create lego client error" e), t)
            | none ↦ registered_as r v path t (r.register s.registrations v)
          ])
      by_client (some e) = tt
      by_client none = registered_as-IsSaved v path email t (r.register s.registrations v) h

  decode_private-encode_private :
      (laws : KeyLaws r) (k : K)
      → is_some (r.marshal_key k) ≡ true
      → decode_private r (encode_private r k) ≡ ok k
  unfolding decode_private encode_private
  decode_private-encode_private laws k h = by_bytes (r.marshal_key k) refl h
    where
      by_bytes :
          (o : Option Bytes)
          → r.marshal_key k ≡ o
          → is_some o ≡ true
          → decode_private r (elim o [ none ↦ [] | some b ↦ r.pem_encode b ]) ≡ ok k
      by_bytes none e p = absurd (ground (arith, p))
      by_bytes (some b) e p =
          ap (λ o. elim o as (λ x. Result K) [ none ↦ err nil_pointer | some b ↦ r.parse_key b ])
            (laws.finds_block b)
          ∙ laws.parses k b e

  load_saved :
      (laws : KeyLaws r) (u : User K) (k : K) (path : Bytes) (s : Session)
      → u.key ≡ some k
      → get path s.files ≡ some (r.encode (file_of r (with_text k u)))
      → r.read_fault ≡ none
      → is_some (r.marshal_key k) ≡ true
      → r.decode (r.encode (file_of r (with_text k u))) ≡ some (file_of r (with_text k u))
      → load_user r path s.files ≡ ok (with_text k u)
  unfolding load_user decoded_user
  load_saved laws u k path s e h f m decodes =
      ap
        (λ o. elim o as (λ x. Result (User K)) [
          | some e ↦ err (wrapped "open file error" e)
          | none ↦ decoded_user r (r.decode (or_else (get path s.files) []))
        ])
        f
      ∙ ap (λ o. decoded_user r (r.decode (or_else o []))) h
      ∙ ap (decoded_user r) decodes
      ∙ ap (with_key r (file_of r (with_text k u))) (decode_private-encode_private laws k m)
      ∙ ap
          (λ o. ok (record {
            email = u.email;
            registration = u.registration;
            key = o;
            key_encoded = encode_private r k;
          }))
          (sym e)

  -- If registering an account for an address returns a user, with a key that x509 can encode, the
  -- account is loaded from the file the next time: the same user is returned, with the text of its
  -- key, the files are as they were, and no registration is tried, provided that the file can be
  -- read and that JSON decodes the text of the user.
  pub register_user-new_lego_user :
      (laws : KeyLaws r) (v u : User K) (k : K) (path : Bytes) (s after : Session)
      → register_user r v path s ≡ (ok u, after)
      → u.key ≡ some k
      → r.read_fault ≡ none
      → is_some (r.marshal_key k) ≡ true
      → r.decode (r.encode (file_of r (with_text k u))) ≡ some (file_of r (with_text k u))
      → new_lego_user r path v.email after ≡ (ok (with_text k u), after)
  unfolding new_lego_user register_user loaded_user
  register_user-new_lego_user laws v u k path s after h e f m decodes =
      let p =
        subst (IsSaved path v.email) h
          (register_with-IsSaved v path v.email s (r.new_key s.registrations) refl) in
      let same : p.1.0 ≡ k = some_injective (sym p.1.1 ∙ e) in
      let held : get path after.files ≡ some (r.encode (file_of r (with_text k u))) =
        p.1.2 ∙ ap (λ x. some (r.encode (file_of r (with_text x u)))) same in
      unless_not (is_some (get path after.files) || r.stat_fault path) _ _ (ground (arith, held))
      ∙ ap (loaded_user r v.email path after) (load_saved laws u k path after e held f m decodes)
      ∙ unless_not (str_eq u.email v.email) _ _ ((str_eq_iff u.email v.email).1 p.0)
    where
      some_injective : {x y : K} → some x ≡ some y → x ≡ y
      some_injective {x} {y} h = ap (λ o. or_else o x) h
