-- ===== src/Certs/Writes.antt =====
-- The certificate files that a request writes, where no write fails.
use v2node_hy.Base.{
  Bool, true, false, Option, none, some, is_some, Bytes, get, put, get-put, get-put_self, bytes_key,
  eq_bytes, if◌then◌else◌, ◌≡◌, refl, ap, ◌∙◌, String,
}
use v2node_hy.Traffic.Checks.{codes}
use v2node_hy.Traffic.Effect.{Error, wrapped, Result, ok, err}
use v2node_hy.NodeInfo.{CertInfo}
use v2node_hy.Certs.{
  Resource, CertResults, Files, parse_params, write_file, write_key, write_cert, create_cert,
  overwrite, sign_key, generate_self_ssl_certificate, wrap_error, overwritten,
}

-- If there is no error, both files are there.
abbrev pub HasBoth : Bytes → Bytes → Option Error × Files → Type 0
HasBoth a b (some e, files) = Unit
HasBoth a b (none, files) = (is_some (get a files) ≡ true) × (is_some (get b files) ≡ true)

put-present :
    (a t content : Bytes) (files : Files)
    → is_some (get a files) ≡ true
    → is_some (get a (put t content files)) ≡ true
put-present a t content files h = ap is_some (get-put t a content files) ∙ by_key (eq_bytes t a)
  where
    by_key : (b : Bool) → is_some (if b then some content else get a files) ≡ true
    by_key true = refl
    by_key false = h

put-own : (a content : Bytes) (files : Files) → is_some (get a (put a content files)) ≡ true
put-own a content files = ap is_some (get-put_self a content files)

module _ (r : CertResults) where
  wrap_error-HasBoth :
      (why : String) (a b : Bytes) (o : Option Error × Files)
      → HasBoth a b o
      → HasBoth a b (wrap_error r why o)
  wrap_error-HasBoth why a b (some e, files) h = h
  wrap_error-HasBoth why a b (none, files) h = h

  write_file-HasBoth :
      (path a t content : Bytes) (files : Files)
      → is_some (get a files) ≡ true
      → HasBoth a t (write_file r path t content files)
  unfolding write_file
  write_file-HasBoth path a t content files h = by_faults (r.make_directory path) (r.write_fault t)
    where
      by_faults :
          (d w : Option Error)
          → HasBoth a t (elim d [
            | some e ↦ (some (wrapped "check path error" e), files)
            | none ↦ elim w [ some e ↦ (some e, files) | none ↦ (none, put t content files) ]
          ])
      by_faults (some e) w = tt
      by_faults none (some e) = tt
      by_faults none none = (put-present a t content files h, put-own t content files)

  write_file-own :
      (path t content : Bytes) (files : Files) → HasBoth t t (write_file r path t content files)
  unfolding write_file
  write_file-own path t content files = by_faults (r.make_directory path) (r.write_fault t)
    where
      by_faults :
          (d w : Option Error)
          → HasBoth t t (elim d [
            | some e ↦ (some (wrapped "check path error" e), files)
            | none ↦ elim w [ some e ↦ (some e, files) | none ↦ (none, put t content files) ]
          ])
      by_faults (some e) w = tt
      by_faults none (some e) = tt
      by_faults none none = (put-own t content files, put-own t content files)

  write_key-HasBoth :
      (i : CertInfo) (c : Resource) (o : Option Error × Files) (a : Bytes)
      → HasBoth a a o
      → HasBoth a (parse_params i (codes i.key_file)) (write_key r i c o)
  unfolding write_key
  write_key-HasBoth i c (some e, files) a h = tt
  write_key-HasBoth i c (none, files) a h =
      write_file-HasBoth (codes i.key_file) a (parse_params i (codes i.key_file)) c.private_key
        files h.0

  write_cert-HasBoth :
      (i : CertInfo) (c : Resource) (files : Files)
      → HasBoth
          (parse_params i (codes i.cert_file))
          (parse_params i (codes i.key_file))
          (write_cert r i c files)
  unfolding write_cert
  write_cert-HasBoth i c files =
      let t = parse_params i (codes i.cert_file) in
      write_key-HasBoth i c (write_file r (codes i.cert_file) t c.certificate files) t
        (write_file-own (codes i.cert_file) t c.certificate files)

  pub create_cert-HasBoth :
      (i : CertInfo) (files : Files)
      → HasBoth
          (parse_params i (codes i.cert_file))
          (parse_params i (codes i.key_file))
          (create_cert r i files)
  unfolding create_cert
  create_cert-HasBoth i files = by_obtain r.obtain
    where
      by_obtain :
          (o : Result Resource)
          → HasBoth
              (parse_params i (codes i.cert_file))
              (parse_params i (codes i.key_file))
              (elim o [
                | err e ↦ (some (wrapped "obtain certificate error" e), files)
                | ok c ↦ wrap_error r "write certificate error" (write_cert r i c files)
              ])
      by_obtain (err e) = tt
      by_obtain (ok c) =
          wrap_error-HasBoth "write certificate error" _ _ (write_cert r i c files)
            (write_cert-HasBoth i c files)

  overwrite-own :
      (path content : Bytes) (files : Files) → HasBoth path path (overwrite r path content files)
  unfolding overwrite
  overwrite-own path content files = by_fault (r.write_fault path)
    where
      by_fault :
          (w : Option Error)
          → HasBoth path path (elim w [
            | some e ↦ (some e, files)
            | none ↦ (none, put path (overwritten r content (get path files)) files)
          ])
      by_fault (some e) = tt
      by_fault none = (put-own path _ files, put-own path _ files)

  sign_key-HasBoth :
      (a path : Bytes) (c : Resource) (o : Option Error × Files)
      → HasBoth a a o
      → HasBoth a path (sign_key r path c o)
  unfolding sign_key overwrite
  sign_key-HasBoth a path c (some e, files) h = tt
  sign_key-HasBoth a path c (none, files) h = by_fault (r.write_fault path)
    where
      by_fault :
          (w : Option Error)
          → HasBoth a path (elim w [
            | some e ↦ (some e, files)
            | none ↦ (none, put path (overwritten r c.private_key (get path files)) files)
          ])
      by_fault (some e) = tt
      by_fault none = (put-present a path _ files h.0, put-own path _ files)

  pub self_signed-HasBoth :
      (a b : Bytes) (files : Files) → HasBoth a b (generate_self_ssl_certificate r a b files)
  unfolding generate_self_ssl_certificate
  self_signed-HasBoth a b files = by_pair r.self_signed
    where
      by_pair :
          (o : Result Resource)
          → HasBoth a b (elim o [
            | err e ↦ (some e, files)
            | ok c ↦ sign_key r b c (overwrite r a c.certificate files)
          ])
      by_pair (err e) = tt
      by_pair (ok c) =
          sign_key-HasBoth a b c (overwrite r a c.certificate files)
            (overwrite-own a c.certificate files)
