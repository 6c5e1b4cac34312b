-- ===== src/Certs/Ready.antt =====
-- After a certificate request that succeeds, the files of the certificate exist.
use v2node_hy.Base.{
  is_some, get, ◌⊎◌, inl, inr, Bytes, Bool, true, false, ◌||◌, str_eq, str_eq_iff, Option, none,
  some, bytes_key, if◌then◌else◌, ◌≡◌, refl, sym, subst, arith, String,
}
use v2node_hy.Traffic.Checks.{codes}
use v2node_hy.Traffic.Effect.{Error, text, wrapped}
use v2node_hy.NodeInfo.{CertInfo}
use v2node_hy.Certs.{
  CertResults, Files, parse_params, new_lego, create_cert, generate_self_ssl_certificate, have_both,
  no_path, obtain_files, sign_files, request_cert, wrap_error, path_missing,
}
use v2node_hy.Certs.Writes.{HasBoth, create_cert-HasBoth, self_signed-HasBoth}

-- Neither of the modes without a request, nor that of given files.
abbrev IsRequest : String → Type 0
IsRequest m = ((str_eq m "none" || str_eq m "") ≡ false) × (str_eq m "file" ≡ false)

known-IsRequest : (m k : String) → str_eq m k ≡ true → IsRequest k → IsRequest m
known-IsRequest m k e h = subst IsRequest (sym ((str_eq_iff m k).0 e)) h

modes-IsRequest :
    (m : String) → (str_eq m "dns" || str_eq m "http" || str_eq m "self") ≡ true → IsRequest m
modes-IsRequest m h =
    by_mode (str_eq m "dns") (str_eq m "http") (str_eq m "self")
      (λ e. known-IsRequest m "dns" e (refl, refl)) (λ e. known-IsRequest m "http" e (refl, refl))
      (λ e. known-IsRequest m "self" e (refl, refl)) h
  where
    by_mode :
        (b c d : Bool)
        → (b ≡ true → IsRequest m)
        → (c ≡ true → IsRequest m)
        → (d ≡ true → IsRequest m)
        → (b || c || d) ≡ true
        → IsRequest m
    by_mode true c d f g k e = f refl
    by_mode false true d f g k e = g refl
    by_mode false false true f g k e = k refl
    by_mode false false false f g k e = absurd (ground (arith, e))

module _ (r : CertResults) where
  -- If there is no error, the code takes the files of the settings to exist.
  abbrev IsFound : CertInfo → Option Error × Files → Type 0
  IsFound i (some e, files) = Unit
  IsFound i (none, files) = have_both r i files ≡ true

  both-IsFound :
      (i : CertInfo) (o : Option Error × Files)
      → HasBoth (codes i.cert_file) (codes i.key_file) o
      → IsFound i o
  both-IsFound i (some e, files) h = tt
  both-IsFound i (none, files) h = ground (arith, h)

  by_paths :
      (i : CertInfo) (files : Files) (made : Option Error × Files)
      → IsFound i made
      → IsFound i (
          if no_path r i
          then (some (path_missing r), files)
          else if have_both r i files
          then (none, files)
          else made)
  by_paths i files made h = by_tests (no_path r i) (have_both r i files) refl
    where
      by_tests :
          (b c : Bool)
          → have_both r i files ≡ c
          → IsFound i
              (if b then (some (path_missing r), files) else if c then (none, files) else made)
      by_tests true c e = tt
      by_tests false true e = e
      by_tests false false e = h

  -- The paths have no place for the domain or the address.
  abbrev pub IsPlainPath : CertInfo → Type 0
  IsPlainPath i =
      (parse_params i (codes i.cert_file) ≡ codes i.cert_file)
      × (parse_params i (codes i.key_file) ≡ codes i.key_file)

  create_cert-IsFound :
      (i : CertInfo) (files : Files) → IsPlainPath i → IsFound i (create_cert r i files)
  create_cert-IsFound i files p = both-IsFound i (create_cert r i files) (
      subst (λ a. HasBoth a (codes i.key_file) (create_cert r i files)) p.0
        (subst (λ b. HasBoth (parse_params i (codes i.cert_file)) b (create_cert r i files)) p.1
          (create_cert-HasBoth r i files)))

  wrap_error-IsFound :
      (why : String) (i : CertInfo) (o : Option Error × Files)
      → IsFound i o
      → IsFound i (wrap_error r why o)
  wrap_error-IsFound why i (some e, files) h = tt
  wrap_error-IsFound why i (none, files) h = h

  obtain_files-IsFound :
      (i : CertInfo) (files : Files) → IsPlainPath i → IsFound i (obtain_files r i files)
  unfolding obtain_files
  obtain_files-IsFound i files p =
      by_paths i files
        (elim (new_lego r i) [
          | some e ↦ (some (wrapped "create lego object error" e), files)
          | none ↦ wrap_error r "create lego cert error" (create_cert r i files)
        ])
        (by_lego (new_lego r i))
    where
      by_lego :
          (o : Option Error)
          → IsFound i (elim o [
            | some e ↦ (some (wrapped "create lego object error" e), files)
            | none ↦ wrap_error r "create lego cert error" (create_cert r i files)
          ])
      by_lego (some e) = tt
      by_lego none =
          wrap_error-IsFound "create lego cert error" i (create_cert r i files)
            (create_cert-IsFound i files p)

  sign_files-IsFound : (i : CertInfo) (files : Files) → IsFound i (sign_files r i files)
  unfolding sign_files
  sign_files-IsFound i files =
      let made = generate_self_ssl_certificate r (codes i.cert_file) (codes i.key_file) files in
      by_paths i files (wrap_error r "generate self cert error" made) (
        wrap_error-IsFound "generate self cert error" i made (
          both-IsFound i made (self_signed-HasBoth r (codes i.cert_file) (codes i.key_file) files)))

  -- The modes in which the request has to bring the files about.
  abbrev pub brings_files : CertInfo → Bool
  brings_files i =
      str_eq i.cert_mode "dns" || str_eq i.cert_mode "http" || str_eq i.cert_mode "self"

  -- The file is in place, or os.Stat fails for another reason than that it is not.
  abbrev pub IsThere : Bytes → Files → Type 0
  IsThere path files = (is_some (get path files) ≡ true) ⊎ (r.stat_fault path ≡ true)

  abbrev pub IsReady : CertInfo → Option Error × Files → Type 0
  IsReady i (some e, files) = Unit
  IsReady i (none, files) = IsThere (codes i.cert_file) files × IsThere (codes i.key_file) files

  found-IsThere : (b c : Bool) → (b || c) ≡ true → (b ≡ true) ⊎ (c ≡ true)
  found-IsThere true c h = inl refl
  found-IsThere false c h = inr h

  found-IsReady : (i : CertInfo) (o : Option Error × Files) → IsFound i o → IsReady i o
  found-IsReady i (some e, files) h = tt
  found-IsReady i (none, files) h = (
    found-IsThere (is_some (get (codes i.cert_file) files)) (r.stat_fault (codes i.cert_file))
        (ground (arith, h)),
    found-IsThere (is_some (get (codes i.key_file) files)) (r.stat_fault (codes i.key_file))
        (ground (arith, h)),
  )

  request_cert-IsFound :
      (i : CertInfo) (files : Files)
      → brings_files i ≡ true
      → IsPlainPath i
      → IsFound i (request_cert r i files)
  unfolding request_cert
  request_cert-IsFound i files b p =
      by_tests (str_eq i.cert_mode "none" || str_eq i.cert_mode "") (str_eq i.cert_mode "file")
        (str_eq i.cert_mode "dns" || str_eq i.cert_mode "http") (str_eq i.cert_mode "self")
        (modes-IsRequest i.cert_mode b).0 (modes-IsRequest i.cert_mode b).1
    where
      by_tests :
          (none_mode file_mode acme_mode self_mode : Bool)
          → none_mode ≡ false
          → file_mode ≡ false
          → IsFound i (
              if none_mode
              then (none, files)
              else if file_mode
              then (if no_path r i then (some (path_missing r), files) else (none, files))
              else if acme_mode
              then obtain_files r i files
              else if self_mode
              then sign_files r i files
              else (some (text "unsupported certmode"), files))
      by_tests true f a s e k = absurd (ground (arith, e))
      by_tests false true a s e k = absurd (ground (arith, k))
      by_tests false false true s e k = obtain_files-IsFound i files p
      by_tests false false false true e k = sign_files-IsFound i files
      by_tests false false false false e k = tt

  -- In the modes `dns`, `http` and `self`, with paths that have no place for the domain or the
  -- address, after a request that returns no error each of the two files is in place, or os.Stat of
  -- it fails for another reason than that it is not, whatever fails on the way.
  pub request_cert-IsReady :
      (i : CertInfo) (files : Files)
      → brings_files i ≡ true
      → IsPlainPath i
      → IsReady i (request_cert r i files)
  request_cert-IsReady i files b p =
      found-IsReady i (request_cert r i files) (request_cert-IsFound i files b p)
