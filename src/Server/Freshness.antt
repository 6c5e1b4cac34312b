-- ===== src/Server/Freshness.antt =====
-- The cache of certificates against one that loads the files at every check.
use v2node_hy.Base.{
  ℕ, ◌-◌, Bool, true, false, not, ◌||◌, Option, none, some, or_else, ltb, eqb_ℤ, eqb_ℤ_iff,
  if◌then◌else◌, ◌≡◌, refl, sym, ap, ◌∙◌, subst, ◌⊎◌, inl, inr, List, [], ◌∷◌, All, arith,
}
use v2node_hy.Server.Certificates.{
  FileInfo, View, CertificateCache, loaded, reload_locked, stats_differ, changed_locked, is_fresh,
  noted, after_reload, after_change, refresh, get_certificate, new_certificate_cache,
  default_cert_check_interval,
}

-- The certificate that is served, and the time of the last check.
pub record Served (C : Type 0) : Type 0 where
  pub cert : C
  pub last_check : ℕ

-- `content` is the key pair of files with these stats: the code takes files with the time and the
-- size that it has seen for the files that it has seen.
module _ {C : Type 0} (content : FileInfo → FileInfo → Option C) where
  abbrev pub pair_of : Option FileInfo → Option FileInfo → Option C
  pair_of (some i) (some k) = content i k
  pair_of _ _ = none

  -- The files at one moment.
  abbrev pub IsMoment : View C → Type 0
  IsMoment v = v.pair ≡ pair_of v.cert_stat v.key_stat

  -- A call of GetCertificate at `now` when the files are those of a view. Within five seconds of a
  -- check it serves what it has; later it loads the files, and keeps what it has if they cannot be
  -- loaded. The next five seconds are counted from `now`, or from the end of the reload.
  pub data Serves : ℕ → ℕ → View C → Served C → Served C → Type 0 where
    keeps :
        (now done : ℕ) (v : View C) (s : Served C)
        → ltb (now - s.last_check) default_cert_check_interval ≡ true
        → Serves now done v s s
    loads :
        (now done at : ℕ) (v : View C) (s : Served C)
        → ltb (now - s.last_check) default_cert_check_interval ≡ false
        → (at ≡ now) ⊎ (at ≡ done)
        → Serves now done v s (record { cert = or_else v.pair s.cert; last_check = at })

  abbrev pub served : CertificateCache C → Served C
  served c = record { cert = c.cert; last_check = c.last_check }

  -- The cached certificate is that of files with the cached stats.
  abbrev pub IsLoaded : CertificateCache C → Type 0
  IsLoaded c = content c.cert_stat c.key_stat ≡ some c.cert

  same_info :
      (i j : FileInfo) → eqb_ℤ i.mod_time j.mod_time ≡ true → eqb_ℤ i.size j.size ≡ true → i ≡ j
  same_info i j h k =
      let p = (eqb_ℤ_iff i.mod_time j.mod_time).0 h in
      let q = (eqb_ℤ_iff i.size j.size).0 k in λ x. record { mod_time = p x; size = q x }

  -- What a check makes of the cache, where the files are those of the view.
  record IsChecked (now done : ℕ) (v : View C) (c d : CertificateCache C) : Type 0 where
    cert_checked : d.cert ≡ or_else v.pair c.cert
    still_loaded : IsLoaded d
    checked_at : (d.last_check ≡ now) ⊎ (d.last_check ≡ done)

  noted-IsChecked :
      (now done : ℕ) (v : View C) (c : CertificateCache C)
      → IsLoaded c
      → (v.pair ≡ none) ⊎ (v.pair ≡ some c.cert)
      → IsChecked now done v c (noted now c)
  noted-IsChecked now done v c h (inl p) = record {
    cert_checked = ap (λ o. or_else o c.cert) (sym p);
    still_loaded = h;
    checked_at = inl refl;
  }
  noted-IsChecked now done v c h (inr p) = record {
    cert_checked = ap (λ o. or_else o c.cert) (sym p);
    still_loaded = h;
    checked_at = inl refl;
  }

  all_same :
      (a b d e : Bool)
      → (not a || not b || not d || not e) ≡ false
      → (a ≡ true) × (b ≡ true) × (d ≡ true) × (e ≡ true)
  all_same a b d e h = ground (arith, h)

  unchanged_pair :
      (i k : FileInfo) (c : CertificateCache C)
      → IsLoaded c
      → stats_differ (some i) (some k) c ≡ some false
      → content i k ≡ some c.cert
  unfolding stats_differ
  unchanged_pair i k c h e =
      let s =
        all_same (eqb_ℤ i.mod_time c.cert_stat.mod_time) (eqb_ℤ k.mod_time c.key_stat.mod_time)
          (eqb_ℤ i.size c.cert_stat.size) (eqb_ℤ k.size c.key_stat.size) (ground (arith, e)) in
      ap (λ x. content x k) (same_info i c.cert_stat s.0 s.2)
      ∙ ap (content c.cert_stat) (same_info k c.key_stat s.1 s.3)
      ∙ h

  reload-IsChecked :
      (now done : ℕ) (p : Option C) (i k : FileInfo) (c : CertificateCache C)
      → p ≡ content i k
      → IsLoaded c
      → IsChecked now done
          (record { pair = p; cert_stat = some i; key_stat = some k })
          c
          (after_reload now (loaded done p (some i) (some k)) c)
  unfolding after_reload loaded
  reload-IsChecked now done none i k c e h =
      noted-IsChecked now done (record { pair = none; cert_stat = some i; key_stat = some k }) c h
        (inl refl)
  reload-IsChecked now done (some x) i k c e h = record {
    cert_checked = refl;
    still_loaded = sym e;
    checked_at = inr refl;
  }

  change-IsChecked :
      (now done : ℕ) (p : Option C) (i k : FileInfo) (c : CertificateCache C) (b : Bool)
      → p ≡ content i k
      → IsLoaded c
      → stats_differ (some i) (some k) c ≡ some b
      → IsChecked now done
          (record { pair = p; cert_stat = some i; key_stat = some k })
          c
          (after_change now done
            (some b)
            (record { pair = p; cert_stat = some i; key_stat = some k })
            c)
  unfolding after_change reload_locked
  change-IsChecked now done p i k c true e h d = reload-IsChecked now done p i k c e h
  change-IsChecked now done p i k c false e h d =
      noted-IsChecked now done (record { pair = p; cert_stat = some i; key_stat = some k }) c h
        (inr (e ∙ unchanged_pair i k c h d))

  checked :
      (now done : ℕ) (p : Option C) (a b : Option FileInfo) (c : CertificateCache C)
      → p ≡ pair_of a b
      → IsLoaded c
      → IsChecked now done
          (record { pair = p; cert_stat = a; key_stat = b })
          c
          (after_change now done
            (stats_differ a b c)
            (record { pair = p; cert_stat = a; key_stat = b })
            c)
  unfolding stats_differ after_change
  checked now done p none b c e h =
      noted-IsChecked now done (record { pair = p; cert_stat = none; key_stat = b }) c h (inl e)
  checked now done p (some i) none c e h =
      noted-IsChecked now done (record { pair = p; cert_stat = some i; key_stat = none }) c h
        (inl e)
  checked now done p (some i) (some k) c e h =
      change-IsChecked now done p i k c
        (not (eqb_ℤ i.mod_time c.cert_stat.mod_time)
          || not (eqb_ℤ k.mod_time c.key_stat.mod_time)
          || not (eqb_ℤ i.size c.cert_stat.size)
          || not (eqb_ℤ k.size c.key_stat.size))
        e h refl

  IsServed : ℕ → ℕ → View C → CertificateCache C → CertificateCache C → Type 0
  IsServed now done v c d = Serves now done v (served c) (served d) × IsLoaded d

  loads-IsServed :
      (now done : ℕ) (v : View C) (c d : CertificateCache C)
      → is_fresh now c ≡ false
      → IsChecked now done v c d
      → IsServed now done v c d
  unfolding IsServed
  loads-IsServed now done v c d old k = (
    subst (λ x. Serves now done v (served c) (record { cert = x; last_check = d.last_check }))
        (sym k.cert_checked) (loads now done d.last_check v (served c) old k.checked_at),
    k.still_loaded,
  )

  abbrev IsAnswer : ℕ → ℕ → View C → CertificateCache C → C × CertificateCache C → Type 0
  IsAnswer now done v c r = (r.0 ≡ r.1.cert) × IsServed now done v c r.1

  get_certificate-IsServed :
      (now done : ℕ) (v : View C) (c : CertificateCache C)
      → IsMoment v
      → IsLoaded c
      → IsAnswer now done v c (get_certificate now done v v c)
  unfolding get_certificate refresh changed_locked IsServed
  get_certificate-IsServed now done v c m h =
      by_test (is_fresh now c) (λ fresh. (keeps now done v (served c) fresh, h))
        (λ old.
          loads-IsServed now done v c (after_change now done (changed_locked v c) v c) old
            (checked now done v.pair v.cert_stat v.key_stat c m h))
    where
      by_test :
          (b : Bool)
          → (b ≡ true → IsServed now done v c c)
          → (b ≡ false → IsServed now done v c (after_change now done (changed_locked v c) v c))
          → IsAnswer now done v c (
              if b
              then (c.cert, c)
              else (let d = (if b then c else after_change now done (changed_locked v c) v c) in
                  (d.cert, d)))
      by_test true f g = (refl, f refl)
      by_test false f g = (refl, g refl)

-- A call of GetCertificate, the end of its reload, if there is one, and the files that it finds.
pub record Call (C : Type 0) : Type 0 where
  pub now : ℕ
  pub done : ℕ
  pub files : View C

-- The certificates that calls in this order get, and the cache after them.
abbrev pub certificates : {C : Type 0} → List (Call C) → CertificateCache C → List C
certificates [] c = []
certificates (k ∷ ks) c =
    let r = get_certificate k.now k.done k.files k.files c in r.0 ∷ certificates ks r.1

module _ {C : Type 0} (content : FileInfo → FileInfo → Option C) where
  -- The certificates that the specification serves.
  pub data ServesAll : List (Call C) → Served C → List C → Type 0 where
    at_end : (s : Served C) → ServesAll [] s []
    after :
        (k : Call C) (ks : List (Call C)) (s t : Served C) (cs : List C)
        → Serves content k.now k.done k.files s t
        → ServesAll ks t cs
        → ServesAll (k ∷ ks) s (t.cert ∷ cs)

  abbrev pub AreMoments : List (Call C) → Type 0
  AreMoments ks = All (λ k. IsMoment content k.files) ks

  certificates-ServesAll_from :
      (ks : List (Call C)) (c : CertificateCache C)
      → AreMoments ks
      → IsLoaded content c
      → ServesAll ks (served content c) (certificates ks c)
  unfolding IsServed
  certificates-ServesAll_from [] c m h = at_end (served content c)
  certificates-ServesAll_from (k ∷ ks) c m h =
      let r = get_certificate k.now k.done k.files k.files c in
      let s = get_certificate-IsServed content k.now k.done k.files c m.0 h in
      subst (λ x. ServesAll (k ∷ ks) (served content c) (x ∷ certificates ks r.1)) (sym s.0)
        (after k ks (served content c) (served content r.1) (certificates ks r.1) s.1.0
          (certificates-ServesAll_from ks r.1 m.1 s.1.1))

  reload_locked-IsLoaded :
      (done : ℕ) (p : Option C) (a b : Option FileInfo) (c : CertificateCache C)
      → p ≡ pair_of content a b
      → loaded done p a b ≡ some c
      → IsLoaded content c
  unfolding loaded
  reload_locked-IsLoaded done (some x) (some i) (some k) c m e =
      subst (λ o. IsLoaded_in o) e (sym m)
    where
      IsLoaded_in : Option (CertificateCache C) → Type 0
      IsLoaded_in none = ⊥
      IsLoaded_in (some d) = IsLoaded content d
  reload_locked-IsLoaded done none a b c m e = absurd (ground (arith, e))
  reload_locked-IsLoaded done (some x) none b c m e = absurd (ground (arith, e))
  reload_locked-IsLoaded done (some x) (some i) none c m e = absurd (ground (arith, e))

  -- The certificates that clients get from a cache that has been made are those of the
  -- specification, whose memory begins with the first certificate: a call within five seconds of
  -- the last check, which is noted at its beginning or at the end of its reload, serves the
  -- certificate that there is, and a later one loads the files, and a key pair that can be loaded
  -- replaces the last one. The files are those of one moment in each call, and stats that are the
  -- same mean the same files.
  pub certificates-ServesAll :
      (done : ℕ) (v : View C) (c : CertificateCache C) (ks : List (Call C))
      → IsMoment content v
      → new_certificate_cache done v ≡ some c
      → AreMoments ks
      → ServesAll ks (served content c) (certificates ks c)
  unfolding reload_locked
  certificates-ServesAll done v c ks m e ms =
      certificates-ServesAll_from ks c ms
        (reload_locked-IsLoaded done v.pair v.cert_stat v.key_stat c m e)
