-- ===== src/Hysteria/Events.antt =====
-- The limit checks of connections and requests: core/officialhy2/logger.go, less its log lines.
-- `now` is in nanoseconds, and `seconds` the Unix time that CheckLimit reads.
use v2node_hy.Base.{
  ℕ, ◌+◌, ◌-◌, ◌<◌, ◌≤◌, ◌==◌, ltb, ℤ, String, str_eq, str_append, Bool, true, false, not, ◌&&◌,
  ◌≡◌, refl, ap, sym, subst, ◌∙◌, Option, none, some, [], ◌∷◌, Table, get, put, del, get-put_self,
  string_key, if◌then◌else◌, unless, unless_not, arith,
}
use v2node_hy.Limiter.{Limiter, set_limits}
use v2node_hy.Limiter.Check.{Decision, rejected, allowed, check_limit}

pub record LimitCacheEntry : Type 0 where
  pub reject : Bool
  pub expires_at : ℕ

-- `last_limit_cache_sweep` is 0 before the first sweep.
pub record EventLogger : Type 0 where
  pub limit_cache : Table String LimitCacheEntry
  pub last_limit_cache_sweep : ℕ
  pub limit_check_cache_ttl : ℕ
  pub limit_cache_sweep_every : ℕ

abbrev pub is_rejected : Decision → Bool
is_rejected rejected = true
is_rejected (allowed rate) = false

abbrev pub cache_key : String → String → String → String
cache_key taguuid ip network =
    str_append taguuid (str_append "|" (str_append ip (str_append "|" network)))

unfoldable pub set_limiter_over_limit : Limiter → String → Bool → Limiter
set_limiter_over_limit l t reject =
    set_limits (get t l.user_limit_info) (λ i. record i { over_limit = reject }) l

unfoldable pub set_user_over_limit : Option Limiter → String → Bool → Option Limiter
unfolding set_limiter_over_limit
set_user_over_limit none t reject = none
set_user_over_limit (some l) t reject = some (set_limiter_over_limit l t reject)

unfoldable pub unexpired : ℕ → Table String LimitCacheEntry → Table String LimitCacheEntry
unexpired now [] = []
unexpired now ((k, e) ∷ m) =
    let rest = unexpired now m in if ltb e.expires_at now then rest else (k, e) ∷ rest

unfoldable pub sweep_limit_cache : ℕ → EventLogger → EventLogger
unfolding unexpired
sweep_limit_cache now l =
    if not (l.last_limit_cache_sweep == 0)
      && ltb (now - l.last_limit_cache_sweep) l.limit_cache_sweep_every
    then l
    else record l { last_limit_cache_sweep = now; limit_cache = unexpired now l.limit_cache }

-- The check itself, with its verdict put in the cache.
unfoldable pub check_now :
    ℕ → ℤ → String → String → String → EventLogger → Option Limiter → EventLogger × Option Limiter
unfolding check_limit set_limiter_over_limit sweep_limit_cache
check_now now seconds t ip network l none = (l, none)
check_now now seconds t ip network l (some limiter) =
    let (decision, m) = check_limit seconds t ip (str_eq network "tcp") limiter in
    let reject = is_rejected decision in
    let entry : LimitCacheEntry = record {
      reject = reject;
      expires_at = now + l.limit_check_cache_ttl;
    } in
    (
      sweep_limit_cache now
          (record l { limit_cache = put (cache_key t ip network) entry l.limit_cache }),
      some (set_limiter_over_limit m t reject),
    )

unfoldable pub check_cached :
    Option LimitCacheEntry
    → ℕ
    → ℤ
    → String
    → String
    → String
    → EventLogger
    → Option Limiter
    → EventLogger × Option Limiter
unfolding check_now set_user_over_limit
check_cached none now seconds t ip network l o = check_now now seconds t ip network l o
check_cached (some e) now seconds t ip network l o =
    if ltb now e.expires_at
    then (l, if e.reject then set_user_over_limit o t true else o)
    else check_now now seconds t ip network
        (record l { limit_cache = del (cache_key t ip network) l.limit_cache }) o

unfoldable pub check_event :
    ℕ → ℤ → String → String → String → EventLogger → Option Limiter → EventLogger × Option Limiter
unfolding check_cached
check_event now seconds t ip network l o =
    check_cached (get (cache_key t ip network) l.limit_cache) now seconds t ip network l o

get-unexpired :
    (now : ℕ) (k : String) (e : LimitCacheEntry) (m : Table String LimitCacheEntry)
    → get k m ≡ some e
    → now ≤ e.expires_at
    → get k (unexpired now m) ≡ some e
unfolding get unexpired
get-unexpired now k e [] h p = absurd (ground arith)
get-unexpired now k e ((j, d) ∷ m) h p =
    by_entry (str_eq j k) (ltb d.expires_at now) refl refl h (λ g. get-unexpired now k e m g p)
  where
    by_entry :
        (same old : Bool)
        → str_eq j k ≡ same
        → ltb d.expires_at now ≡ old
        → (if same then some d else get k m) ≡ some e
        → (get k m ≡ some e → get k (unexpired now m) ≡ some e)
        → get k (if old then unexpired now m else (j, d) ∷ unexpired now m) ≡ some e
    by_entry true true q o g ih = absurd (ground (arith, q, o, g, p))
    by_entry true false q o g ih = unless_not (str_eq j k) _ _ q ∙ g
    by_entry false true q o g ih = ih g
    by_entry false false q o g ih = unless (str_eq j k) _ _ q ∙ ih g

get-sweep :
    (now : ℕ) (k : String) (e : LimitCacheEntry) (l : EventLogger)
    → get k l.limit_cache ≡ some e
    → now ≤ e.expires_at
    → get k (sweep_limit_cache now l).limit_cache ≡ some e
unfolding sweep_limit_cache
get-sweep now k e l h p = by_time _
  where
    by_time :
        (b : Bool)
        → get k
            (if b then l else record l {
              last_limit_cache_sweep = now;
              limit_cache = unexpired now l.limit_cache;
            }).limit_cache
          ≡ some e
    by_time true = h
    by_time false = get-unexpired now k e l.limit_cache h p

-- An event of the same address and network, sooner after a check than the cache's time to live,
-- repeats the verdict without a check: a rejected user is marked again, an allowed one is left.
pub check_event-check_event :
    (now later : ℕ) (seconds then_seconds : ℤ) (t ip network : String) (l : EventLogger)
    (limiter : Limiter)
    → get (cache_key t ip network) l.limit_cache ≡ none
    → later < now + l.limit_check_cache_ttl
    → let r = check_event now seconds t ip network l (some limiter) in
      let reject = is_rejected (check_limit seconds t ip (str_eq network "tcp") limiter).0 in
      check_event later then_seconds t ip network r.0 r.1
      ≡ (r.0, if reject then set_user_over_limit r.1 t true else r.1)
unfolding check_event check_cached check_now
check_event-check_event now later seconds then_seconds t ip network l limiter h p =
    subst Repeats (sym (ap (λ o. check_cached o now seconds t ip network l (some limiter)) h)) (
      ap (λ o. check_cached o later then_seconds t ip network first.0 first.1)
        (get-sweep now key entry _ (get-put_self key entry l.limit_cache) (ground arith))
      ∙ unless_not (ltb later entry.expires_at) _ _ (ground (arith, p)))
  where
    key : String
    key = cache_key t ip network

    first : EventLogger × Option Limiter
    first = check_now now seconds t ip network l (some limiter)

    verdict : Bool
    verdict = is_rejected (check_limit seconds t ip (str_eq network "tcp") limiter).0

    entry : LimitCacheEntry
    entry = record { reject = verdict; expires_at = now + l.limit_check_cache_ttl }

    Repeats : EventLogger × Option Limiter → Type 0
    Repeats r =
        check_event later then_seconds t ip network r.0 r.1
        ≡ (r.0, if verdict then set_user_over_limit r.1 t true else r.1)
