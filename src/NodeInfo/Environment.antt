-- ===== src/NodeInfo/Environment.antt =====
-- The variables for the DNS provider, as a text and as a table.
use v2node_hy.Base.{
  ℕ, ◌==◌, false, ◌≡◌, refl, sym, ap, ◌∙◌, none, some, List, [], ◌∷◌, ◌++◌, map, All, Bytes, is_nil,
  eq_bytes, eq_bytes_iff, contains_byte, cut, split, cons_first, join, Table, get, put, bytes_key,
  unless, unless_not, arith,
}
use v2node_hy.NodeInfo.{note_env, note_envs, parse_dns_env}

split-plain : (b : ℕ) (s : Bytes) → contains_byte b s ≡ false → split b s ≡ s ∷ []
unfolding split contains_byte cons_first
split-plain b [] h = refl
split-plain b (c ∷ s) h =
    unless (c == b) _ _ (ground arith) ∙ ap (cons_first c) (split-plain b s (ground arith))

split-append :
    (b : ℕ) (s t : Bytes) → contains_byte b s ≡ false → split b (s ++ b ∷ t) ≡ s ∷ split b t
unfolding split contains_byte cons_first
split-append b [] t h = unless_not (b == b) _ _ (ground arith)
split-append b (c ∷ s) t h =
    unless (c == b) _ _ (ground arith) ∙ ap (cons_first c) (split-append b s t (ground arith))

-- A list of texts without the separator is found again in their join.
pub split-join :
    (b : ℕ) (s : Bytes) (ss : List Bytes)
    → All (λ t. contains_byte b t ≡ false) (s ∷ ss)
    → split b (join (b ∷ []) (s ∷ ss)) ≡ s ∷ ss
unfolding join
split-join b s [] h = split-plain b s h.0
split-join b s (t ∷ ts) h =
    split-append b s (join (b ∷ []) (t ∷ ts)) h.0 ∙ ap (λ l. s ∷ l) (split-join b t ts h.1)

cut-append : (b : ℕ) (s t : Bytes) → contains_byte b s ≡ false → cut b (s ++ b ∷ t) ≡ some (s, t)
unfolding cut contains_byte
cut-append b [] t h = unless_not (b == b) _ _ (ground arith)
cut-append b (c ∷ s) t h =
    unless (c == b) _ _ (ground arith)
    ∙ ap (λ o. elim o [ none ↦ none | some p ↦ some (c ∷ p.0, p.1) ])
        (cut-append b s t (ground arith))

contains-line :
    (b d : ℕ) (s t : Bytes)
    → contains_byte b s ≡ false
    → (d == b) ≡ false
    → contains_byte b t ≡ false
    → contains_byte b (s ++ d ∷ t) ≡ false
unfolding contains_byte
contains-line b d [] t h e k = ground (arith, e, k)
contains-line b d (c ∷ s) t h e k = ground (arith, h, contains-line b d s t)

-- The setting that a table stands for.
pub env_line : Bytes × Bytes → Bytes
env_line p = p.0 ++ b'=' ∷ p.1

pub render_env : Table Bytes Bytes → Bytes
unfolding env_line
render_env m = join (b',' ∷ []) (map env_line m)

-- No name has `=` or `,` in it, no value has `,`, and no name stands twice.
abbrev pub IsPlain : Bytes × Bytes → Type 0
IsPlain p =
    (contains_byte b'=' p.0 ≡ false)
    × (contains_byte b',' p.0 ≡ false)
    × (contains_byte b',' p.1 ≡ false)

abbrev pub IsTable : Table Bytes Bytes → Type 0
IsTable [] = Unit
IsTable (p ∷ m) = (get p.0 m ≡ none) × IsTable m

lines_plain :
    (m : Table Bytes Bytes)
    → All IsPlain m
    → All (λ t. contains_byte b',' t ≡ false) (map env_line m)
unfolding env_line
lines_plain [] h = tt
lines_plain (p ∷ m) (h, k) = (contains-line b',' b'=' p.0 p.1 h.1 refl h.2, lines_plain m k)

get-append_other :
    (k j : Bytes) (v : Bytes) (m : Table Bytes Bytes)
    → get k m ≡ none
    → eq_bytes j k ≡ false
    → get k (m ++ (j, v) ∷ []) ≡ none
unfolding get
get-append_other k j v [] h e = ground (arith, e)
get-append_other k j v ((i, w) ∷ m) h e = ground (arith, e, get-append_other k j v m)

put-fresh : (k v : Bytes) (m : Table Bytes Bytes) → get k m ≡ none → put k v m ≡ m ++ (k, v) ∷ []
unfolding get put
put-fresh k v [] h = refl
put-fresh k v ((i, w) ∷ m) h = ground (arith, put-fresh k v m)

still_fresh :
    (k v : Bytes) (acc m : Table Bytes Bytes)
    → get k m ≡ none
    → All (λ p. get p.0 acc ≡ none) m
    → All (λ p. get p.0 (acc ++ (k, v) ∷ []) ≡ none) m
unfolding get
still_fresh k v acc [] h a = tt
still_fresh k v acc ((j, w) ∷ m) h (e, a) = (
  get-append_other j k v acc e (ground (arith, eq_bytes_iff j k, eq_bytes_iff k j)),
  still_fresh k v acc m (ground arith) a,
)

append_one :
    (acc : Table Bytes Bytes) (p : Bytes × Bytes) (m : Table Bytes Bytes)
    → (acc ++ p ∷ []) ++ m ≡ acc ++ p ∷ m
append_one [] p m = refl
append_one (q ∷ acc) p m = ap (λ l. q ∷ l) (append_one acc p m)

append_nil : (acc : Table Bytes Bytes) → acc ++ [] ≡ acc
append_nil [] = refl
append_nil (p ∷ acc) = ap (λ l. p ∷ l) (append_nil acc)

note_envs-lines :
    (m acc : Table Bytes Bytes)
    → All IsPlain m
    → IsTable m
    → All (λ p. get p.0 acc ≡ none) m
    → note_envs (map env_line m) acc ≡ acc ++ m
unfolding note_envs note_env env_line
note_envs-lines [] acc h t a = sym (append_nil acc)
note_envs-lines ((k, v) ∷ m) acc (h, hs) (t, ts) (a, fresh) =
    ap (λ o. note_envs (map env_line m) (note_env o acc)) (cut-append b'=' k v h.0)
    ∙ ap (note_envs (map env_line m)) (put-fresh k v acc a)
    ∙ note_envs-lines m (acc ++ (k, v) ∷ []) hs ts (still_fresh k v acc m t fresh)
    ∙ append_one acc (k, v) m

abbrev nothing_noted : Table Bytes Bytes
nothing_noted = []

starts_fresh : (m : Table Bytes Bytes) → All (λ p. get p.0 nothing_noted ≡ none) m
unfolding get
starts_fresh [] = tt
starts_fresh (p ∷ m) = (refl, starts_fresh m)

pub join-nonempty :
    (c : ℕ) (s : Bytes) (ss : List Bytes)
    → is_nil s ≡ false
    → is_nil (join (c ∷ []) (s ∷ ss)) ≡ false
unfolding join
join-nonempty c (d ∷ s) [] h = refl
join-nonempty c (d ∷ s) (t ∷ ts) h = refl
join-nonempty c [] ss h = absurd (ground arith)

line-nonempty : (p : Bytes × Bytes) → is_nil (env_line p) ≡ false
unfolding env_line
line-nonempty ([], v) = refl
line-nonempty (c ∷ k, v) = refl

-- A table of variables with distinct names, where no name has `=` or `,` in it and no value has a
-- `,`, is read back from its setting.
pub parse_dns_env-render_env :
    (m : Table Bytes Bytes) → All IsPlain m → IsTable m → parse_dns_env (render_env m) ≡ m
unfolding parse_dns_env render_env join
parse_dns_env-render_env [] h t = refl
parse_dns_env-render_env (p ∷ m) h t =
    unless (is_nil (join (b',' ∷ []) (map env_line (p ∷ m)))) _ _
      (join-nonempty b',' (env_line p) (map env_line m) (line-nonempty p))
    ∙ ap (λ l. note_envs l [])
        (split-join b',' (env_line p) (map env_line m) (lines_plain (p ∷ m) h))
    ∙ note_envs-lines (p ∷ m) [] h t (starts_fresh (p ∷ m))
