-- ===== src/Auth/Limiter/History.antt =====
-- The limiter against the full history of the attempts that it granted, which nothing ever sweeps.
use clamav_webui.Prelude.{
  ap, keep-append, ◌⊎◌, All-map, All-keep, eq_iff, ℕ, ◌≤◌, String, ◌≡◌, refl, sym, ◌∙◌, Bool, true,
  not, List, [], ◌∷◌, ◌++◌, arith, leb, length, keep, if◌then◌else◌, inl, inr, All, All-append,
  string_eq, ◌==◌,
}
use clamav_webui.Auth.Clock.{after_cut}
use clamav_webui.Auth.Limiter.{
  reset, new_login_limiter, allow, LoginLimiter, is_stale, collect, attempts, admit,
}

-- The times at which attempts for each key were granted since its last reset, oldest first.
abbrev pub History : Type 0
History = String → List ℕ

abbrev pub forget : String → History → History
forget key log j = if key == j then [] else log j

abbrev pub grant : String → ℕ → History → History
grant key t log j = if key == j then log j ++ t ∷ [] else log j

-- The decision as the history alone determines it.
abbrev pub may_grant : ℕ → ℕ → History → String → ℕ → Bool
may_grant limit window log key t = not (leb limit (length (keep (after_cut window t) (log key))))

abbrev pub Ordered : List ℕ → Type 0
Ordered [] = Unit
Ordered (x ∷ xs) = All (λ y. x ≤ y) xs × Ordered xs

-- At the time `now` the limiter knows all of the history that can still matter.
pub record Tracks (now : ℕ) (l : LoginLimiter) (log : History) : Type 0 where
  pub recent :
      (t : ℕ) (key : String)
      → now ≤ t
      → keep (after_cut l.window t) (attempts l key) ≡ keep (after_cut l.window t) (log key)
  pub ordered : (key : String) → Ordered (attempts l key)
  pub past : (key : String) → All (λ ts. ts ≤ now) (attempts l key)

keep-keep :
    (w t u : ℕ) (xs : List ℕ)
    → t ≤ u
    → keep (after_cut w u) (keep (after_cut w t) xs) ≡ keep (after_cut w u) xs
keep-keep w t u [] h = refl
keep-keep w t u (x ∷ xs) h = ground (arith, keep-keep w t u xs h)

keep-Ordered : (p : ℕ → Bool) (xs : List ℕ) → Ordered xs → Ordered (keep p xs)
keep-Ordered p [] h = tt
keep-Ordered p (x ∷ xs) h = ground (arith, keep-Ordered p xs h.1, All-keep (λ y. x ≤ y) p xs h.0)

append-Ordered : (t : ℕ) (xs : List ℕ) → Ordered xs → All (λ x. x ≤ t) xs → Ordered (xs ++ t ∷ [])
append-Ordered t [] h b = (tt, tt)
append-Ordered t (x ∷ xs) h b =
    (All-append (λ y. x ≤ y) xs (t ∷ []) h.0 (b.0, tt), append-Ordered t xs h.1 b.1)

-- Where the last of an ordered list is before the cut, all are, then and later.
keep_stale :
    (w t u : ℕ) (xs : List ℕ)
    → t ≤ u
    → Ordered xs
    → is_stale w t xs ≡ true
    → keep (after_cut w u) xs ≡ []
keep_stale w t u [] h o s = refl
keep_stale w t u (x ∷ []) h o s = ground arith
keep_stale w t u (x ∷ y ∷ ys) h o s = ground (arith, keep_stale w t u (y ∷ ys) h o.1 s)

-- What the sweep leaves of one key.
attempts-collect :
    (t : ℕ) (l : LoginLimiter) (key : String)
    → (attempts (collect t l) key ≡ attempts l key)
      ⊎ ((is_stale l.window t (attempts l key) ≡ true) × (attempts (collect t l) key ≡ []))
unfolding collect
attempts-collect t l key = ground arith

window-collect : (t : ℕ) (l : LoginLimiter) → (collect t l).window ≡ l.window
unfolding collect
window-collect t l = ground arith

pub limit-collect : (t : ℕ) (l : LoginLimiter) → (collect t l).limit ≡ l.limit
unfolding collect
limit-collect t l = ground arith

collect-Tracks :
    (now t : ℕ) (l : LoginLimiter) (log : History)
    → now ≤ t
    → Tracks now l log
    → Tracks t (collect t l) log
collect-Tracks now t l log le h = record {
  recent = λ u key le'. rw window-collect (elim (attempts-collect t l key) [
    | inl same ↦ rw same (h.recent u key (omega arith))
    | inr swept ↦ rw (swept.1) (
        sym (keep_stale l.window t u (attempts l key) le' (h.ordered key) swept.0)
        ∙ h.recent u key (omega arith))
  ]);
  ordered = λ key. elim (attempts-collect t l key) [
    | inl same ↦ rw same (h.ordered key)
    | inr swept ↦ rw (swept.1) tt
  ];
  past = λ key. elim (attempts-collect t l key) [
    | inl same ↦ rw same (All-map (λ x p. omega arith) (attempts l key) (h.past key))
    | inr swept ↦ rw (swept.1) tt
  ];
}

attempts-admit :
    (key j : String) (t : ℕ) (l : LoginLimiter)
    → attempts (admit key t l).0 j ≡ (
        if key == j
        then (let kept = keep (after_cut l.window t) (attempts l key) in
            if leb l.limit (length kept) then kept else kept ++ t ∷ [])
        else attempts l j)
unfolding admit
attempts-admit key j t l = ground arith

window-admit : (key : String) (t : ℕ) (l : LoginLimiter) → (admit key t l).0.window ≡ l.window
unfolding admit
window-admit key t l = ground arith

admit-eq-may_grant :
    (key : String) (t : ℕ) (l : LoginLimiter) (log : History)
    → Tracks t l log
    → (admit key t l).1 ≡ may_grant l.limit l.window log key t
unfolding admit
admit-eq-may_grant key t l log h = ground (arith, h.recent t key (omega arith))

-- What the history is after a call that gave `granted`.
abbrev pub record_grant : Bool → String → ℕ → History → History
record_grant granted key t log = if granted then grant key t log else log

recent-admit :
    (key j : String) (t u : ℕ) (l : LoginLimiter) (log : History)
    → t ≤ u
    → Tracks t l log
    → keep (after_cut l.window u) (attempts (admit key t l).0 j)
      ≡ keep (after_cut l.window u) (record_grant (admit key t l).1 key t log j)
unfolding admit
recent-admit key j t u l log le h = ground (
  arith,
  keep-keep l.window t u (attempts l key) le,
  keep-append (after_cut l.window u) (keep (after_cut l.window t) (attempts l key)) (t ∷ []),
  keep-append (after_cut l.window u) (log key) (t ∷ []),
  h.recent u key le,
  h.recent u j le,
  eq_iff key j,
)

kept-Ordered :
    (key : String) (t : ℕ) (l : LoginLimiter) (log : History)
    → Tracks t l log
    → let kept = keep (after_cut l.window t) (attempts l key) in
      Ordered kept
      × Ordered (kept ++ t ∷ [])
      × All (λ ts. ts ≤ t) kept
      × All (λ ts. ts ≤ t) (kept ++ t ∷ [])
kept-Ordered key t l log h =
    let recently = after_cut l.window t in
    let sorted = keep-Ordered recently (attempts l key) (h.ordered key) in
    let below = All-keep (λ ts. ts ≤ t) recently (attempts l key) (h.past key) in
    let kept = keep recently (attempts l key) in
    (
      sorted,
      append-Ordered t kept sorted below,
      below,
      All-append (λ ts. ts ≤ t) kept (t ∷ []) below (omega arith, tt),
    )

admit-Tracks :
    (key : String) (t : ℕ) (l : LoginLimiter) (log : History)
    → Tracks t l log
    → Tracks t (admit key t l).0 (record_grant (admit key t l).1 key t log)
admit-Tracks key t l log h = record {
  recent = λ u j le. rw window-admit (recent-admit key j t u l log le h);
  ordered = λ j. unfold admit in ground (arith, kept-Ordered key t l log h, h.ordered j);
  past = λ j. unfold admit in ground (arith, kept-Ordered key t l log h, h.past j);
}

-- On a limiter that tracks the history, at the same or any later time, `Allow` grants exactly the attempts that the whole history permits: fewer than
-- `limit` granted attempts for the key within the last `window`. The sweep and the trimming of the
-- stored lists never change an answer.
pub allow-eq-may_grant :
    (now t : ℕ) (key : String) (l : LoginLimiter) (log : History)
    → now ≤ t
    → Tracks now l log
    → (allow key t l).1 ≡ may_grant l.limit l.window log key t
unfolding allow
allow-eq-may_grant now t key l log le h =
    admit-eq-may_grant key t (collect t l) log (collect-Tracks now t l log le h)
    ∙ ap (λ n. may_grant n (collect t l).window log key t) (limit-collect t l)
    ∙ ap (λ w. may_grant l.limit w log key t) (window-collect t l)

pub allow-Tracks :
    (now t : ℕ) (key : String) (l : LoginLimiter) (log : History)
    → now ≤ t
    → Tracks now l log
    → Tracks t (allow key t l).0 (record_grant (allow key t l).1 key t log)
unfolding allow
allow-Tracks now t key l log le h =
    admit-Tracks key t (collect t l) log (collect-Tracks now t l log le h)

pub reset-Tracks :
    (now : ℕ) (key : String) (l : LoginLimiter) (log : History)
    → Tracks now l log
    → Tracks now (reset key l) (forget key log)
unfolding reset
reset-Tracks now key l log h = record {
  recent = λ t j le. ground (arith, h.recent t j le, eq_iff key j);
  ordered = λ j. ground (arith, h.ordered j);
  past = λ j. ground (arith, h.past j);
}

pub Tracks-new : (limit window now : ℕ) → Tracks now (new_login_limiter limit window) (λ key. [])
unfolding new_login_limiter
Tracks-new limit window now = record {
  recent = λ t key le. refl;
  ordered = λ key. tt;
  past = λ key. tt;
}

pub settings-allow :
    (key : String) (t : ℕ) (l : LoginLimiter)
    → ((allow key t l).0.limit ≡ l.limit) × ((allow key t l).0.window ≡ l.window)
unfolding allow admit collect
settings-allow key t l = (ground arith, ground arith)
