-- ===== src/Auth/Limiter.antt =====
-- internal/auth/ratelimit.go. Each method is one critical section, so a run is a sequence of calls.
pub mod History
pub mod Window
mod Tests
use clamav_webui.Prelude.{
  ℕ, String, Bool, true, false, Option, none, some, List, [], ◌∷◌, ◌++◌, ltb, leb, length, keep,
  if◌then◌else◌, string_eq,
}
use clamav_webui.Prelude.Map.{Map, empty, insert, delete, delete_if}
use clamav_webui.Auth.Clock.{since, after_cut, before_cut}

-- `now` and the mutex have no field: the clock's reading is an argument of `allow`.
pub record LoginLimiter : Type 0 where
  pub hits : Map String (List ℕ)
  pub limit : ℕ
  pub window : ℕ
  pub last_gc : ℕ

unfoldable pub new_login_limiter : ℕ → ℕ → LoginLimiter
new_login_limiter limit window = record {
  hits = empty;
  limit = limit;
  window = window;
  last_gc = 0;
}

-- len(ts) == 0 || ts[len(ts)-1].Before(cut)
abbrev pub is_stale : ℕ → ℕ → List ℕ → Bool
is_stale window t [] = true
is_stale window t (ts ∷ []) = before_cut window t ts
is_stale window t (ts ∷ next ∷ rest) = is_stale window t (next ∷ rest)

-- the sweep at the top of `Allow`
unfoldable pub collect : ℕ → LoginLimiter → LoginLimiter
collect t l =
    if ltb l.window (since t l.last_gc)
    then record l { hits = delete_if (is_stale l.window t) l.hits; last_gc = t }
    else l

-- l.hits[key], which is nil on a missing key
abbrev pub attempts : LoginLimiter → String → List ℕ
attempts l key = elim (l.hits key) [ none ↦ [] | some ts ↦ ts ]

-- `Allow` behind the sweep. `kept` shares its array with the old slice, which it replaces in the map.
unfoldable pub admit : String → ℕ → LoginLimiter → LoginLimiter × Bool
admit key t l =
    let kept = keep (after_cut l.window t) (attempts l key) in
    if leb l.limit (length kept)
    then (record l { hits = insert key kept l.hits }, false)
    else (record l { hits = insert key (kept ++ t ∷ []) l.hits }, true)

unfoldable pub allow : String → ℕ → LoginLimiter → LoginLimiter × Bool
allow key t l = admit key t (collect t l)

unfoldable pub reset : String → LoginLimiter → LoginLimiter
reset key l = record l { hits = delete key l.hits }
