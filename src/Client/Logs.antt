-- ===== src/Client/Logs.antt =====
-- cmd/vitrum/logs.go: the log that the flags of feed and record name.
pub mod Resolves
use vitrum.Base.{
  ℕ, List, [], ◌∷◌, Bool, true, false, not, ◌&&◌, ◌||◌, Option, none, some, if◌then◌else◌, map,
}
use vitrum.Base.Bytes.{Bytes, bytes_eq}
use vitrum.Base.Result.{Result, ok, err}

-- config.Log and fetchableLog.
pub record Log : Type 0 where
  pub origin : Bytes
  pub vkey : Bytes

pub record FetchableLog : Type 0 where
  pub name : Bytes
  pub monitoring_url : Bytes
  pub log : Log

pub data ResolveError : Type 0 where
  mutually_exclusive missing_flags : ResolveError
  unknown_name : Bytes → List Bytes → ResolveError

abbrev pub is_empty : Bytes → Bool
is_empty [] = true
is_empty (c ∷ r) = false

-- The two registries, config.Logs and fetchableLogs, are arguments.
unfoldable pub config_log : Bytes → List Log → Option Log
config_log origin [] = none
config_log origin (l ∷ r) =
    let rest = config_log origin r in if bytes_eq l.origin origin then some l else rest

abbrev pub fetchable_names : List FetchableLog → List Bytes
fetchable_names logs = map (λ (l : FetchableLog). l.name) logs

unfoldable pub find_name : Bytes → List FetchableLog → Option FetchableLog
find_name name [] = none
find_name name (l ∷ r) =
    let rest = find_name name r in if bytes_eq l.name name then some l else rest

unfoldable pub fetchable_by_name : List FetchableLog → Bytes → Option FetchableLog
unfolding find_name
fetchable_by_name logs name = if is_empty name then none else find_name name logs

abbrev pub named :
    List FetchableLog → Bytes → Option FetchableLog → Result ResolveError FetchableLog
named logs name none = err (unknown_name name (fetchable_names logs))
named logs name (some l) = ok l

unfoldable pub resolve_log :
    List FetchableLog → Bytes → Bytes → Bytes → Bytes → Result ResolveError FetchableLog
unfolding fetchable_by_name
resolve_log logs name url origin log_key =
    if not (is_empty name)
    then (if not (is_empty url) || not (is_empty origin) || not (is_empty log_key)
        then err mutually_exclusive
        else named logs name (fetchable_by_name logs name))
    else if is_empty url || is_empty origin || is_empty log_key
    then err missing_flags
    else ok (record {
      name = [];
      monitoring_url = url;
      log = record { origin = origin; vkey = log_key };
    })
