-- ===== src/Client/Logs/Resolves.antt =====
-- cmd/vitrum/logs.go: a log that is resolved is complete.
use vitrum.Base.{
  List, [], ◌∷◌, true, false, not, ◌||◌, Option, none, some, ◌≡◌, ◌≢◌, inl, inr, refl, if-elim,
  arith, All, Bool-cases, subst,
}
use vitrum.Base.Bytes.{Bytes, bytes_eq, bytes_eq_iff}
use vitrum.Base.Result.{Result, ok, err}
use vitrum.Client.Logs.{
  FetchableLog, ResolveError, mutually_exclusive, missing_flags, is_empty, find_name,
  fetchable_by_name, named, resolve_log,
}

-- A log that has an address, an origin and a key.
abbrev pub IsComplete : FetchableLog → Type 0
IsComplete l = (l.monitoring_url ≢ []) × (l.log.origin ≢ []) × (l.log.vkey ≢ [])

-- A registered log with the name, or the flags' own log.
abbrev pub IsResolved : Bytes → Result ResolveError FetchableLog → Type 0
IsResolved name (err e) = Unit {0}
IsResolved name (ok l) = (l.name ≡ name) × IsComplete l

find_name-IsResolved :
    (name : Bytes) (logs : List FetchableLog) (l : FetchableLog)
    → All IsComplete logs
    → find_name name logs ≡ some l
    → (l.name ≡ name) × IsComplete l
unfolding find_name
find_name-IsResolved name [] l h e = cc
find_name-IsResolved name (x ∷ r) l (hx, hr) e = elim (Bool-cases (bytes_eq x.name name)) [
  | inl same ↦
      let found : x ≡ l = ground arith in
      subst (λ (y : FetchableLog). (y.name ≡ name) × IsComplete y) found
        ((bytes_eq_iff x.name name).0 same, hx)
  | inr other ↦ find_name-IsResolved name r l hr (ground arith)
]

not_empty : (b : Bytes) → is_empty b ≡ false → b ≢ []
not_empty [] h e = cc
not_empty (c ∷ b) h e = cc

empty_nil : (b : Bytes) → is_empty b ≡ true → [] ≡ b
empty_nil [] h = refl
empty_nil (c ∷ b) h = cc

named-IsResolved :
    (logs : List FetchableLog) (name : Bytes) (o : Option FetchableLog)
    → All IsComplete logs
    → fetchable_by_name logs name ≡ o
    → IsResolved name (named logs name o)
unfolding fetchable_by_name
named-IsResolved logs name none h e = tt
named-IsResolved logs name (some l) h e = find_name-IsResolved name logs l h (ground arith)

-- A registry of complete logs resolves to complete logs.
pub resolve_log-IsResolved :
    (logs : List FetchableLog) (name url origin log_key : Bytes)
    → All IsComplete logs
    → IsResolved name (resolve_log logs name url origin log_key)
unfolding resolve_log fetchable_by_name
resolve_log-IsResolved logs name url origin log_key h =
    let explicit : FetchableLog = record {
      name = [];
      monitoring_url = url;
      log = record { origin = origin; vkey = log_key };
    } in
    if-elim (IsResolved name) (not (is_empty name)) _ _
      (λ given.
        if-elim (IsResolved name)
          (not (is_empty url) || not (is_empty origin) || not (is_empty log_key))
          (err mutually_exclusive) (named logs name (fetchable_by_name logs name)) (λ both. tt)
          (λ alone. named-IsResolved logs name (fetchable_by_name logs name) h refl))
      (λ absent.
        if-elim (IsResolved name) (is_empty url || is_empty origin || is_empty log_key)
          (err missing_flags) (ok explicit) (λ missing. tt)
          (λ complete. (
            empty_nil name (ground arith),
            (
              not_empty url (ground arith),
              not_empty origin (ground arith),
              not_empty log_key (ground arith),
            ),
          )))
