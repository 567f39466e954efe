-- ===== src/Lock/Calls.antt =====
-- What each call of internal/lock/lock.go does to the lock of its key and to the others.
use cache_grid.Base.{
  ℕ, ◌+◌, ◌%◌, ◌^◌, ◌≡◌, ◌≢◌, ◌↔◌, refl, Bytes, Bytes-discrete, List, [], ◌∷◌, Option, none, some,
  true, false, not, ltb, if◌then◌else◌, lookup, arith, Option-cases, Bool-cases, inl, inr, All,
}
use mathlib.Core.Option
use cache_grid.Base.Int.{ℤ}
use cache_grid.Base.GoMap.{
  lookup-insert_self, lookup-insert_ne, lookup-delete, lookup-delete_ne, lookup-delete_self, Unique,
  lookup-All,
}
use cache_grid.Base.GoMap
use cache_grid.Lock.Engine.{
  Entry, Engine, find, is_expired, add_time, is_held, acquire, release, extend, drop_expired,
  cleanup_loop, cleanup,
}

-- `Acquire` is refused exactly while the lock is held, and a refusal changes nothing.
pub acquire_refused :
    (e : Engine) (key : Bytes) (ttl : ℤ) (owner token : Bytes) (t₁ t₂ : ℕ)
    → (((acquire e key ttl owner token t₁ t₂).1 ≡ none) ↔ (is_held e key t₁ ≡ true))
      × (((acquire e key ttl owner token t₁ t₂).1 ≡ none)
          ↔ (acquire e key ttl owner token t₁ t₂ ≡ (e, none)))
unfolding acquire
acquire_refused e key ttl owner token t₁ t₂ = ground arith

-- `Acquire` of a lock that is not held returns the token and the next fencing token. At any later
-- reading of the clock the lock is held exactly up to the end of its TTL, and the entry of another
-- key is as before.
pub acquire_granted :
    (e : Engine) (key : Bytes) (ttl : ℤ) (owner token : Bytes) (t₁ t₂ now : ℕ) (other : Bytes)
    → is_held e key t₁ ≡ false
    → key ≢ other
    → let e' = (acquire e key ttl owner token t₁ t₂).0 in
      ((acquire e key ttl owner token t₁ t₂).1 ≡ some (token, (e.fencing_seq + 1) % 2 ^ 64))
      × (is_held e' key now ≡ not (ltb (add_time t₂ ttl) now))
      × (find e' other ≡ find e other)
unfolding acquire
acquire_granted e key ttl owner token t₁ t₂ now other free ne =
    let entry : Entry = record {
      key = key;
      token = token;
      fencing_token = (e.fencing_seq + 1) % 2 ^ 64;
      expires_at = add_time t₂ ttl;
      owner = owner;
    } in
    (
      ground arith,
      ground (arith, lookup-insert_self Bytes-discrete key entry e.locks),
      ground (arith, lookup-insert_ne Bytes-discrete key other entry e.locks),
    )

-- `Release` succeeds exactly with the token of the key's entry, expired or not. Then the key has no
-- entry; else nothing changes. The entry of another key is as before.
pub release_lem :
    (e : Engine) (key token other : Bytes)
    → key ≢ other
    → (((release e key token).1 ≡ true)
        ↔ ((entry : Entry) × (find e key ≡ some entry) × (entry.token ≡ token)))
      × (((release e key token).1 ≡ true) ↔ (find (release e key token).0 key ≢ find e key))
      × (find (release e key token).0 key ≡ (if (release e key token).1 then none else find e key))
      × (find (release e key token).0 other ≡ find e other)
unfolding release
release_lem e key token other ne =
    let gone = lookup-delete_self Bytes-discrete key e.locks in
    let kept = lookup-delete_ne Bytes-discrete key other e.locks in
    elim (Option-cases (find e key)) [
      | inl no_entry ↦ (
        (ground arith, λ (x, f, t). ground arith),
        (ground arith, λ h. absurd (h (ground arith))),
        ground arith,
        ground arith,
      )
      | inr (x, found) ↦ (
        (λ h. (x, found, ground arith), λ (y, f, t). ground arith),
        (λ h same. ground (arith, gone), λ h. ground (arith, gone)),
        ground (arith, gone),
        ground (arith, kept),
      )
    ]

extend_others :
    (e : Engine) (key token : Bytes) (ttl : ℤ) (t₁ t₂ : ℕ) (other : Bytes)
    → key ≢ other
    → find (extend e key token ttl t₁ t₂).0 other ≡ find e other
unfolding extend
extend_others e key token ttl t₁ t₂ other ne = elim (Option-cases (find e key)) [
  | inl absent ↦ ground arith
  | inr (x, found) ↦ ground (
    arith,
    lookup-insert_ne Bytes-discrete key other (record x { expires_at = add_time t₂ ttl }) e.locks,
  )
]

-- `Extend` succeeds exactly with the token of an entry that has not expired. Then the expiry of that
-- entry is new, and nothing else of it; else it is as before. So is the entry of another key.
pub extend_lem :
    (e : Engine) (key token : Bytes) (ttl : ℤ) (t₁ t₂ : ℕ) (other : Bytes)
    → key ≢ other
    → let r = extend e key token ttl t₁ t₂ in
      ((r.1 ≡ true) ↔ (
        (entry : Entry) × (find e key ≡ some entry)
        × (is_expired entry t₁ ≡ false)
        × (entry.token ≡ token)))
      × (find r.0 key ≡ (
          if r.1
          then Option.map (λ (x : Entry). record x { expires_at = add_time t₂ ttl }) (find e key)
          else find e key))
      × (find r.0 other ≡ find e other)
unfolding extend
extend_lem e key token ttl t₁ t₂ other ne = elim (Option-cases (find e key)) [
  | inl absent ↦ (
    (ground arith, λ (x, f, l, t). ground arith),
    ground arith,
    extend_others e key token ttl t₁ t₂ other ne,
  )
  | inr (x, found) ↦ (
    (λ h. (x, found, ground arith, ground arith), λ (y, f, l, t). ground arith),
    ground (
      arith,
      lookup-insert_self Bytes-discrete key (record x { expires_at = add_time t₂ ttl }) e.locks,
    ),
    extend_others e key token ttl t₁ t₂ other ne,
  )
]

-- The entry of a key after a tick, if the clock read `now` at that key.
unfoldable pub unexpired : ℕ → Option Entry → Option Entry
unexpired now none = none
unexpired now (some entry) = if is_expired entry now then none else some entry

still_there :
    (e : Engine) (key : Bytes) (rest : List (Bytes × Entry))
    → lookup Bytes-discrete key rest ≡ none
    → All (λ b. find e b.0 ≡ some b.1) rest
    → All (λ b. lookup Bytes-discrete b.0 (GoMap.delete Bytes-discrete key e.locks) ≡ some b.1) rest
unfolding lookup
still_there e key [] absent a = tt
still_there e key ((k, x) ∷ rest) absent a =
    ground (arith, lookup-delete Bytes-discrete key k e.locks, still_there e key rest)

find-cleanup_loop :
    (rest : List (Bytes × Entry)) (e : Engine) (clock : Bytes → ℕ) (k : Bytes)
    → Unique Bytes-discrete rest
    → All (λ b. find e b.0 ≡ some b.1) rest
    → find (cleanup_loop e rest clock) k ≡ (elim (lookup Bytes-discrete k rest) [
      | none ↦ find e k
      | some entry ↦ if is_expired entry (clock k) then none else some entry
    ])
unfolding cleanup_loop drop_expired lookup
find-cleanup_loop [] e clock k u a = refl
find-cleanup_loop ((key, x) ∷ rest) e clock k u a = elim (Bool-cases (is_expired x (clock key))) [
  | inl old ↦
      let e' = record e { locks = GoMap.delete Bytes-discrete key e.locks } in
      ground (
        arith,
        old,
        lookup-delete Bytes-discrete key k e.locks,
        find-cleanup_loop rest e' clock k u.1 (still_there e key rest u.0 a.1),
      )
  | inr live ↦ ground (arith, live, find-cleanup_loop rest e clock k u.1 a.1)
]

-- A tick of the cleanup removes exactly the entries that have expired.
pub find-cleanup :
    (e : Engine) (clock : Bytes → ℕ) (k : Bytes)
    → Unique Bytes-discrete e.locks
    → find (cleanup e clock) k ≡ unexpired (clock k) (find e k)
unfolding cleanup unexpired
find-cleanup e clock k u =
    let there = lookup-All Bytes-discrete e.locks u in
    elim (Option-cases (find e k)) [
      | inl no_entry ↦ ground (arith, find-cleanup_loop e.locks e clock k u there)
      | inr (x, found) ↦ ground (arith, find-cleanup_loop e.locks e clock k u there)
    ]
