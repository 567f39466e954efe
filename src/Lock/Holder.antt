-- ===== src/Lock/Holder.antt =====
-- Mutual exclusion of internal/lock/lock.go: nobody takes a lock from its holder.
use cache_grid.Base.{
  ℕ, suc, ◌+◌, ◌^◌, ◌<◌, ◌≤◌, ◌≡◌, ◌≢◌, ◌∙◌, Bytes, Bytes-discrete, none, some, arith, Option-cases,
  Bool-cases, inl, inr,
}
use cache_grid.Base.Int.{ℤ}
use cache_grid.Base.GoMap.{lookup-insert_ne, lookup-delete_ne}
use cache_grid.Lock.Engine.{
  Entry, Engine, find, is_expired, add_time, is_held, acquire, release, extend,
}
use cache_grid.Lock.Calls.{unexpired, find-cleanup}
use cache_grid.Lock.Invariant.{IsValid, Step, Steps, Steps-IsValid}

-- A call that neither shows the holder's token for the key nor reads the clock after the expiry of
-- the lock. All calls on other keys are such.
abbrev pub IsForeign : Bytes → Entry → {e f : Engine} → Step e f → Type 0
IsForeign key h (Step.acquire e k ttl owner token t₁ t₂) = k ≡ key → t₁ ≤ h.expires_at
IsForeign key h (Step.release e k token) = k ≡ key → token ≢ h.token
IsForeign key h (Step.extend e k token ttl t₁ t₂) = k ≡ key → token ≢ h.token
IsForeign key h (Step.cleanup e clock) = clock key ≤ h.expires_at

acquire_foreign :
    (e : Engine) (key k : Bytes) (h : Entry) (ttl : ℤ) (owner token : Bytes) (t₁ t₂ : ℕ)
    → (k ≡ key → t₁ ≤ h.expires_at)
    → find e key ≡ some h
    → find (acquire e k ttl owner token t₁ t₂).0 key ≡ some h
unfolding acquire is_held is_expired
acquire_foreign e key k h ttl owner token t₁ t₂ early held = elim (Bytes-discrete k key) [
  | yes same ↦ ground (arith, early same)
  | no other ↦ elim (Bool-cases (is_held e k t₁)) [
    | inl busy ↦ rw busy held
    | inr free ↦ rw free (lookup-insert_ne Bytes-discrete k key _ e.locks other ∙ held)
  ]
]

release_foreign :
    (e : Engine) (key k token : Bytes) (h : Entry)
    → (k ≡ key → token ≢ h.token)
    → find e key ≡ some h
    → find (release e k token).0 key ≡ some h
unfolding release
release_foreign e key k token h wrong held = elim (Bytes-discrete k key) [
  | yes same ↦ ground (arith, wrong same)
  | no other ↦ ground (arith, lookup-delete_ne Bytes-discrete k key e.locks other)
]

extend_foreign :
    (e : Engine) (key k token : Bytes) (h : Entry) (ttl : ℤ) (t₁ t₂ : ℕ)
    → (k ≡ key → token ≢ h.token)
    → find e key ≡ some h
    → find (extend e k token ttl t₁ t₂).0 key ≡ some h
unfolding extend
extend_foreign e key k token h ttl t₁ t₂ wrong held = elim (Bytes-discrete k key) [
  | yes same ↦ ground (arith, wrong same)
  | no other ↦ elim (Option-cases (find e k)) [
    | inl absent ↦ ground arith
    | inr (x, found) ↦ ground (
      arith,
      lookup-insert_ne Bytes-discrete k key (record x { expires_at = add_time t₂ ttl }) e.locks
          other,
    )
  ]
]

Step-foreign :
    {e f : Engine} (key : Bytes) (h : Entry) (st : Step e f)
    → IsForeign key h st
    → IsValid e
    → find e key ≡ some h
    → find f key ≡ some h
unfolding unexpired is_expired
Step-foreign key h (Step.acquire e k ttl owner token t₁ t₂) q v held =
    acquire_foreign e key k h ttl owner token t₁ t₂ q held
Step-foreign key h (Step.release e k token) q v held = release_foreign e key k token h q held
Step-foreign key h (Step.extend e k token ttl t₁ t₂) q v held =
    extend_foreign e key k token h ttl t₁ t₂ q held
Step-foreign key h (Step.cleanup e clock) q v held =
    ground (arith, find-cleanup e clock key v.unique)

-- A history whose every call is foreign to the holder.
pub data Foreign (key : Bytes) (h : Entry) (e : Engine) : ℕ → Engine → Type 0 where
  here : Foreign key h e 0 e
  next :
      {n : ℕ} {f g : Engine}
      → Foreign key h e n f
      → (st : Step f g) → IsForeign key h st
      → Foreign key h e (suc n) g

Foreign-Steps : {key : Bytes} {h : Entry} {e f : Engine} {n : ℕ} → Foreign key h e n f → Steps e n f
Foreign-Steps here = Steps.here
Foreign-Steps (next r st q) = Steps.next (Foreign-Steps r) st

Foreign-held :
    (key : Bytes) (h : Entry) {e : Engine} {n : ℕ} {f : Engine}
    → Foreign key h e n f
    → e.fencing_seq + n < 2 ^ 64
    → IsValid e
    → find e key ≡ some h
    → find f key ≡ some h
Foreign-held key h here small v held = held
Foreign-held key h (next r st q) small v held =
    Step-foreign key h st q (Steps-IsValid (Foreign-Steps r) (omega arith) v).0
      (Foreign-held key h r (omega arith) v held)

held_refuses :
    (f : Engine) (key : Bytes) (h : Entry) (ttl : ℤ) (owner token : Bytes) (t₁ t₂ : ℕ)
    → find f key ≡ some h
    → t₁ ≤ h.expires_at
    → (acquire f key ttl owner token t₁ t₂).1 ≡ none
unfolding acquire is_held is_expired
held_refuses f key h ttl owner token t₁ t₂ held early = ground arith

-- A holder keeps its lock through any history of calls that do not show its token and that read the
-- clock no later than the expiry, as long as the 64-bit counter does not wrap: the entry is the
-- same, and up to the expiry an `Acquire` of the key is refused.
pub holder_keeps :
    {e f : Engine} {n : ℕ} (key : Bytes) (h : Entry) (ttl : ℤ) (owner token : Bytes) (t₁ t₂ : ℕ)
    → Foreign key h e n f
    → e.fencing_seq + n < 2 ^ 64
    → IsValid e
    → find e key ≡ some h
    → t₁ ≤ h.expires_at
    → (find f key ≡ some h) × ((acquire f key ttl owner token t₁ t₂).1 ≡ none)
holder_keeps {f} key h ttl owner token t₁ t₂ r small v held early =
    let kept = Foreign-held key h r small v held in
    (kept, held_refuses f key h ttl owner token t₁ t₂ kept early)
