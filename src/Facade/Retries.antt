-- ===== src/Facade/Retries.antt =====
-- How `Lock` of lock.go waits for a lock of this node.
use cache_grid.Base.{
  ℕ, zero, suc, ◌+◌, ◌≤◌, ◌<◌, ◌%◌, ◌^◌, ◌≡◌, ap, ◌∙◌, Bytes, [], Option, none, some, true, false,
  arith,
}
use cache_grid.Base.Int.{ℤ, pos}
use cache_grid.Lock.Engine
use cache_grid.Lock.Engine.{is_held}
use cache_grid.Rpc.Client.{Network}
use cache_grid.Facade.Parts.{Store, Cache}
use cache_grid.Facade.Routing.{owner_addr}
use cache_grid.Facade.Ops.{is_empty}
use cache_grid.Facade.Locks.{
  LockHandle, lock_key, Locked, locked, attempt, lock_loop, attempts, lock,
}

module _ {st : Store} {n : Network} where
  -- The cache before attempt number `k`, if the attempts before it were refused.
  unfoldable pub waited : (ℕ → Cache st n → Cache st n) → ℕ → Cache st n → Cache st n
  waited meanwhile zero c = c
  waited meanwhile (suc k) c = waited (λ i. meanwhile (suc i)) k (meanwhile 0 c)

  -- The handle that an attempt on this node gets.
  abbrev pub granted : Cache st n → Bytes → Bytes → LockHandle
  granted c key token = record {
    key = key;
    token = token;
    fencing_token = (c.lock_engine.fencing_seq + 1) % 2 ^ 64;
    owner_addr = [];
  }

  attempt-refused :
      (c : Cache st n) (key token : Bytes) (ttl : ℤ) (now : ℕ)
      → owner_addr c.cluster key ≡ []
      → is_held c.lock_engine key now ≡ true
      → attempt c key ttl token now ≡ (c, none)
  unfolding attempt Engine.acquire
  attempt-refused c key token ttl now here held = ground arith

  attempt-granted :
      (c : Cache st n) (key token : Bytes) (ttl : ℤ) (now : ℕ)
      → owner_addr c.cluster key ≡ []
      → is_held c.lock_engine key now ≡ false
      → (attempt c key ttl token now).1 ≡ some (locked (granted c key token))
  unfolding attempt Engine.acquire
  attempt-granted c key token ttl now here free = ground arith

  -- A refused attempt that is not the last one.
  lock_loop-refused :
      (left : ℕ) (tokens : ℕ → Bytes) (clock : ℕ → ℕ) (meanwhile : ℕ → Cache st n → Cache st n)
      (key : Bytes) (ttl : ℤ) (c : Cache st n)
      → attempt c key ttl (tokens 0) (clock 0) ≡ (c, none)
      → lock_loop tokens clock meanwhile key ttl (suc (suc left)) c
        ≡ lock_loop
            (λ i. tokens (suc i))
            (λ i. clock (suc i))
            (λ i. meanwhile (suc i))
            key
            ttl
            (suc left)
            (meanwhile 0 c)
  unfolding lock_loop
  lock_loop-refused left tokens clock meanwhile key ttl c refusal =
      ap
        (λ (r : Cache st n × Option Locked). elim r.1 as (λ _. Cache st n × Locked) [
          | some x ↦ (r.0, x)
          | none ↦
              lock_loop (λ i. tokens (suc i)) (λ i. clock (suc i)) (λ i. meanwhile (suc i)) key ttl
                (suc left) (meanwhile 0 r.0)
        ])
        refusal

  lock_loop_lem :
      (k left : ℕ) (tokens : ℕ → Bytes) (clock : ℕ → ℕ) (meanwhile : ℕ → Cache st n → Cache st n)
      (key : Bytes) (ttl : ℤ) (c : Cache st n)
      → k < left
      → ((j : ℕ) → j ≤ k → owner_addr (waited meanwhile j c).cluster key ≡ [])
      → ((j : ℕ) → j < k → is_held (waited meanwhile j c).lock_engine key (clock j) ≡ true)
      → is_held (waited meanwhile k c).lock_engine key (clock k) ≡ false
      → (lock_loop tokens clock meanwhile key ttl left c).1
        ≡ locked (granted (waited meanwhile k c) key (tokens k))
  unfolding lock_loop waited
  lock_loop_lem k zero tokens clock meanwhile key ttl c lt here held free = absurd (omega arith)
  lock_loop_lem zero (suc left) tokens clock meanwhile key ttl c lt here held free =
      ground (arith, attempt-granted c key (tokens 0) ttl (clock 0) (here 0 (omega arith)) free)
  lock_loop_lem (suc k) (suc zero) tokens clock meanwhile key ttl c lt here held free =
      absurd (omega arith)
  lock_loop_lem (suc k) (suc (suc left)) tokens clock meanwhile key ttl c lt here held free =
      ap (λ r. r.1)
        (lock_loop-refused left tokens clock meanwhile key ttl c (
          attempt-refused c key (tokens 0) ttl (clock 0) (here 0 (omega arith))
            (held 0 (omega arith))))
      ∙ lock_loop_lem k (suc left) (λ i. tokens (suc i)) (λ i. clock (suc i))
          (λ i. meanwhile (suc i)) key ttl (meanwhile 0 c) (omega arith)
          (λ j h. here (suc j) (omega arith)) (λ j h. held (suc j) (omega arith)) free

-- On an open cache, `Lock` of a key whose lock is kept on this node waits for it: if the lock is held
-- at the attempts before number `k` and free at that one, which is not after the last retry, it
-- returns a handle with the token drawn then and the next fencing token. What others do between
-- two attempts is any change of the cache that leaves the lock on this node.
pub lock_waits :
    {st : Store} {n : Network} (tokens : ℕ → Bytes) (clock : ℕ → ℕ)
    (meanwhile : ℕ → Cache st n → Cache st n) (c : Cache st n) (key : Bytes) (ttl : ℤ)
    (retries k : ℕ)
    → is_empty key ≡ false
    → c.closed ≡ false
    → k ≤ retries
    → ((j : ℕ) → j ≤ k → owner_addr (waited meanwhile j c).cluster (lock_key key) ≡ [])
    → ((j : ℕ) → j < k → is_held (waited meanwhile j c).lock_engine (lock_key key) (clock j) ≡ true)
    → is_held (waited meanwhile k c).lock_engine (lock_key key) (clock k) ≡ false
    → (lock tokens clock meanwhile c key ttl (pos retries)).1
      ≡ locked (granted (waited meanwhile k c) (lock_key key) (tokens k))
unfolding lock attempts
lock_waits tokens clock meanwhile c key ttl retries k named open_cache le here held free = ground (
  arith,
  lock_loop_lem k (suc retries) tokens clock meanwhile (lock_key key) ttl c (omega arith) here held
      free,
)
