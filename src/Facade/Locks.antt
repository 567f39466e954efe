-- ===== src/Facade/Locks.antt =====
-- lock.go: locks of the cache, on this node or on the owner of the key, with retries.
use cache_grid.Base.{
  ℕ, zero, suc, Bytes, [], ◌∷◌, Option, none, some, Bool, true, false, if◌then◌else◌,
}
use cache_grid.Base.Int.{ℤ, pos, pos_part, ltb_ℤ}
use cache_grid.Lock.Engine
use cache_grid.Lock.Engine.{Engine}
use cache_grid.Rpc.Client.{
  Network, Outcome, returned, failed, remote_lock_acquire, remote_lock_release, remote_lock_extend,
}
use cache_grid.Facade.Parts.{
  Store, Cache, CacheError, err_key_empty, err_shutdown, err_remote, err_lock_not_acquired,
  err_lock_not_held,
}
use cache_grid.Facade.Routing.{owner_addr, self_owner}
use cache_grid.Facade.Ops.{is_empty}

pub record LockHandle : Type 0 where
  pub key : Bytes
  pub token : Bytes
  pub fencing_token : ℕ
  pub owner_addr : Bytes

abbrev pub handle_token : LockHandle → ℕ
handle_token h = h.fencing_token

-- The key under which the engine keeps a lock.
unfoldable pub lock_key : Bytes → Bytes
lock_key key = b'_' ∷ b'_' ∷ b'l' ∷ b'o' ∷ b'c' ∷ b'k' ∷ b':' ∷ key

-- What comes of a lock: a handle or an error.
pub data Locked : Type 0 where
  locked : LockHandle → Locked
  refused : CacheError → Locked

-- An answer of the other node to `Release` or `Extend`.
unfoldable pub held_or_error : Outcome Bool → Option CacheError
held_or_error (returned true) = none
held_or_error (returned false) = some err_lock_not_held
held_or_error (failed e) = some (err_remote e)

-- The number of attempts for a retry count: none for a negative one.
unfoldable pub attempts : ℤ → ℕ
attempts retry_count = if ltb_ℤ retry_count (pos 0) then 0 else suc (pos_part retry_count)

module _ {st : Store} {n : Network} where
  unfoldable pub release : Cache st n → LockHandle → Cache st n × Option CacheError
  unfolding held_or_error
  release c h = elim h.owner_addr [
    | a ∷ addr ↦
        let ((w, t), outcome) =
          remote_lock_release n c.world c.transport (a ∷ addr) h.key h.token in
        (record c { world = w; transport = t }, held_or_error outcome)
    | [] ↦
        let (e, ok) = Engine.release c.lock_engine h.key h.token in
        (record c { lock_engine = e }, if ok then none else some err_lock_not_held)
  ]

  -- `now` is what the clock reads on this node.
  unfoldable pub extend : Cache st n → LockHandle → ℤ → ℕ → Cache st n × Option CacheError
  unfolding held_or_error
  extend c h ttl now = elim h.owner_addr [
    | a ∷ addr ↦
        let ((w, t), outcome) =
          remote_lock_extend n c.world c.transport (a ∷ addr) h.key h.token ttl in
        (record c { world = w; transport = t }, held_or_error outcome)
    | [] ↦
        let (e, ok) = Engine.extend c.lock_engine h.key h.token ttl now now in
        (record c { lock_engine = e }, if ok then none else some err_lock_not_held)
  ]

  -- One attempt; none is a lock that is held. `token` is the random token of this node's engine.
  unfoldable pub attempt : Cache st n → Bytes → ℤ → Bytes → ℕ → Cache st n × Option Locked
  attempt c key ttl token now = elim (owner_addr c.cluster key) [
    | a ∷ addr ↦
        let ((w, t), outcome) = remote_lock_acquire n c.world c.transport (a ∷ addr) key ttl in
        (
          record c { world = w; transport = t },
          elim outcome [
            | failed e ↦ some (refused (err_remote e))
            | returned r ↦
                if r.2
                then some (
                    locked (record {
                      key = key;
                      token = r.0;
                      fencing_token = r.1;
                      owner_addr = a ∷ addr;
                    }))
                else none
          ],
        )
    | [] ↦
        let (e, granted) = Engine.acquire c.lock_engine key ttl (self_owner c) token now now in
        (
          record c { lock_engine = e },
          elim granted [
            | none ↦ none
            | some g ↦
                some
                  (locked (record { key = key; token = g.0; fencing_token = g.1; owner_addr = [] }))
          ],
        )
  ]

  -- The loop over the attempts. Attempt `i` reads the clock at `clock i` and draws `tokens i`;
  -- `meanwhile i` is what others do to the cache before the next attempt.
  unfoldable pub lock_loop :
      (ℕ → Bytes)
      → (ℕ → ℕ)
      → (ℕ → Cache st n → Cache st n)
      → Bytes
      → ℤ
      → ℕ
      → Cache st n
      → Cache st n × Locked
  unfolding attempt
  lock_loop tokens clock meanwhile key ttl zero c = (c, refused err_lock_not_acquired)
  lock_loop tokens clock meanwhile key ttl (suc left) c =
      let (c', result) = attempt c key ttl (tokens 0) (clock 0) in
      let later =
        lock_loop (λ i. tokens (suc i)) (λ i. clock (suc i)) (λ i. meanwhile (suc i)) key ttl left
          (elim left [ zero ↦ c' | suc _ ↦ meanwhile 0 c' ]) in
      elim result [ some r ↦ (c', r) | none ↦ later ]

  unfoldable pub lock :
      (ℕ → Bytes)
      → (ℕ → ℕ)
      → (ℕ → Cache st n → Cache st n)
      → Cache st n
      → Bytes
      → ℤ
      → ℤ
      → Cache st n × Locked
  unfolding lock_loop lock_key attempts
  lock tokens clock meanwhile c key ttl retry_count =
      if is_empty key
      then (c, refused err_key_empty)
      else if c.closed
      then (c, refused err_shutdown)
      else lock_loop tokens clock meanwhile (lock_key key) ttl (attempts retry_count) c

  -- One attempt, and no error but the answer false, which is none.
  unfoldable pub try_lock : Cache st n → Bytes → ℤ → Bytes → ℕ → Cache st n × Option LockHandle
  unfolding lock
  try_lock c key ttl token now =
      let (c', result) = lock (λ _. token) (λ _. now) (λ _ x. x) c key ttl (pos 0) in
      (c', elim result [ locked h ↦ some h | refused _ ↦ none ])
