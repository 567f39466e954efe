-- ===== src/Lock/Fencing.antt =====
-- The fencing tokens of internal/lock/lock.go over any history of calls.
use cache_grid.Base.{ℕ, suc, ◌+◌, ◌^◌, ◌<◌, ◌≡◌, Bytes, some, arith}
use cache_grid.Base.Int.{ℤ}
use cache_grid.Lock.Engine
use cache_grid.Lock.Engine.{
  Entry, Engine, new_engine, find, is_expired, add_time, is_held, drop_expired, cleanup_loop,
}
use cache_grid.Lock.Invariant.{IsValid, Steps, Steps-IsValid, acquire-IsValid}

acquire_fencing :
    (e : Engine) (key : Bytes) (ttl : ℤ) (owner token : Bytes) (t₁ t₂ : ℕ) {got : Bytes}
    {fencing : ℕ}
    → (Engine.acquire e key ttl owner token t₁ t₂).1 ≡ some (got, fencing)
    → suc e.fencing_seq < 2 ^ 64
    → (fencing ≡ suc e.fencing_seq)
      × ((Engine.acquire e key ttl owner token t₁ t₂).0.fencing_seq ≡ fencing)
unfolding Engine.acquire
acquire_fencing e key ttl owner token t₁ t₂ granted small = ground arith

-- Starting from a valid engine, whatever happens between two grants, on whatever keys, the later
-- one has the greater fencing token, as long as the 64-bit counter does not wrap.
pub fencing_increases :
    (e f : Engine) (n : ℕ) (j k : Bytes) (ttl ttl' : ℤ) (owner owner' token token' : Bytes)
    (t₁ t₂ t₃ t₄ : ℕ) (got got' : Bytes) (first second : ℕ)
    → IsValid e
    → e.fencing_seq + n + 2 < 2 ^ 64
    → (Engine.acquire e j ttl owner token t₁ t₂).1 ≡ some (got, first)
    → Steps (Engine.acquire e j ttl owner token t₁ t₂).0 n f
    → (Engine.acquire f k ttl' owner' token' t₃ t₄).1 ≡ some (got', second)
    → first < second
fencing_increases e f n j k ttl ttl' owner owner' token token' t₁ t₂ t₃ t₄ got got' first second v
      small h r h' =
    let (is_next, at_first) =
      acquire_fencing e j ttl owner token t₁ t₂ {got = got} {fencing = first} h (omega arith) in
    let (v', _, _) = acquire-IsValid e j ttl owner token t₁ t₂ (omega arith) v in
    let (_, most, least) = Steps-IsValid r (omega arith) v' in
    let (is_next', _) =
      acquire_fencing f k ttl' owner' token' t₃ t₄ {got = got'} {fencing = second} h'
        (omega arith) in
    omega arith
