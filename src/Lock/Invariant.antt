-- ===== src/Lock/Invariant.antt =====
-- The lock engine of internal/lock/lock.go over any history of calls: fencing tokens.
use cache_grid.Base.{
  ℕ, suc, ◌+◌, ◌^◌, ◌<◌, ◌≤◌, ◌≡◌, refl, ◌∙◌, Bytes, Bytes-discrete, List, [], ◌∷◌, some, ite,
  lookup, arith, Option-cases, Bool-cases, inl, inr,
}
use cache_grid.Base.Int.{ℤ}
use cache_grid.Base.GoMap
use cache_grid.Base.GoMap.{Unique, lookup-insert, lookup-delete, delete-Unique, insert-Unique}
use cache_grid.Lock.Engine
use cache_grid.Lock.Engine.{
  Entry, Engine, new_engine, find, is_expired, add_time, is_held, drop_expired, cleanup_loop,
}

-- Every lock in the table was issued: its fencing token is at most the last one, and two keys have
-- two fencing tokens.
pub record IsValid (e : Engine) : Type 0 where
  pub unique : Unique Bytes-discrete e.locks
  pub issued :
      (k : Bytes) (x : Entry) → find e k ≡ some x → (x.key ≡ k) × (x.fencing_token ≤ e.fencing_seq)
  pub separate :
      (j k : Bytes) (x y : Entry)
      → find e j ≡ some x
      → find e k ≡ some y
      → x.fencing_token ≡ y.fencing_token
      → j ≡ k

pub new_engine-IsValid : IsValid new_engine
unfolding new_engine lookup
new_engine-IsValid = record { unique = tt; issued = λ k x h. cc; separate = λ j k x y h. cc }

-- A call, with what it reads of the clock and of the random numbers.
pub data Step : Engine → Engine → Type 0 where
  acquire :
      (e : Engine) (key : Bytes) (ttl : ℤ) (owner token : Bytes) (t₁ t₂ : ℕ)
      → Step e (Engine.acquire e key ttl owner token t₁ t₂).0
  release : (e : Engine) (key token : Bytes) → Step e (Engine.release e key token).0
  extend :
      (e : Engine) (key token : Bytes) (ttl : ℤ) (t₁ t₂ : ℕ)
      → Step e (Engine.extend e key token ttl t₁ t₂).0
  cleanup : (e : Engine) (clock : Bytes → ℕ) → Step e (Engine.cleanup e clock)

delete-IsValid :
    (e : Engine) (key : Bytes)
    → IsValid e
    → IsValid (record e { locks = GoMap.delete Bytes-discrete key e.locks })
delete-IsValid e key v = record {
  unique = delete-Unique Bytes-discrete key e.locks v.unique;
  issued = λ k x h. v.issued k x (found_before k x h);
  separate = λ j k x y hj hk. v.separate j k x y (found_before j x hj) (found_before k y hk);
}
  where
    found_before :
        (k : Bytes) (x : Entry)
        → lookup Bytes-discrete k (GoMap.delete Bytes-discrete key e.locks) ≡ some x
        → find e k ≡ some x
    found_before k x h = ground (arith, lookup-delete Bytes-discrete key k e.locks)

-- A new entry whose fencing token is above all others keeps the table valid.
insert_new-IsValid :
    (e : Engine) (key : Bytes) (entry : Entry)
    → IsValid e
    → entry.key ≡ key
    → e.fencing_seq < entry.fencing_token
    → IsValid (record e {
      locks = GoMap.insert Bytes-discrete key entry e.locks;
      fencing_seq = entry.fencing_token;
    })
insert_new-IsValid e key entry v named above = record {
  unique = insert-Unique Bytes-discrete key entry e.locks v.unique;
  issued = λ k x h. ground (arith, at k, v.issued k x);
  separate = λ j k x y hj hk same.
      ground (arith, at j, at k, v.issued j x, v.issued k y, v.separate j k x y);
}
  where
    at :
        (k : Bytes)
        → lookup Bytes-discrete k (GoMap.insert Bytes-discrete key entry e.locks)
          ≡ ite (Bytes-discrete key k) (some entry) (find e k)
    at k = lookup-insert Bytes-discrete key k entry e.locks

insert_same-IsValid :
    (e : Engine) (key : Bytes) (old entry : Entry)
    → IsValid e
    → find e key ≡ some old
    → entry.key ≡ old.key
    → entry.fencing_token ≡ old.fencing_token
    → IsValid (record e { locks = GoMap.insert Bytes-discrete key entry e.locks })
insert_same-IsValid e key old entry v found named same = record {
  unique = insert-Unique Bytes-discrete key entry e.locks v.unique;
  issued = λ k x h. ground (arith, at k, v.issued k x, v.issued key old found);
  separate = λ j k x y hj hk eq.
      ground
        (arith, at j, at k, v.separate j k x y, v.separate key k old y, v.separate j key x old);
}
  where
    at :
        (k : Bytes)
        → lookup Bytes-discrete k (GoMap.insert Bytes-discrete key entry e.locks)
          ≡ ite (Bytes-discrete key k) (some entry) (find e k)
    at k = lookup-insert Bytes-discrete key k entry e.locks

drop_expired-IsValid :
    (e : Engine) (key : Bytes) (x : Entry) (now : ℕ)
    → IsValid e
    → IsValid (drop_expired e key x now) × ((drop_expired e key x now).fencing_seq ≡ e.fencing_seq)
unfolding drop_expired
drop_expired-IsValid e key x now v = ground (arith, delete-IsValid e key v)

cleanup_loop-IsValid :
    (rest : List (Bytes × Entry)) (e : Engine) (clock : Bytes → ℕ)
    → IsValid e
    → IsValid (cleanup_loop e rest clock)
      × ((cleanup_loop e rest clock).fencing_seq ≡ e.fencing_seq)
unfolding cleanup_loop
cleanup_loop-IsValid [] e clock v = (v, refl)
cleanup_loop-IsValid ((key, x) ∷ rest) e clock v =
    let (kept, same) = drop_expired-IsValid e key x (clock key) v in
    let (kept', same') = cleanup_loop-IsValid rest (drop_expired e key x (clock key)) clock kept in
    (kept', same' ∙ same)

pub acquire-IsValid :
    (e : Engine) (key : Bytes) (ttl : ℤ) (owner token : Bytes) (t₁ t₂ : ℕ)
    → suc e.fencing_seq < 2 ^ 64
    → IsValid e
    → IsValid (Engine.acquire e key ttl owner token t₁ t₂).0
      × ((Engine.acquire e key ttl owner token t₁ t₂).0.fencing_seq ≤ suc e.fencing_seq)
      × (e.fencing_seq ≤ (Engine.acquire e key ttl owner token t₁ t₂).0.fencing_seq)
unfolding Engine.acquire
acquire-IsValid e key ttl owner token t₁ t₂ small v = elim (Bool-cases (is_held e key t₁)) [
  | inl held ↦ rw held (v, omega arith, omega arith)
  | inr free ↦ rw free (insert_new-IsValid e key _ v refl (omega arith), omega arith, omega arith)
]

release-IsValid :
    (e : Engine) (key token : Bytes)
    → IsValid e
    → IsValid (Engine.release e key token).0
      × ((Engine.release e key token).0.fencing_seq ≡ e.fencing_seq)
unfolding Engine.release
release-IsValid e key token v = ground (arith, delete-IsValid e key v)

extend-IsValid :
    (e : Engine) (key token : Bytes) (ttl : ℤ) (t₁ t₂ : ℕ)
    → IsValid e
    → IsValid (Engine.extend e key token ttl t₁ t₂).0
      × ((Engine.extend e key token ttl t₁ t₂).0.fencing_seq ≡ e.fencing_seq)
unfolding Engine.extend
extend-IsValid e key token ttl t₁ t₂ v = elim (Option-cases (find e key)) [
  | inl absent ↦ ground arith
  | inr (x, found) ↦ ground (
    arith,
    insert_same-IsValid e key x (record x { expires_at = add_time t₂ ttl }) v found refl refl,
  )
]

-- One call: the table stays valid and the last fencing token grows by at most one, as long as the
-- 64-bit counter does not wrap.
pub Step-IsValid :
    {e f : Engine}
    → Step e f
    → suc e.fencing_seq < 2 ^ 64
    → IsValid e
    → IsValid f × (f.fencing_seq ≤ suc e.fencing_seq) × (e.fencing_seq ≤ f.fencing_seq)
unfolding Engine.cleanup
Step-IsValid (acquire e key ttl owner token t₁ t₂) small v =
    acquire-IsValid e key ttl owner token t₁ t₂ small v
Step-IsValid (release e key token) small v = ground (arith, release-IsValid e key token v)
Step-IsValid (extend e key token ttl t₁ t₂) small v =
    ground (arith, extend-IsValid e key token ttl t₁ t₂ v)
Step-IsValid (cleanup e clock) small v = ground (arith, cleanup_loop-IsValid e.locks e clock v)

-- A history of so many calls.
pub data Steps (e : Engine) : ℕ → Engine → Type 0 where
  here : Steps e 0 e
  next : {n : ℕ} {f g : Engine} → Steps e n f → Step f g → Steps e (suc n) g

-- After any history of calls on a valid engine, as long as the 64-bit counter does not wrap, each
-- entry stands under its own key with a fencing token that was issued, two keys have two fencing
-- tokens, and the counter grew by at most one for each call.
pub Steps-IsValid :
    {e f : Engine} {n : ℕ}
    → Steps e n f
    → e.fencing_seq + n < 2 ^ 64
    → IsValid e
    → IsValid f × (f.fencing_seq ≤ e.fencing_seq + n) × (e.fencing_seq ≤ f.fencing_seq)
Steps-IsValid here small v = (v, omega arith, omega arith)
Steps-IsValid (next {n = n} r st) small v =
    let (v', most, least) = Steps-IsValid r (omega arith) v in
    let (v'', most', least') = Step-IsValid st (omega arith) v' in (v'', omega arith, omega arith)
