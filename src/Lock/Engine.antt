-- ===== src/Lock/Engine.antt =====
-- `Entry` and `Engine` of internal/lock/lock.go. A call takes its readings of `time.Now()`, and
-- `Acquire` the random token that crypto/rand makes for it. A loop over the map reads the clock
-- once for each key: `clock key`.
use cache_grid.Base.{
  ℕ, ◌+◌, ◌-◌, ◌%◌, ◌^◌, Bytes, Bytes-discrete, List, [], ◌∷◌, Option, none, some, Bool, true,
  false, not, ite, ltb, if◌then◌else◌, lookup,
}
use cache_grid.Base.Int.{ℤ, pos_part, neg_part}
use cache_grid.Base.GoMap

pub record Entry : Type 0 where
  pub key : Bytes
  pub token : Bytes
  pub fencing_token : ℕ
  pub expires_at : ℕ
  pub owner : Bytes

pub record Engine : Type 0 where
  pub locks : List (Bytes × Entry)
  pub fencing_seq : ℕ
  pub done : Bool

unfoldable pub new_engine : Engine
new_engine = record { locks = []; fencing_seq = 0; done = false }

abbrev pub find : Engine → Bytes → Option Entry
find e key = lookup Bytes-discrete key e.locks

unfoldable pub is_expired : Entry → ℕ → Bool
is_expired entry now = ltb entry.expires_at now

-- `time.Now().Add(ttl)`. A time before the first is the first.
unfoldable pub add_time : ℕ → ℤ → ℕ
add_time now ttl = now + pos_part ttl - neg_part ttl

-- Whether an unexpired entry bars the key.
unfoldable pub is_held : Engine → Bytes → ℕ → Bool
unfolding is_expired
is_held e key now = elim (find e key) [ none ↦ false | some entry ↦ not (is_expired entry now) ]

-- The token and the fencing token, or a refusal.
unfoldable pub acquire : Engine → Bytes → ℤ → Bytes → Bytes → ℕ → ℕ → Engine × Option (Bytes × ℕ)
unfolding is_held add_time
acquire e key ttl owner token t₁ t₂ =
    if is_held e key t₁
    then (e, none)
    else let fencing = (e.fencing_seq + 1) % 2 ^ 64 in
      let entry : Entry = record {
        key = key;
        token = token;
        fencing_token = fencing;
        expires_at = add_time t₂ ttl;
        owner = owner;
      } in
      (
        record e { locks = GoMap.insert Bytes-discrete key entry e.locks; fencing_seq = fencing },
        some (token, fencing),
      )

unfoldable pub release : Engine → Bytes → Bytes → Engine × Bool
release e key token = elim (find e key) [
  | none ↦ (e, false)
  | some entry ↦
      ite (Bytes-discrete entry.token token)
        (record e { locks = GoMap.delete Bytes-discrete key e.locks }, true) (e, false)
]

-- The entry is shared with the map, so the new expiry is written in place.
unfoldable pub extend : Engine → Bytes → Bytes → ℤ → ℕ → ℕ → Engine × Bool
unfolding is_expired add_time
extend e key token ttl t₁ t₂ = elim (find e key) [
  | none ↦ (e, false)
  | some entry ↦
      if is_expired entry t₁
      then (e, false)
      else ite (Bytes-discrete entry.token token)
          (
            record e {
              locks =
                  GoMap.insert Bytes-discrete key (record entry { expires_at = add_time t₂ ttl })
                    e.locks;
            },
            true,
          )
          (e, false)
]

unfoldable pub active_loop : List (Bytes × Entry) → (Bytes → ℕ) → List Entry
unfolding is_expired
active_loop [] clock = []
active_loop ((key, entry) ∷ rest) clock =
    let more = active_loop rest clock in if is_expired entry (clock key) then more else entry ∷ more

unfoldable pub active_locks : Engine → (Bytes → ℕ) → List Entry
unfolding active_loop
active_locks e clock = active_loop e.locks clock

-- The body of the loop over the map in `startCleanup`, and one tick of it.
unfoldable pub drop_expired : Engine → Bytes → Entry → ℕ → Engine
unfolding is_expired
drop_expired e key entry now =
    if is_expired entry now then record e { locks = GoMap.delete Bytes-discrete key e.locks } else e

unfoldable pub cleanup_loop : Engine → List (Bytes × Entry) → (Bytes → ℕ) → Engine
cleanup_loop e [] clock = e
cleanup_loop e ((key, entry) ∷ rest) clock =
    cleanup_loop (drop_expired e key entry (clock key)) rest clock

unfoldable pub cleanup : Engine → (Bytes → ℕ) → Engine
unfolding cleanup_loop
cleanup e clock = cleanup_loop e e.locks clock

-- Closing a closed channel panics.
unfoldable pub shutdown : Engine → Option Engine
shutdown e = if e.done then none else some (record e { done = true })
