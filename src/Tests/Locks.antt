-- ===== src/Tests/Locks.antt =====
-- Runs of internal/lock/lock.go, and its theorems at concrete inputs.
use cache_grid.Base.{
  ◌+◌, ◌<◌, ◌≤◌, ◌≡◌, ◌≢◌, ◌↔◌, refl, Bytes, Bytes-discrete, ℕ_discrete, lookup, [], ◌∷◌, none,
  some, true, false, arith, if◌then◌else◌,
}
use cache_grid.Base.Int.{pos}
use cache_grid.Base.GoMap.{insert, delete}
use cache_grid.Lock.Engine.{
  Entry, Engine, new_engine, find, is_expired, add_time, is_held, acquire, release, extend, cleanup,
  drop_expired, cleanup_loop,
}
use cache_grid.Lock.Calls.{release_lem}
use cache_grid.Lock.Invariant
use cache_grid.Lock.Invariant.{IsValid, Steps, Steps-IsValid, Step-IsValid, new_engine-IsValid}
use cache_grid.Lock.Fencing.{fencing_increases}
use cache_grid.Lock.Holder
use cache_grid.Lock.Holder.{Foreign, holder_keeps}
use cache_grid.Tests.Data.{key_a, key_b, key_a-ne-key_b}

unfoldable pub lock_code : Unit {0}
unfolding lookup ℕ_discrete Bytes-discrete insert delete new_engine is_expired add_time is_held
    acquire release extend cleanup cleanup_loop drop_expired
lock_code = tt

abbrev pub token_1 : Bytes
token_1 = 1 ∷ []

abbrev pub token_2 : Bytes
token_2 = 2 ∷ []

-- `key_a` is locked from 10 to 15.
abbrev locked : Engine
locked = (acquire new_engine key_a (pos 5) key_b token_1 10 10).0

abbrev lock_of_a : Entry
lock_of_a = record {
  key = key_a;
  token = token_1;
  fencing_token = 1;
  expires_at = 15;
  owner = key_b;
}

lock_run :
    (find locked key_a ≡ some lock_of_a)
    × ((acquire locked key_a (pos 5) key_b token_2 15 15).1 ≡ none)
    × ((acquire locked key_a (pos 5) key_b token_2 16 16).1 ≡ some (token_2, 2))
    × ((release locked key_a token_2).1 ≡ false)
    × ((release locked key_a token_1).1 ≡ true)
    × ((extend locked key_a token_1 (pos 9) 15 15).1 ≡ true)
    × ((extend locked key_a token_1 (pos 9) 16 16).1 ≡ false)
    × (find (cleanup locked (λ _. 16)) key_a ≡ none)
unfolding lock_code
lock_run = (refl, refl, refl, refl, refl, refl, refl, refl)

locked-IsValid : IsValid locked
unfolding lock_code
locked-IsValid =
    (Step-IsValid (Invariant.acquire new_engine key_a (pos 5) key_b token_1 10 10) (omega arith)
      new_engine-IsValid).0

release_lem_example :
    (((release locked key_a token_1).1 ≡ true)
      ↔ ((entry : Entry) × (find locked key_a ≡ some entry) × (entry.token ≡ token_1)))
    × (((release locked key_a token_1).1 ≡ true)
        ↔ (find (release locked key_a token_1).0 key_a ≢ find locked key_a))
    × (find (release locked key_a token_1).0 key_a
        ≡ (if (release locked key_a token_1).1 then none else find locked key_a))
    × (find (release locked key_a token_1).0 key_b ≡ find locked key_b)
release_lem_example = release_lem locked key_a token_1 key_b key_a-ne-key_b

-- Someone tries to release the lock and to acquire it, and the cleanup runs.
abbrev tried : Engine
tried =
    cleanup (acquire (release locked key_a token_2).0 key_a (pos 5) key_a token_2 14 14).0 (λ _. 15)

tried-Foreign : Foreign key_a lock_of_a locked 3 tried
tried-Foreign =
    Holder.next
      (Holder.next (Holder.next Holder.here (Invariant.release locked key_a token_2) (λ same h. cc))
        (Invariant.acquire (release locked key_a token_2).0 key_a (pos 5) key_a token_2 14 14)
        (λ same. omega arith))
      (Invariant.cleanup
        (acquire (release locked key_a token_2).0 key_a (pos 5) key_a token_2 14 14).0 (λ _. 15))
      (omega arith)

holder_keeps_example :
    (find tried key_a ≡ some lock_of_a)
    × ((acquire tried key_a (pos 5) key_a token_2 15 15).1 ≡ none)
unfolding lock_code
holder_keeps_example =
    holder_keeps {e = locked} {f = tried} {n = 3} key_a lock_of_a (pos 5) key_a token_2 15 15
      tried-Foreign (omega arith) locked-IsValid refl (omega arith)

abbrev freed : Engine
freed = (release locked key_a token_1).0

freed-Steps : Steps locked 1 freed
freed-Steps = Invariant.next Invariant.here (Invariant.release locked key_a token_1)

Steps-IsValid_example :
    IsValid freed
    × (freed.fencing_seq ≤ locked.fencing_seq + 1)
    × (locked.fencing_seq ≤ freed.fencing_seq)
unfolding lock_code
Steps-IsValid_example = Steps-IsValid freed-Steps (omega arith) locked-IsValid

-- Two grants of one key.
fencing_increases_example : 1 < 2
unfolding lock_code
fencing_increases_example =
    fencing_increases new_engine freed 1 key_a key_a (pos 5) (pos 5) key_b key_b token_1 token_2 10
      10 12 12 token_1 token_2 1 2 new_engine-IsValid (omega arith) refl freed-Steps refl
