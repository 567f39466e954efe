-- ===== src/Tests/Retries.antt =====
-- `Lock` of lock.go waits for a lock that expires.
use cache_grid.Base.{ℕ, zero, suc, ◌≤◌, ◌<◌, ◌≡◌, refl, [], true, arith}
use cache_grid.Base.Int.{pos}
use cache_grid.Lock.Engine.{new_engine, acquire, is_held}
use cache_grid.Facade.Parts.{Cache}
use cache_grid.Facade.Routing.{owner_addr}
use cache_grid.Facade.Ops.{is_empty}
use cache_grid.Facade.Locks.{locked, lock, lock_key}
use cache_grid.Facade.Retries.{waited, granted, lock_waits}
use cache_grid.Facade.Backend.{memory}
use cache_grid.Tests.Counters.{digits}
use cache_grid.Tests.Data.{key_a}
use cache_grid.Tests.Facades.{alone, nobody}
use cache_grid.Tests.Locks.{lock_code, token_1, token_2}

-- The lock is taken from 10 to 15.
abbrev busy : Cache (memory digits) nobody
busy = record alone {
  lock_engine = (acquire new_engine (lock_key key_a) (pos 5) [] token_1 10 10).0;
}

-- The attempts are made at 12 and at 16.
abbrev ticks : ℕ → ℕ
ticks zero = 12
ticks (suc _) = 16

abbrev nothing : ℕ → Cache (memory digits) nobody → Cache (memory digits) nobody
nothing i c = c

stays_here : (j : ℕ) → j ≤ 1 → owner_addr (waited nothing j busy).cluster (lock_key key_a) ≡ []
unfolding owner_addr waited
stays_here zero h = refl
stays_here (suc zero) h = refl
stays_here (suc (suc j)) h = absurd (omega arith)

held_before :
    (j : ℕ) → j < 1 → is_held (waited nothing j busy).lock_engine (lock_key key_a) (ticks j) ≡ true
unfolding lock_code lock_key waited
held_before zero h = refl
held_before (suc j) h = absurd (omega arith)

lock_waits_example :
    (lock (λ _. token_2) ticks nothing busy key_a (pos 3) (pos 2)).1
    ≡ locked (granted (waited nothing 1 busy) (lock_key key_a) token_2)
unfolding lock_code is_empty lock_key waited
lock_waits_example =
    lock_waits (λ _. token_2) ticks nothing busy key_a (pos 3) 2 1 refl refl (omega arith)
      stays_here held_before refl
