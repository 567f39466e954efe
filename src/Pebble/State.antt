-- ===== src/Pebble/State.antt =====
-- `PebbleStore` of store_pebble.go over a database. A method takes its readings of the clock. Only
-- `Incr` holds a lock: the other methods are modelled as they run alone.
use cache_grid.Base.{
  ℕ, ◌-◌, Bytes, List, [], ◌∷◌, map, Option, none, some, Bool, true, false, ◌||◌, leb, ◌==◌,
  if◌then◌else◌, length,
}
use cache_grid.Base.Int.{ℤ, pos, negsuc, ◌+ℤ◌, ◌-ℤ◌}
use cache_grid.Shard.Codec.{Msgpack, add64}
use cache_grid.Shard.State.{Fired}
use cache_grid.Pebble.Format.{encode, decode, is_negative, is_expired}
use cache_grid.Pebble.Db.{Db}

pub record PebbleStore (p : Db) : Type 0 where
  pub db : p.D
  pub count : ℤ
  pub on_evict : Bool
  pub on_expire : Bool

module _ (p : Db) where
  unfoldable pub count_keys : p.D → ℤ
  count_keys d = elim (p.entries d) [ none ↦ pos 0 | some es ↦ pos (length es) ]

  -- On a database that was opened.
  unfoldable pub new_pebble_store : p.D → PebbleStore p
  new_pebble_store d = record { db = d; count = count_keys d; on_evict = false; on_expire = false }

  -- The deletion of a key that was found expired; its error is ignored.
  unfoldable pub drop_expired : PebbleStore p → Bytes → PebbleStore p
  drop_expired s key = record s { db = (p.delete s.db key).0; count = s.count -ℤ pos 1 }

  unfoldable pub get : PebbleStore p → Bytes → ℕ → PebbleStore p × Option Bytes
  get s key now = elim (p.get s.db key) [
    | none ↦ (s, none)
    | some raw ↦
        let (value, expires_at) = decode raw in
        if is_expired expires_at now then (drop_expired s key, none) else (s, some value)
  ]

  -- The end of `Set` and of `Incr`: the write, and the count of a key that is new. The answer is
  -- whether the write succeeded.
  unfoldable pub write : PebbleStore p → Bytes → Bytes → PebbleStore p × Bool
  write s key encoded =
      let existed : Bool = elim (p.get s.db key) [ none ↦ false | some _ ↦ true ] in
      let (d, ok) = p.set s.db key encoded in
      if ok
      then (record s { db = d; count = if existed then s.count else s.count +ℤ pos 1 }, true)
      else (record s { db = d }, false)

  unfoldable pub set : PebbleStore p → Bytes → Bytes → ℤ → ℕ → PebbleStore p
  set s key value ttl now = (write s key (encode value ttl now)).0

  unfoldable pub delete : PebbleStore p → Bytes → PebbleStore p × Bool
  delete s key = elim (p.get s.db key) [
    | none ↦ (s, false)
    | some _ ↦
        let (d, ok) = p.delete s.db key in
        if ok
        then (record s { db = d; count = s.count -ℤ pos 1 }, true)
        else (record s { db = d }, false)
  ]

  unfoldable pub exists : PebbleStore p → Bytes → ℕ → PebbleStore p × Bool
  exists s key now = elim (p.get s.db key) [
    | none ↦ (s, false)
    | some raw ↦ if is_expired (decode raw).1 now then (drop_expired s key, false) else (s, true)
  ]

  unfoldable pub ttl : PebbleStore p → Bytes → ℕ → PebbleStore p × ℤ
  ttl s key now = elim (p.get s.db key) [
    | none ↦ (s, pos 0)
    | some raw ↦
        let expires_at = (decode raw).1 in
        if expires_at == 0
        then (s, negsuc 0)
        else if is_negative expires_at || leb expires_at now
        then (drop_expired s key, pos 0)
        else (s, pos (expires_at - now))
  ]

  -- The TTL with which `Incr` writes a live counter back.
  unfoldable pub remaining_ttl : ℕ → ℕ → ℤ
  remaining_ttl expires_at now =
      if (expires_at == 0) || (is_negative expires_at || leb expires_at now)
      then pos 0
      else pos (expires_at - now)

  -- `Incr` from the sum on; the result is none on an error.
  unfoldable pub write_counter :
      Msgpack → PebbleStore p → Bytes → ℕ → ℕ → ℤ → ℕ → PebbleStore p × Option ℕ
  write_counter m s key current delta ttl now =
      let sum = add64 current delta in
      elim (m.marshal sum) [
        | none ↦ (s, none)
        | some value ↦
            let (s', ok) = write s key (encode value ttl now) in (s', if ok then some sum else none)
      ]

  unfoldable pub incr :
      Msgpack → PebbleStore p → Bytes → ℕ → ℤ → ℕ → ℕ → ℕ → PebbleStore p × Option ℕ
  incr m s key delta default_ttl t₁ t₂ t₃ = elim (p.get s.db key) [
    | none ↦ write_counter m s key 0 delta default_ttl t₃
    | some raw ↦
        let (value, expires_at) = decode raw in
        if is_expired expires_at t₁
        then write_counter m (record s { count = s.count -ℤ pos 1 }) key 0 delta default_ttl t₃
        else elim (m.unmarshal value) [
          | none ↦ (s, none)
          | some current ↦ write_counter m s key current delta (remaining_ttl expires_at t₂) t₃
        ]
  ]

  -- The loop over the iterator. An entry of fewer than 8 bytes has no expiry.
  unfoldable pub expired_entries : List (Bytes × Bytes) → ℕ → List Fired
  expired_entries [] now = []
  expired_entries ((key, raw) ∷ rest) now =
      let (value, expires_at) = decode raw in
      let more = expired_entries rest now in
      if is_expired expires_at now then (key, value) ∷ more else more

  unfoldable pub delete_expired : PebbleStore p → ℕ → PebbleStore p × ℕ × List Fired
  delete_expired s now = elim (p.entries s.db) [
    | none ↦ (s, 0, [])
    | some es ↦ elim (expired_entries es now) [
      | [] ↦ (s, 0, [])
      | e ∷ more ↦
          let expired = e ∷ more in
          (
            record s {
              db = p.delete_all s.db (map (λ x. x.0) expired);
              count = s.count -ℤ pos (length expired);
            },
            length expired,
            if s.on_expire then expired else [],
          )
    ]
  ]

  unfoldable pub len : PebbleStore p → ℤ
  len s = s.count
