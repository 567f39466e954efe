-- ===== src/Http/Locks.antt =====
-- handler_lock.go. `Release` and `Extend` go to the lock engine of this node. The wait between two
-- attempts is in `meanwhile`, with what others do to the cache.
use cache_grid.Base.{ℕ, Bytes, [], ◌∷◌, none, some, Bool, true, false, codes}
use cache_grid.Base.Int.{ℤ, pos}
use cache_grid.Facade.Locks.{LockHandle, handle_token, lock_key, locked, refused}
use cache_grid.Facade.Locks as Locks
use cache_grid.Facade.Parts.{Store, Cache, CacheError, err_lock_not_acquired}
use cache_grid.Http.Caches.{key_required}
use cache_grid.Http.Message.{
  Request, header, text, number, flag, object, Writer, write_json, write_error, Outcome, answer,
}
use cache_grid.Http.Server.{Server, Packages, duration_or, read_json}
use cache_grid.Limit.Float.{Float64}
use cache_grid.Lock.Engine
use cache_grid.Rpc.Client.{Network}

-- 30 * time.Second
abbrev pub default_lock_ttl : ℤ
default_lock_ttl = pos 30000000000

unfoldable pub write_refusal : Packages → Writer → CacheError → Writer
write_refusal p w err_lock_not_acquired = write_json w 409 (
    object (
      (codes "acquired", flag false)
      ∷ (codes "error", text (p.error_text err_lock_not_acquired))
      ∷ []))
write_refusal p w e = write_error w 500 (p.error_text e)

-- Both tokens are the fencing token.
unfoldable pub write_handle : Writer → LockHandle → Writer
write_handle w h = write_json w 200 (
    object (
      (codes "acquired", flag true)
      ∷ (codes "token", number (pos (handle_token h)))
      ∷ (codes "fencing_token", number (pos (handle_token h)))
      ∷ []))

-- The answer to `Release` or `Extend`, under the name of its field.
unfoldable pub write_done : Writer → Bytes → Bool → Writer
write_done w field true = write_json w 200 (object ((field, flag true) ∷ []))
write_done w field false =
    write_json w 409
      (object ((field, flag false) ∷ (codes "error", text (codes "lock not held or expired")) ∷ []))

unfoldable pub token_required : Writer → Writer
token_required w = write_error w 400 (codes "X-Lock-Token header is required")

module _ (p : Packages) {st : Store} {n : Network} {fl : Float64} where
  unfoldable pub handle_acquire :
      Bytes
      → (ℕ → Bytes)
      → (ℕ → ℕ)
      → (ℕ → Cache st n → Cache st n)
      → Server st n fl
      → Writer
      → Request
      → Outcome (Server st n fl)
  unfolding write_refusal write_handle
  handle_acquire [] tokens clock meanwhile s w r = answer s (key_required w) []
  handle_acquire (k ∷ key) tokens clock meanwhile s w r = elim (read_json p.decode_acquire r.body) [
    | none ↦ answer s (write_error w 400 (codes "invalid JSON body")) []
    | some req ↦
        let ttl = duration_or p default_lock_ttl req.ttl in
        let (c, result) = Locks.lock tokens clock meanwhile s.cache (k ∷ key) ttl req.retry_count in
        elim result [
          | refused e ↦ answer (record s { cache = c }) (write_refusal p w e) []
          | locked h ↦ answer (record s { cache = c }) (write_handle w h) []
        ]
  ]

  unfoldable pub handle_release :
      Bytes → Server st n fl → Writer → Request → Outcome (Server st n fl)
  unfolding token_required write_done
  handle_release [] s w r = answer s (key_required w) []
  handle_release (k ∷ key) s w r = elim (header r (codes "X-Lock-Token")) [
    | [] ↦ answer s (token_required w) []
    | t ∷ token ↦
        let (e, released) = Engine.release s.cache.lock_engine (lock_key (k ∷ key)) (t ∷ token) in
        answer (record s { cache = record (s.cache) { lock_engine = e } })
          (write_done w (codes "released") released) []
  ]

  unfoldable pub handle_extend :
      Bytes → (ℕ → ℕ) → Server st n fl → Writer → Request → Outcome (Server st n fl)
  unfolding token_required write_done
  handle_extend [] clock s w r = answer s (key_required w) []
  handle_extend (k ∷ key) clock s w r = elim (header r (codes "X-Lock-Token")) [
    | [] ↦ answer s (token_required w) []
    | t ∷ token ↦ elim (read_json p.decode_extend r.body) [
      | none ↦ answer s (write_error w 400 (codes "invalid JSON body")) []
      | some ttl ↦
          let lasting = duration_or p default_lock_ttl ttl in
          let (e, extended) =
            Engine.extend s.cache.lock_engine (lock_key (k ∷ key)) (t ∷ token) lasting (clock 0)
              (clock 1) in
          answer (record s { cache = record (s.cache) { lock_engine = e } })
            (write_done w (codes "extended") extended) []
    ]
  ]
