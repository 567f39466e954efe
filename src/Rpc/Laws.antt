-- ===== src/Rpc/Laws.antt =====
-- A remote call of internal/transport/rpc.go answers what the handler of the other node answers.
use cache_grid.Base.{
  ℕ, ◌≡◌, Bytes, Bytes-discrete, List, [], ◌∷◌, Option, none, some, lookup, arith, Option-cases,
  inl, inr,
}
use cache_grid.Base.Int.{ℤ}
use cache_grid.Base.GoMap.{insert}
use cache_grid.Rpc.Message.{LocalHandler}
use cache_grid.Rpc.Server.{process_request}
use cache_grid.Rpc.Client.{
  Network, TcpTransport, Outcome, returned, failed, remote_error, remote_get, remote_set,
  remote_delete, remote_exists, remote_mget, remote_incr, remote_lock_acquire, remote_lock_release,
  remote_lock_extend,
}

-- A node that is always reached, and whose handler answers each request.
abbrev pub served : {S : Type 0} → LocalHandler S → Network
served {S} h = record {
  W = S;
  dial = λ s addr. (s, some 0);
  exchange = λ s conn req. let (s', resp) = process_request h s req in (s', some resp);
}

-- The pool after a call that got its response.
abbrev pub connected : TcpTransport → Bytes → TcpTransport
connected t addr = elim (lookup Bytes-discrete addr t.conns) [
  | none ↦ record t { conns = insert Bytes-discrete addr 0 t.conns }
  | some _ ↦ t
]

-- What `HandleIncr` answers, as the caller gets it: an error with an empty text is lost.
unfoldable pub incr_outcome : ℕ → Option Bytes → Outcome ℕ
incr_outcome val none = returned val
incr_outcome val (some []) = returned val
incr_outcome val (some (c ∷ text)) = failed (remote_error (c ∷ text))

module _ {S : Type 0} (h : LocalHandler S) (s : S) (t : TcpTransport) (addr : Bytes) where
  -- Where the other node is reached and answers each request, every remote call changes the state
  -- of that node and returns as its handler does, and leaves the connection in the pool. An error
  -- of `HandleIncr` is returned if its text is not empty.
  pub remote_calls :
      (key value token : Bytes) (keys tags : List Bytes) (ttl : ℤ) (delta : ℕ)
      → let n = served h in
        let t' = connected t addr in
        (remote_get n s t addr key
          ≡ (let (s', val, found) = h.handle_get s key in ((s', t'), returned (val, found))))
        × (remote_set n s t addr key value ttl tags
            ≡ ((h.handle_set s key value ttl tags, t'), returned tt))
        × (remote_delete n s t addr key ≡ (((h.handle_delete s key).0, t'), returned tt))
        × (remote_exists n s t addr key
            ≡ (let (s', ok) = h.handle_exists s key in ((s', t'), returned ok)))
        × (remote_mget n s t addr keys
            ≡ (let (s', vals) = h.handle_mget s keys in ((s', t'), returned vals)))
        × (remote_incr n s t addr key delta
            ≡ (let (s', val, err) = h.handle_incr s key delta in ((s', t'), incr_outcome val err)))
        × (remote_lock_acquire n s t addr key ttl ≡ (
            let (s', tok, fencing, acquired) = h.handle_lock_acquire s key ttl in
            ((s', t'), returned (tok, fencing, acquired))))
        × (remote_lock_release n s t addr key token
            ≡ (let (s', ok) = h.handle_lock_release s key token in ((s', t'), returned ok)))
        × (remote_lock_extend n s t addr key token ttl
            ≡ (let (s', ok) = h.handle_lock_extend s key token ttl in ((s', t'), returned ok)))
  unfolding remote_get remote_set remote_delete remote_exists remote_mget remote_incr
      remote_lock_acquire remote_lock_release remote_lock_extend process_request incr_outcome
  remote_calls key value token keys tags ttl delta =
      elim (Option-cases (lookup Bytes-discrete addr t.conns)) [
        | inl e ↦ ground (arith, e)
        | inr (c, e) ↦ ground (arith, e)
      ]
