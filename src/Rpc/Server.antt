-- ===== src/Rpc/Server.antt =====
-- `processRequest` of internal/transport/rpc.go.
use cache_grid.Base.{ℕ, zero, suc, List, Bytes, [], ◌∷◌, none, some, true, ◌==◌, if◌then◌else◌}
use cache_grid.Rpc.Message.{
  Request, Response, response, LocalHandler, op_get, op_set, op_delete, op_exists, op_mget, op_incr,
  op_lock_acquire, op_lock_release, op_lock_extend,
}

abbrev pub unknown_operation : Bytes
unknown_operation =
    b'u' ∷ b'n' ∷ b'k' ∷ b'n' ∷ b'o' ∷ b'w' ∷ b'n' ∷ b' ' ∷ b'o' ∷ b'p' ∷ b'e' ∷ b'r' ∷ b'a' ∷ b't'
    ∷ b'i' ∷ b'o' ∷ b'n' ∷ []

module _ {S : Type 0} (h : LocalHandler S) where
  unfoldable pub process_request : S → Request → S × Response
  process_request s req =
      if req.op == op_get
      then (let (s', val, found) = h.handle_get s req.key in
          (s', record response { value = val; found = found }))
      else if req.op == op_set
      then (h.handle_set s req.key req.value req.ttl req.tags, record response { ok = true })
      else if req.op == op_delete
      then (let (s', ok) = h.handle_delete s req.key in (s', record response { ok = ok }))
      else if req.op == op_exists
      then (let (s', ok) = h.handle_exists s req.key in (s', record response { ok = ok }))
      else if req.op == op_mget
      then (let (s', vals) = h.handle_mget s req.keys in (s', record response { values = vals }))
      else if req.op == op_incr
      then (let (s', val, err) = h.handle_incr s req.key req.delta in
          (
            s',
            elim err [
              | none ↦ record response { int_val = val }
              | some text ↦ record response { int_val = val; error = text }
            ],
          ))
      else if req.op == op_lock_acquire
      then (let (s', token, fencing, acquired) = h.handle_lock_acquire s req.key req.ttl in
          (s', record response { token = token; fencing_token = fencing; acquired = acquired }))
      else if req.op == op_lock_release
      then (let (s', ok) = h.handle_lock_release s req.key req.token in
          (s', record response { ok = ok }))
      else if req.op == op_lock_extend
      then (let (s', ok) = h.handle_lock_extend s req.key req.token req.ttl in
          (s', record response { ok = ok }))
      else (s, record response { error = unknown_operation })

  -- The loop of `handleConn` over the requests that are decoded, of which `room` responses can be
  -- written before an error ends it.
  unfoldable pub handle_conn : S → List Request → ℕ → S × List Response
  unfolding process_request
  handle_conn s [] room = (s, [])
  handle_conn s (req ∷ reqs) room =
      let (s', resp) = process_request s req in
      elim room [
        | zero ↦ (s', [])
        | suc left ↦ let (s'', resps) = handle_conn s' reqs left in (s'', resp ∷ resps)
      ]
