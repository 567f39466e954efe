-- ===== src/Rpc/Client.antt =====
-- The calling side of `TCPTransport` of internal/transport/rpc.go. The network is a parameter: what
-- to dial an address does, and what comes back for a request on a connection, which is none if it
-- could not be written or no response could be read.
use cache_grid.Base.{
  ℕ, Bytes, Bytes-discrete, List, [], ◌∷◌, Option, none, some, Bool, lookup, if◌then◌else◌,
}
use cache_grid.Base.Int.{ℤ, pos, ltb_ℤ}
use cache_grid.Base.GoMap.{insert, delete}
use cache_grid.Rpc.Message.{
  Request, Response, request, op_get, op_set, op_delete, op_exists, op_mget, op_incr,
  op_lock_acquire, op_lock_release, op_lock_extend,
}

pub record Network : Type 1 where
  pub W : Type 0
  pub dial : W → Bytes → W × Option ℕ
  pub exchange : W → ℕ → Request → W × Option Response

-- The connections of the pool, by address.
pub record TcpTransport : Type 0 where
  pub conns : List (Bytes × ℕ)
  pub timeout : ℤ

-- A timeout of 5 seconds where none is given.
unfoldable pub new_tcp_transport : ℤ → TcpTransport
new_tcp_transport timeout = record {
  conns = [];
  timeout = if ltb_ℤ (pos 0) timeout then timeout else pos 5000000000;
}

pub data CallError : Type 0 where
  dial_failed : CallError
  exchange_failed : CallError
  remote_error : Bytes → CallError

pub data Outcome (A : Type 0) : Type 0 where
  returned : A → Outcome A
  failed : CallError → Outcome A

-- `t'` is the pool that is found after the dial, when another call may have stored a connection;
-- that one is used then.
unfoldable pub get_conn : TcpTransport → TcpTransport → Bytes → Option ℕ → TcpTransport × Option ℕ
get_conn t t' addr dialed = elim (lookup Bytes-discrete addr t.conns) [
  | some conn ↦ (t, some conn)
  | none ↦ elim dialed [
    | none ↦ (t, none)
    | some conn ↦ elim (lookup Bytes-discrete addr t'.conns) [
      | some existing ↦ (t', some existing)
      | none ↦ (record t' { conns = insert Bytes-discrete addr conn t'.conns }, some conn)
    ]
  ]
]

unfoldable pub close_conn : TcpTransport → Bytes → TcpTransport
close_conn t addr = record t { conns = delete Bytes-discrete addr t.conns }

-- `Stop`, which closes the connections. The listener is not part of the model.
unfoldable pub stop : TcpTransport → TcpTransport
stop t = record t { conns = [] }

module _ (n : Network) where
  -- The dial of `getConn`, which happens only where the pool has no connection.
  unfoldable pub dial_missing : n.W → TcpTransport → Bytes → n.W × Option ℕ
  dial_missing w t addr = elim (lookup Bytes-discrete addr t.conns) [
    | none ↦ n.dial w addr
    | some _ ↦ (w, none)
  ]

  -- `call`, where no other call runs in between.
  unfoldable pub call :
      n.W → TcpTransport → Bytes → Request → (n.W × TcpTransport) × Outcome Response
  unfolding get_conn close_conn dial_missing
  call w t addr req =
      let (w₁, dialed) = dial_missing w t addr in
      let (t₁, found) = get_conn t t addr dialed in
      elim found [
        | none ↦ ((w₁, t₁), failed dial_failed)
        | some conn ↦
            let (w₂, answer) = n.exchange w₁ conn req in
            elim answer [
              | none ↦ ((w₂, close_conn t₁ addr), failed exchange_failed)
              | some resp ↦ ((w₂, t₁), check_error resp)
            ]
      ]
    where
      check_error : Response → Outcome Response
      check_error resp = elim resp.error [
        | [] ↦ returned resp
        | c ∷ text ↦ failed (remote_error (c ∷ text))
      ]

  -- The result of a call that read a response.
  abbrev pub Called : Type 0 → Type 0
  Called A = (n.W × TcpTransport) × Outcome A

  unfoldable pub on_response : {A : Type 0} → Called Response → (Response → A) → Called A
  on_response (s, returned resp) f = (s, returned (f resp))
  on_response (s, failed e) f = (s, failed e)

  unfoldable pub remote_get : n.W → TcpTransport → Bytes → Bytes → Called (Bytes × Bool)
  unfolding call on_response
  remote_get w t addr key =
      on_response (call w t addr (request op_get key)) (λ r. (r.value, r.found))

  unfoldable pub remote_set :
      n.W → TcpTransport → Bytes → Bytes → Bytes → ℤ → List Bytes → Called (Unit {0})
  unfolding call on_response
  remote_set w t addr key value ttl tags =
      on_response
        (call w t addr (record (request op_set key) { value = value; ttl = ttl; tags = tags }))
        (λ _. tt)

  unfoldable pub remote_delete : n.W → TcpTransport → Bytes → Bytes → Called (Unit {0})
  unfolding call on_response
  remote_delete w t addr key = on_response (call w t addr (request op_delete key)) (λ _. tt)

  unfoldable pub remote_exists : n.W → TcpTransport → Bytes → Bytes → Called Bool
  unfolding call on_response
  remote_exists w t addr key = on_response (call w t addr (request op_exists key)) (λ r. r.ok)

  unfoldable pub remote_mget :
      n.W → TcpTransport → Bytes → List Bytes → Called (List (Bytes × Bytes))
  unfolding call on_response
  remote_mget w t addr keys =
      on_response (call w t addr (record (request op_mget []) { keys = keys })) (λ r. r.values)

  unfoldable pub remote_incr : n.W → TcpTransport → Bytes → Bytes → ℕ → Called ℕ
  unfolding call on_response
  remote_incr w t addr key delta =
      on_response (call w t addr (record (request op_incr key) { delta = delta })) (λ r. r.int_val)

  unfoldable pub remote_lock_acquire :
      n.W → TcpTransport → Bytes → Bytes → ℤ → Called (Bytes × ℕ × Bool)
  unfolding call on_response
  remote_lock_acquire w t addr key ttl =
      on_response (call w t addr (record (request op_lock_acquire key) { ttl = ttl }))
        (λ r. (r.token, r.fencing_token, r.acquired))

  unfoldable pub remote_lock_release : n.W → TcpTransport → Bytes → Bytes → Bytes → Called Bool
  unfolding call on_response
  remote_lock_release w t addr key token =
      on_response (call w t addr (record (request op_lock_release key) { token = token }))
        (λ r. r.ok)

  unfoldable pub remote_lock_extend : n.W → TcpTransport → Bytes → Bytes → Bytes → ℤ → Called Bool
  unfolding call on_response
  remote_lock_extend w t addr key token ttl =
      on_response (call w t addr (record (request op_lock_extend key) { token = token; ttl = ttl }))
        (λ r. r.ok)
