-- ===== src/Tests/Rpcs.antt =====
-- Remote calls of internal/transport/rpc.go to a node whose state is one number.
use cache_grid.Base.{ℕ, ◌+◌, ◌≡◌, [], ◌∷◌, none, true, false, ltb}
use cache_grid.Base.Int.{pos}
use cache_grid.Rpc.Message.{LocalHandler}
use cache_grid.Rpc.Client.{
  TcpTransport, returned, new_tcp_transport, remote_get, remote_set, remote_delete, remote_exists,
  remote_mget, remote_incr, remote_lock_acquire, remote_lock_release, remote_lock_extend,
}
use cache_grid.Rpc.Laws.{served, connected, incr_outcome, remote_calls}
use cache_grid.Tests.Data.{key_a, key_b, value_1}

abbrev one_number : LocalHandler ℕ
one_number = record {
  handle_get = λ s key. (s, s ∷ [], true);
  handle_set = λ s key value ttl tags. s + 1;
  handle_delete = λ s key. (0, true);
  handle_exists = λ s key. (s, ltb 0 s);
  handle_mget = λ s keys. (s, []);
  handle_incr = λ s key delta. (s + delta, s + delta, none);
  handle_lock_acquire = λ s key ttl. (s + 1, key, s, true);
  handle_lock_release = λ s key token. (s, false);
  handle_lock_extend = λ s key token ttl. (s, true);
}

abbrev fresh : TcpTransport
fresh = new_tcp_transport (pos 0)

remote_calls_example :
    let n = served one_number in
    let t' = connected fresh key_b in
    (remote_get n 5 fresh key_b key_a ≡ ((5, t'), returned (5 ∷ [], true)))
    × (remote_set n 5 fresh key_b key_a value_1 (pos 3) [] ≡ ((6, t'), returned tt))
    × (remote_delete n 5 fresh key_b key_a ≡ ((0, t'), returned tt))
    × (remote_exists n 5 fresh key_b key_a ≡ ((5, t'), returned true))
    × (remote_mget n 5 fresh key_b [] ≡ ((5, t'), returned []))
    × (remote_incr n 5 fresh key_b key_a 2 ≡ ((7, t'), incr_outcome 7 none))
    × (remote_lock_acquire n 5 fresh key_b key_a (pos 3) ≡ ((6, t'), returned (key_a, 5, true)))
    × (remote_lock_release n 5 fresh key_b key_a value_1 ≡ ((5, t'), returned false))
    × (remote_lock_extend n 5 fresh key_b key_a value_1 (pos 3) ≡ ((5, t'), returned true))
remote_calls_example = remote_calls one_number 5 fresh key_b key_a value_1 value_1 [] [] (pos 3) 2
