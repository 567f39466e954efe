-- ===== src/Tests/Pubsubs.antt =====
-- The broker of internal/pubsub with a pattern that is the first byte of the key.
use cache_grid.Base.{
  ℕ, ◌-◌, ◌≡◌, refl, Bytes, List, [], ◌∷◌, ◌++◌, none, some, Bool, true, false, lookup, length,
  ℕ_discrete, ◌==◌, codes, ◌↔◌,
}
use cache_grid.Pubsub.Broker
use cache_grid.Pubsub.Broker.{
  Event, Subscription, new_subscription, new_broker, subscribe, unsubscribe, offer, offer_all,
  publish, stamp, event_set,
}
use cache_grid.Pubsub.Delivery.{publish_all, admitted, publish_all-admitted}
use cache_grid.Pubsub.Glob.{
  Result, ok, bad_pattern, decode_rune, get_esc, get_high, match_ranges, match_class, match_chunk,
  next_rune, skip_rune, skip_any, skip_byte, after_rune, drop,
}
use cache_grid.Pubsub.Match.{
  path_match, matches, match_loop, match_next, skip_match, try_star, scan_stars, scan_chunk,
  no_slash, check_rest,
}
use cache_grid.Pubsub.Literal.{matches_lem}
use cache_grid.Tests.Data.{key_a, key_b, value_1}

abbrev same_start : Bytes → Bytes → Bool
same_start [] key = true
same_start (p ∷ _) [] = false
same_start (p ∷ _) (k ∷ _) = p == k

abbrev written : Bytes → Event
written key = record {
  type = event_set;
  key = key;
  value = value_1;
  timestamp = none;
  node_name = [];
}

abbrev small : Subscription
small = new_subscription 1 key_a 2

abbrev one_subscriber : Broker.Broker
one_subscriber = record new_broker { subscriptions = (1, small) ∷ []; next_id = 1 }

abbrev writes : List (Event × ℕ)
writes = (written key_a, 5) ∷ (written key_b, 6) ∷ (written key_a, 7) ∷ (written key_a, 8) ∷ []

-- The third event for the subscriber finds its channel full.
publish_run :
    (lookup ℕ_discrete 1 (publish_all same_start writes one_subscriber).subscriptions)
    ≡ some (record small {
      ch =
          record (written key_a) { timestamp = some 5 }
          ∷ record (written key_a) { timestamp = some 7 }
          ∷ [];
    })
unfolding lookup ℕ_discrete new_subscription new_broker offer offer_all publish stamp publish_all
publish_run = refl

publish_all-admitted_example :
    lookup ℕ_discrete 1 (publish_all same_start writes one_subscriber).subscriptions
    ≡ some (record small {
      ch = small.ch ++ admitted same_start small.pattern (small.buf_size - length small.ch) writes;
    })
unfolding lookup ℕ_discrete new_subscription
publish_all-admitted_example =
    publish_all-admitted same_start writes one_subscriber 1 small refl refl

abbrev glob_runs : List (Result Bool)
unfolding path_match match_loop
glob_runs =
    path_match (codes "user:*") (codes "user:17")
    ∷ path_match (codes "user:*") (codes "user:17/name")
    ∷ path_match (codes "*:1?") (codes "a:b:17")
    ∷ path_match (codes "a[^b-d]e") (codes "abe")
    ∷ path_match (codes "a[^b-d]e") (codes "afe")
    ∷ path_match (codes "a\\*b") (codes "a*b")
    ∷ path_match (codes "x*[") (codes "ab")
    ∷ path_match (codes "") (codes "")
    ∷ []

glob_run :
    glob_runs
    ≡ ok true ∷ ok false ∷ ok true ∷ ok false ∷ ok true ∷ ok true ∷ bad_pattern ∷ ok true ∷ []
unfolding path_match match_loop match_next skip_match try_star scan_stars scan_chunk no_slash
    check_rest decode_rune get_esc get_high match_ranges match_class match_chunk next_rune skip_rune
    skip_any skip_byte after_rune drop
glob_run = refl

matches_lem_example :
    ((matches (codes "user:") (codes "user:17") ≡ true) ↔ (codes "user:17" ≡ codes "user:"))
    × ((matches (codes "user:" ++ b'*' ∷ []) (codes "user:17") ≡ true)
        ↔ ((rest : Bytes) × (codes "user:17" ≡ codes "user:" ++ rest) × (no_slash rest ≡ true)))
matches_lem_example =
    matches_lem (codes "user:") (codes "user:17") (refl, (refl, (refl, (refl, (refl, tt)))))
