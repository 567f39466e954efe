-- ===== src/Tests/Tags.antt =====
-- A run of tags.go, and its theorem at a concrete history.
use cache_grid.Base.{◌≡◌, refl, Bytes, Bytes-discrete, ℕ_discrete, lookup, List, [], ◌∷◌}
use cache_grid.Base.GoMap.{insert, delete}
use cache_grid.Tags.Index.{
  new_tag_index, unlink_tag, unlink_tags, put_or_drop, link_tag, link_tags, old_tags, add, remove,
  get_keys_by_tag,
}
use cache_grid.Tags.Linked.{contains}
use cache_grid.Tags.Lookup.{Call, adds, removes, run, recorded, contains-run}
use cache_grid.Tests.Data.{key_a, key_b}

abbrev tag_x : Bytes
tag_x = b'x' ∷ []

abbrev tag_y : Bytes
tag_y = b'y' ∷ []

abbrev history : List Call
history =
    adds key_a (tag_x ∷ tag_y ∷ [])
    ∷ adds key_b (tag_x ∷ [])
    ∷ adds key_a (tag_y ∷ tag_y ∷ [])
    ∷ removes key_b
    ∷ []

tags_run :
    (get_keys_by_tag (run new_tag_index history) tag_x ≡ [])
    × (get_keys_by_tag (run new_tag_index history) tag_y ≡ key_a ∷ [])
unfolding lookup ℕ_discrete Bytes-discrete insert delete new_tag_index unlink_tag unlink_tags
    put_or_drop link_tag link_tags old_tags add remove get_keys_by_tag run
tags_run = (refl, refl)

contains-run_example :
    contains key_a (get_keys_by_tag (run new_tag_index history) tag_y)
    ≡ contains tag_y (recorded (λ _. []) history key_a)
contains-run_example = contains-run history tag_y key_a
