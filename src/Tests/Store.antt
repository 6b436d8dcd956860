-- ===== src/Tests/Store.antt =====
-- pkg/store/memory.go at concrete inputs.
use go_admin.Common.{ℕ, ◌≡◌, refl, none, some, [], ◌∷◌, pos, nat_eq, if◌then◌else◌, arith, is_pos}
use go_admin.Store.{Memory, get, set, is_expired, lookup}
use go_admin.Store.View.{view, HasUniqueKeys}
use go_admin.Store.Writes.{written}
use go_admin.Store.Race.{expired, get_read, get_finish, get_finish-drops_set}

-- One entry that lives up to 5 and one that lives for ever, under a default of 10.
abbrev two_entries : Memory ℕ ℕ
two_entries = record {
  default_ttl = pos 10;
  m =
      (1, record { value = 100; expires_at = some 5 })
      ∷ (2, record { value = 200; expires_at = none })
      ∷ [];
}

two_entries-HasUniqueKeys : HasUniqueKeys two_entries.m
unfolding lookup
two_entries-HasUniqueKeys = (refl, (refl, tt))

live_at_its_expiry : (get 5 1 two_entries).0 ≡ some 100
unfolding get is_expired lookup
live_at_its_expiry = refl

gone_behind_it : (get 6 1 two_entries).0 ≡ none
unfolding get is_expired lookup
gone_behind_it = refl

reads_expired : get_read 6 1 two_entries ≡ expired
unfolding get_read is_expired lookup
reads_expired = refl

get_finish-drops_set_example :
    (view 9 (set 7 7 1 300 two_entries) 1
      ≡ (if is_pos (pos 10) then written 7 9 300 (pos 10) else some 300))
    × (view 9 (get_finish 1 (get_read 6 1 two_entries) (set 7 7 1 300 two_entries)).1 1 ≡ none)
get_finish-drops_set_example =
    get_finish-drops_set 6 7 7 9 1 300 two_entries two_entries-HasUniqueKeys reads_expired
      (omega arith)
