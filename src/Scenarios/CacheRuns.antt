-- ===== src/Scenarios/CacheRuns.antt =====
-- The tables of internal/store/store.go behind leases and discovery, at concrete rows.
use tubo.Base.{
  ℕ, ◌+◌, ◌≡◌, refl, ◌≢◌, ◌⊎◌, inl, inr, true, false, none, some, [], ◌∷◌, arith, Bytes, lit, same,
  bytes_le, contains_string, trim_left, trim_space, is_blank, replicate, any, if◌then◌else◌, ok,
  same_key, find_row, upsert_row, delete_rows, IsKeyed,
}
use tubo.Store.Stamp.{digits, drop_zeros, fraction, text_le}
use tubo.Domain.Ref.{name_matches, cut_slash}
use tubo.Store.Records.{
  valid_scope_text, validate_stored_record, put_record_tx, put_discovered_record_tx,
  snapshot_source_pinned_authority, AuthoritativeSnapshot,
}
use tubo.Store.Discovery.{
  delete_outside, put_members, check_order, validate_members, check_members, check_snapshot,
  outside_snapshot, outdated_discovered, reconcile_snapshot, record_snapshot_failure,
}
use tubo.Store.Discovery.Counters.Monotone.{CacheHistory-NoneFalls}
use tubo.Store.Discovery.Counters.{reconciles, unchanged, then_calls, NoneFalls}
use tubo.Store.Leases.Fence.{now_here, acquires_other, lost_lease}
use tubo.Store.Discovery.Replaced.{reconcile-members, reconcile-outside}
use tubo.Store.Leases.{token_taken, release_lease, valid_lease_input, acquire_lease, renew_lease}
use tubo.Store.Leases.Lock.{Holder, LeaseCall, acquires, LeaseCall-LockStep, LockStep}
use tubo.Scenarios.Toy.{toy}
use tubo.Store.Cache.{record_key, Cache, LeaseRow, Record, find_record}
use tubo.Store.Discovery.Members.{Shows}
use tubo.Credential.{Library}

abbrev no_cache : Cache
no_cache = record { available = true; leases = []; records = []; snapshots = []; freshness = [] }

abbrev team : Bytes
team = lit "team/main"

abbrev holder : Bytes
holder = lit "run/a"

abbrev plain_library : Library
plain_library = toy none none none

-- Seconds 5 and 8, and a minute.
abbrev at_five : ℕ
at_five = 5_000_000_000

abbrev at_eight : ℕ
at_eight = 8_000_000_000

abbrev minute : ℕ
minute = 60_000_000_000

abbrev first_row : LeaseRow
first_row = record {
  scope = team;
  holder_ref = holder;
  process_identity = lit "p1";
  token = plain_library.base64_encode (1 ∷ 2 ∷ []);
  acquired_at = at_five;
  renewed_at = at_five;
  expires_at = at_five + minute;
}

abbrev held_cache : Cache
held_cache = record no_cache { leases = first_row ∷ [] }

acquire_first :
    acquire_lease plain_library team holder (lit "p1") at_five minute (some (1 ∷ 2 ∷ [])) no_cache
    ≡ ok (some first_row, held_cache)
unfolding acquire_lease valid_lease_input token_taken trim_space trim_left find_row upsert_row same
    same_key is_blank
acquire_first = refl

abbrev first_call : LeaseCall no_cache held_cache
first_call =
    acquires plain_library team holder (lit "p1") at_five minute (some (1 ∷ 2 ∷ []))
      (some first_row) acquire_first

abbrev first_holder : Holder
first_holder = record {
  scope = team;
  token = plain_library.base64_encode (1 ∷ 2 ∷ []);
  holder_ref = holder;
  process_identity = lit "p1";
}

LeaseCall-LockStep_example : LockStep first_holder none (some (first_holder, at_five + minute))
unfolding find_row same_key same
LeaseCall-LockStep_example = LeaseCall-LockStep team first_call tt

-- A lease whose row was released before the first one was acquired.
abbrev gone_lease : LeaseRow
gone_lease = record first_row { token = lit "gone" }

gone_token : plain_library.base64_encode (1 ∷ 2 ∷ []) ≢ gone_lease.token
gone_token e = ground arith

abbrev member : Record
member = record {
  scope = team;
  pipe_id = lit "pip_b";
  name = lit "b";
  payload = 7 ∷ [];
  expires_at = at_eight;
  sequence = 2;
  discovered = true;
}

-- A row that the snapshot no longer has, and one of this machine.
abbrev old_row : Record
old_row = record member { pipe_id = lit "pip_old" }

abbrev own_row : Record
own_row = record member { pipe_id = lit "pip_own"; discovered = false }

abbrev found_before : Cache
found_before = record no_cache { records = old_row ∷ own_row ∷ [] }

abbrev served : AuthoritativeSnapshot
served = record {
  source = snapshot_source_pinned_authority;
  complete = true;
  generation = 3;
  high_water = 4;
  digest = replicate 64 b'd';
  records = member ∷ [];
}

lost_lease_example :
    (renew_lease gone_lease at_eight minute held_cache ≢ ok (true, no_cache))
    × (release_lease gone_lease held_cache ≢ ok (true, no_cache))
    × (reconcile_snapshot team served (some gone_lease) at_eight held_cache ≢ ok no_cache)
    × (record_snapshot_failure team team team none (some gone_lease) at_eight held_cache
        ≢ ok no_cache)
unfolding find_row
lost_lease_example =
    lost_lease gone_lease no_cache held_cache no_cache at_eight minute team team team served none
      (tt, refl)
      (acquires_other plain_library team holder (lit "p1") (1 ∷ 2 ∷ []) at_five minute
        (some first_row) now_here gone_token acquire_first)

abbrev found_after : Cache
found_after = record found_before {
  records = own_row ∷ member ∷ [];
  freshness =
      record {
        scope = team;
        last_attempt = some at_five;
        last_success = some at_five;
        source = snapshot_source_pinned_authority;
        complete = true;
        error_class = [];
        next_retry = none;
        generation = 3;
        high_water = 4;
        digest = replicate 64 b'd';
      }
      ∷ [];
}

reconciled : reconcile_snapshot team served none at_five found_before ≡ ok found_after
unfolding reconcile_snapshot check_snapshot check_members validate_members check_order put_members
    delete_outside put_discovered_record_tx put_record_tx validate_stored_record valid_scope_text
    cut_slash name_matches trim_space trim_left text_le fraction drop_zeros digits bytes_le
    contains_string find_row upsert_row delete_rows same_key same is_blank
reconciled = refl

reconcile-outside_example :
    (find_record team (lit "pip_own") found_after ≡ find_record team (lit "pip_own") found_before)
    × (any (outside_snapshot team served.records) found_after.records ≡ false)
    × (any (outdated_discovered team at_five) found_after.records ≡ false)
    × IsKeyed record_key found_after.records
unfolding find_row same_key same
reconcile-outside_example =
    reconcile-outside team served none at_five found_before found_after (refl, (refl, tt))
      reconciled team (lit "pip_own") (inr refl)

reconcile-members_example :
    (w : Record) × Shows member (some w)
    × ((find_record team (lit "pip_b") found_before ≡ some w)
        ⊎ (w ≡ record member { discovered = true }))
    × (find_record team (lit "pip_b") found_after
        ≡ (if text_le w.expires_at at_five then none else some w))
unfolding find_row same_key same
reconcile-members_example =
    reconcile-members team served none at_five found_before found_after (refl, (refl, tt))
      reconciled member (inl refl) refl

CacheHistory-NoneFalls_example : NoneFalls team found_before found_after
CacheHistory-NoneFalls_example =
    CacheHistory-NoneFalls team
      (then_calls unchanged (reconciles team served none at_five reconciled))
